-- ===== src/Commands/AutoSync/Parents.antt =====
-- internal/commands/autosync.go: disableParentAutoSync, which locks the parents of an application
-- and disables their auto-sync, and goes on with theirs. The caller's depth is counted down from
-- maxParentDepth; the map `visited`, that the calls share, is the list of its keys.
use lemuria.Prelude.{
  Text, if◌then◌else◌, Bool, true, false, not, elem, ℕ, zero, suc, Option, none, some, List, [],
  ◌∷◌,
}
use lemuria.Effect.{Result, ok, err}
use lemuria.Model.Application.{Application, existing}
use lemuria.Model.Event.{PrEvent}
use lemuria.Model.Lock.{Lock, LockResult}
use lemuria.Redis.{Redis}
use lemuria.Locking.Manager.{LockCodec, get_lock, lock, unlock, update_lock}
use lemuria.Locking.AutoSync.{store_parent_auto_sync}
use lemuria.Services.World.{pure, attempt, ◌>>=◌, ◌>>◌, logged, on_argo, on_redis, on_vcs}
use lemuria.Services.Argo.{ParentMap}
use lemuria.Services.Executor.{Services, Doing, lock_request}
use lemuria.Commands.AutoSync.Disable.{AutoSyncState, disable_auto_sync}

abbrev pub max_parent_depth : ℕ
max_parent_depth = 10

abbrev pub parent_lock : Text → Lock → Lock
parent_lock policy l = record l {
  auto_sync_disabled = true;
  original_sync_policy = policy;
  is_parent_app = true;
}

module _ (R : Redis) (J : LockCodec) (E : Services) where
  unfoldable pub update_parent_lock : Text → Result (Option Lock) → Doing R E (Unit {0})
  update_parent_lock policy (ok (some l)) =
      logged (on_redis (update_lock R J (parent_lock policy l)))
  update_parent_lock policy (ok none) = pure tt
  update_parent_lock policy (err e) = pure tt

  unfoldable pub keep_parent_policy : PrEvent → Text → Option Text → Doing R E Bool
  keep_parent_policy event parent none = pure false
  keep_parent_policy event parent (some policy) = do
    l ← attempt (on_redis (get_lock R J parent))
    update_parent_lock policy l
    logged (on_redis (store_parent_auto_sync R parent event.repo.full_name event.pr.number policy))
    pure true

  unfoldable pub parent_disabled :
      PrEvent → Text → Result (Option (AutoSyncState E.extern)) → Doing R E Bool
  parent_disabled event parent (err e) = do
    logged (on_redis (unlock R J parent event.repo.full_name event.pr.number))
    pure false
  parent_disabled event parent (ok none) = pure true
  parent_disabled event parent (ok (some state)) =
      keep_parent_policy event parent (E.argo.marshal_policy state.original_policy)

  unfoldable pub parent_locked : PrEvent → Text → Result LockResult → Doing R E Bool
  parent_locked event parent (err e) = pure false
  parent_locked event parent (ok res) = if not res.acquired then pure false else do
    state ← attempt (on_argo (disable_auto_sync E.extern E.argo parent))
    parent_disabled event parent state

  -- The body of the loop up to the recursive call; the result says whether it is reached.
  unfoldable pub disable_parent : PrEvent → Text → Doing R E Bool
  disable_parent event parent = do
    now ← on_vcs E.vcs.now
    res ← attempt (on_redis (lock R J (lock_request event parent existing) now))
    parent_locked event parent res

  -- The loop over the parents; `above` is the recursive call.
  unfoldable pub disable_parents :
      (Text → List Text → Doing R E (List Text))
      → PrEvent
      → List Application
      → List Text
      → Doing R E (List Text)
  disable_parents above event [] visited = pure visited
  disable_parents above event (p ∷ parents) visited =
      if elem p.name visited then disable_parents above event parents visited else do
        reached ← disable_parent event p.name
        visited' ← if reached then above p.name visited else pure visited
        disable_parents above event parents visited'

  unfoldable pub disable_found_parents :
      (Text → List Text → Doing R E (List Text))
      → PrEvent
      → List Text
      → Result (List Application)
      → Doing R E (List Text)
  disable_found_parents above event visited (err e) = pure visited
  disable_found_parents above event visited (ok parents) =
      disable_parents above event parents visited

  -- The applications visited after it.
  unfoldable pub disable_parent_auto_sync :
      ℕ → PrEvent → Option ParentMap → Text → List Text → Doing R E (List Text)
  disable_parent_auto_sync zero event parent_map app visited = pure visited
  disable_parent_auto_sync (suc depth) event parent_map app visited = do
    parents ← attempt (on_argo (E.argo.find_parent_apps app parent_map))
    disable_found_parents (disable_parent_auto_sync depth event parent_map) event (app ∷ visited)
        parents
