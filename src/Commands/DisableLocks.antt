-- ===== src/Commands/DisableLocks.antt =====
-- internal/commands/sync.go: disableAutoSyncForLocks, which sync and rollback run first. The maps
-- `visited` and `appSetDisabled` are the lists of their keys.
use lemuria.Prelude.{
  Text, codes, ◌++◌, ◌==◌, ◌||◌, if◌then◌else◌, Bool, true, false, not, elem, Option, none, some,
  List, [], ◌∷◌,
}
use lemuria.Effect.{failure, Result, ok, err, wrapped, or_bad_json}
use lemuria.Model.Application.{ApplicationChangeType, new, deleted}
use lemuria.Model.Event.{PrEvent}
use lemuria.Model.Lock.{Lock}
use lemuria.Redis.{Redis}
use lemuria.Locking.Manager.{LockCodec, get_lock, update_lock}
use lemuria.Locking.AutoSync.{store_app_set_auto_sync}
use lemuria.Services.World.{pure, lift, attempt, context, ◌>>=◌, ◌>>◌, logged, on_redis, on_argo}
use lemuria.Services.Argo.{ParentMap}
use lemuria.Services.Executor.{Services, Doing}
use lemuria.Commands.AutoSync.Disable.{AutoSyncState, disable_auto_sync, disable_app_set_auto_sync}
use lemuria.Commands.AutoSync.Parents.{max_parent_depth, disable_parent_auto_sync}

-- Neither new nor deleted.
abbrev pub is_live : ApplicationChangeType → Bool
is_live new = false
is_live deleted = false
is_live _ = true

abbrev pub any_live : List Lock → Bool
any_live [] = false
any_live (l ∷ locks) = is_live l.change_type || any_live locks

abbrev pub disabled_lock : Text → Text → Lock → Lock
disabled_lock policy set_name l = record l {
  auto_sync_disabled = true;
  original_sync_policy = policy;
  application_set_name = set_name;
}

abbrev pub ok_or_none {ℓ} : {A : Type ℓ} → Result A → Option A
ok_or_none (ok a) = some a
ok_or_none (err e) = none

module _ (R : Redis) (J : LockCodec) (E : Services) where
  unfoldable pub store_disabled : Text → Text → Text → Result (Option Lock) → Doing R E (Unit {0})
  store_disabled app policy set_name (err e) =
      lift (err (wrapped (codes "getting lock for " ++ app) e))
  store_disabled app policy set_name (ok none) = lift (
      err (failure (codes "no lock found for " ++ (app ++ codes " while storing auto-sync state"))))
  store_disabled app policy set_name (ok (some l)) =
      context (codes "storing auto-sync state in lock for " ++ app)
        (on_redis (update_lock R J (disabled_lock policy set_name l)))

  unfoldable pub keep_template : PrEvent → Text → Result (Option Text) → Doing R E (Unit {0})
  keep_template event set_name (err e) = pure tt
  keep_template event set_name (ok none) = pure tt
  keep_template event set_name (ok (some original)) =
      logged (
        on_redis (store_app_set_auto_sync R set_name event.repo.full_name event.pr.number original))

  -- The ApplicationSets disabled after it.
  unfoldable pub disable_set : PrEvent → Text → List Text → Doing R E (List Text)
  disable_set event set_name sets = if set_name == [] || elem set_name sets then pure sets else do
    original ← attempt (on_argo (disable_app_set_auto_sync E.extern E.argo set_name))
    keep_template event set_name original
    pure (set_name ∷ sets)

  unfoldable pub disable_state :
      PrEvent → Text → List Text → Option (AutoSyncState E.extern) → Doing R E (List Text)
  disable_state event app sets none = pure sets
  disable_state event app sets (some state) = do
    policy ← lift (
        or_bad_json (codes "marshaling sync policy for " ++ app)
          (E.argo.marshal_policy state.original_policy))
    l ← attempt (on_redis (get_lock R J app))
    store_disabled app policy state.application_set_name l
    disable_set event state.application_set_name sets

  unfoldable pub disable_one :
      PrEvent → Option ParentMap → Text → List Text → List Text → Doing R E (List Text × List Text)
  disable_one event parent_map app visited sets = do
    state ←
        context (codes "disabling auto-sync for " ++ app)
          (on_argo (disable_auto_sync E.extern E.argo app))
    sets' ← disable_state event app sets state
    visited' ← disable_parent_auto_sync R J E max_parent_depth event parent_map app (app ∷ visited)
    pure (visited', sets')

  unfoldable pub disable_each :
      PrEvent → Option ParentMap → List Text → List Text → List Lock → Doing R E (Unit {0})
  disable_each event parent_map visited sets [] = pure tt
  disable_each event parent_map visited sets (l ∷ locks) =
      if not (is_live l.change_type) then disable_each event parent_map visited sets locks else do
        vs ← disable_one event parent_map l.application visited sets
        disable_each event parent_map vs.0 vs.1 locks

  unfoldable pub disable_auto_sync_for_locks : PrEvent → List Lock → Doing R E (Unit {0})
  disable_auto_sync_for_locks event locks = if not (any_live locks) then pure tt else do
    parent_map ← attempt (on_argo E.argo.build_parent_map)
    disable_each event (ok_or_none parent_map) [] [] locks
