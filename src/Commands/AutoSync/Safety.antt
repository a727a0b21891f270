-- ===== src/Commands/AutoSync/Safety.antt =====
-- internal/commands/autosync.go: what the restoration of auto-sync, and the locking of parents, may do
-- to the locks of other pull requests.
use lemuria.Prelude.{
  Text, Bool, true, false, not, elem, ℕ, zero, suc, Option, none, some, List, [], ◌∷◌, ◌≡◌, refl,
  ◌==◌, ◌||◌,
}
use lemuria.Effect.{Result, ok, err}
use lemuria.Model.Application.{Application, existing}
use lemuria.Model.Event.{PrEvent}
use lemuria.Model.Lock.{Lock, LockResult}
use lemuria.Locking.Respects.{Site, Setting}
use lemuria.Locking.Steps.{unlock-Respects, update_own-Respects}
use lemuria.Locking.PolicySteps.{
  get_app_set_auto_sync-Respects, delete_app_set_auto_sync-Respects,
  store_parent_auto_sync-Respects, delete_parent_auto_sync-Respects,
}
use lemuria.Locking.Manager.{update_lock}
use lemuria.Services.Argo.{ParentMap}
use lemuria.Services.Executor.{Services, Doing, lock_request}
use lemuria.Services.Safe.{
  setting, Safe, Safe-pure, Safe-argo, Safe-vcs, Safe-redis, Safe-attempt, Safe-logged, Safe-when,
  Safe-if, Safe-bind,
}
use lemuria.Services.Replies.{
  Holding, Safe-get, Safe-lock, Holding-redis, Holding-logged, Holding-bind,
}
use lemuria.Commands.AutoSync.Disable.{AutoSyncState}
use lemuria.Commands.AutoSync.Restore.{
  restore_locked, restore_found, restore_sets, clean_parents, restore_all_auto_sync,
}
use lemuria.Commands.AutoSync.Parents.{
  parent_lock, update_parent_lock, keep_parent_policy, parent_disabled, parent_locked,
  disable_parent, disable_parents, disable_found_parents, disable_parent_auto_sync,
}

module _ (c : Setting) (E : Services) where
  restore_locked-Safe :
      (apps : List Text) (chosen : Lock → Bool) (locks : List Lock)
      → Safe c apps (restore_locked c.site.redis E chosen locks)
  unfolding restore_locked
  restore_locked-Safe apps chosen [] = Safe-pure _
  restore_locked-Safe apps chosen (l ∷ locks) =
      Safe-bind (Safe-when _ (Safe-logged (Safe-argo _)))
        (λ _. restore_locked-Safe apps chosen locks)

  restore_found-Safe :
      (apps : List Text) (name : Text) (r : Result (Option Text))
      → Safe c apps (restore_found c.site.redis E name c.repo c.number r)
  unfolding restore_found
  restore_found-Safe apps name (err e) = Safe-pure _
  restore_found-Safe apps name (ok none) = Safe-pure _
  restore_found-Safe apps name (ok (some policy)) =
      Safe-bind (Safe-logged (Safe-argo _))
        (λ _. Safe-logged (Safe-redis _ (λ d k o. delete_app_set_auto_sync-Respects c name d k)))

  restore_sets-Safe :
      (apps restored : List Text) (locks : List Lock)
      → Safe c apps (restore_sets c.site.redis E c.repo c.number restored locks)
  unfolding restore_sets
  restore_sets-Safe apps restored [] = Safe-pure _
  restore_sets-Safe apps restored (l ∷ locks) =
      let name = l.application_set_name in
      Safe-if (name == [] || elem name restored) (restore_sets-Safe apps restored locks) (
        Safe-bind (Safe-attempt (Safe-redis _ (λ d k o. get_app_set_auto_sync-Respects c name d k)))
          (λ r.
            Safe-bind (restore_found-Safe apps name r)
              (λ _. restore_sets-Safe apps (name ∷ restored) locks)))

  clean_parents-Safe :
      (apps : List Text) (locks : List Lock)
      → Safe c apps (clean_parents c.site.redis E c.repo c.number locks)
  unfolding clean_parents
  clean_parents-Safe apps [] = Safe-pure _
  clean_parents-Safe apps (l ∷ locks) =
      Safe-bind
        (Safe-when _ (
          Safe-logged
            (Safe-redis _ (λ d k o. delete_parent_auto_sync-Respects c l.application d k))))
        (λ _. clean_parents-Safe apps locks)

  pub restore_all_auto_sync-Safe :
      (apps : List Text) (locks : List Lock)
      → Safe c apps (restore_all_auto_sync c.site.redis E locks c.repo c.number)
  unfolding restore_all_auto_sync
  restore_all_auto_sync-Safe apps locks = Safe-bind (restore_locked-Safe apps _ locks) (λ _.
      Safe-bind (restore_locked-Safe apps _ locks)
        (λ _. Safe-bind (restore_sets-Safe apps [] locks) (λ _. clean_parents-Safe apps locks)))

module _ (site : Site) (E : Services) (event : PrEvent) where
  open site use {redis, codec}

  abbrev c : Setting
  c = setting site event

  update_parent_lock-Holding :
      (apps : List Text) (parent policy : Text) (l : Lock)
      → Holding c (parent ∷ apps) parent l (update_parent_lock redis codec E policy (ok (some l)))
  unfolding update_parent_lock update_lock
  update_parent_lock-Holding apps parent policy l = Holding-logged (
      Holding-redis parent l _ (λ d k o e.
        update_own-Respects c parent l (parent_lock policy l) d k o.0 e (refl, refl, refl)))

  keep_parent_policy-Safe :
      (apps : List Text) (parent : Text) (policy : Option Text)
      → Safe c (parent ∷ apps) (keep_parent_policy redis codec E event parent policy)
  unfolding keep_parent_policy
  keep_parent_policy-Safe apps parent none = Safe-pure _
  keep_parent_policy-Safe apps parent (some policy) =
      let after =
        Safe-bind
          (Safe-logged
            (Safe-redis _ (λ d k o. store_parent_auto_sync-Respects c parent policy d k)))
          (λ _. Safe-pure true) in
      Safe-get parent _ (λ e. Safe-bind (unfold update_parent_lock in Safe-pure tt) (λ _. after))
        (Safe-bind (unfold update_parent_lock in Safe-pure tt) (λ _. after))
        (λ l. Holding-bind (update_parent_lock-Holding apps parent policy l) (λ _. after))

  parent_disabled-Safe :
      (apps : List Text) (parent : Text) (r : Result (Option (AutoSyncState E.extern)))
      → Safe c (parent ∷ apps) (parent_disabled redis codec E event parent r)
  unfolding parent_disabled
  parent_disabled-Safe apps parent (err e) =
      Safe-bind (Safe-logged (Safe-redis _ (λ d k o. unlock-Respects c parent d k)))
        (λ _. Safe-pure false)
  parent_disabled-Safe apps parent (ok none) = Safe-pure true
  parent_disabled-Safe apps parent (ok (some state)) = keep_parent_policy-Safe apps parent _

  parent_locked-Safe :
      (apps : List Text) (parent : Text) (res : LockResult)
      → res.acquired ≡ true
      → Safe c (parent ∷ apps) (parent_locked redis codec E event parent (ok res))
  unfolding parent_locked
  parent_locked-Safe apps parent res acquired =
      Safe-if (not res.acquired) (Safe-pure false)
        (Safe-bind (Safe-attempt (Safe-argo _)) (λ r. parent_disabled-Safe apps parent r))

  parent_refused-Safe :
      (apps : List Text) (parent : Text) (res : LockResult)
      → res.acquired ≡ false
      → Safe c apps (parent_locked redis codec E event parent (ok res))
  unfolding parent_locked
  parent_refused-Safe apps parent res refused = rw refused (Safe-pure false)

  disable_parent-Safe :
      (apps : List Text) (parent : Text) → Safe c apps (disable_parent redis codec E event parent)
  unfolding disable_parent
  disable_parent-Safe apps parent = Safe-bind (Safe-vcs _) (λ now.
      Safe-lock (lock_request event parent existing) now _ (refl, refl)
        (λ e. unfold parent_locked in Safe-pure false)
        (λ res h. parent_locked-Safe apps parent res h)
        (λ res h. parent_refused-Safe apps parent res h))

  disable_parents-Safe :
      (apps : List Text) (above : Text → List Text → Doing redis E (List Text))
      → ((a : Text) (v : List Text) → Safe c apps (above a v))
      → (parents : List Application) (visited : List Text)
      → Safe c apps (disable_parents redis codec E above event parents visited)
  unfolding disable_parents
  disable_parents-Safe apps above h [] visited = Safe-pure visited
  disable_parents-Safe apps above h (p ∷ parents) visited =
      Safe-if (elem p.name visited) (disable_parents-Safe apps above h parents visited) (
        Safe-bind (disable_parent-Safe apps p.name) (λ reached.
          Safe-bind (Safe-if reached (h p.name visited) (Safe-pure visited))
            (λ visited'. disable_parents-Safe apps above h parents visited')))

  disable_found_parents-Safe :
      (apps : List Text) (above : Text → List Text → Doing redis E (List Text))
      → ((a : Text) (v : List Text) → Safe c apps (above a v))
      → (visited : List Text) (r : Result (List Application))
      → Safe c apps (disable_found_parents redis codec E above event visited r)
  unfolding disable_found_parents
  disable_found_parents-Safe apps above h visited (err e) = Safe-pure visited
  disable_found_parents-Safe apps above h visited (ok parents) =
      disable_parents-Safe apps above h parents visited

  pub disable_parent_auto_sync-Safe :
      (apps : List Text) (depth : ℕ) (parent_map : Option ParentMap) (app : Text)
      (visited : List Text)
      → Safe c apps (disable_parent_auto_sync redis codec E depth event parent_map app visited)
  unfolding disable_parent_auto_sync
  disable_parent_auto_sync-Safe apps zero parent_map app visited = Safe-pure visited
  disable_parent_auto_sync-Safe apps (suc depth) parent_map app visited =
      Safe-bind (Safe-attempt (Safe-argo _)) (λ r.
        disable_found_parents-Safe apps _
          (λ a v. disable_parent_auto_sync-Safe apps depth parent_map a v) (app ∷ visited) r)
