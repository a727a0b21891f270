-- ===== src/Commands/ReleaseSafety.antt =====
-- internal/commands/executor.go, sync.go: what UnlockAll and the disabling of auto-sync may do to the
-- locks of other pull requests.
use lemuria.Prelude.{Text, not, elem, Option, none, some, List, [], ◌∷◌, refl, ◌==◌, ◌||◌, map}
use lemuria.Effect.{Result, ok, err}
use lemuria.Model.Event.{PrEvent}
use lemuria.Model.Lock.{Lock}
use lemuria.Locking.Respects.{Site, Setting}
use lemuria.Locking.Steps.{unlock-Respects, update_own-Respects}
use lemuria.Locking.PolicySteps.{store_app_set_auto_sync-Respects, list_by_pr-Respects}
use lemuria.Locking.Manager.{update_lock}
use lemuria.Services.Argo.{RawApplication, ParentMap}
use lemuria.Services.Executor.{Services}
use lemuria.Services.Safe.{
  setting, Safe, Safe-pure, Safe-lift, Safe-argo, Safe-redis, Safe-attempt, Safe-context,
  Safe-logged, Safe-when, Safe-if, Safe-bind, Safe-more,
}
use lemuria.Services.Replies.{Holding, Safe-get, Holding-redis, Holding-context, Holding-bind}
use lemuria.Commands.AutoSync.Disable.{AutoSyncState}
use lemuria.Commands.AutoSync.Parents.{max_parent_depth}
use lemuria.Commands.AutoSync.Safety.{restore_all_auto_sync-Safe, disable_parent_auto_sync-Safe}
use lemuria.Commands.TargetRevision.{revert_found, revert_target_revision}
use lemuria.Commands.UnlockAll.{revert_locks, release_locks, unlock_all}
use lemuria.Commands.DisableLocks.{
  is_live, any_live, disabled_lock, ok_or_none, store_disabled, keep_template, disable_set,
  disable_state, disable_one, disable_each, disable_auto_sync_for_locks,
}

abbrev pub applications : List Lock → List Text
applications locks = map (λ (l : Lock). l.application) locks

module _ (site : Site) (E : Services) (event : PrEvent) where
  open site use {redis, codec}

  abbrev c : Setting
  c = setting site event

  revert_found-Safe :
      (apps : List Text) (a : Text) (r : Result (RawApplication E.extern))
      → Safe c apps (revert_found redis E a event r)
  unfolding revert_found
  revert_found-Safe apps a (err e) = Safe-pure tt
  revert_found-Safe apps a (ok raw) = Safe-logged (Safe-argo _)

  pub revert_target_revision-Safe :
      (apps : List Text) (a : Text) → Safe c apps (revert_target_revision redis E a event)
  unfolding revert_target_revision
  revert_target_revision-Safe apps a =
      Safe-bind (Safe-attempt (Safe-argo _)) (λ r. revert_found-Safe apps a r)

  revert_locks-Safe :
      (apps : List Text) (locks : List Lock) → Safe c apps (revert_locks redis codec E event locks)
  unfolding revert_locks
  revert_locks-Safe apps [] = Safe-pure tt
  revert_locks-Safe apps (l ∷ locks) =
      Safe-bind (Safe-when _ (revert_target_revision-Safe apps l.application))
        (λ _. revert_locks-Safe apps locks)

  pub release_locks-Safe :
      (apps : List Text) (locks : List Lock) → Safe c apps (release_locks redis codec E event locks)
  unfolding release_locks
  release_locks-Safe apps [] = Safe-pure tt
  release_locks-Safe apps (l ∷ locks) =
      Safe-bind (Safe-logged (Safe-redis _ (λ d k o. unlock-Respects c l.application d k)))
        (λ _. release_locks-Safe apps locks)

  pub unlock_all-Safe : Safe c [] (unlock_all redis codec E event)
  unfolding unlock_all
  unlock_all-Safe =
      Safe-bind (Safe-context _ (Safe-redis _ (λ d k o. list_by_pr-Respects c d k))) (λ locks.
        Safe-bind (restore_all_auto_sync-Safe c E [] locks)
          (λ _. Safe-bind (revert_locks-Safe [] locks) (λ _. release_locks-Safe [] locks)))

  store_disabled-Holding :
      (apps : List Text) (app policy set_name : Text) (l : Lock)
      → Holding c
          (app ∷ apps)
          app
          l
          (store_disabled redis codec E app policy set_name (ok (some l)))
  unfolding store_disabled update_lock
  store_disabled-Holding apps app policy set_name l = Holding-context _ (
      Holding-redis app l _ (λ d k o e.
        update_own-Respects c app l (disabled_lock policy set_name l) d k o.0 e (refl, refl, refl)))

  keep_template-Safe :
      (apps : List Text) (set_name : Text) (r : Result (Option Text))
      → Safe c apps (keep_template redis codec E event set_name r)
  unfolding keep_template
  keep_template-Safe apps set_name (err e) = Safe-pure tt
  keep_template-Safe apps set_name (ok none) = Safe-pure tt
  keep_template-Safe apps set_name (ok (some original)) =
      Safe-logged (Safe-redis _ (λ d k o. store_app_set_auto_sync-Respects c set_name original d k))

  disable_set-Safe :
      (apps : List Text) (set_name : Text) (sets : List Text)
      → Safe c apps (disable_set redis codec E event set_name sets)
  unfolding disable_set
  disable_set-Safe apps set_name sets =
      Safe-if (set_name == [] || elem set_name sets) (Safe-pure sets) (
        Safe-bind (Safe-attempt (Safe-argo _))
          (λ r. Safe-bind (keep_template-Safe apps set_name r) (λ _. Safe-pure (set_name ∷ sets))))

  disable_state-Safe :
      (apps : List Text) (app : Text) (sets : List Text) (state : Option (AutoSyncState E.extern))
      → Safe c (app ∷ apps) (disable_state redis codec E event app sets state)
  unfolding disable_state
  disable_state-Safe apps app sets none = Safe-pure sets
  disable_state-Safe apps app sets (some state) =
      let name = state.application_set_name in
      let after = disable_set-Safe (app ∷ apps) name sets in
      Safe-bind (Safe-lift _) (λ policy.
        Safe-get app _ (λ e. Safe-bind (unfold store_disabled in Safe-lift _) (λ _. after))
          (Safe-bind (unfold store_disabled in Safe-lift _) (λ _. after))
          (λ l. Holding-bind (store_disabled-Holding apps app policy name l) (λ _. after)))

  disable_one-Safe :
      (apps : List Text) (parent_map : Option ParentMap) (app : Text) (visited sets : List Text)
      → Safe c (app ∷ apps) (disable_one redis codec E event parent_map app visited sets)
  unfolding disable_one
  disable_one-Safe apps parent_map app visited sets =
      Safe-bind (Safe-context _ (Safe-argo _)) (λ state.
        Safe-bind (disable_state-Safe apps app sets state) (λ sets'.
          Safe-bind
            (disable_parent_auto_sync-Safe site E event (app ∷ apps) max_parent_depth parent_map app
              (app ∷ visited))
            (λ visited'. Safe-pure (visited', sets'))))

  disable_each-Safe :
      (parent_map : Option ParentMap) (visited sets : List Text) (locks : List Lock)
      → Safe c (applications locks) (disable_each redis codec E event parent_map visited sets locks)
  unfolding disable_each
  disable_each-Safe parent_map visited sets [] = Safe-pure tt
  disable_each-Safe parent_map visited sets (l ∷ locks) =
      Safe-if (not (is_live l.change_type))
        (Safe-more l.application (disable_each-Safe parent_map visited sets locks))
        (Safe-bind (disable_one-Safe (applications locks) parent_map l.application visited sets)
          (λ vs. Safe-more l.application (disable_each-Safe parent_map vs.0 vs.1 locks)))

  pub disable_auto_sync_for_locks-Safe :
      (locks : List Lock)
      → Safe c (applications locks) (disable_auto_sync_for_locks redis codec E event locks)
  unfolding disable_auto_sync_for_locks
  disable_auto_sync_for_locks-Safe locks = Safe-if (not (any_live locks)) (Safe-pure tt) (
      Safe-bind (Safe-attempt (Safe-argo _))
        (λ parent_map. disable_each-Safe (ok_or_none parent_map) [] [] locks))
