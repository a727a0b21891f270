-- ===== src/Commands/AutoSync/Restore.antt =====
-- internal/commands/autosync.go: restoreAutoSync, restoreAppSetAutoSync and restoreAllAutoSync.
use lemuria.Prelude.{
  Text, codes, ◌++◌, ◌==◌, if◌then◌else◌, Bool, not, ◌&&◌, ◌||◌, elem, ℕ, Option, none, some, List,
  [], ◌∷◌,
}
use lemuria.Effect.{Result, ok, err, wrapped, Action, or_bad_json}
use lemuria.Model.Lock.{Lock}
use lemuria.Redis.{Redis}
use lemuria.Locking.AutoSync.{
  get_app_set_auto_sync, delete_app_set_auto_sync, delete_parent_auto_sync,
}
use lemuria.Services.World.{
  pure, lift, attempt, context, ◌>>=◌, ◌>>◌, logged, when, on_argo, on_redis,
}
use lemuria.Services.Argo.{Extern, Argo, RawSpec, RawApplication, RawApplicationSet}
use lemuria.Services.Executor.{Services, Doing}

module _ (X : Extern) where
  -- A missing `SyncPolicy` is made first.
  abbrev pub with_automated : X.Policy → RawSpec X → RawSpec X
  with_automated policy spec = elim spec.sync_policy [
    | none ↦ record spec {
      sync_policy = some (record { automated = some policy; rest = X.no_rest });
    }
    | some p ↦ record spec { sync_policy = some (record p { automated = some policy }) }
  ]

module _ (X : Extern) (argo : Argo X) where
  unfoldable pub restore_raw :
      Text → X.Policy → Result (RawApplication X) → Action argo.State (Unit {0})
  restore_raw app policy (err e) =
      if argo.is_not_found e
      then pure tt
      else lift (
          err (wrapped (codes "getting application " ++ (app ++ codes " for auto-sync restore")) e))
  restore_raw app policy (ok raw) =
      context (codes "restoring auto-sync for " ++ app)
        (argo.update_application_spec app (with_automated X policy raw.spec))

  unfoldable pub restore_auto_sync : Lock → Action argo.State (Unit {0})
  restore_auto_sync l =
      if not l.auto_sync_disabled || l.original_sync_policy == [] then pure tt else do
        policy ← lift (
            or_bad_json (codes "unmarshaling sync policy for " ++ l.application)
              (argo.unmarshal_policy l.original_sync_policy))
        raw ← attempt (argo.get_application_raw l.application)
        restore_raw l.application policy raw

  unfoldable pub restore_template :
      Text → X.Policy → Result (RawApplicationSet X) → Action argo.State (Unit {0})
  restore_template name policy (err e) =
      if argo.is_not_found e
      then pure tt
      else lift (
          err (
            wrapped (codes "getting applicationset " ++ (name ++ codes " for auto-sync restore"))
              e))
  restore_template name policy (ok raw) =
      context (codes "restoring auto-sync on applicationset " ++ name) (
        argo.update_application_set name
          (record raw { template_spec = with_automated X policy raw.template_spec }))

  unfoldable pub restore_app_set_auto_sync : Text → Text → Action argo.State (Unit {0})
  restore_app_set_auto_sync name policy_json = if policy_json == [] then pure tt else do
    policy ← lift (
        or_bad_json (codes "unmarshaling applicationset sync policy for " ++ name)
          (argo.unmarshal_policy policy_json))
    raw ← attempt (argo.get_application_set_raw name)
    restore_template name policy raw

module _ (R : Redis) (E : Services) where
  -- The loops over the children (`parents` is false), then over the parents.
  unfoldable pub restore_locked : (Lock → Bool) → List Lock → Doing R E (Unit {0})
  restore_locked chosen [] = pure tt
  restore_locked chosen (l ∷ locks) = do
    when (chosen l) (logged (on_argo (restore_auto_sync E.extern E.argo l)))
    restore_locked chosen locks

  unfoldable pub restore_found : Text → Text → ℕ → Result (Option Text) → Doing R E (Unit {0})
  restore_found name repo number (err e) = pure tt
  restore_found name repo number (ok none) = pure tt
  restore_found name repo number (ok (some policy_json)) = do
    logged (on_argo (restore_app_set_auto_sync E.extern E.argo name policy_json))
    logged (on_redis (delete_app_set_auto_sync R name repo number))

  -- The loop over the ApplicationSets; `restored` are the names that it has done.
  unfoldable pub restore_sets : Text → ℕ → List Text → List Lock → Doing R E (Unit {0})
  restore_sets repo number restored [] = pure tt
  restore_sets repo number restored (l ∷ locks) =
      if l.application_set_name == [] || elem l.application_set_name restored
      then restore_sets repo number restored locks
      else do
        policy ← attempt (on_redis (get_app_set_auto_sync R l.application_set_name repo number))
        restore_found l.application_set_name repo number policy
        restore_sets repo number (l.application_set_name ∷ restored) locks

  unfoldable pub clean_parents : Text → ℕ → List Lock → Doing R E (Unit {0})
  clean_parents repo number [] = pure tt
  clean_parents repo number (l ∷ locks) = do
    when l.is_parent_app (logged (on_redis (delete_parent_auto_sync R l.application repo number)))
    clean_parents repo number locks

  unfoldable pub restore_all_auto_sync : List Lock → Text → ℕ → Doing R E (Unit {0})
  restore_all_auto_sync locks repo number = do
    restore_locked (λ l. l.auto_sync_disabled && not l.is_parent_app) locks
    restore_locked (λ l. l.auto_sync_disabled && l.is_parent_app) locks
    restore_sets repo number [] locks
    clean_parents repo number locks
