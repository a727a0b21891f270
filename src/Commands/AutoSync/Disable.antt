-- ===== src/Commands/AutoSync/Disable.antt =====
-- internal/commands/autosync.go: disableAutoSync and disableAppSetAutoSync.
use lemuria.Prelude.{Text, codes, ◌++◌, ◌==◌, if◌then◌else◌, Option, none, some, List, [], ◌∷◌}
use lemuria.Effect.{Action, or_bad_json}
use lemuria.Services.World.{pure, lift, context, ◌>>=◌, ◌>>◌}
use lemuria.Services.Argo.{Extern, Argo, RawSpec, RawApplication, RawApplicationSet, OwnerReference}

module _ (X : Extern) where
  pub record AutoSyncState : Type 0 where
    pub application : Text
    pub original_policy : X.Policy
    pub application_set_name : Text

  -- `SyncPolicy` or `SyncPolicy.Automated` may be nil.
  abbrev pub automated_policy : RawSpec X → Option X.Policy
  automated_policy spec = elim spec.sync_policy [ none ↦ none | some p ↦ p.automated ]

  -- `SyncPolicy.Automated = nil`
  abbrev pub without_automated : RawSpec X → RawSpec X
  without_automated spec = elim spec.sync_policy [
    | none ↦ spec
    | some p ↦ record spec { sync_policy = some (record p { automated = none }) }
  ]

-- The look-up in the labels.
abbrev pub find_label : Text → List (Text × Text) → Option Text
find_label key [] = none
find_label key ((k, v) ∷ rest) = if k == key then some v else find_label key rest

-- The first owner that is an ApplicationSet; the empty name where there is none.
abbrev pub owning_set : List OwnerReference → Text
owning_set [] = []
owning_set (o ∷ rest) = if o.kind == codes "ApplicationSet" then o.name else owning_set rest

unfoldable pub set_name_of : Option Text → List OwnerReference → Text
set_name_of (some name) owners = name
set_name_of none owners = owning_set owners

module _ (X : Extern) (argo : Argo X) where
  unfoldable pub disable_automated :
      Text → RawApplication X → Option X.Policy → Action argo.State (Option (AutoSyncState X))
  disable_automated app raw none = pure none
  disable_automated app raw (some policy) = do
    context (codes "disabling auto-sync for " ++ app)
        (argo.update_application_spec app (without_automated X raw.spec))
    pure (
        some (record {
          application = app;
          original_policy = policy;
          application_set_name =
              set_name_of (find_label (codes "argocd.argoproj.io/application-set-name") raw.labels)
                raw.owner_references;
        }))

  unfoldable pub disable_auto_sync : Text → Action argo.State (Option (AutoSyncState X))
  disable_auto_sync app = do
    raw ← context (codes "getting application " ++ app) (argo.get_application_raw app)
    disable_automated app raw (automated_policy X raw.spec)

  unfoldable pub disable_template :
      Text → RawApplicationSet X → Option X.Policy → Action argo.State (Option Text)
  disable_template name raw none = pure none
  disable_template name raw (some policy) = do
    original ←
        lift
          (or_bad_json (codes "marshaling applicationset sync policy") (argo.marshal_policy policy))
    context (codes "disabling auto-sync on applicationset " ++ name) (
        argo.update_application_set name
          (record raw { template_spec = without_automated X raw.template_spec }))
    pure (some original)

  -- The serialized policy of the template, or `none` where auto-sync is not enabled.
  unfoldable pub disable_app_set_auto_sync : Text → Action argo.State (Option Text)
  disable_app_set_auto_sync name = do
    raw ← context (codes "getting applicationset " ++ name) (argo.get_application_set_raw name)
    disable_template name raw (automated_policy X raw.template_spec)
