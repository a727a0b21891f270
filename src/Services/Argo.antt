-- ===== src/Services/Argo.antt =====
-- internal/argocd/applications.go, applicationsets.go: what the commands call of Argo CD's client,
-- and the parts of Argo CD's own types that they read and write.
use lemuria.Prelude.{ℕ, Text, Bool, Option, List}
use lemuria.Effect.{Error, Result, Action}
use lemuria.Model.Application.{Application}
use lemuria.Model.Sync.{SyncResult, ResourceHealthInfo}

-- The parts of Argo CD's types that the commands only pass on.
pub record Extern : Type 1 where
  pub Policy : Type 0
  pub PolicyRest : Type 0
  pub SourceRest : Type 0
  pub SpecRest : Type 0
  pub ApplicationRest : Type 0
  pub SetRest : Type 0
  pub no_rest : PolicyRest  -- that of `&v1alpha1.SyncPolicy{}`

pub record OwnerReference : Type 0 where
  pub kind : Text
  pub name : Text

module _ (X : Extern) where
  pub record SyncPolicy : Type 0 where
    pub automated : Option X.Policy
    pub rest : X.PolicyRest

  pub record RawSource : Type 0 where
    pub repo_url : Text
    pub target_revision : Text
    pub rest : X.SourceRest

  pub record RawSpec : Type 0 where
    pub sync_policy : Option SyncPolicy
    pub source : Option RawSource
    pub sources : List RawSource
    pub rest : X.SpecRest

  -- `v1alpha1.Application`; the labels are the entries of a map.
  pub record RawApplication : Type 0 where
    pub labels : List (Text × Text)
    pub owner_references : List OwnerReference
    pub spec : RawSpec
    pub rest : X.ApplicationRest

  -- `v1alpha1.ApplicationSet`; `template_spec` is `Spec.Template.Spec`.
  pub record RawApplicationSet : Type 0 where
    pub template_spec : RawSpec
    pub rest : X.SetRest

-- The fields of `SyncOptions` that the commands set.
pub record SyncOptions : Type 0 where
  pub revision : Text
  pub prune : Bool
  pub dry_run : Bool
  pub timeout : ℕ

-- The fields of `ManagedResource` that the commands read.
pub record ManagedResource : Type 0 where
  pub kind : Text
  pub name : Text

abbrev pub ParentMap : Type 0
ParentMap = List (Text × List Application)

pub record Argo (X : Extern) : Type 1 where
  pub State : Type 0
  pub get_application : Text → Action State Application
  pub get_application_raw : Text → Action State (RawApplication X)
  pub update_application_spec : Text → RawSpec X → Action State (Unit {0})
  pub create_application : RawApplication X → Action State (Unit {0})
  pub sync_application : Text → SyncOptions → Action State SyncResult
  pub get_resource_health : Text → Action State (List ResourceHealthInfo)
  pub get_managed_resources : Text → Action State (List ManagedResource)
  pub get_application_set_raw : Text → Action State (RawApplicationSet X)
  pub update_application_set : Text → RawApplicationSet X → Action State (Unit {0})
  pub get_applications_by_application_set : Text → Action State (List Application)
  pub build_parent_map : Action State ParentMap
  pub find_parent_apps : Text → Option ParentMap → Action State (List Application)
  pub is_not_found : Error → Bool
  -- encoding/json on a policy, and the parser of an application in a YAML file.
  pub marshal_policy : X.Policy → Option Text
  pub unmarshal_policy : Text → Option X.Policy
  pub parse_raw_application : Text → Text → Result (RawApplication X)
