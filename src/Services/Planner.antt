-- ===== src/Services/Planner.antt =====
-- internal/argocd/diff.go, applicationsets.go and pkg/diff/renderer.go: what the plan command calls
-- besides, and the data of its results.
use lemuria.Prelude.{ℕ, Text, Bool, Option, List}
use lemuria.Effect.{Error, Action}
use lemuria.Model.Application.{Application, ApplicationChangeType}
use lemuria.Model.Diff.{ManifestDiff, DiffSummary}
use lemuria.Model.Event.{PrEvent}
use lemuria.Services.Argo.{RawApplication}
use lemuria.Services.Executor.{Services}

-- `argocd.DiffOptions`; a field that a call leaves out is empty.
pub record DiffOptions (E : Services) : Type 0 where
  pub mode : Text
  pub base_branch : Text
  pub target_branch : Text
  pub pr_number : ℕ
  pub pr_repo : Text
  pub timeout : ℕ
  pub base_app_spec : Option (RawApplication E.extern)
  pub head_app_spec : Option (RawApplication E.extern)

-- `appPlanResult`
pub record PlanOutcome : Type 0 where
  pub application : Text
  pub application_set_name : Text
  pub diffs : List ManifestDiff
  pub summary : DiffSummary
  pub lock_status : Text
  pub warning : Text
  pub failure : Option Error
  pub change_type : ApplicationChangeType
  pub source_file : Text
  pub is_generated_app : Bool

pub record Planner (E : Services) : Type 0 where
  pub diff_new_app :
      RawApplication E.extern → DiffOptions E → Action E.argo.State (List ManifestDiff)
  pub diff_deleted_app : Text → DiffOptions E → Action E.argo.State (List ManifestDiff)
  pub get_application_diff : Text → DiffOptions E → Action E.argo.State (List ManifestDiff)
  -- That it succeeds is all that is used of the ApplicationSet.
  pub get_application_set : Text → Action E.argo.State (Unit {0})
  -- The detection of the applications that the pull request touches reads Argo CD and the provider.
  pub find_affected_applications : PrEvent → Action (E.argo.State × E.vcs.State) (List Application)
  pub find_applications_by_repo : Text → Action E.argo.State (List Application)
  pub render_plan : List PlanOutcome → ℕ → ℕ → List Text
