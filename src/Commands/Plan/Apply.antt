-- ===== src/Commands/Plan/Apply.antt =====
-- internal/commands/plan.go: planApplication. Only where the difference is known is the lock taken.
use lemuria.Prelude.{ℕ, Text, codes, ◌==◌, if◌then◌else◌, nat_eq, Option, none, some, List, []}
use lemuria.Effect.{Result, ok, err, wrapped}
use lemuria.Model.Application.{Application, ApplicationChangeType, existing, new, deleted}
use lemuria.Model.Diff.{ManifestDiff, empty_summary, summarize_diffs, diff_mode_branch}
use lemuria.Model.Event.{PrEvent}
use lemuria.Redis.{Redis}
use lemuria.Locking.Manager.{LockCodec}
use lemuria.Services.World.{pure, attempt, ◌>>=◌, on_argo}
use lemuria.Services.Argo.{RawApplication}
use lemuria.Services.Executor.{Services, Doing}
use lemuria.Services.Planner.{Planner, PlanOutcome}
use lemuria.Commands.AutoSync.Disable.{find_label}
use lemuria.Commands.UnlockAll.{is_deleted}
use lemuria.Commands.Plan.Reclaim.{lock_and_store_plan}
use lemuria.Commands.Sync.Apply.{is_new}

abbrev pub plan_outcome_of : Application → PlanOutcome
plan_outcome_of app = record {
  application = app.name;
  application_set_name = app.application_set_name;
  diffs = [];
  summary = empty_summary;
  lock_status = [];
  warning = [];
  failure = none;
  change_type = app.change_type;
  source_file = app.source_file;
  is_generated_app = app.is_generated_app;
}

abbrev pub deleted_warning : Text
deleted_warning = codes "This application will be removed after the PR is merged."

abbrev pub auto_sync_warning : Text
auto_sync_warning =
    codes
      "Auto-sync is enabled. It will be temporarily disabled during sync and restored when the PR is merged or closed."

module _ (R : Redis) (J : LockCodec) (E : Services) (P : Planner E) where
  -- Two minutes where none is set.
  abbrev pub diff_timeout : ℕ
  diff_timeout =
      if nat_eq E.config.temp_app_timeout 0 then 120000000000 else E.config.temp_app_timeout

  abbrev pub diff_mode : Text
  diff_mode = if E.config.diff_mode == [] then diff_mode_branch else E.config.diff_mode

  -- A file that is missing, or that does not parse, leaves the live application.
  abbrev pub parsed_or_none : Result (RawApplication E.extern) → Option (RawApplication E.extern)
  parsed_or_none (ok raw) = some raw
  parsed_or_none (err e) = none

  abbrev pub parse_content : Application → Option Text → Option (RawApplication E.extern)
  parse_content app none = none
  parse_content app (some content) = parsed_or_none (E.argo.parse_raw_application content app.name)

  unfoldable pub spec_in : Application → List (Text × Text) → Option (RawApplication E.extern)
  spec_in app files =
      if app.source_file == [] then none else parse_content app (find_label app.source_file files)

  unfoldable pub planned :
      PrEvent
      → Application
      → ApplicationChangeType
      → Text
      → PlanOutcome
      → Result (List ManifestDiff)
      → Doing R E PlanOutcome
  planned event app change_type msg o (err e) = pure (record o { failure = some (wrapped msg e) })
  planned event app change_type msg o (ok diffs) =
      lock_and_store_plan R J E event app change_type
        (record o { diffs = diffs; summary = summarize_diffs diffs })

  -- A new application whose file is missing, or does not parse, is passed over.
  unfoldable pub plan_new :
      PrEvent → Application → Option (RawApplication E.extern) → Doing R E PlanOutcome
  plan_new event app none = pure (plan_outcome_of app)
  plan_new event app (some spec) = do
    diffs ← attempt (
        on_argo (
          P.diff_new_app spec (record {
            mode = [];
            base_branch = [];
            target_branch = event.pr.head_ref;
            pr_number = event.pr.number;
            pr_repo = event.repo.html_url;
            timeout = diff_timeout;
            base_app_spec = none;
            head_app_spec = none;
          })))
    planned event app new (codes "failed to generate diff for new application")
        (plan_outcome_of app) diffs

  unfoldable pub plan_deleted : PrEvent → Application → List (Text × Text) → Doing R E PlanOutcome
  plan_deleted event app base_files = do
    diffs ← attempt (
        on_argo (
          P.diff_deleted_app app.name (record {
            mode = diff_mode;
            base_branch = event.pr.base_ref;
            target_branch = [];
            pr_number = event.pr.number;
            pr_repo = event.repo.html_url;
            timeout = diff_timeout;
            base_app_spec = spec_in app base_files;
            head_app_spec = none;
          })))
    planned event app deleted (codes "failed to generate diff for deleted application")
        (record (plan_outcome_of app) { warning = deleted_warning }) diffs

  unfoldable pub plan_existing :
      PrEvent → Application → List (Text × Text) → List (Text × Text) → Doing R E PlanOutcome
  plan_existing event app head_files base_files = do
    diffs ← attempt (
        on_argo (
          P.get_application_diff app.name (record {
            mode = diff_mode;
            base_branch = event.pr.base_ref;
            target_branch = event.pr.head_ref;
            pr_number = event.pr.number;
            pr_repo = event.repo.html_url;
            timeout = diff_timeout;
            base_app_spec = spec_in app base_files;
            head_app_spec = spec_in app head_files;
          })))
    planned event app existing (codes "failed to generate diff")
        (record (plan_outcome_of app) {
          warning = if app.auto_sync_enabled then auto_sync_warning else [];
        })
        diffs

  unfoldable pub plan_application :
      PrEvent → List (Text × Text) → List (Text × Text) → Application → Doing R E PlanOutcome
  plan_application event head_files base_files app =
      if is_new app.change_type
      then plan_new event app (spec_in app head_files)
      else if is_deleted app.change_type
      then plan_deleted event app base_files
      else plan_existing event app head_files base_files
