-- ===== src/Commands/Plan/Whole.antt =====
-- internal/commands/plan.go: what a plan of all affected applications may do to the locks of others.
use lemuria.Prelude.{Text, not, Option, none, some, List, [], ◌∷◌, ◌==◌}
use lemuria.Effect.{Result, ok, err}
use lemuria.Model.Application.{Application, ApplicationChangeType}
use lemuria.Model.Diff.{ManifestDiff}
use lemuria.Model.Event.{PrEvent}
use lemuria.Locking.Respects.{Site, Setting}
use lemuria.Services.Argo.{RawApplication}
use lemuria.Services.Executor.{Services}
use lemuria.Services.Planner.{Planner, PlanOutcome}
use lemuria.Services.Safe.{
  setting, Safe, Safe-pure, Safe-lift, Safe-argo, Safe-vcs, Safe-both, Safe-attempt, Safe-context,
  Safe-logged, Safe-if, Safe-bind,
}
use lemuria.Commands.Command.{Command}
use lemuria.Commands.RollbackSafety.{
  react-Safe, post_comment-Safe, post_plan_comment-Safe, post_error-Safe,
}
use lemuria.Commands.UnlockAll.{is_deleted}
use lemuria.Commands.Sync.Apply.{is_new}
use lemuria.Commands.Plan.Apply.{planned, plan_new, plan_deleted, plan_existing, plan_application}
use lemuria.Commands.Plan.Execute.{
  expanded, expand_application_set, named_apps, find_apps, fetch_contents, plan_each, post_parts,
  plan_found, execute_plan,
}
use lemuria.Commands.Plan.Safety.{SparesOpen, lock_and_store_plan-Safe}

module _ (site : Site) (E : Services) (P : Planner E) (event : PrEvent)
    (spares : SparesOpen site E) where
  open site use {redis, codec}

  abbrev c : Setting
  c = setting site event

  planned-Safe :
      (app : Application) (t : ApplicationChangeType) (msg : Text) (o : PlanOutcome)
      (r : Result (List ManifestDiff))
      → Safe c [] (planned redis codec E P event app t msg o r)
  unfolding planned
  planned-Safe app t msg o (err e) = Safe-pure _
  planned-Safe app t msg o (ok diffs) = lock_and_store_plan-Safe site E event spares [] app t _

  plan_new-Safe :
      (app : Application) (spec : Option (RawApplication E.extern))
      → Safe c [] (plan_new redis codec E P event app spec)
  unfolding plan_new
  plan_new-Safe app none = Safe-pure _
  plan_new-Safe app (some spec) =
      Safe-bind (Safe-attempt (Safe-argo _)) (λ r. planned-Safe app _ _ _ r)

  plan_application-Safe :
      (head_files base_files : List (Text × Text)) (app : Application)
      → Safe c [] (plan_application redis codec E P event head_files base_files app)
  unfolding plan_application plan_deleted plan_existing
  plan_application-Safe head_files base_files app =
      Safe-if (is_new app.change_type) (plan_new-Safe app _) (
        Safe-if (is_deleted app.change_type)
          (Safe-bind (Safe-attempt (Safe-argo _)) (λ r. planned-Safe app _ _ _ r))
          (Safe-bind (Safe-attempt (Safe-argo _)) (λ r. planned-Safe app _ _ _ r)))

  plan_each-Safe :
      (head_files base_files : List (Text × Text)) (apps : List Application)
      → Safe c [] (plan_each redis codec E P event head_files base_files apps)
  unfolding plan_each
  plan_each-Safe head_files base_files [] = Safe-pure []
  plan_each-Safe head_files base_files (a ∷ apps) =
      Safe-bind (plan_application-Safe head_files base_files a)
        (λ o. Safe-bind (plan_each-Safe head_files base_files apps) (λ rest. Safe-pure (o ∷ rest)))

  post_parts-Safe : (parts : List Text) → Safe c [] (post_parts redis codec E P event parts)
  unfolding post_parts
  post_parts-Safe [] = Safe-pure tt
  post_parts-Safe (part ∷ parts) =
      Safe-bind (post_plan_comment-Safe site E event [] part) (λ _. post_parts-Safe parts)

  fetch_contents-Safe :
      (ref : Text) (paths : List Text) → Safe c [] (fetch_contents redis codec E P event ref paths)
  unfolding fetch_contents
  fetch_contents-Safe ref [] = Safe-pure []
  fetch_contents-Safe ref (p ∷ paths) = Safe-bind (Safe-attempt (Safe-vcs _)) (λ r. Safe-pure _)

  plan_found-Safe : (r : Result (List Application)) → Safe c [] (plan_found redis codec E P event r)
  unfolding plan_found
  plan_found-Safe (err e) = post_error-Safe site E event [] e
  plan_found-Safe (ok []) = post_comment-Safe site E event [] _
  plan_found-Safe (ok (a ∷ apps)) = Safe-bind (fetch_contents-Safe _ _) (λ head_files.
      Safe-bind (fetch_contents-Safe _ _) (λ base_files.
        Safe-bind (plan_each-Safe head_files base_files (a ∷ apps))
          (λ outcomes. post_parts-Safe _)))

  expanded-Safe :
      (name : Text) (apps : List Application) → Safe c [] (expanded redis codec E P name apps)
  unfolding expanded
  expanded-Safe name [] = Safe-lift _
  expanded-Safe name (a ∷ apps) = Safe-pure _

  named_apps-Safe :
      (name : Text) (r : Result Application) → Safe c [] (named_apps redis codec E P name r)
  unfolding named_apps expand_application_set
  named_apps-Safe name (ok app) = Safe-pure _
  named_apps-Safe name (err e) = Safe-context _ (
      Safe-bind (Safe-context _ (Safe-argo _))
        (λ _. Safe-bind (Safe-context _ (Safe-argo _)) (λ apps. expanded-Safe name apps)))

  find_apps-Safe : (cmd : Command) → Safe c [] (find_apps redis codec E P cmd event)
  unfolding find_apps
  find_apps-Safe cmd =
      Safe-if (not (cmd.application == []))
        (Safe-bind (Safe-attempt (Safe-argo _)) (λ r. named_apps-Safe cmd.application r))
        (Safe-if cmd.all (Safe-context _ (Safe-argo _)) (Safe-both _))

  pub execute_plan-Safe : (cmd : Command) → Safe c [] (execute_plan redis codec E P cmd event)
  unfolding execute_plan
  execute_plan-Safe cmd = Safe-bind (react-Safe site E event [] event.comment) (λ _.
      Safe-bind (Safe-logged (Safe-vcs _))
        (λ _. Safe-bind (Safe-attempt (find_apps-Safe cmd)) (λ r. plan_found-Safe r)))
