-- ===== src/Commands/Plan/Execute.antt =====
-- internal/commands/plan.go: executePlan, and executor.go: Execute and RunAutoplan.
use lemuria.Prelude.{Text, codes, ◌++◌, ◌==◌, if◌then◌else◌, not, elem, ◌||◌, List, [], ◌∷◌}
use lemuria.Effect.{failure, Result, ok, err}
use lemuria.Model.Application.{Application}
use lemuria.Model.Event.{PrEvent}
use lemuria.Redis.{Redis}
use lemuria.Locking.Manager.{LockCodec}
use lemuria.Services.World.{
  pure, lift, attempt, context, ◌>>=◌, ◌>>◌, logged, on_argo, on_vcs, on_both,
}
use lemuria.Services.Executor.{Services, Doing, react, post_comment, post_plan_comment, post_error}
use lemuria.Services.Planner.{Planner, PlanOutcome}
use lemuria.Commands.Command.{Command}
use lemuria.Commands.Plan.Apply.{plan_application}

-- The keys of `sourcePathSet`, each once.
unfoldable pub plan_source_paths : List Application → List Text
plan_source_paths [] = []
plan_source_paths (a ∷ apps) =
    let rest = plan_source_paths apps in
    if a.source_file == [] || elem a.source_file rest then rest else a.source_file ∷ rest

module _ (R : Redis) (J : LockCodec) (E : Services) (P : Planner E) where
  unfoldable pub expanded : Text → List Application → Doing R E (List Application)
  expanded name [] =
      lift (
        err (failure (codes "applicationset " ++ (name ++ codes " has no generated applications"))))
  expanded name (a ∷ apps) = pure (a ∷ apps)

  unfoldable pub expand_application_set : Text → Doing R E (List Application)
  expand_application_set name = do
    context (codes "applicationset " ++ (name ++ codes " not found"))
        (on_argo (P.get_application_set name))
    apps ←
        context (codes "getting applications for applicationset " ++ name)
          (on_argo (E.argo.get_applications_by_application_set name))
    expanded name apps

  unfoldable pub named_apps : Text → Result Application → Doing R E (List Application)
  named_apps name (ok app) = pure (app ∷ [])
  named_apps name (err e) =
      context
        (codes "application "
          ++ (name
              ++ (codes " lookup failed (application error: "
                  ++ (E.error_text e ++ codes ", applicationset error"))))
        (expand_application_set name)

  unfoldable pub find_apps : Command → PrEvent → Doing R E (List Application)
  find_apps cmd event =
      if not (cmd.application == [])
      then attempt (on_argo (E.argo.get_application cmd.application)) >>= named_apps cmd.application
      else if cmd.all
      then context (codes "listing applications")
          (on_argo (P.find_applications_by_repo event.repo.html_url))
      else on_both (P.find_affected_applications event)

  abbrev pub contents_or_none : Result (List (Text × Text)) → List (Text × Text)
  contents_or_none (ok files) = files
  contents_or_none (err e) = []

  unfoldable pub fetch_contents : PrEvent → Text → List Text → Doing R E (List (Text × Text))
  fetch_contents event ref [] = pure []
  fetch_contents event ref (p ∷ paths) = do
    files ←
        attempt (on_vcs (E.vcs.get_file_contents event.repo.owner event.repo.name (p ∷ paths) ref))
    pure (contents_or_none files)

  unfoldable pub plan_each :
      PrEvent
      → List (Text × Text)
      → List (Text × Text)
      → List Application
      → Doing R E (List PlanOutcome)
  plan_each event head_files base_files [] = pure []
  plan_each event head_files base_files (a ∷ apps) = do
    o ← plan_application R J E P event head_files base_files a
    rest ← plan_each event head_files base_files apps
    pure (o ∷ rest)

  unfoldable pub post_parts : PrEvent → List Text → Doing R E (Unit {0})
  post_parts event [] = pure tt
  post_parts event (part ∷ parts) = do post_plan_comment R E event part; post_parts event parts

  unfoldable pub plan_found : PrEvent → Result (List Application) → Doing R E (Unit {0})
  plan_found event (err e) = post_error R E event e
  plan_found event (ok []) =
      post_comment R E event (codes "## Lemuria Plan\n\nNo applications affected by this PR.")
  plan_found event (ok (a ∷ apps)) = do
    let paths = plan_source_paths (a ∷ apps)
    head_files ← fetch_contents event event.pr.head_ref paths
    base_files ← fetch_contents event event.pr.base_ref paths
    outcomes ← plan_each event head_files base_files (a ∷ apps)
    post_parts event (P.render_plan outcomes event.pr.number E.vcs.max_comment_size)

  unfoldable pub execute_plan : Command → PrEvent → Doing R E (Unit {0})
  execute_plan cmd event = do
    react R E event event.comment
    logged
        (on_vcs (E.vcs.invalidate_plan_comments event.repo.owner event.repo.name event.pr.number))
    apps ← attempt (find_apps cmd event)
    plan_found event apps
