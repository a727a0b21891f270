-- ===== src/Commands/Rollback.antt =====
-- internal/commands/rollback.go: the rollback command, which syncs applications to the revision that
-- they are configured with.
use lemuria.Prelude.{
  Text, codes, ◌++◌, ◌==◌, ◌&&◌, if◌then◌else◌, Bool, true, false, not, ltb, length, Option, none,
  some, List, [], ◌∷◌,
}
use lemuria.Effect.{Error, failure, Result, ok, err, wrapped, or_bad_json}
use lemuria.Model.Application.{Application, ApplicationSource}
use lemuria.Model.Event.{PrEvent}
use lemuria.Model.Lock.{Lock}
use lemuria.Model.Sync.{SyncResult, SyncPhase, succeeded, failed, running, error, other}
use lemuria.Redis.{Redis}
use lemuria.Locking.Manager.{LockCodec, get_lock, update_lock, list_by_pr}
use lemuria.Services.World.{
  pure, lift, attempt, context, ◌>>=◌, ◌>>◌, when, on_redis, on_argo, on_vcs,
}
use lemuria.Services.Executor.{Services, Doing, react, post_comment, post_error}
use lemuria.Commands.Command.{Command}
use lemuria.Commands.AutoSync.Disable.{AutoSyncState, disable_auto_sync}
use lemuria.Commands.AutoSync.Parents.{max_parent_depth, disable_parent_auto_sync}
use lemuria.Commands.DisableLocks.{disabled_lock, disable_auto_sync_for_locks}

-- `outcome` is the field `Error`, or else `Result`.
pub record RollbackResult : Type 0 where
  pub application : Text
  pub target_revision : Text
  pub outcome : Result SyncResult

abbrev pub first_revision : List ApplicationSource → Text
first_revision [] = []
first_revision (s ∷ sources) = s.target_revision

unfoldable pub configured_revision : Application → Text
configured_revision app =
    let own =
      if app.target_revision == [] then first_revision app.sources else app.target_revision in
    if own == [] then codes "HEAD" else own

module _ (error_text : Error → Text) (phase_text : SyncPhase → Text) where
  abbrev pub rollback_line : Result SyncResult → Text
  rollback_line (err e) = codes "Rollback failed: " ++ (error_text e ++ codes "\n\n")
  rollback_line (ok r) = elim r.phase [
    | succeeded ↦ codes "Rollback successful.\n\n"
    | running ↦ codes "Rollback in progress...\n\n"
    | failed ↦ codes "Rollback failed: " ++ (r.message ++ codes "\n\n")
    | error ↦ codes "Rollback failed: " ++ (r.message ++ codes "\n\n")
    | other t ↦ codes "Rollback status: " ++ (phase_text (other t) ++ codes "\n\n")
  ]

  -- `allSucceeded` is set to false at an error, and at a failed phase.
  abbrev pub counts_as_success : Result SyncResult → Bool
  counts_as_success (err e) = false
  counts_as_success (ok r) = elim r.phase [ failed ↦ false | error ↦ false | _ ↦ true ]

  abbrev pub rollback_sections : List RollbackResult → Text
  rollback_sections [] = []
  rollback_sections (r ∷ results) =
      codes "### Application: `"
      ++ (r.application
          ++ (codes "`\n\n"
              ++ (codes "**Target:** `"
                  ++ (r.target_revision
                      ++ (codes "`\n\n"
                          ++ (rollback_line r.outcome ++ rollback_sections results))))))

  abbrev pub all_rolled_back : List RollbackResult → Bool
  all_rolled_back [] = true
  all_rolled_back (r ∷ results) = counts_as_success r.outcome && all_rolled_back results

  abbrev pub dry_run_line : Bool → Text
  dry_run_line dry_run = if dry_run then codes "**Mode:** Dry-run\n\n" else []

  unfoldable pub render_rollback_results : List RollbackResult → Bool → Text
  render_rollback_results results dry_run =
      codes "## Lemuria Rollback\n\n"
      ++ (dry_run_line dry_run
          ++ (rollback_sections results
              ++ (if all_rolled_back results && ltb 0 (length results)
                  then codes "---\n" ++ codes "All applications rolled back successfully.\n"
                  else [])))

  abbrev pub single_line : Result SyncResult → Text
  single_line (err e) = codes "Rollback failed: " ++ (error_text e ++ codes "\n")
  single_line (ok r) = elim r.phase [
    | succeeded ↦ codes "Rollback successful. Application synced to configured targetRevision.\n"
    | running ↦ codes "Rollback in progress...\n"
    | failed ↦ codes "Rollback failed: " ++ (r.message ++ codes "\n")
    | error ↦ codes "Rollback failed: " ++ (r.message ++ codes "\n")
    | other t ↦ codes "Rollback status: " ++ (phase_text (other t) ++ codes "\n")
  ]

  unfoldable pub render_single_rollback_result : RollbackResult → Bool → Text
  render_single_rollback_result r dry_run =
      codes "## Lemuria Rollback - `"
      ++ (r.application
          ++ (codes "`\n\n"
              ++ (dry_run_line dry_run
                  ++ (codes "**Target:** `"
                      ++ (r.target_revision ++ (codes "`\n\n" ++ single_line r.outcome))))))

module _ (R : Redis) (J : LockCodec) (E : Services) where
  unfoldable pub store_rollback_state :
      Text → Text → AutoSyncState E.extern → Result (Option Lock) → Doing R E (Unit {0})
  store_rollback_state app policy state (err e) =
      lift (err (wrapped (codes "getting lock for " ++ app) e))
  store_rollback_state app policy state (ok none) = pure tt
  store_rollback_state app policy state (ok (some l)) =
      context (codes "storing auto-sync state in lock for " ++ app)
        (on_redis (update_lock R J (disabled_lock policy state.application_set_name l)))

  unfoldable pub keep_rollback_state : Text → Option (AutoSyncState E.extern) → Doing R E (Unit {0})
  keep_rollback_state app none = pure tt
  keep_rollback_state app (some state) = do
    policy ←
        lift (
          or_bad_json (codes "marshaling sync policy")
            (E.argo.marshal_policy state.original_policy))
    l ← attempt (on_redis (get_lock R J app))
    store_rollback_state app policy state l

  unfoldable pub disable_auto_sync_for_rollback : PrEvent → Text → Doing R E (Unit {0})
  disable_auto_sync_for_rollback event app = do
    state ← on_argo (disable_auto_sync E.extern E.argo app)
    keep_rollback_state app state
    disable_parent_auto_sync R J E max_parent_depth event none app (app ∷ [])
    pure tt

  unfoldable pub check_approval : Result Bool → Doing R E (Unit {0})
  check_approval (err e) = lift (err (wrapped (codes "checking PR approval") e))
  check_approval (ok approved) =
      if not approved
      then lift (err (failure (codes "PR must be approved before rollback")))
      else pure tt

  unfoldable pub check_rollback_requirements : PrEvent → Doing R E (Unit {0})
  check_rollback_requirements event = if not E.config.require_approval then pure tt else do
    approved ←
        attempt (on_vcs (E.vcs.is_pr_approved event.repo.owner event.repo.name event.pr.number))
    check_approval approved

  unfoldable pub rollback_application : Command → Application → Doing R E RollbackResult
  rollback_application cmd app = do
    outcome ← attempt (
        on_argo (
          E.argo.sync_application app.name
            (record { revision = []; prune = cmd.prune; dry_run = cmd.dry_run; timeout = 0 })))
    pure (record {
      application = app.name;
      target_revision = configured_revision app;
      outcome = outcome;
    })

  abbrev pub rollback_comment : RollbackResult → Bool → Text
  rollback_comment r dry_run = elim r.outcome [
    | ok result ↦ render_single_rollback_result E.error_text E.phase_text r dry_run
    | err e ↦
        codes "## Lemuria Rollback\n\nRollback of `"
        ++ (r.application
            ++ (codes "` to `"
                ++ (r.target_revision ++ (codes "` failed.\n\nError: " ++ E.error_text e))))
  ]

  unfoldable pub perform_rollback : Command → PrEvent → Application → Doing R E (Unit {0})
  perform_rollback cmd event app = do
    r ← rollback_application cmd app
    post_comment R E event (rollback_comment r cmd.dry_run)

  unfoldable pub rollback_disabled :
      Command → PrEvent → Application → Result (Unit {0}) → Doing R E (Unit {0})
  rollback_disabled cmd event app (err e) = post_comment R E event (
      codes "## Lemuria Rollback\n\nFailed to disable auto-sync for `"
      ++ (cmd.application ++ (codes "`: " ++ E.error_text e)))
  rollback_disabled cmd event app (ok _) = perform_rollback cmd event app

  unfoldable pub rollback_found : Command → PrEvent → Result Application → Doing R E (Unit {0})
  rollback_found cmd event (err e) = post_comment R E event (
      codes "## Lemuria Rollback\n\nApplication `"
      ++ (cmd.application ++ (codes "` not found: " ++ E.error_text e)))
  rollback_found cmd event (ok app) = do
    disabled ←
        attempt (when (not cmd.dry_run) (disable_auto_sync_for_rollback event cmd.application))
    rollback_disabled cmd event app disabled

  unfoldable pub rollback_locked : Command → Lock → Result Application → Doing R E RollbackResult
  rollback_locked cmd l (err e) =
      pure (record { application = l.application; target_revision = []; outcome = err e })
  rollback_locked cmd l (ok app) = rollback_application cmd app

  unfoldable pub rollback_each : Command → List Lock → Doing R E (List RollbackResult)
  rollback_each cmd [] = pure []
  rollback_each cmd (l ∷ locks) = do
    app ← attempt (on_argo (E.argo.get_application l.application))
    r ← rollback_locked cmd l app
    rest ← rollback_each cmd locks
    pure (r ∷ rest)

  unfoldable pub rollback_ready :
      Command → PrEvent → List Lock → Result (Unit {0}) → Doing R E (Unit {0})
  rollback_ready cmd event locks (err e) =
      post_error R E event (wrapped (codes "disabling auto-sync for rollback") e)
  rollback_ready cmd event locks (ok _) = do
    results ← rollback_each cmd locks
    post_comment R E event (render_rollback_results E.error_text E.phase_text results cmd.dry_run)

  unfoldable pub rollback_listed : Command → PrEvent → Result (List Lock) → Doing R E (Unit {0})
  rollback_listed cmd event (err e) = post_error R E event (wrapped (codes "listing locks") e)
  rollback_listed cmd event (ok []) =
      post_comment R E event
        (codes "## Lemuria Rollback\n\nNo applications are locked by this PR. Nothing to rollback.")
  rollback_listed cmd event (ok (l ∷ locks)) = do
    disabled ←
        attempt (when (not cmd.dry_run) (disable_auto_sync_for_locks R J E event (l ∷ locks)))
    rollback_ready cmd event (l ∷ locks) disabled

  -- A named application is rolled back whether or not the pull request has locked it.
  unfoldable pub rollback_named : Command → PrEvent → Doing R E (Unit {0})
  rollback_named cmd event = do
    app ← attempt (on_argo (E.argo.get_application cmd.application))
    rollback_found cmd event app

  unfoldable pub rollback_all : Command → PrEvent → Doing R E (Unit {0})
  rollback_all cmd event = do
    locks ← attempt (on_redis (list_by_pr R J event.repo.full_name event.pr.number))
    rollback_listed cmd event locks

  unfoldable pub rollback_checked : Command → PrEvent → Result (Unit {0}) → Doing R E (Unit {0})
  rollback_checked cmd event (err e) =
      post_comment R E event
        (codes "## Lemuria Rollback\n\nRollback blocked.\n\n" ++ E.error_text e)
  rollback_checked cmd event (ok _) =
      if not (cmd.application == []) then rollback_named cmd event else rollback_all cmd event

  unfoldable pub execute_rollback : Command → PrEvent → Doing R E (Unit {0})
  execute_rollback cmd event = do
    react R E event event.comment
    checked ← attempt (check_rollback_requirements event)
    rollback_checked cmd event checked
