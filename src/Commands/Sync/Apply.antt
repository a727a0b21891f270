-- ===== src/Commands/Sync/Apply.antt =====
-- internal/commands/sync.go: the sync of one application.
use lemuria.Prelude.{
  Text, codes, ◌++◌, ◌==◌, ◌&&◌, if◌then◌else◌, Bool, true, false, not, ltb, nat_eq, length, Option,
  none, some, List, [],
}
use lemuria.Effect.{Error, failure, Result, ok, err, wrapped, wrap_result}
use lemuria.Model.Application.{Application, ApplicationChangeType, new}
use lemuria.Model.Event.{PrEvent}
use lemuria.Model.Lock.{Lock}
use lemuria.Model.Sync.{SyncResult, ResourceHealthInfo}
use lemuria.Redis.{Redis}
use lemuria.Services.World.{pure, lift, attempt, context, ◌>>=◌, when, on_argo}
use lemuria.Services.Argo.{RawApplication}
use lemuria.Services.Executor.{Services, Doing}
use lemuria.Commands.Command.{Command}
use lemuria.Commands.AutoSync.Disable.{without_automated, find_label}
use lemuria.Commands.TargetRevision.{app_sources_from_repo, rewrite_target_revision}
use lemuria.Commands.UnlockAll.{is_deleted}
use lemuria.Commands.Sync.Results.{
  SyncOutcome, outcome_of, failed_with, succeeded_with, merge_resource_health,
}

abbrev pub is_new : ApplicationChangeType → Bool
is_new new = true
is_new _ = false

abbrev pub has_value {ℓ} : {A : Type ℓ} → Option A → Bool
has_value none = false
has_value (some a) = true

module _ (R : Redis) (E : Services) where
  abbrev pub Raw : Type 0
  Raw = RawApplication E.extern

  abbrev pub Files : Type 0
  Files = List (Text × Text)

  -- The application in the file at the head of the pull request.
  unfoldable pub parse_head : Lock → Files → Result Raw
  parse_head l files = elim (find_label l.source_file files) [
    | none ↦ err (
        failure (
          codes "application CR "
          ++ (l.source_file ++ codes " not found in pre-fetched head contents")))
    | some content ↦
        wrap_result (codes "parsing application CR from head branch")
          (E.argo.parse_raw_application content l.application)
  ]

  -- Without its auto-sync, and `none` where the lock names no file.
  abbrev pub stripped : Result Raw → Result (Option Raw)
  stripped (err e) = err e
  stripped (ok raw) = ok (some (record raw { spec = without_automated E.extern raw.spec }))

  unfoldable pub parse_source : Lock → Files → Result (Option Raw)
  parse_source l files = if l.source_file == [] then ok none else stripped (parse_head l files)

  unfoldable pub health_merged :
      SyncOutcome → SyncResult → Result (List ResourceHealthInfo) → Doing R E SyncOutcome
  health_merged o r (err e) = pure (record o { result = some r })
  health_merged o r (ok infos) = pure (record o { result = some (merge_resource_health r infos) })

  unfoldable pub synced : Lock → SyncOutcome → Result SyncResult → Doing R E SyncOutcome
  synced l o (err e) = pure (failed_with o e)
  synced l o (ok r) = do
    infos ← attempt (on_argo (E.argo.get_resource_health l.application))
    health_merged o r infos

  unfoldable pub trigger_sync : Lock → Command → SyncOutcome → Text → Doing R E SyncOutcome
  trigger_sync l cmd o revision = do
    r ← attempt (
        on_argo (
          E.argo.sync_application l.application (record {
            revision = revision;
            prune = cmd.prune;
            dry_run = cmd.dry_run;
            timeout = E.config.sync_timeout;
          })))
    synced l o r

  unfoldable pub spec_updated :
      Lock → Command → SyncOutcome → Text → Result (Unit {0}) → Doing R E SyncOutcome
  spec_updated l cmd o revision (err e) = pure (failed_with o e)
  spec_updated l cmd o revision (ok _) = trigger_sync l cmd o revision

  unfoldable pub update_spec : Lock → Text → Raw → Doing R E (Unit {0})
  update_spec l msg raw =
      context msg (on_argo (E.argo.update_application_spec l.application raw.spec))

  -- The parsed application, if there is one, is written in no dry run.
  unfoldable pub update_parsed : Lock → Command → Option Raw → Doing R E (Unit {0})
  update_parsed l cmd none = pure tt
  update_parsed l cmd (some raw) =
      when (not cmd.dry_run) (update_spec l (codes "updating application spec") raw)

  unfoldable pub sync_multi_source : Lock → Command → PrEvent → Raw → Doing R E SyncOutcome
  sync_multi_source l cmd event raw = do
    let raw' = rewrite_target_revision E.to_lower E.extern raw event.repo.html_url event.pr.head_sha
    r ← attempt (update_spec l (codes "updating application spec for multi-source sync") raw')
    spec_updated l cmd (record (outcome_of l) { target_rev_rewritten = true }) [] r

  -- Also where the sources do not lie in the repository of the pull request, with no revision then.
  unfoldable pub sync_single_source : Lock → Command → Text → Option Raw → Doing R E SyncOutcome
  sync_single_source l cmd revision parsed = do
    r ← attempt (update_parsed l cmd parsed)
    spec_updated l cmd (outcome_of l) revision r

  unfoldable pub sync_from_repo :
      Lock → Command → PrEvent → Option Raw → Result Raw → Doing R E SyncOutcome
  sync_from_repo l cmd event parsed (err e) = pure (failed_with (outcome_of l) e)
  sync_from_repo l cmd event parsed (ok raw) =
      if ltb 0 (length raw.spec.sources) && not cmd.dry_run
      then sync_multi_source l cmd event raw
      else if nat_eq (length raw.spec.sources) 0
      then sync_single_source l cmd event.pr.head_sha parsed
      else trigger_sync l cmd (outcome_of l) []

  unfoldable pub raw_of : Lock → Option Raw → Doing R E Raw
  raw_of l (some raw) = pure raw
  raw_of l none =
      context (codes "getting raw application " ++ l.application)
        (on_argo (E.argo.get_application_raw l.application))

  unfoldable pub sync_parsed :
      Lock → Command → PrEvent → Application → Result (Option Raw) → Doing R E SyncOutcome
  sync_parsed l cmd event app (err e) = pure (failed_with (outcome_of l) e)
  sync_parsed l cmd event app (ok parsed) =
      if app_sources_from_repo E.to_lower app event.repo.html_url
      then attempt (raw_of l parsed) >>= sync_from_repo l cmd event parsed
      else sync_single_source l cmd [] parsed

  unfoldable pub sync_existing :
      Lock → Command → PrEvent → Files → Result Application → Doing R E SyncOutcome
  sync_existing l cmd event files (err e) =
      pure (failed_with (outcome_of l) (wrapped (codes "getting application " ++ l.application) e))
  sync_existing l cmd event files (ok app) = sync_parsed l cmd event app (parse_source l files)

  -- The message of an update that failed as well comes first here.
  unfoldable pub update_failed : Lock → Error → Result (Unit {0}) → Result (Unit {0})
  update_failed l e (ok _) = ok tt
  update_failed l e (err u) = err (
      wrapped
        (codes "creating application "
          ++ (l.application ++ (codes " (update also failed: " ++ (E.error_text u ++ codes ")"))))
        e)

  unfoldable pub create_or_update : Lock → Raw → Result (Unit {0}) → Doing R E (Unit {0})
  create_or_update l raw (ok _) = pure tt
  create_or_update l raw (err e) = do
    r ← attempt (on_argo (E.argo.update_application_spec l.application raw.spec))
    lift (update_failed l e r)

  unfoldable pub sync_new_parsed : Lock → Command → PrEvent → Result Raw → Doing R E SyncOutcome
  sync_new_parsed l cmd event (err e) = pure (failed_with (outcome_of l) e)
  sync_new_parsed l cmd event (ok parsed) = do
    let raw =
        rewrite_target_revision E.to_lower E.extern parsed event.repo.html_url event.pr.head_sha
    created ← attempt (on_argo (E.argo.create_application raw))
    r ← attempt (create_or_update l raw created)
    spec_updated l cmd (outcome_of l) [] r

  unfoldable pub sync_new_application : Lock → Command → PrEvent → Files → Doing R E SyncOutcome
  sync_new_application l cmd event files =
      if l.source_file == []
      then pure (
          failed_with (outcome_of l)
            (failure (codes "new application " ++ (l.application ++ codes " has no source file"))))
      else sync_new_parsed l cmd event (parse_head l files)

  abbrev pub sync_deleted_application : Lock → SyncOutcome
  sync_deleted_application l =
      succeeded_with l (codes "Application will be deleted when the PR is merged.") E.health_healthy

  unfoldable pub sync_application : Lock → Command → PrEvent → Files → Doing R E SyncOutcome
  sync_application l cmd event files =
      if is_new l.change_type
      then sync_new_application l cmd event files
      else if is_deleted l.change_type
      then pure (sync_deleted_application l)
      else do
        app ← attempt (on_argo (E.argo.get_application l.application))
        sync_existing l cmd event files app
