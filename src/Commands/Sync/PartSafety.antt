-- ===== src/Commands/Sync/PartSafety.antt =====
-- internal/commands/sync.go: the parts of a sync touch no lock.
use lemuria.Prelude.{
  ℕ, Text, Bool, not, Option, none, some, List, [], ◌∷◌, ◌==◌, ◌&&◌, ltb, nat_eq, length,
}
use lemuria.Effect.{Result, ok, err}
use lemuria.Model.Application.{Application}
use lemuria.Model.Event.{PrEvent, PullRequestDetail}
use lemuria.Model.Lock.{Lock}
use lemuria.Model.Sync.{SyncResult}
use lemuria.Locking.Respects.{Site, Setting}
use lemuria.Services.Config.{RepoConfig}
use lemuria.Services.Executor.{Services}
use lemuria.Services.Safe.{
  setting, Safe, Safe-pure, Safe-lift, Safe-argo, Safe-vcs, Safe-attempt, Safe-context, Safe-logged,
  Safe-when, Safe-if, Safe-bind,
}
use lemuria.Commands.Command.{Command}
use lemuria.Commands.RollbackSafety.{post_comment-Safe}
use lemuria.Commands.TargetRevision.{app_sources_from_repo}
use lemuria.Commands.UnlockAll.{is_deleted}
use lemuria.Commands.Sync.Requirements.{
  check_approved, check_mergeable, check_approval_for, check_sync_requirements, auto_merge_pr,
}
use lemuria.Commands.Sync.Targets.{parent_flags, targets_of}
use lemuria.Commands.Sync.Results.{SyncOutcome}
use lemuria.Commands.Sync.Tracker.{
  Tracker, initial_posted, post_initial, progress_posted, post_progress, update_result,
  final_updated, post_final, should_update,
}
use lemuria.Commands.Sync.Apply.{
  Raw, Files, health_merged, synced, trigger_sync, spec_updated, update_spec, update_parsed,
  sync_multi_source, sync_single_source, sync_from_repo, raw_of, sync_parsed, sync_existing,
  create_or_update, sync_new_parsed, sync_new_application, sync_application, is_new,
}

module _ (site : Site) (E : Services) (event : PrEvent) where
  open site use {redis, codec}

  abbrev c : Setting
  c = setting site event

  module _ (apps : List Text) where
    pub check_sync_requirements-Safe :
        (config : Option RepoConfig) (locks : List Lock)
        → Safe c apps (check_sync_requirements redis E event config locks)
    unfolding check_sync_requirements check_approval_for
    check_sync_requirements-Safe config locks =
        Safe-bind (Safe-when _ (Safe-bind (Safe-attempt (Safe-vcs _)) (λ r. approved r)))
          (λ _. Safe-bind (Safe-attempt (Safe-vcs _)) (λ r. mergeable r))
      where
        approved : (r : Result Bool) → Safe c apps (check_approved redis E r)
        approved (err e) = unfold check_approved in Safe-lift _
        approved (ok b) = unfold check_approved in Safe-if (not b) (Safe-lift _) (Safe-pure tt)

        mergeable : (r : Result PullRequestDetail) → Safe c apps (check_mergeable redis E r)
        mergeable (err e) = unfold check_mergeable in Safe-lift _
        mergeable (ok pr) =
            unfold check_mergeable in Safe-if (not pr.mergeable) (Safe-lift _) (Safe-pure tt)

    pub auto_merge_pr-Safe : Safe c apps (auto_merge_pr redis E event)
    unfolding auto_merge_pr
    auto_merge_pr-Safe =
        Safe-bind (Safe-context _ (Safe-vcs _)) (λ _. Safe-when _ (Safe-logged (Safe-vcs _)))

    parent_flags-Safe :
        (locked : List Text) (cs : List (ℕ × Text)) → Safe c apps (parent_flags redis E locked cs)
    unfolding parent_flags
    parent_flags-Safe locked [] = Safe-pure []
    parent_flags-Safe locked (x ∷ cs) =
        Safe-bind (Safe-attempt (Safe-argo _))
          (λ r. Safe-bind (parent_flags-Safe locked cs) (λ flags. Safe-pure _))

    pub targets_of-Safe : (cs : List (ℕ × Text)) → Safe c apps (targets_of redis E cs)
    unfolding targets_of
    targets_of-Safe [] = Safe-pure _
    targets_of-Safe (x ∷ []) = Safe-pure _
    targets_of-Safe (x ∷ y ∷ cs) = Safe-bind (parent_flags-Safe _ _) (λ flags. Safe-pure _)

    initial_posted-Safe :
        (t : Tracker) (r : Result ℕ) → Safe c apps (initial_posted redis E event t r)
    unfolding initial_posted
    initial_posted-Safe t (err e) = Safe-pure t
    initial_posted-Safe t (ok id) = Safe-bind (Safe-vcs _) (λ now. Safe-pure _)

    progress_posted-Safe :
        (t : Tracker) (r : Result (Unit {0})) → Safe c apps (progress_posted redis E event t r)
    unfolding progress_posted
    progress_posted-Safe t (err e) = Safe-pure t
    progress_posted-Safe t (ok _) = Safe-bind (Safe-vcs _) (λ now. Safe-pure _)

    pub post_initial-Safe : (t : Tracker) → Safe c apps (post_initial redis E event t)
    unfolding post_initial
    post_initial-Safe t = Safe-bind (Safe-attempt (Safe-vcs _)) (λ r. initial_posted-Safe t r)

    pub update_result-Safe :
        (i : ℕ) (o : SyncOutcome) (t : Tracker) → Safe c apps (update_result redis E event i o t)
    unfolding update_result post_progress
    update_result-Safe i o t = Safe-bind (Safe-vcs _) (λ now.
        Safe-if (should_update _ now)
          (Safe-bind (Safe-attempt (Safe-vcs _)) (λ r. progress_posted-Safe _ r)) (Safe-pure _))

    final_updated-Safe :
        (body : Text) (r : Result (Unit {0})) → Safe c apps (final_updated redis E event body r)
    unfolding final_updated
    final_updated-Safe body (ok _) = Safe-pure tt
    final_updated-Safe body (err e) = post_comment-Safe site E event apps body

    pub post_final-Safe :
        (body : Text) (t : Tracker) → Safe c apps (post_final redis E event body t)
    unfolding post_final
    post_final-Safe body t =
        Safe-if (nat_eq t.comment_id 0) (post_comment-Safe site E event apps body)
          (Safe-bind (Safe-attempt (Safe-vcs _)) (λ r. final_updated-Safe body r))

    health_merged-Safe :
        (o : SyncOutcome) (x : SyncResult) (r : _) → Safe c apps (health_merged redis E o x r)
    unfolding health_merged
    health_merged-Safe o x (err e) = Safe-pure _
    health_merged-Safe o x (ok infos) = Safe-pure _

    synced-Safe :
        (l : Lock) (o : SyncOutcome) (r : Result SyncResult) → Safe c apps (synced redis E l o r)
    unfolding synced
    synced-Safe l o (err e) = Safe-pure _
    synced-Safe l o (ok x) = Safe-bind (Safe-attempt (Safe-argo _)) (λ r. health_merged-Safe o x r)

    trigger_sync-Safe :
        (l : Lock) (cmd : Command) (o : SyncOutcome) (revision : Text)
        → Safe c apps (trigger_sync redis E l cmd o revision)
    unfolding trigger_sync
    trigger_sync-Safe l cmd o revision =
        Safe-bind (Safe-attempt (Safe-argo _)) (λ r. synced-Safe l o r)

    spec_updated-Safe :
        (l : Lock) (cmd : Command) (o : SyncOutcome) (revision : Text) (r : Result (Unit {0}))
        → Safe c apps (spec_updated redis E l cmd o revision r)
    unfolding spec_updated
    spec_updated-Safe l cmd o revision (err e) = Safe-pure _
    spec_updated-Safe l cmd o revision (ok _) = trigger_sync-Safe l cmd o revision

    update_parsed-Safe :
        (l : Lock) (cmd : Command) (p : Option (Raw redis E))
        → Safe c apps (update_parsed redis E l cmd p)
    unfolding update_parsed update_spec
    update_parsed-Safe l cmd none = Safe-pure tt
    update_parsed-Safe l cmd (some raw) = Safe-when _ (Safe-context _ (Safe-argo _))

    sync_single_source-Safe :
        (l : Lock) (cmd : Command) (revision : Text) (p : Option (Raw redis E))
        → Safe c apps (sync_single_source redis E l cmd revision p)
    unfolding sync_single_source
    sync_single_source-Safe l cmd revision p =
        Safe-bind (Safe-attempt (update_parsed-Safe l cmd p))
          (λ r. spec_updated-Safe l cmd _ revision r)

    sync_from_repo-Safe :
        (l : Lock) (cmd : Command) (p : Option (Raw redis E)) (r : Result (Raw redis E))
        → Safe c apps (sync_from_repo redis E l cmd event p r)
    unfolding sync_from_repo sync_multi_source update_spec
    sync_from_repo-Safe l cmd p (err e) = Safe-pure _
    sync_from_repo-Safe l cmd p (ok raw) =
        Safe-if (ltb 0 (length raw.spec.sources) && not cmd.dry_run)
          (Safe-bind (Safe-attempt (Safe-context _ (Safe-argo _)))
            (λ r. spec_updated-Safe l cmd _ [] r))
          (Safe-if (nat_eq (length raw.spec.sources) 0) (sync_single_source-Safe l cmd _ p)
            (trigger_sync-Safe l cmd _ []))

    raw_of-Safe : (l : Lock) (p : Option (Raw redis E)) → Safe c apps (raw_of redis E l p)
    unfolding raw_of
    raw_of-Safe l (some raw) = Safe-pure raw
    raw_of-Safe l none = Safe-context _ (Safe-argo _)

    sync_parsed-Safe :
        (l : Lock) (cmd : Command) (app : Application) (r : Result (Option (Raw redis E)))
        → Safe c apps (sync_parsed redis E l cmd event app r)
    unfolding sync_parsed
    sync_parsed-Safe l cmd app (err e) = Safe-pure _
    sync_parsed-Safe l cmd app (ok p) =
        Safe-if (app_sources_from_repo E.to_lower app event.repo.html_url)
          (Safe-bind (Safe-attempt (raw_of-Safe l p)) (λ r. sync_from_repo-Safe l cmd p r))
          (sync_single_source-Safe l cmd [] p)

    sync_existing-Safe :
        (l : Lock) (cmd : Command) (files : Files redis E) (r : Result Application)
        → Safe c apps (sync_existing redis E l cmd event files r)
    unfolding sync_existing
    sync_existing-Safe l cmd files (err e) = Safe-pure _
    sync_existing-Safe l cmd files (ok app) = sync_parsed-Safe l cmd app _

    create_or_update-Safe :
        (l : Lock) (raw : Raw redis E) (r : Result (Unit {0}))
        → Safe c apps (create_or_update redis E l raw r)
    unfolding create_or_update
    create_or_update-Safe l raw (ok _) = Safe-pure tt
    create_or_update-Safe l raw (err e) = Safe-bind (Safe-attempt (Safe-argo _)) (λ r. Safe-lift _)

    sync_new_parsed-Safe :
        (l : Lock) (cmd : Command) (r : Result (Raw redis E))
        → Safe c apps (sync_new_parsed redis E l cmd event r)
    unfolding sync_new_parsed
    sync_new_parsed-Safe l cmd (err e) = Safe-pure _
    sync_new_parsed-Safe l cmd (ok parsed) = Safe-bind (Safe-attempt (Safe-argo _)) (λ created.
        Safe-bind (Safe-attempt (create_or_update-Safe l _ created))
          (λ r. spec_updated-Safe l cmd _ [] r))

    pub sync_application-Safe :
        (l : Lock) (cmd : Command) (files : Files redis E)
        → Safe c apps (sync_application redis E l cmd event files)
    unfolding sync_application sync_new_application
    sync_application-Safe l cmd files =
        Safe-if (is_new l.change_type)
          (Safe-if (l.source_file == []) (Safe-pure _) (sync_new_parsed-Safe l cmd _))
          (Safe-if (is_deleted l.change_type) (Safe-pure _)
            (Safe-bind (Safe-attempt (Safe-argo _)) (λ r. sync_existing-Safe l cmd files r)))
