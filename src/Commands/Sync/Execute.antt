-- ===== src/Commands/Sync/Execute.antt =====
-- internal/commands/sync.go: executeSync. The applications are synced one after the other; in the
-- code up to ten at once.
use lemuria.Prelude.{
  ℕ, zero, suc, Text, codes, ◌++◌, ◌==◌, ◌||◌, ◌&&◌, if◌then◌else◌, Bool, false, not, nat_eq, elem,
  length, select, Option, none, some, List, [], ◌∷◌, map,
}
use lemuria.Effect.{Result, ok, err, wrapped}
use lemuria.Model.Application.{Application}
use lemuria.Model.Event.{PrEvent}
use lemuria.Model.Lock.{Lock}
use lemuria.Redis.{Redis}
use lemuria.Locking.Manager.{LockCodec, list_by_pr}
use lemuria.Services.World.{pure, attempt, context, ◌>>=◌, ◌>>◌, when, on_redis, on_argo, on_vcs}
use lemuria.Services.Config.{RepoConfig}
use lemuria.Services.Executor.{Services, Doing, react, post_comment, post_error, get_repo_config}
use lemuria.Commands.Command.{Command}
use lemuria.Commands.AutoSync.Restore.{restore_all_auto_sync}
use lemuria.Commands.DisableLocks.{disable_auto_sync_for_locks}
use lemuria.Commands.TargetRevision.{revert_target_revision}
use lemuria.Commands.UnlockAll.{release_locks}
use lemuria.Commands.Sync.Requirements.{or_else, check_sync_requirements, auto_merge_pr}
use lemuria.Commands.Sync.Targets.{compute_sync_targets}
use lemuria.Commands.Sync.Results.{
  SyncOutcome, no_outcome, succeeded_with, all_synced, set_at, sync_entry,
}
use lemuria.Commands.Sync.Tracker.{Tracker, new_tracker, post_initial, update_result, post_final}
use lemuria.Commands.Sync.Apply.{is_new, sync_application, Files}

-- The keys of `sourcePathSet`, each once.
unfoldable pub source_paths : List Lock → List Text
source_paths [] = []
source_paths (l ∷ locks) =
    let rest = source_paths locks in
    if l.source_file == [] || elem l.source_file rest then rest else l.source_file ∷ rest

abbrev pub lock_at : ℕ → List Lock → Option Lock
lock_at i [] = none
lock_at zero (l ∷ locks) = some l
lock_at (suc i) (l ∷ locks) = lock_at i locks

-- The first plan that is not of the head of the pull request.
unfoldable pub first_stale : Text → List Lock → Option Lock
first_stale head_sha [] = none
first_stale head_sha (l ∷ locks) =
    if not (l.plan_revision == head_sha) then some l else first_stale head_sha locks

unfoldable pub has_no_changes : Lock → Bool
has_no_changes l =
    nat_eq (length l.plan_diffs) 0
    && (l.plan_output == codes "No changes detected" || l.plan_output == [])

unfoldable pub setting_of : Bool → (RepoConfig → Option Bool) → Option RepoConfig → Bool
setting_of by_default field none = by_default
setting_of by_default field (some config) = or_else (field config) by_default

abbrev pub named_in : List Application → Lock → Bool
named_in [] l = false
named_in (a ∷ apps) l = l.application == a.name || named_in apps l

module _ (R : Redis) (J : LockCodec) (E : Services) where
  -- `filterSyncLocks`: the locks of the name, or else those of the ApplicationSet of the name.
  unfoldable pub filter_by_set : List Lock → Text → List Lock → Doing R E (List Lock)
  filter_by_set locks app (l ∷ found) = pure (l ∷ found)
  filter_by_set locks app [] = do
    apps ←
        context (codes "listing applications for applicationset " ++ E.quoted app)
          (on_argo (E.argo.get_applications_by_application_set app))
    pure (select (named_in apps) locks)

  unfoldable pub filter_sync_locks : List Lock → Text → Doing R E (List Lock)
  filter_sync_locks locks app = filter_by_set locks app (select (λ l. l.application == app) locks)

  -- The results so far, and the tracker.
  abbrev pub Progress : Type 0
  Progress = List SyncOutcome × Tracker

  unfoldable pub record_result : PrEvent → ℕ → SyncOutcome → Progress → Doing R E Progress
  record_result event i o p = do t ← update_result R E event i o p.1; pure (set_at i o p.0, t)

  unfoldable pub skip_parent : PrEvent → ℕ → Option Lock → Progress → Doing R E Progress
  skip_parent event i none p = pure p
  skip_parent event i (some l) p =
      record_result event i
        (succeeded_with l (codes "Skipped — parent app will reconcile on PR merge")
          E.health_unknown)
        p

  unfoldable pub skip_parents : PrEvent → List Lock → List ℕ → Progress → Doing R E Progress
  skip_parents event locks [] p = pure p
  skip_parents event locks (i ∷ is) p = do
    p' ← skip_parent event i (lock_at i locks) p
    skip_parents event locks is p'

  unfoldable pub sync_target :
      Command → PrEvent → Files R E → Bool → ℕ → Option Lock → Progress → Doing R E Progress
  sync_target cmd event files skip i none p = pure p
  sync_target cmd event files skip i (some l) p =
      if skip && has_no_changes l
      then record_result event i
          (succeeded_with l (codes "Skipped — no changes detected") E.health_unknown) p
      else do o ← sync_application R E l cmd event files; record_result event i o p

  unfoldable pub sync_targets :
      Command → PrEvent → Files R E → Bool → List Lock → List ℕ → Progress → Doing R E Progress
  sync_targets cmd event files skip locks [] p = pure p
  sync_targets cmd event files skip locks (i ∷ is) p = do
    p' ← sync_target cmd event files skip i (lock_at i locks) p
    sync_targets cmd event files skip locks is p'

  -- The loop over the locks and their results.
  unfoldable pub revert_rewritten : PrEvent → List Lock → List SyncOutcome → Doing R E (Unit {0})
  revert_rewritten event (l ∷ locks) (o ∷ os) = do
    when (is_new l.change_type || o.target_rev_rewritten)
        (revert_target_revision R E l.application event)
    revert_rewritten event locks os
  revert_rewritten event _ _ = pure tt

  -- A list that is nil, like one that could not be read, is replaced by that of the sync.
  unfoldable pub restore_listed : PrEvent → List Lock → Result (List Lock) → Doing R E (Unit {0})
  restore_listed event locks (err e) = release_locks R J E event locks
  restore_listed event locks (ok []) = release_locks R J E event locks
  restore_listed event locks (ok (l ∷ ls)) = do
    restore_all_auto_sync R E (l ∷ ls) event.repo.full_name event.pr.number
    release_locks R J E event (l ∷ ls)

  unfoldable pub after_merge :
      PrEvent → List Lock → List SyncOutcome → Result (Unit {0}) → Doing R E (Unit {0})
  after_merge event locks outcomes (err e) = pure tt
  after_merge event locks outcomes (ok _) = do
    revert_rewritten event locks outcomes
    updated ← attempt (on_redis (list_by_pr R J event.repo.full_name event.pr.number))
    restore_listed event locks updated

  unfoldable pub finish_sync :
      Command → PrEvent → Option RepoConfig → List Lock → Progress → Doing R E (Unit {0})
  finish_sync cmd event config locks p = do
    let auto_merge = setting_of E.config.auto_merge (λ (k : RepoConfig). k.auto_merge) config
    when (all_synced p.0 && not cmd.dry_run && auto_merge)
        (attempt (auto_merge_pr R E event) >>= after_merge event locks p.0)
    post_final R E event (E.render_sync (map (sync_entry E.phase_text) p.0) E.vcs.max_comment_size)
        p.1

  unfoldable pub files_or_none : Result (Files R E) → Files R E
  files_or_none (ok files) = files
  files_or_none (err e) = []

  unfoldable pub fetch_sources : PrEvent → List Text → Doing R E (Files R E)
  fetch_sources event [] = pure []
  fetch_sources event (p ∷ paths) = do
    files ← attempt (
        on_vcs
          (E.vcs.get_file_contents event.repo.owner event.repo.name (p ∷ paths) event.pr.head_ref))
    pure (files_or_none files)

  unfoldable pub sync_locks :
      Command → PrEvent → Option RepoConfig → List Lock → Doing R E (Unit {0})
  sync_locks cmd event config locks = do
    let apps = map (λ (l : Lock). l.application) locks
    t ← post_initial R E event (new_tracker apps)
    files ← fetch_sources event (source_paths locks)
    targets ← compute_sync_targets R E locks
    p ← skip_parents event locks targets.1 (map (λ l. no_outcome) locks, t)
    let skip = setting_of E.config.skip_no_changes (λ (k : RepoConfig). k.skip_no_changes) config
    p' ← sync_targets cmd event files skip locks targets.0 p
    finish_sync cmd event config locks p'

  unfoldable pub sync_disabled :
      Command → PrEvent → Option RepoConfig → List Lock → Result (Unit {0}) → Doing R E (Unit {0})
  sync_disabled cmd event config locks (err e) =
      post_error R E event (wrapped (codes "disabling auto-sync") e)
  sync_disabled cmd event config locks (ok _) = sync_locks cmd event config locks

  unfoldable pub sync_fresh :
      Command → PrEvent → Option RepoConfig → List Lock → Option Lock → Doing R E (Unit {0})
  sync_fresh cmd event config locks (some l) = post_comment R E event (
      codes "## Lemuria Sync\n\n⚠"
      ++ (0xfe0f ∷ codes " Plan for `"
          ++ (l.application ++ codes "` is stale. Please run `lemuria plan` again.")))
  sync_fresh cmd event config locks none = do
    r ← attempt (when (not cmd.dry_run) (disable_auto_sync_for_locks R J E event locks))
    sync_disabled cmd event config locks r

  unfoldable pub sync_checked :
      Command → PrEvent → Option RepoConfig → List Lock → Result (Unit {0}) → Doing R E (Unit {0})
  sync_checked cmd event config locks (err e) =
      post_comment R E event (codes "## Lemuria Sync\n\n❌ " ++ E.error_text e)
  sync_checked cmd event config locks (ok _) =
      sync_fresh cmd event config locks (first_stale event.pr.head_sha locks)

  unfoldable pub sync_filtered :
      Command → PrEvent → Option (Option RepoConfig) → Result (List Lock) → Doing R E (Unit {0})
  sync_filtered cmd event cached (err e) = post_error R E event e
  sync_filtered cmd event cached (ok []) = post_comment R E event (
      codes "## Lemuria Sync\n\n⚠"
      ++ (0xfe0f ∷ codes " Application `"
          ++ (cmd.application ++ codes "` is not locked by this PR.")))
  sync_filtered cmd event cached (ok (l ∷ locks)) = do
    config ← get_repo_config R E event cached
    r ← attempt (check_sync_requirements R E event config (l ∷ locks))
    sync_checked cmd event config (l ∷ locks) r

  unfoldable pub sync_chosen : Command → List Lock → Doing R E (List Lock)
  sync_chosen cmd locks =
      if cmd.application == [] then pure locks else filter_sync_locks locks cmd.application

  unfoldable pub sync_listed :
      Command → PrEvent → Option (Option RepoConfig) → Result (List Lock) → Doing R E (Unit {0})
  sync_listed cmd event cached (err e) = post_error R E event (wrapped (codes "listing locks") e)
  sync_listed cmd event cached (ok []) = post_comment R E event (
      codes "## Lemuria Sync\n\n⚠"
      ++ (0xfe0f ∷ codes " No applications are locked by this PR. Run `lemuria plan` first."))
  sync_listed cmd event cached (ok (l ∷ locks)) =
      attempt (sync_chosen cmd (l ∷ locks)) >>= sync_filtered cmd event cached

  unfoldable pub execute_sync :
      Command → PrEvent → Option (Option RepoConfig) → Doing R E (Unit {0})
  execute_sync cmd event cached = do
    react R E event event.comment
    locks ← attempt (on_redis (list_by_pr R J event.repo.full_name event.pr.number))
    sync_listed cmd event cached locks
