-- ===== src/Commands/Sync/Safety.antt =====
-- internal/commands/sync.go: what a sync may do to the locks of other pull requests.
use mathlib.Core.Path.{subst}
use lemuria.Prelude.{
  arith, ℕ, Text, Bool, Option, none, some, List, [], ◌∷◌, ◌≡◌, ◌==◌, ◌&&◌, select, Bool-cases, inl,
  inr,
}
use lemuria.Effect.{Result, ok, err, Result-cases, ok_injective}
use lemuria.Model.Event.{PrEvent}
use lemuria.Model.Lock.{Lock}
use lemuria.Locking.PolicySteps.{list_by_pr-Respects}
use lemuria.Locking.Respects.{Site, Setting}
use lemuria.Services.World.{World, pure, attempt, context, on_argo, ◌>>=◌}
use lemuria.Services.Config.{RepoConfig}
use lemuria.Services.Executor.{Services}
use lemuria.Services.Safe.{
  setting, AllOwn, Safe, Safe-pure, Safe-argo, Safe-vcs, Safe-attempt, Safe-redis, Safe-bind_known,
  Safe-context, Safe-when, Safe-if, Safe-bind, Safe-sub,
}
use lemuria.Services.Replies.{Safe-list}
use lemuria.Commands.Command.{Command}
use lemuria.Commands.AutoSync.Safety.{restore_all_auto_sync-Safe}
use lemuria.Commands.ReleaseSafety.{
  applications, revert_target_revision-Safe, release_locks-Safe, disable_auto_sync_for_locks-Safe,
}
use lemuria.Commands.RollbackSafety.{
  react-Safe, post_comment-Safe, post_error-Safe, get_repo_config-Safe,
}
use lemuria.Commands.Sync.Targets.{compute_sync_targets}
use lemuria.Commands.Sync.Results.{SyncOutcome}
use lemuria.Commands.Sync.Apply.{Files}
use lemuria.Commands.Sync.Execute.{
  Progress, filter_sync_locks, record_result, skip_parent, skip_parents, sync_target, sync_targets,
  revert_rewritten, restore_listed, after_merge, filter_by_set, finish_sync, fetch_sources,
  sync_locks, sync_disabled, sync_fresh, sync_checked, sync_filtered, sync_chosen, sync_listed,
  execute_sync, lock_at, has_no_changes, named_in,
}
use lemuria.Commands.Sync.PartSafety.{
  check_sync_requirements-Safe, auto_merge_pr-Safe, targets_of-Safe, post_initial-Safe,
  update_result-Safe, post_final-Safe, sync_application-Safe,
}

module _ (site : Site) (E : Services) (event : PrEvent) where
  open site use {redis, codec}

  abbrev c : Setting
  c = setting site event

  module _ (apps : List Text) where
    record_result-Safe :
        (i : ℕ) (o : SyncOutcome) (p : Progress redis codec E)
        → Safe c apps (record_result redis codec E event i o p)
    unfolding record_result
    record_result-Safe i o p =
        Safe-bind (update_result-Safe site E event apps i o p.1) (λ t. Safe-pure _)

    skip_parents-Safe :
        (locks : List Lock) (is : List ℕ) (p : Progress redis codec E)
        → Safe c apps (skip_parents redis codec E event locks is p)
    unfolding skip_parents
    skip_parents-Safe locks [] p = Safe-pure p
    skip_parents-Safe locks (i ∷ is) p =
        Safe-bind (one i (lock_at i locks) p) (λ p'. skip_parents-Safe locks is p')
      where
        one :
            (i : ℕ) (l : Option Lock) (p : Progress redis codec E)
            → Safe c apps (skip_parent redis codec E event i l p)
        one i none p = unfold skip_parent in Safe-pure p
        one i (some l) p = unfold skip_parent in record_result-Safe i _ p

    sync_target-Safe :
        (cmd : Command) (files : Files redis E) (skip : Bool) (i : ℕ) (l : Option Lock)
        (p : Progress redis codec E)
        → Safe c apps (sync_target redis codec E cmd event files skip i l p)
    unfolding sync_target
    sync_target-Safe cmd files skip i none p = Safe-pure p
    sync_target-Safe cmd files skip i (some l) p =
        Safe-if (skip && has_no_changes l) (record_result-Safe i _ p) (
          Safe-bind (sync_application-Safe site E event apps l cmd files)
            (λ o. record_result-Safe i o p))

    sync_targets-Safe :
        (cmd : Command) (files : Files redis E) (skip : Bool) (locks : List Lock) (is : List ℕ)
        (p : Progress redis codec E)
        → Safe c apps (sync_targets redis codec E cmd event files skip locks is p)
    unfolding sync_targets
    sync_targets-Safe cmd files skip locks [] p = Safe-pure p
    sync_targets-Safe cmd files skip locks (i ∷ is) p =
        Safe-bind (sync_target-Safe cmd files skip i (lock_at i locks) p)
          (λ p'. sync_targets-Safe cmd files skip locks is p')

    revert_rewritten-Safe :
        (locks : List Lock) (os : List SyncOutcome)
        → Safe c apps (revert_rewritten redis codec E event locks os)
    unfolding revert_rewritten
    revert_rewritten-Safe [] os = Safe-pure tt
    revert_rewritten-Safe (l ∷ locks) [] = Safe-pure tt
    revert_rewritten-Safe (l ∷ locks) (o ∷ os) =
        Safe-bind (Safe-when _ (revert_target_revision-Safe site E event apps l.application))
          (λ _. revert_rewritten-Safe locks os)

    restore_listed-Safe :
        (locks : List Lock) (r : Result (List Lock))
        → Safe c apps (restore_listed redis codec E event locks r)
    unfolding restore_listed
    restore_listed-Safe locks (err e) = release_locks-Safe site E event apps locks
    restore_listed-Safe locks (ok []) = release_locks-Safe site E event apps locks
    restore_listed-Safe locks (ok (l ∷ ls)) =
        Safe-bind (restore_all_auto_sync-Safe c E apps (l ∷ ls))
          (λ _. release_locks-Safe site E event apps (l ∷ ls))

    after_merge-Safe :
        (locks : List Lock) (os : List SyncOutcome) (r : Result (Unit {0}))
        → Safe c apps (after_merge redis codec E event locks os r)
    unfolding after_merge
    after_merge-Safe locks os (err e) = Safe-pure tt
    after_merge-Safe locks os (ok _) = Safe-bind (revert_rewritten-Safe locks os) (λ _.
        Safe-bind (Safe-attempt (Safe-redis _ (λ d k o. list_by_pr-Respects c d k)))
          (λ r. restore_listed-Safe locks r))

    finish_sync-Safe :
        (cmd : Command) (config : Option RepoConfig) (locks : List Lock)
        (p : Progress redis codec E)
        → Safe c apps (finish_sync redis codec E cmd event config locks p)
    unfolding finish_sync
    finish_sync-Safe cmd config locks p =
        Safe-bind
          (Safe-when _ (
            Safe-bind (Safe-attempt (auto_merge_pr-Safe site E event apps))
              (λ r. after_merge-Safe locks p.0 r)))
          (λ _. post_final-Safe site E event apps _ p.1)

    fetch_sources-Safe : (paths : List Text) → Safe c apps (fetch_sources redis codec E event paths)
    unfolding fetch_sources
    fetch_sources-Safe [] = Safe-pure []
    fetch_sources-Safe (p ∷ paths) = Safe-bind (Safe-attempt (Safe-vcs _)) (λ r. Safe-pure _)

    sync_locks-Safe :
        (cmd : Command) (config : Option RepoConfig) (locks : List Lock)
        → Safe c apps (sync_locks redis codec E cmd event config locks)
    unfolding sync_locks compute_sync_targets
    sync_locks-Safe cmd config locks = Safe-bind (post_initial-Safe site E event apps _) (λ t.
        Safe-bind (fetch_sources-Safe _) (λ files.
          Safe-bind (targets_of-Safe site E event apps _) (λ targets.
            Safe-bind (skip_parents-Safe locks _ _) (λ p.
              Safe-bind (sync_targets-Safe cmd files _ locks _ p)
                (λ p'. finish_sync-Safe cmd config locks p')))))

    sync_disabled-Safe :
        (cmd : Command) (config : Option RepoConfig) (locks : List Lock) (r : Result (Unit {0}))
        → Safe c apps (sync_disabled redis codec E cmd event config locks r)
    unfolding sync_disabled
    sync_disabled-Safe cmd config locks (err e) = post_error-Safe site E event apps _
    sync_disabled-Safe cmd config locks (ok _) = sync_locks-Safe cmd config locks

  -- The pull request's own applications are among those of the locks.
  abbrev IsSub : List Lock → List Lock → Type 0
  IsSub locks ls = (d : redis.Db) → AllOwn c (applications locks) d → AllOwn c (applications ls) d

  select-IsSub : (p : Lock → Bool) (locks : List Lock) → IsSub locks (select p locks)
  select-IsSub p [] d h = tt
  select-IsSub p (l ∷ locks) d (h, hs) = elim (Bool-cases (p l)) [
    | inl e ↦ rw e (h, select-IsSub p locks d hs)
    | inr e ↦ rw e (select-IsSub p locks d hs)
  ]

  abbrev IsSubOk : List Lock → Result (List Lock) → Type 0
  IsSubOk locks (ok ls) = IsSub locks ls
  IsSubOk locks (err e) = Unit {0}

  filter_by_set-IsSub :
      (locks found : List Lock) (app : Text) (s : World redis.Db E.argo.State E.vcs.State)
      (ls : List Lock)
      → IsSub locks found
      → (filter_by_set redis codec E locks app found s).0 ≡ ok ls
      → IsSub locks ls
  unfolding filter_by_set pure ◌>>=◌ context on_argo
  filter_by_set-IsSub locks (l ∷ found) app s ls sub e = subst (IsSub locks) (ok_injective e) sub
  filter_by_set-IsSub locks [] app s ls sub e =
      elim (Result-cases (E.argo.get_applications_by_application_set app s.1).0) [
        | inl (apps, h) ↦
            subst (IsSub locks) (ok_injective (rw h at e)) (select-IsSub (named_in apps) locks)
        | inr (x, h) ↦ ground (arith, h, e)
      ]

  sync_chosen-IsSub :
      (cmd : Command) (locks : List Lock) (s : World redis.Db E.argo.State E.vcs.State)
      (ls : List Lock)
      → (sync_chosen redis codec E cmd locks s).0 ≡ ok ls
      → IsSub locks ls
  unfolding sync_chosen filter_sync_locks pure
  sync_chosen-IsSub cmd locks s ls e = elim (Bool-cases (cmd.application == [])) [
    | inl h ↦ subst (IsSub locks) (ok_injective (rw h at e)) (λ d o. o)
    | inr h ↦
        filter_by_set-IsSub locks _ cmd.application s ls
          (select-IsSub (λ l. l.application == cmd.application) locks) (rw h at e)
  ]

  filter_by_set-Safe :
      (apps : List Text) (locks found : List Lock) (app : Text)
      → Safe c apps (filter_by_set redis codec E locks app found)
  unfolding filter_by_set
  filter_by_set-Safe apps locks (l ∷ found) app = Safe-pure _
  filter_by_set-Safe apps locks [] app = Safe-bind (Safe-context _ (Safe-argo _)) (λ r. Safe-pure _)

  sync_chosen-Safe :
      (apps : List Text) (cmd : Command) (locks : List Lock)
      → Safe c apps (sync_chosen redis codec E cmd locks)
  unfolding sync_chosen filter_sync_locks
  sync_chosen-Safe apps cmd locks =
      Safe-if (cmd.application == []) (Safe-pure locks)
        (filter_by_set-Safe apps locks _ cmd.application)

  sync_fresh-Safe :
      (cmd : Command) (config : Option RepoConfig) (locks : List Lock) (o : Option Lock)
      → Safe c (applications locks) (sync_fresh redis codec E cmd event config locks o)
  unfolding sync_fresh
  sync_fresh-Safe cmd config locks (some l) = post_comment-Safe site E event _ _
  sync_fresh-Safe cmd config locks none =
      Safe-bind (Safe-attempt (Safe-when _ (disable_auto_sync_for_locks-Safe site E event locks)))
        (λ r. sync_disabled-Safe _ cmd config locks r)

  sync_checked-Safe :
      (cmd : Command) (config : Option RepoConfig) (locks : List Lock) (r : Result (Unit {0}))
      → Safe c (applications locks) (sync_checked redis codec E cmd event config locks r)
  unfolding sync_checked
  sync_checked-Safe cmd config locks (err e) = post_comment-Safe site E event _ _
  sync_checked-Safe cmd config locks (ok _) = sync_fresh-Safe cmd config locks _

  sync_filtered-Safe :
      (cmd : Command) (cached : Option (Option RepoConfig)) (locks : List Lock)
      (r : Result (List Lock))
      → IsSubOk locks r
      → Safe c (applications locks) (sync_filtered redis codec E cmd event cached r)
  unfolding sync_filtered
  sync_filtered-Safe cmd cached locks (err e) sub = post_error-Safe site E event _ e
  sync_filtered-Safe cmd cached locks (ok []) sub = post_comment-Safe site E event _ _
  sync_filtered-Safe cmd cached locks (ok (l ∷ ls)) sub =
      Safe-bind (get_repo_config-Safe site E event _ cached) (λ config.
        Safe-bind (Safe-attempt (check_sync_requirements-Safe site E event _ config (l ∷ ls)))
          (λ r. Safe-sub (applications (l ∷ ls)) sub (sync_checked-Safe cmd config (l ∷ ls) r)))

  sync_listed-Safe :
      (cmd : Command) (cached : Option (Option RepoConfig)) (locks : List Lock)
      → Safe c (applications locks) (sync_listed redis codec E cmd event cached (ok locks))
  unfolding sync_listed
  sync_listed-Safe cmd cached [] = post_comment-Safe site E event _ _
  sync_listed-Safe cmd cached (l ∷ locks) =
      Safe-bind_known (IsSubOk (l ∷ locks)) (λ s r e. known s r e)
        (Safe-attempt (sync_chosen-Safe _ cmd (l ∷ locks)))
        (λ r sub. sync_filtered-Safe cmd cached (l ∷ locks) r sub)
    where
      known :
          (s : World redis.Db E.argo.State E.vcs.State) (r : Result (List Lock))
          → (attempt (sync_chosen redis codec E cmd (l ∷ locks)) s).0 ≡ ok r
          → IsSubOk (l ∷ locks) r
      known s (err x) e = tt
      known s (ok ls) e =
          sync_chosen-IsSub cmd (l ∷ locks) s ls (ok_injective (unfold attempt in e))

  pub execute_sync-Safe :
      (cmd : Command) (cached : Option (Option RepoConfig))
      → Safe c [] (execute_sync redis codec E cmd event cached)
  unfolding execute_sync
  execute_sync-Safe cmd cached = Safe-bind (react-Safe site E event [] event.comment) (λ _.
      Safe-list _ (λ e. unfold sync_listed in post_error-Safe site E event [] _)
        (λ ls. sync_listed-Safe cmd cached ls))
