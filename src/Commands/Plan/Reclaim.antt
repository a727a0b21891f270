-- ===== src/Commands/Plan/Reclaim.antt =====
-- internal/commands/plan.go: reclaimStaleLock and lockAndStorePlan.
use lemuria.Prelude.{
  ℕ, Text, codes, ◌++◌, if◌then◌else◌, Bool, true, false, not, ltb, length, itoa, Option, none,
  some, List, [],
}
use lemuria.Effect.{Error, Result, ok, err, wrapped}
use lemuria.Model.Application.{Application, ApplicationChangeType}
use lemuria.Model.Event.{PrEvent, PullRequestDetail, is_closed_state}
use lemuria.Model.Lock.{Lock, LockResult, PlanDiffEntry}
use lemuria.Redis.{Redis}
use lemuria.Locking.Manager.{LockCodec, lock, force_unlock, store_plan}
use lemuria.Services.World.{pure, attempt, ◌>>=◌, ◌>>◌, logged, on_redis, on_vcs}
use lemuria.Services.Executor.{Services, Doing, lock_request}
use lemuria.Services.Planner.{PlanOutcome}
use lemuria.Commands.Plan.Render.{format_plan_summary, to_plan_diff_entries, split_repo_full_name}

abbrev pub is_ok {ℓ} : {A : Type ℓ} → Result A → Bool
is_ok (ok a) = true
is_ok (err e) = false

-- `LockStatus` where the lock was not acquired.
unfoldable pub refused_status : Option Lock → Text
refused_status none = codes "Locked by another PR"
refused_status (some l) =
    codes "Locked by PR #" ++ (itoa l.pr_number ++ (codes " (" ++ (l.user ++ codes ")")))

abbrev pub lock_failed : PlanOutcome → Error → PlanOutcome
lock_failed o e = record o { failure = some (wrapped (codes "failed to acquire lock") e) }

abbrev pub plan_summary : PlanOutcome → Text
plan_summary o = if ltb 0 (length o.diffs) then format_plan_summary o.summary else []

abbrev pub plan_diffs : PlanOutcome → List PlanDiffEntry
plan_diffs o = if ltb 0 (length o.diffs) then to_plan_diff_entries o.diffs else []

module _ (R : Redis) (J : LockCodec) (E : Services) where
  unfoldable pub reclaim_checked : Text → Result PullRequestDetail → Doing R E Bool
  reclaim_checked app (err e) = pure false
  reclaim_checked app (ok pr) =
      if not (is_closed_state pr.state)
      then pure false
      else do r ← attempt (on_redis (force_unlock R J app)); pure (is_ok r)

  unfoldable pub reclaim_of : Text → ℕ → Option (Text × Text) → Doing R E Bool
  reclaim_of app number none = pure false
  reclaim_of app number (some p) = do
    pr ← attempt (on_vcs (E.vcs.get_pr p.0 p.1 number))
    reclaim_checked app pr

  unfoldable pub reclaim_stale_lock : Option Lock → Text → Doing R E Bool
  reclaim_stale_lock none app = pure false
  reclaim_stale_lock (some held) app =
      reclaim_of app held.pr_number (split_repo_full_name held.repo)

  unfoldable pub store_locked_plan : PrEvent → Application → PlanOutcome → Doing R E PlanOutcome
  store_locked_plan event app o = do
    logged (
        on_redis (
          store_plan R J app.name event.pr.number event.pr.head_sha app.source_file (plan_summary o)
            (plan_diffs o)))
    pure (record o { lock_status = codes "Locked by this PR" })

  -- The outcome of the last request.
  unfoldable pub plan_locked :
      PrEvent → Application → PlanOutcome → Result LockResult → Doing R E PlanOutcome
  plan_locked event app o (err e) = pure (lock_failed o e)
  plan_locked event app o (ok res) =
      if res.acquired
      then store_locked_plan event app o
      else pure (record o { lock_status = refused_status res.held_by })

  unfoldable pub plan_retried :
      PrEvent
      → Application
      → ApplicationChangeType
      → PlanOutcome
      → LockResult
      → Bool
      → Doing R E PlanOutcome
  plan_retried event app change_type o res false = plan_locked event app o (ok res)
  plan_retried event app change_type o res true = do
    now ← on_vcs E.vcs.now
    r ← attempt (on_redis (lock R J (lock_request event app.name change_type) now))
    plan_locked event app o r

  unfoldable pub plan_refused :
      PrEvent
      → Application
      → ApplicationChangeType
      → PlanOutcome
      → LockResult
      → Option Lock
      → Doing R E PlanOutcome
  plan_refused event app change_type o res held = do
    reclaimed ← reclaim_stale_lock held app.name
    plan_retried event app change_type o res reclaimed

  unfoldable pub plan_requested :
      PrEvent
      → Application
      → ApplicationChangeType
      → PlanOutcome
      → Result LockResult
      → Doing R E PlanOutcome
  plan_requested event app change_type o (err e) = pure (lock_failed o e)
  plan_requested event app change_type o (ok res) =
      if res.acquired
      then store_locked_plan event app o
      else plan_refused event app change_type o res res.held_by

  unfoldable pub lock_and_store_plan :
      PrEvent → Application → ApplicationChangeType → PlanOutcome → Doing R E PlanOutcome
  lock_and_store_plan event app change_type o = do
    now ← on_vcs E.vcs.now
    r ← attempt (on_redis (lock R J (lock_request event app.name change_type) now))
    plan_requested event app change_type o r
