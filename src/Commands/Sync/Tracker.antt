-- ===== src/Commands/Sync/Tracker.antt =====
-- internal/commands/sync.go: the comment that follows the progress of a sync. The updates of
-- several syncs exclude each other; here they come one after the other.
use lemuria.Prelude.{
  ℕ, ◌-◌, Text, ◌&&◌, if◌then◌else◌, Bool, false, not, nat_eq, leb, Option, none, some, List, map,
}
use lemuria.Effect.{Result, ok, err}
use lemuria.Model.Event.{PrEvent}
use lemuria.Redis.{Redis}
use lemuria.Services.World.{pure, attempt, ◌>>=◌, on_vcs}
use lemuria.Services.Executor.{Services, Doing, post_comment}
use lemuria.Commands.Sync.Results.{SyncOutcome, set_at, render_progress}

-- An application that is not completed has no outcome; 0 is the id of no comment.
pub record Tracker : Type 0 where
  pub app_names : List Text
  pub outcomes : List (Option SyncOutcome)
  pub comment_id : ℕ
  pub last_update : ℕ

-- One minute, in nanoseconds.
abbrev pub min_update_interval : ℕ
min_update_interval = 60000000000

abbrev pub new_tracker : List Text → Tracker
new_tracker apps = record {
  app_names = apps;
  outcomes = map (λ a. none) apps;
  comment_id = 0;
  last_update = 0;
}

unfoldable pub should_update : Tracker → ℕ → Bool
should_update t now = not (nat_eq t.comment_id 0) && leb min_update_interval (now - t.last_update)

module _ (R : Redis) (E : Services) (event : PrEvent) where
  unfoldable pub initial_posted : Tracker → Result ℕ → Doing R E Tracker
  initial_posted t (err e) = pure t
  initial_posted t (ok id) = do
    now ← on_vcs E.vcs.now
    pure (record t { comment_id = id; last_update = now })

  unfoldable pub post_initial : Tracker → Doing R E Tracker
  post_initial t = do
    id ← attempt (
        on_vcs (
          E.vcs.post_comment event.repo.owner event.repo.name event.pr.number
            (render_progress E.phase_text t.app_names t.outcomes) false))
    initial_posted t id

  unfoldable pub progress_posted : Tracker → Result (Unit {0}) → Doing R E Tracker
  progress_posted t (err e) = pure t
  progress_posted t (ok _) = do now ← on_vcs E.vcs.now; pure (record t { last_update = now })

  unfoldable pub post_progress : Tracker → Doing R E Tracker
  post_progress t = do
    r ← attempt (
        on_vcs (
          E.vcs.update_comment event.repo.owner event.repo.name event.pr.number t.comment_id
            (render_progress E.phase_text t.app_names t.outcomes)))
    progress_posted t r

  unfoldable pub update_result : ℕ → SyncOutcome → Tracker → Doing R E Tracker
  update_result i o t = do
    let t' = record t { outcomes = set_at i (some o) t.outcomes }
    now ← on_vcs E.vcs.now
    if should_update t' now then post_progress t' else pure t'

  unfoldable pub final_updated : Text → Result (Unit {0}) → Doing R E (Unit {0})
  final_updated body (ok _) = pure tt
  final_updated body (err e) = post_comment R E event body

  unfoldable pub post_final : Text → Tracker → Doing R E (Unit {0})
  post_final body t = if nat_eq t.comment_id 0 then post_comment R E event body else do
    r ← attempt (
        on_vcs
          (E.vcs.update_comment event.repo.owner event.repo.name event.pr.number t.comment_id body))
    final_updated body r
