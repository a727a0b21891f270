-- ===== src/Commands/UnlockAll.antt =====
-- internal/commands/executor.go: UnlockAll, which a closed or merged pull request runs.
use lemuria.Prelude.{codes, Bool, true, false, not, ◌||◌, List, [], ◌∷◌}
use lemuria.Model.Application.{ApplicationChangeType, deleted}
use lemuria.Model.Event.{PrEvent}
use lemuria.Model.Lock.{Lock}
use lemuria.Redis.{Redis}
use lemuria.Locking.Manager.{LockCodec, list_by_pr, unlock}
use lemuria.Services.World.{pure, context, ◌>>=◌, ◌>>◌, logged, when, on_redis}
use lemuria.Services.Executor.{Services, Doing}
use lemuria.Commands.AutoSync.Restore.{restore_all_auto_sync}
use lemuria.Commands.TargetRevision.{revert_target_revision}

abbrev pub is_deleted : ApplicationChangeType → Bool
is_deleted deleted = true
is_deleted _ = false

module _ (R : Redis) (J : LockCodec) (E : Services) where
  unfoldable pub revert_locks : PrEvent → List Lock → Doing R E (Unit {0})
  revert_locks event [] = pure tt
  revert_locks event (l ∷ locks) = do
    when (not (is_deleted l.change_type || l.is_parent_app))
        (revert_target_revision R E l.application event)
    revert_locks event locks

  unfoldable pub release_locks : PrEvent → List Lock → Doing R E (Unit {0})
  release_locks event [] = pure tt
  release_locks event (l ∷ locks) = do
    logged (on_redis (unlock R J l.application event.repo.full_name event.pr.number))
    release_locks event locks

  unfoldable pub unlock_all : PrEvent → Doing R E (Unit {0})
  unlock_all event = do
    locks ←
        context (codes "listing locks")
          (on_redis (list_by_pr R J event.repo.full_name event.pr.number))
    restore_all_auto_sync R E locks event.repo.full_name event.pr.number
    revert_locks event locks
    release_locks event locks
