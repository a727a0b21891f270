-- ===== src/Commands/Execute.antt =====
-- internal/commands/executor.go: Execute and RunAutoplan. The parser makes no other command than
-- the five.
use lemuria.Prelude.{false, Option, []}
use lemuria.Effect.{Result, ok, err, Action}
use lemuria.Model.Event.{PrEvent}
use lemuria.Redis.{Redis}
use lemuria.Locking.Manager.{LockCodec}
use lemuria.Services.Config.{RepoConfig}
use lemuria.Services.Executor.{Services, Doing}
use lemuria.Services.Planner.{Planner}
use lemuria.Commands.Command.{Command, CommandType, plan, sync, unlock, help, rollback}
use lemuria.Commands.Unlock.{Reporter, execute_unlock}
use lemuria.Commands.Help.{execute_help}
use lemuria.Commands.Rollback.{execute_rollback}
use lemuria.Commands.Plan.Execute.{execute_plan}
use lemuria.Commands.Sync.Execute.{execute_sync}

abbrev pub forget : {A : Type 0} → Result A → Result (Unit {0})
forget (ok a) = ok tt
forget (err e) = err e

-- The client of the provider, as the unlock command calls it.
abbrev pub reporter : (E : Services) → Reporter E.vcs.State
reporter E = record {
  add_reaction = E.vcs.add_reaction;
  post_comment = λ owner name n body is_plan v.
      let r = E.vcs.post_comment owner name n body is_plan v in (forget r.0, r.1);
}

abbrev pub plan_command : Command
plan_command = record {
  name = plan;
  application = [];
  all = false;
  prune = false;
  dry_run = false;
  history_id = 0;
  raw_args = [];
}

module _ (R : Redis) (J : LockCodec) (E : Services) (P : Planner E) where
  unfoldable pub on_unlock : {A : Type 0} → Action (R.Db × E.vcs.State) A → Doing R E A
  on_unlock m s = let r = m (s.0, s.2) in (r.0, (r.1.0, s.1, r.1.1))

  unfoldable pub execute_as :
      CommandType → Command → PrEvent → Option (Option RepoConfig) → Doing R E (Unit {0})
  execute_as plan cmd event cached = execute_plan R J E P cmd event
  execute_as sync cmd event cached = execute_sync R J E cmd event cached
  execute_as unlock cmd event cached =
      on_unlock (execute_unlock R J (reporter E) E.error_text cmd event)
  execute_as help cmd event cached = execute_help R E event
  execute_as rollback cmd event cached = execute_rollback R J E cmd event

  -- `cached` is the configuration that the event keeps, if it was read before.
  unfoldable pub execute : Command → PrEvent → Option (Option RepoConfig) → Doing R E (Unit {0})
  execute cmd event cached = execute_as cmd.name cmd event cached

  unfoldable pub run_autoplan : PrEvent → Doing R E (Unit {0})
  run_autoplan event = execute_plan R J E P plan_command event
