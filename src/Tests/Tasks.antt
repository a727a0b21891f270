-- ===== src/Tests/Tasks.antt =====
-- Tasks of the queue, with an executor that writes down its calls.
use lemuria.Prelude.{
  Text, codes, true, false, Option, none, some, List, [], ◌∷◌, ◌++◌, ◌==◌, has_prefix, contains,
  is_space, join, itoa, ◌||◌, ◌≡◌, refl, inr, arith,
}
use lemuria.Effect.{Error, ok, err, is_skip_retry, Action, context}
use lemuria.Model.Event.{
  VcsProvider, github, gitlab, issue_comment, created, open_state, PrEvent, UserInfo, Comment,
  comment_marker,
}
use lemuria.Commands.Command.{Command, rollback, flag_parts, command_string}
use lemuria.Commands.Flags.{IsPrintable}
use lemuria.Queue.Handler.{
  Executor, WebhookHandler, WebhookTaskPayload, executor_for, process_event, process_task,
}
use lemuria.Queue.Dispatch.{
  process_event-perform, process_task-refused, process_task-command_string, perform, call_of,
}

abbrev Calls : Type 0
Calls = List Text

abbrev note : Text → Action Calls (Unit {0})
note t s = (ok tt, s ++ t ∷ [])

abbrev executor : Executor Calls
executor = record {
  unlock_all = λ e. note (codes "unlock");
  run_autoplan = λ e. note (codes "plan");
  execute = λ c e. note (command_string c);
}

abbrev handler : WebhookHandler Calls
handler = record {
  autoplan = true;
  github_executor = some executor;
  gitlab_executor = none;
  github_vcs = none;
  gitlab_vcs = none;
}

abbrev ann : UserInfo
ann = record { login = codes "ann"; id = 1; avatar_url = [] }

abbrev command : Command
command = record {
  name = rollback;
  application = codes "shop";
  all = false;
  prune = true;
  dry_run = false;
  history_id = 12;
  raw_args = [];
}

abbrev comment : Comment
comment = record { id = 5; body = command_string command; author = ann; created_at = 3 }

abbrev event : VcsProvider → PrEvent
event provider = record {
  provider = provider;
  type = issue_comment;
  action = created;
  repo = record {
    owner = codes "org";
    name = codes "shop";
    full_name = codes "org/shop";
    clone_url = [];
    html_url = [];
  };
  pr = record {
    number = 7;
    title = [];
    body = [];
    state = open_state;
    draft = false;
    merged = false;
    mergeable = none;
    head_sha = codes "abc";
    head_ref = codes "topic";
    base_ref = codes "main";
    author = ann;
    html_url = [];
    updated_at = 2;
  };
  comment = some comment;
  sender = ann;
  received_at = 4;
}

abbrev decode : VcsProvider → Text → Option WebhookTaskPayload
decode provider [] = none
decode provider (c ∷ s) = some (record { delivery_id = c ∷ s; event = some (event provider) })

process_event-perform_example :
    process_event handler executor (event github)
    ≡ perform handler executor (event github) (call_of true issue_comment created (some comment))
process_event-perform_example = process_event-perform handler executor (event github)

process_task-refused_example :
    (e : Error) × (process_task (decode gitlab) handler (codes "x") [] ≡ (err e, []))
    × (is_skip_retry e ≡ true)
process_task-refused_example =
    process_task-refused (decode gitlab) handler (codes "x") [] (inr (event gitlab, refl, refl))

github_run : executor_for handler github ≡ ok executor
unfolding executor_for
github_run = refl

no_marker : contains (command_string command) comment_marker ≡ false
unfolding contains has_prefix command_string flag_parts itoa join ◌==◌
no_marker = refl

branches : (codes "topic" == []) || (codes "main" == []) ≡ false
unfolding ◌==◌
branches = refl

command-IsPrintable : IsPrintable command
unfolding is_space has_prefix
command-IsPrintable = (refl, refl, omega arith)

process_task-command_string_example :
    process_task (decode github) handler (codes "x")
    ≡ context (codes "executing command") (
        executor.execute
          (record command { raw_args = join (codes " ") (flag_parts command) })
          (event github))
process_task-command_string_example =
    process_task-command_string (decode github) handler executor (codes "x") (codes "x")
      (event github) comment command refl github_run refl refl refl no_marker branches
      command-IsPrintable
