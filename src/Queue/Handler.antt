-- ===== src/Queue/Handler.antt =====
-- internal/queue/handler.go: from a task to a call of the executor. The executor, the clients of
-- the providers and the decoding of a payload are parameters.
use lemuria.Prelude.{
  ℕ, Text, codes, Bool, not, ◌&&◌, ◌||◌, Option, none, some, if◌then◌else◌, ◌==◌, contains, [],
}
use lemuria.Effect.{skip_retry, wrapped, Result, ok, err, Action, pure, fail, lift, context, ◌>>=◌}
use lemuria.Model.Event.{
  VcsProvider, github, gitlab, PrEvent, Comment, PullRequestDetail, comment_marker,
  is_issue_comment, is_created, should_autoplan, should_unlock_all,
}
use lemuria.Commands.Command.{Command}
use lemuria.Commands.Parser.{parse}

-- The calls of commands.Executor and of vcs.Client that the handler makes, over a state.
pub record Executor (S : Type 0) : Type 0 where
  pub unlock_all : PrEvent → Action S (Unit {0})
  pub run_autoplan : PrEvent → Action S (Unit {0})
  pub execute : Command → PrEvent → Action S (Unit {0})

pub record Client (S : Type 0) : Type 0 where
  pub get_pr : Text → Text → ℕ → Action S PullRequestDetail

pub record WebhookHandler (S : Type 0) : Type 0 where
  pub autoplan : Bool  -- `config.Defaults.Autoplan`
  pub github_executor : Option (Executor S)
  pub gitlab_executor : Option (Executor S)
  pub github_vcs : Option (Client S)
  pub gitlab_vcs : Option (Client S)

-- internal/queue/tasks.go
pub record WebhookTaskPayload : Type 0 where
  pub delivery_id : Text
  pub event : Option PrEvent

abbrev pub configured : {S : Type 0} → Text → Option (Executor S) → Result (Executor S)
configured msg none = err (wrapped msg skip_retry)
configured msg (some e) = ok e

unfoldable pub executor_for : {S : Type 0} → WebhookHandler S → VcsProvider → Result (Executor S)
executor_for h github = configured (codes "no GitHub executor configured") h.github_executor
executor_for h gitlab = configured (codes "no GitLab executor configured") h.gitlab_executor
executor_for h (VcsProvider.other p) = err (wrapped (codes "unknown VCS provider") skip_retry)

abbrev pub vcs_for : {S : Type 0} → WebhookHandler S → VcsProvider → Option (Client S)
vcs_for h github = h.github_vcs
vcs_for h gitlab = h.gitlab_vcs
vcs_for h (VcsProvider.other p) = none

-- The assignments of `enrichPRInfo`.
unfoldable pub with_detail : PrEvent → PullRequestDetail → PrEvent
with_detail event detail = record event {
  pr = record event.pr {
    head_sha = detail.head_sha;
    head_ref = detail.head_ref;
    base_ref = detail.base_ref;
    state = detail.state;
    title = detail.title;
    draft = detail.draft;
    merged = detail.merged;
  };
}

abbrev pub fetch_detail : {S : Type 0} → Option (Client S) → PrEvent → Action S PrEvent
fetch_detail none event = fail (wrapped (codes "no VCS client configured for provider") skip_retry)
fetch_detail (some client) event = do
  detail ← client.get_pr event.repo.owner event.repo.name event.pr.number
  pure (with_detail event detail)

unfoldable pub enrich_pr_info : {S : Type 0} → WebhookHandler S → PrEvent → Action S PrEvent
enrich_pr_info h event = fetch_detail (vcs_for h event.provider) event

-- The event with which a command is executed.
unfoldable pub enriched : {S : Type 0} → WebhookHandler S → PrEvent → Action S PrEvent
enriched h event =
    if event.pr.head_ref == [] || event.pr.base_ref == []
    then context (codes "enriching PR info") (enrich_pr_info h event)
    else pure event

unfoldable pub execute_command :
    {S : Type 0} → WebhookHandler S → Executor S → PrEvent → Option Command → Action S (Unit {0})
execute_command h executor event none = pure tt
execute_command h executor event (some cmd) = do
  e ← enriched h event
  context (codes "executing command") (executor.execute cmd e)

unfoldable pub handle_comment :
    {S : Type 0} → WebhookHandler S → Executor S → PrEvent → Comment → Action S (Unit {0})
handle_comment h executor event comment =
    if not (is_created event.action)
    then pure tt
    else if contains comment.body comment_marker
    then pure tt
    else execute_command h executor event (parse comment.body)

unfoldable pub handle_issue_comment :
    {S : Type 0} → WebhookHandler S → Executor S → PrEvent → Option Comment → Action S (Unit {0})
handle_issue_comment h executor event none = pure tt
handle_issue_comment h executor event (some comment) =
    if is_issue_comment event.type then handle_comment h executor event comment else pure tt

unfoldable pub process_event :
    {S : Type 0} → WebhookHandler S → Executor S → PrEvent → Action S (Unit {0})
process_event h executor event =
    if should_unlock_all event
    then context (codes "unlocking all") (executor.unlock_all event)
    else if should_autoplan event && h.autoplan
    then context (codes "autoplan") (executor.run_autoplan event)
    else handle_issue_comment h executor event event.comment

unfoldable pub process_payload :
    {S : Type 0} → WebhookHandler S → Option PrEvent → Action S (Unit {0})
process_payload h none = fail (wrapped (codes "nil event in task payload") skip_retry)
process_payload h (some event) = do
  executor ← lift (executor_for h event.provider)
  process_event h executor event

abbrev pub process_decoded :
    {S : Type 0} → WebhookHandler S → Option WebhookTaskPayload → Action S (Unit {0})
process_decoded h none = fail (wrapped (codes "unmarshaling task payload") skip_retry)
process_decoded h (some payload) = process_payload h payload.event

-- `decode` is json.Unmarshal of a payload.
unfoldable pub process_task :
    {S : Type 0}
    → (Text → Option WebhookTaskPayload)
    → WebhookHandler S
    → Text
    → Action S (Unit {0})
process_task decode h task = process_decoded h (decode task)
