-- ===== src/Queue/Dispatch.antt =====
-- internal/queue/handler.go: which call of the executor a task comes to.
use lemuria.Prelude.{
  Text, codes, Bool, true, false, ◌&&◌, ◌||◌, Option, none, some, if◌then◌else◌, ◌==◌, contains, [],
  ◌≡◌, ◌⊎◌, inl, inr, refl, ap, ◌∙◌, Bool-cases, join, arith,
}
use lemuria.Effect.{Error, is_skip_retry, ok, err, Action, pure, lift, context, ◌>>=◌}
use lemuria.Model.Event.{
  VcsProvider, github, gitlab, is_pull_request, is_issue_comment, is_closed, is_push, is_created,
  EventType, pull_request, issue_comment, pull_request_review, PrAction, opened, synchronize,
  closed, created, submitted, PrEvent, Comment, comment_marker, should_autoplan, should_unlock_all,
}
use lemuria.Commands.Command.{Command, command_string, flag_parts}
use lemuria.Commands.Parser.{parse}
use lemuria.Commands.Flags.{IsPrintable}
use lemuria.Commands.RoundTrip.{parse-command_string}
use lemuria.Queue.Handler.{
  Executor, WebhookHandler, WebhookTaskPayload, executor_for, enriched, execute_command,
  handle_comment, handle_issue_comment, process_event, process_payload, process_task,
  process_decoded,
}

-- The specification: at most one call, from a table of types and actions.
pub data Call : Type 0 where
  unlock_all : Call
  autoplan : Call
  command : Command → Call
  nothing : Call

abbrev pub command_call : Option Command → Call
command_call none = nothing
command_call (some cmd) = command cmd

abbrev pub comment_call : Option Comment → Call
comment_call none = nothing
comment_call (some c) =
    if contains c.body comment_marker then nothing else command_call (parse c.body)

abbrev pub call_of : Bool → EventType → PrAction → Option Comment → Call
call_of plans pull_request closed comment = unlock_all
call_of plans pull_request opened comment = if plans then autoplan else nothing
call_of plans pull_request synchronize comment = if plans then autoplan else nothing
call_of plans issue_comment created comment = comment_call comment
call_of plans _ _ comment = nothing

table :
    (plans : Bool) (t : EventType) (a : PrAction) (o : Option Comment)
    → call_of plans t a o ≡ (
        if is_pull_request t && is_closed a
        then unlock_all
        else if is_pull_request t && is_push a && plans
        then autoplan
        else if is_issue_comment t && is_created a
        then comment_call o
        else nothing)
table plans pull_request closed o = refl
table plans pull_request opened o = ground arith
table plans pull_request synchronize o = ground arith
table plans pull_request created o = refl
table plans pull_request submitted o = refl
table plans pull_request (PrAction.other _) o = refl
table plans issue_comment closed o = refl
table plans issue_comment opened o = refl
table plans issue_comment synchronize o = refl
table plans issue_comment created o = refl
table plans issue_comment submitted o = refl
table plans issue_comment (PrAction.other _) o = refl
table plans pull_request_review a o = refl
table plans (EventType.other _) a o = refl

new_comment-call :
    (plans : Bool) (t : EventType) (a : PrAction) (c : Comment)
    → is_issue_comment t && is_created a ≡ true
    → call_of plans t a (some c) ≡ comment_call (some c)
new_comment-call plans issue_comment created c h = refl
new_comment-call plans issue_comment opened c h = absurd (ground (arith, h))
new_comment-call plans issue_comment synchronize c h = absurd (ground (arith, h))
new_comment-call plans issue_comment closed c h = absurd (ground (arith, h))
new_comment-call plans issue_comment submitted c h = absurd (ground (arith, h))
new_comment-call plans issue_comment (PrAction.other _) c h = absurd (ground (arith, h))
new_comment-call plans pull_request a c h = absurd (ground (arith, h))
new_comment-call plans pull_request_review a c h = absurd (ground (arith, h))
new_comment-call plans (EventType.other _) a c h = absurd (ground (arith, h))

printed-call :
    (comment : Comment) (c : Command)
    → comment.body ≡ command_string c
    → contains comment.body comment_marker ≡ false
    → IsPrintable c
    → comment_call (some comment)
      ≡ command (record c { raw_args = join (codes " ") (flag_parts c) })
printed-call comment c b m p = rw m (ap command_call (ap parse b ∙ parse-command_string c p))

module _ {S : Type 0} where
  abbrev pub perform : WebhookHandler S → Executor S → PrEvent → Call → Action S (Unit {0})
  perform h ex event unlock_all = context (codes "unlocking all") (ex.unlock_all event)
  perform h ex event autoplan = context (codes "autoplan") (ex.run_autoplan event)
  perform h ex event (command cmd) = do
    e ← enriched h event
    context (codes "executing command") (ex.execute cmd e)
  perform h ex event nothing = pure tt

  command-perform :
      (h : WebhookHandler S) (ex : Executor S) (event : PrEvent) (o : Option Command)
      → execute_command h ex event o ≡ perform h ex event (command_call o)
  unfolding execute_command
  command-perform h ex event none = refl
  command-perform h ex event (some cmd) = refl

  comment-perform :
      (h : WebhookHandler S) (ex : Executor S) (event : PrEvent) (o : Option Comment)
      → handle_issue_comment h ex event o
        ≡ perform h ex event (
            if is_issue_comment event.type && is_created event.action
            then comment_call o
            else nothing)
  unfolding handle_issue_comment handle_comment
  comment-perform h ex event none =
      elim (Bool-cases (is_issue_comment event.type && is_created event.action)) [
        | inl e ↦ rw e refl
        | inr e ↦ rw e refl
      ]
  comment-perform h ex event (some c) = elim (Bool-cases (is_issue_comment event.type)) [
    | inr t ↦ rw t refl
    | inl t ↦ rw t (elim (Bool-cases (is_created event.action)) [
      | inr a ↦ rw a refl
      | inl a ↦ rw a (elim (Bool-cases (contains c.body comment_marker)) [
        | inl e ↦ rw e refl
        | inr e ↦ rw e (command-perform h ex event (parse c.body))
      ])
    ])
  ]

  -- A task whose event has an executor comes to the call that the table of types and actions names,
  -- and to no other: closing releases the locks, opening and pushing plan where the configuration
  -- says so, and a new comment without the marker of Lemuria executes the command that it holds.
  pub process_event-perform :
      (h : WebhookHandler S) (ex : Executor S) (event : PrEvent)
      → process_event h ex event
        ≡ perform h ex event (call_of h.autoplan event.type event.action event.comment)
  unfolding process_event should_unlock_all should_autoplan
  process_event-perform h ex event =
      elim (Bool-cases (is_pull_request event.type && is_closed event.action)) [
        | inl u ↦ rw (table h.autoplan event.type event.action event.comment, u) refl
        | inr u ↦
            rw (table h.autoplan event.type event.action event.comment, u)
              (elim (Bool-cases
                (is_pull_request event.type && is_push event.action && h.autoplan)) [
                  | inl p ↦ rw p refl
                  | inr p ↦ rw p (comment-perform h ex event event.comment)
                ])
      ]

  abbrev pub IsUnserved : WebhookHandler S → VcsProvider → Type 0
  IsUnserved h github = h.github_executor ≡ none
  IsUnserved h gitlab = h.gitlab_executor ≡ none
  IsUnserved h (VcsProvider.other _) = Unit

  unserved-executor_for :
      (h : WebhookHandler S) (p : VcsProvider)
      → IsUnserved h p
      → (e : Error) × (executor_for h p ≡ err e) × (is_skip_retry e ≡ true)
  unfolding executor_for is_skip_retry
  unserved-executor_for h github u = rw u (_, refl, refl)
  unserved-executor_for h gitlab u = rw u (_, refl, refl)
  unserved-executor_for h (VcsProvider.other _) u = (_, refl, refl)

  -- What the handler cannot give to an executor.
  abbrev pub IsRefused : WebhookHandler S → Option WebhookTaskPayload → Type 0
  IsRefused h none = Unit
  IsRefused h (some payload) =
      (payload.event ≡ none)
      ⊎ ((event : PrEvent) × (payload.event ≡ some event) × IsUnserved h event.provider)

  decoded-refused :
      (h : WebhookHandler S) (s : S) (o : Option WebhookTaskPayload)
      → IsRefused h o
      → (e : Error) × (process_decoded h o s ≡ (err e, s)) × (is_skip_retry e ≡ true)
  unfolding process_payload is_skip_retry
  decoded-refused h s none r = (_, refl, refl)
  decoded-refused h s (some p) (inl e) = rw e (_, refl, refl)
  decoded-refused h s (some p) (inr (event, e, u)) =
      let (x, q, skip) = unserved-executor_for h event.provider u in rw (e, q) (x, refl, skip)

  -- A payload that does not decode, one without an event, and an event of a provider that has no
  -- executor fail with an error that the queue does not retry, and change nothing.
  pub process_task-refused :
      (decode : Text → Option WebhookTaskPayload) (h : WebhookHandler S) (task : Text) (s : S)
      → IsRefused h (decode task)
      → (e : Error) × (process_task decode h task s ≡ (err e, s)) × (is_skip_retry e ≡ true)
  unfolding process_task
  process_task-refused decode h task s r = decoded-refused h s (decode task) r

  enriched-known :
      (h : WebhookHandler S) (event : PrEvent)
      → event.pr.head_ref == [] || event.pr.base_ref == [] ≡ false
      → enriched h event ≡ pure event
  unfolding enriched
  enriched-known h event known = rw known refl

  -- A new comment that is the print of a command and has no marker of Lemuria's own comments, on a
  -- pull request whose branches the event names, has the executor execute that very command,
  -- where the application is a text without spaces and quotes that does not begin with a dash and an
  -- int64 holds the history id.
  pub process_task-command_string :
      (decode : Text → Option WebhookTaskPayload) (h : WebhookHandler S) (ex : Executor S)
      (task delivery : Text) (event : PrEvent) (comment : Comment) (c : Command)
      → decode task ≡ some (record { delivery_id = delivery; event = some event })
      → executor_for h event.provider ≡ ok ex
      → is_issue_comment event.type && is_created event.action ≡ true
      → event.comment ≡ some comment
      → comment.body ≡ command_string c
      → contains comment.body comment_marker ≡ false
      → event.pr.head_ref == [] || event.pr.base_ref == [] ≡ false
      → IsPrintable c
      → process_task decode h task
        ≡ context
            (codes "executing command")
            (ex.execute (record c { raw_args = join (codes " ") (flag_parts c) }) event)
  unfolding process_task process_payload
  process_task-command_string decode h ex task delivery event comment c d x t o b m known p =
      let cmd = record c { raw_args = join (codes " ") (flag_parts c) } in
      ap (process_decoded h) d
      ∙ ap (λ r. lift r >>= λ e. process_event h e event) x
      ∙ process_event-perform h ex event
      ∙ ap (λ q. perform h ex event (call_of h.autoplan event.type event.action q)) o
      ∙ ap (perform h ex event) (new_comment-call h.autoplan event.type event.action comment t)
      ∙ ap (perform h ex event) (printed-call comment c b m p)
      ∙ ap (λ q. q >>= λ e. context (codes "executing command") (ex.execute cmd e))
          (enriched-known h event known)
