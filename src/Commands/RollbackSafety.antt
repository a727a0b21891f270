-- ===== src/Commands/RollbackSafety.antt =====
-- internal/commands/rollback.go: what a rollback may do to the locks of other pull requests. A
-- rollback of a named application writes its policy into the lock, whoever holds it.
use mathlib.Core.Path.{subst}
use lemuria.Prelude.{
  if◌then◌else◌, Text, Bool, not, Option, none, some, List, [], ◌∷◌, ◌≡◌, sym, ◌∙◌, ap, ◌==◌,
}
use lemuria.Effect.{Error, Result, ok, err}
use lemuria.Model.Application.{Application}
use lemuria.Model.Event.{PrEvent, Comment}
use lemuria.Model.Lock.{Lock}
use lemuria.Locking.Respects.{Site, Setting, Respects-rewrite}
use lemuria.Locking.Reads.{held}
use lemuria.Locking.Manager.{update_lock}
use lemuria.Services.Executor.{
  Services, react, post_comment, post_plan_comment, post_error, get_repo_config,
}
use lemuria.Services.Config.{RepoConfig}
use lemuria.Services.Safe.{
  setting, Safe, Safe-pure, Safe-lift, Safe-argo, Safe-vcs, Safe-attempt, Safe-logged, Safe-when,
  Safe-if, Safe-bind,
}
use lemuria.Services.Replies.{Holding, Safe-get, Safe-list, Holding-redis, Holding-context}
use lemuria.Commands.Command.{Command}
use lemuria.Commands.AutoSync.Disable.{AutoSyncState}
use lemuria.Commands.AutoSync.Parents.{max_parent_depth}
use lemuria.Commands.AutoSync.Safety.{disable_parent_auto_sync-Safe}
use lemuria.Commands.DisableLocks.{disabled_lock}
use lemuria.Commands.ReleaseSafety.{applications, disable_auto_sync_for_locks-Safe}
use lemuria.Commands.Rollback.{
  store_rollback_state, keep_rollback_state, disable_auto_sync_for_rollback, check_approval,
  check_rollback_requirements, rollback_application, perform_rollback, rollback_disabled,
  rollback_found, rollback_locked, rollback_each, rollback_ready, rollback_listed, rollback_named,
  rollback_all, rollback_checked, execute_rollback,
}

module _ (site : Site) (E : Services) (event : PrEvent) where
  open site use {redis, codec}

  abbrev c : Setting
  c = setting site event

  pub react-Safe :
      (apps : List Text) (comment : Option Comment) → Safe c apps (react redis E event comment)
  unfolding react
  react-Safe apps none = Safe-pure tt
  react-Safe apps (some comment) = Safe-logged (Safe-vcs _)

  pub post_comment-Safe :
      (apps : List Text) (body : Text) → Safe c apps (post_comment redis E event body)
  unfolding post_comment
  post_comment-Safe apps body = Safe-bind (Safe-vcs _) (λ _. Safe-pure tt)

  pub post_plan_comment-Safe :
      (apps : List Text) (body : Text) → Safe c apps (post_plan_comment redis E event body)
  unfolding post_plan_comment
  post_plan_comment-Safe apps body = Safe-bind (Safe-vcs _) (λ _. Safe-pure tt)

  pub post_error-Safe : (apps : List Text) (e : Error) → Safe c apps (post_error redis E event e)
  unfolding post_error
  post_error-Safe apps e = post_comment-Safe apps _

  pub get_repo_config-Safe :
      (apps : List Text) (cached : Option (Option RepoConfig))
      → Safe c apps (get_repo_config redis E event cached)
  unfolding get_repo_config
  get_repo_config-Safe apps (some loaded) = Safe-pure loaded
  get_repo_config-Safe apps none = Safe-bind (Safe-attempt (Safe-vcs _)) (λ text. Safe-pure _)

  rollback_application-Safe :
      (apps : List Text) (cmd : Command) (app : Application)
      → Safe c apps (rollback_application redis codec E cmd app)
  unfolding rollback_application
  rollback_application-Safe apps cmd app =
      Safe-bind (Safe-attempt (Safe-argo _)) (λ outcome. Safe-pure _)

  rollback_each-Safe :
      (apps : List Text) (cmd : Command) (locks : List Lock)
      → Safe c apps (rollback_each redis codec E cmd locks)
  unfolding rollback_each
  rollback_each-Safe apps cmd [] = Safe-pure []
  rollback_each-Safe apps cmd (l ∷ locks) = Safe-bind (Safe-attempt (Safe-argo _)) (λ app.
      Safe-bind (locked l app)
        (λ r. Safe-bind (rollback_each-Safe apps cmd locks) (λ rest. Safe-pure (r ∷ rest))))
    where
      locked :
          (l : Lock) (app : Result Application)
          → Safe c apps (rollback_locked redis codec E cmd l app)
      locked l (err e) = unfold rollback_locked in Safe-pure _
      locked l (ok app) = unfold rollback_locked in rollback_application-Safe apps cmd app

  rollback_ready-Safe :
      (apps : List Text) (cmd : Command) (locks : List Lock) (r : Result (Unit {0}))
      → Safe c apps (rollback_ready redis codec E cmd event locks r)
  unfolding rollback_ready
  rollback_ready-Safe apps cmd locks (err e) = post_error-Safe apps _
  rollback_ready-Safe apps cmd locks (ok _) =
      Safe-bind (rollback_each-Safe apps cmd locks) (λ results. post_comment-Safe apps _)

  rollback_listed-Safe :
      (cmd : Command) (locks : List Lock)
      → Safe c (applications locks) (rollback_listed redis codec E cmd event (ok locks))
  unfolding rollback_listed
  rollback_listed-Safe cmd [] = post_comment-Safe [] _
  rollback_listed-Safe cmd (l ∷ locks) =
      Safe-bind
        (Safe-attempt (Safe-when _ (disable_auto_sync_for_locks-Safe site E event (l ∷ locks))))
        (λ r. rollback_ready-Safe _ cmd (l ∷ locks) r)

  pub rollback_all-Safe :
      (apps : List Text) (cmd : Command) → Safe c apps (rollback_all redis codec E cmd event)
  unfolding rollback_all
  rollback_all-Safe apps cmd =
      Safe-list _ (λ e. unfold rollback_listed in post_error-Safe apps _)
        (λ ls. rollback_listed-Safe cmd ls)

  check_rollback_requirements-Safe :
      (apps : List Text) → Safe c apps (check_rollback_requirements redis codec E event)
  unfolding check_rollback_requirements
  check_rollback_requirements-Safe apps =
      Safe-if (not E.config.require_approval) (Safe-pure tt)
        (Safe-bind (Safe-attempt (Safe-vcs _)) (λ r. approval r))
    where
      approval : (r : Result Bool) → Safe c apps (check_approval redis codec E r)
      approval (err e) = unfold check_approval in Safe-lift _
      approval (ok approved) =
          unfold check_approval in Safe-if (not approved) (Safe-lift _) (Safe-pure tt)

  -- A rollback of the applications that the pull request has locked.
  pub execute_rollback_all-Safe :
      (cmd : Command) → cmd.application ≡ [] → Safe c [] (execute_rollback redis codec E cmd event)
  unfolding execute_rollback ◌==◌ rollback_all
  execute_rollback_all-Safe cmd h =
      Safe-bind (react-Safe [] event.comment)
        (λ _. Safe-bind (Safe-attempt (check_rollback_requirements-Safe [])) (λ r. checked r))
    where
      checked : (r : Result (Unit {0})) → Safe c [] (rollback_checked redis codec E cmd event r)
      checked (err e) = unfold rollback_checked in post_comment-Safe [] _
      checked (ok _) =
          unfold rollback_checked in
          subst
            (λ a. Safe c [] (
              if not (a == [])
              then rollback_named redis codec E cmd event
              else rollback_all redis codec E cmd event))
            (sym h) (rollback_all-Safe [] cmd)

  -- Whoever holds a lock, its policy may be changed.
  abbrev pub KeepsPolicies : Type 0
  KeepsPolicies =
      (l : Lock) (policy set_name : Text) → site.IsKept l (disabled_lock policy set_name l)

  module _ (keeps : KeepsPolicies) where
    store_rollback_state-Holding :
        (apps : List Text) (app policy : Text) (state : AutoSyncState E.extern) (l : Lock)
        → Holding c apps app l (store_rollback_state redis codec E app policy state (ok (some l)))
    unfolding store_rollback_state update_lock
    store_rollback_state-Holding apps app policy state l =
        let m = disabled_lock policy state.application_set_name l in
        Holding-context _ (
          Holding-redis app l _ (λ d k o e.
            Respects-rewrite c l m d k (ap (held redis codec d) (k app l e) ∙ e)
              (keeps l policy state.application_set_name)))

    keep_rollback_state-Safe :
        (apps : List Text) (app : Text) (state : Option (AutoSyncState E.extern))
        → Safe c apps (keep_rollback_state redis codec E app state)
    unfolding keep_rollback_state
    keep_rollback_state-Safe apps app none = Safe-pure tt
    keep_rollback_state-Safe apps app (some state) = Safe-bind (Safe-lift _) (λ policy.
        Safe-get app _ (λ e. unfold store_rollback_state in Safe-lift _)
          (unfold store_rollback_state in Safe-pure tt)
          (λ l. store_rollback_state-Holding apps app policy state l))

    disable_auto_sync_for_rollback-Safe :
        (apps : List Text) (app : Text)
        → Safe c apps (disable_auto_sync_for_rollback redis codec E event app)
    unfolding disable_auto_sync_for_rollback
    disable_auto_sync_for_rollback-Safe apps app = Safe-bind (Safe-argo _) (λ state.
        Safe-bind (keep_rollback_state-Safe apps app state) (λ _.
          Safe-bind
            (disable_parent_auto_sync-Safe site E event apps max_parent_depth none app (app ∷ []))
            (λ _. Safe-pure tt)))

    rollback_disabled-Safe :
        (apps : List Text) (cmd : Command) (app : Application) (r : Result (Unit {0}))
        → Safe c apps (rollback_disabled redis codec E cmd event app r)
    unfolding rollback_disabled perform_rollback
    rollback_disabled-Safe apps cmd app (err e) = post_comment-Safe apps _
    rollback_disabled-Safe apps cmd app (ok _) =
        Safe-bind (rollback_application-Safe apps cmd app) (λ r. post_comment-Safe apps _)

    rollback_found-Safe :
        (apps : List Text) (cmd : Command) (r : Result Application)
        → Safe c apps (rollback_found redis codec E cmd event r)
    unfolding rollback_found
    rollback_found-Safe apps cmd (err e) = post_comment-Safe apps _
    rollback_found-Safe apps cmd (ok app) =
        Safe-bind
          (Safe-attempt (Safe-when _ (disable_auto_sync_for_rollback-Safe apps cmd.application)))
          (λ r. rollback_disabled-Safe apps cmd app r)

    rollback_named-Safe :
        (apps : List Text) (cmd : Command) → Safe c apps (rollback_named redis codec E cmd event)
    unfolding rollback_named
    rollback_named-Safe apps cmd =
        Safe-bind (Safe-attempt (Safe-argo _)) (λ r. rollback_found-Safe apps cmd r)

    rollback_checked-Safe :
        (apps : List Text) (cmd : Command) (r : Result (Unit {0}))
        → Safe c apps (rollback_checked redis codec E cmd event r)
    unfolding rollback_checked
    rollback_checked-Safe apps cmd (err e) = post_comment-Safe apps _
    rollback_checked-Safe apps cmd (ok _) =
        Safe-if (not (cmd.application == [])) (rollback_named-Safe apps cmd)
          (rollback_all-Safe apps cmd)

    pub execute_rollback-Safe :
        (cmd : Command) → Safe c [] (execute_rollback redis codec E cmd event)
    unfolding execute_rollback
    execute_rollback-Safe cmd = Safe-bind (react-Safe [] event.comment) (λ _.
        Safe-bind (Safe-attempt (check_rollback_requirements-Safe []))
          (λ r. rollback_checked-Safe [] cmd r))
