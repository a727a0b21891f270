-- ===== src/Services/Executor.antt =====
-- internal/commands/executor.go: the executor, and the comments that every command posts. The lock
-- manager is that of Locking; the renderer, the regular expressions and the reader of
-- .lemuria.yaml are parameters.
use lemuria.Prelude.{ℕ, Text, codes, ◌++◌, Bool, true, false, Option, none, some, List}
use lemuria.Effect.{Error, Result, ok, err, Action}
use lemuria.Model.Event.{PrEvent, Comment, VcsProvider, github, gitlab, other}
use lemuria.Model.Lock.{LockRequest, PlanDiffEntry}
use lemuria.Model.Application.{ApplicationChangeType}
use lemuria.Model.Sync.{SyncPhase, ResourceResult}
use lemuria.Redis.{Redis}
use lemuria.Services.World.{World, pure, attempt, ◌>>=◌, ◌>>◌, logged, on_vcs}
use lemuria.Services.Argo.{Extern, Argo}
use lemuria.Services.Provider.{Provider}
use lemuria.Services.Config.{Config, RepoConfig}

-- pkg/diff/renderer.go
pub record SyncResultEntry : Type 0 where
  pub application : Text
  pub plan_output : Text
  pub plan_diffs : List PlanDiffEntry
  pub error : Option Error
  pub phase : Text
  pub message : Text
  pub resources : List ResourceResult
  pub health_status : Text

pub record Services : Type 1 where
  pub extern : Extern
  pub argo : Argo extern
  pub vcs : Provider
  pub config : Config
  pub load_repo_config : Text → Result RepoConfig
  pub render_sync : List SyncResultEntry → ℕ → Text
  -- The regexp package: a match, where the expression compiles, and QuoteMeta.
  pub match_string : Text → Text → Option Bool
  pub quote_meta : Text → Text
  pub to_lower : Text → Text  -- strings.ToLower
  pub quoted : Text → Text  -- fmt's %q
  pub error_text : Error → Text
  pub phase_text : SyncPhase → Text
  pub health_unknown : Text
  pub health_healthy : Text

abbrev pub provider_text : VcsProvider → Text
provider_text github = codes "github"
provider_text gitlab = codes "gitlab"
provider_text (other t) = t

-- The `models.LockRequest{…}` of a command.
abbrev pub lock_request : PrEvent → Text → ApplicationChangeType → LockRequest
lock_request event application change_type = record {
  application = application;
  pr_number = event.pr.number;
  repo = event.repo.full_name;
  repo_url = event.repo.html_url;
  provider = provider_text event.provider;
  user = event.sender.login;
  change_type = change_type;
}

module _ (R : Redis) (E : Services) where
  -- An action of a command.
  abbrev pub Doing : Type 0 → Type 0
  Doing A = Action (World R.Db E.argo.State E.vcs.State) A

  -- A reaction that fails is only logged.
  unfoldable pub react : PrEvent → Option Comment → Doing (Unit {0})
  react event none = pure tt
  react event (some c) =
      logged (on_vcs (E.vcs.add_reaction event.repo.owner event.repo.name c.id (codes "eyes")))

  -- internal/commands/plan.go
  unfoldable pub post_comment : PrEvent → Text → Doing (Unit {0})
  post_comment event body = do
    on_vcs (E.vcs.post_comment event.repo.owner event.repo.name event.pr.number body false)
    pure tt

  unfoldable pub post_plan_comment : PrEvent → Text → Doing (Unit {0})
  post_plan_comment event body = do
    on_vcs (E.vcs.post_comment event.repo.owner event.repo.name event.pr.number body true)
    pure tt

  unfoldable pub post_error : PrEvent → Error → Doing (Unit {0})
  post_error event e =
      post_comment event (codes "## Lemuria Error\n\n```\n" ++ (E.error_text e ++ codes "\n```"))

  -- The configuration of the repository, which the event keeps once it was read.
  unfoldable pub parse_repo_config : Result Text → Option RepoConfig
  parse_repo_config (err e) = none
  parse_repo_config (ok text) = elim (E.load_repo_config text) [
    | ok config ↦ some config
    | err e ↦ none
  ]

  unfoldable pub get_repo_config : PrEvent → Option (Option RepoConfig) → Doing (Option RepoConfig)
  get_repo_config event (some loaded) = pure loaded
  get_repo_config event none = do
    text ←
        attempt (on_vcs (E.vcs.get_repo_config event.repo.owner event.repo.name event.pr.head_ref))
    pure (parse_repo_config text)
