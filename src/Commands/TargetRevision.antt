-- ===== src/Commands/TargetRevision.antt =====
-- internal/commands/sync.go, executor.go and internal/argocd/utils.go: the revision of the sources
-- that lie in the repository of the pull request is set for it, and set back.
use lemuria.Prelude.{
  Text, codes, ◌==◌, ◌||◌, if◌then◌else◌, Bool, false, none, some, List, [], ◌∷◌, map, nat_eq,
}
use lemuria.Effect.{Result, ok, err}
use lemuria.Model.Application.{Application, get_repo_urls}
use lemuria.Model.Event.{PrEvent}
use lemuria.Redis.{Redis}
use lemuria.Vcs.Helpers.{trim_prefix}
use lemuria.Services.World.{pure, attempt, ◌>>=◌, logged, on_argo}
use lemuria.Services.Argo.{Extern, RawSource, RawSpec, RawApplication}
use lemuria.Services.Executor.{Services, Doing}

-- strings.TrimSuffix
unfoldable pub trim_suffix : Text → Text → Text
trim_suffix [] suffix = []
trim_suffix (c ∷ s) suffix =
    let rest = trim_suffix s suffix in if c ∷ s == suffix then [] else c ∷ rest

-- strings.Replace(u, ":", "/", 1)
unfoldable pub slash_first_colon : Text → Text
slash_first_colon [] = []
slash_first_colon (c ∷ s) =
    let rest = slash_first_colon s in if nat_eq c b':' then b'/' ∷ s else c ∷ rest

module _ (to_lower : Text → Text) where
  unfoldable pub normalize_repo_url : Text → Text
  normalize_repo_url u =
      let http = trim_prefix (trim_prefix (to_lower u) (codes "https://")) (codes "http://") in
      trim_suffix (slash_first_colon (trim_prefix http (codes "git@"))) (codes ".git")

  unfoldable pub same_repo : Text → Text → Bool
  same_repo u v = normalize_repo_url u == normalize_repo_url v

  abbrev pub any_same_repo : Text → List Text → Bool
  any_same_repo repo_url [] = false
  any_same_repo repo_url (u ∷ us) = same_repo u repo_url || any_same_repo repo_url us

  unfoldable pub app_sources_from_repo : Application → Text → Bool
  app_sources_from_repo app repo_url = any_same_repo repo_url (get_repo_urls app)

  module _ (X : Extern) where
    unfoldable pub rewrite_source : Text → Text → RawSource X → RawSource X
    rewrite_source repo_url revision s =
        if same_repo s.repo_url repo_url then record s { target_revision = revision } else s

    abbrev pub rewrite_spec : Text → Text → RawSpec X → RawSpec X
    rewrite_spec repo_url revision spec = record spec {
      source = elim spec.source [
        | none ↦ none
        | some s ↦ some (rewrite_source repo_url revision s)
      ];
      sources = map (rewrite_source repo_url revision) spec.sources;
    }

    unfoldable pub rewrite_target_revision : RawApplication X → Text → Text → RawApplication X
    rewrite_target_revision app repo_url revision = record app {
      spec = rewrite_spec repo_url revision app.spec;
    }

module _ (R : Redis) (E : Services) where
  unfoldable pub revert_found :
      Text → PrEvent → Result (RawApplication E.extern) → Doing R E (Unit {0})
  revert_found application event (err e) = pure tt
  revert_found application event (ok app) =
      let app' =
        rewrite_target_revision E.to_lower E.extern app event.repo.html_url event.pr.base_ref in
      logged (on_argo (E.argo.update_application_spec application app'.spec))

  unfoldable pub revert_target_revision : Text → PrEvent → Doing R E (Unit {0})
  revert_target_revision application event = do
    app ← attempt (on_argo (E.argo.get_application_raw application))
    revert_found application event app
