-- ===== src/Commands/Sync/Requirements.antt =====
-- internal/commands/sync.go, executor.go: what has to hold before a sync, and the merge behind it.
use lemuria.Prelude.{
  ℕ, Text, codes, ◌++◌, ◌==◌, ◌||◌, ◌&&◌, if◌then◌else◌, Bool, true, false, not, elem, nat_eq, leb,
  length, Option, none, some, List, [], ◌∷◌,
}
use lemuria.Effect.{failure, Result, ok, err, wrapped}
use lemuria.Model.Event.{PrEvent, PullRequestDetail}
use lemuria.Model.Lock.{Lock}
use lemuria.Redis.{Redis}
use lemuria.Services.World.{pure, lift, attempt, context, ◌>>=◌, ◌>>◌, logged, when, on_vcs}
use lemuria.Services.Config.{RepoConfig, SyncRequirement, default_protected_branches}
use lemuria.Services.Executor.{Services, Doing}

abbrev pub ends_with_slash : Text → Bool
ends_with_slash [] = false
ends_with_slash (c ∷ []) = nat_eq c b'/'
ends_with_slash (c ∷ d ∷ s) = ends_with_slash (d ∷ s)

abbrev pub starts_with_slash : Text → Bool
starts_with_slash [] = false
starts_with_slash (c ∷ s) = nat_eq c b'/'

-- `/expression/`
unfoldable pub is_regex : Text → Bool
is_regex pattern = leb 2 (length pattern) && starts_with_slash pattern && ends_with_slash pattern

-- pattern[1 : len(pattern)-1]
abbrev pub without_last : Text → Text
without_last [] = []
without_last (c ∷ []) = []
without_last (c ∷ d ∷ s) = c ∷ without_last (d ∷ s)

abbrev pub inner : Text → Text
inner [] = []
inner (c ∷ s) = without_last s

-- strings.ContainsRune(pattern, '*')
abbrev pub has_star : Text → Bool
has_star [] = false
has_star (c ∷ s) = nat_eq c b'*' || has_star s

-- strings.ReplaceAll of one character
abbrev pub replace_all : ℕ → Text → Text → Text
replace_all c with [] = []
replace_all c with (d ∷ s) =
    let rest = replace_all c with s in if nat_eq d c then with ++ rest else d ∷ rest

unfoldable pub is_pattern_match : Text → Bool
is_pattern_match pattern = is_regex pattern || has_star pattern

-- A setting that is not nil goes first.
abbrev pub or_else : Option Bool → Bool → Bool
or_else none b = b
or_else (some a) b = a

abbrev pub exact_requirement : List SyncRequirement → Text → Option Bool
exact_requirement [] app = none
exact_requirement (r ∷ rs) app =
    if r.name == app then some r.require_approval else exact_requirement rs app

module _ (match_string : Text → Text → Option Bool) (quote_meta : Text → Text) where
  -- An expression that does not compile matches nothing.
  abbrev pub matched : Option Bool → Bool
  matched none = false
  matched (some b) = b

  abbrev pub glob_expression : Text → Text
  glob_expression pattern =
      codes "^"
      ++ (replace_all 0 (codes ".*") (quote_meta (replace_all b'*' (0 ∷ []) pattern)) ++ codes "$")

  unfoldable pub match_app_name : Text → Text → Bool
  match_app_name pattern name =
      if pattern == name
      then true
      else if is_regex pattern
      then matched (match_string (inner pattern) name)
      else if has_star pattern
      then matched (match_string (glob_expression pattern) name)
      else false

  abbrev pub wildcard_requirement : List SyncRequirement → Text → Option Bool
  wildcard_requirement [] app = none
  wildcard_requirement (r ∷ rs) app =
      if not (r.name == app) && match_app_name r.name app
      then some r.require_approval
      else wildcard_requirement rs app

  unfoldable pub app_requires_approval : Bool → Option RepoConfig → Text → Bool
  app_requires_approval by_default none app = by_default
  app_requires_approval by_default (some config) app =
      or_else (exact_requirement config.sync_requirements app) (
        or_else (wildcard_requirement config.sync_requirements app)
          (or_else config.require_approval by_default))

  unfoldable pub is_approval_required : Bool → Option RepoConfig → List Lock → Bool
  is_approval_required by_default config [] = false
  is_approval_required by_default config (l ∷ locks) =
      app_requires_approval by_default config l.application
      || is_approval_required by_default config locks

unfoldable pub is_protected_branch : Text → List Text → Bool
is_protected_branch branch [] = elem branch default_protected_branches
is_protected_branch branch (p ∷ protected) = elem branch (p ∷ protected)

module _ (R : Redis) (E : Services) where
  unfoldable pub check_approved : Result Bool → Doing R E (Unit {0})
  check_approved (err e) = lift (err (wrapped (codes "checking PR approval") e))
  check_approved (ok approved) =
      if not approved
      then lift (err (failure (codes "PR must be approved before sync")))
      else pure tt

  unfoldable pub check_mergeable : Result PullRequestDetail → Doing R E (Unit {0})
  check_mergeable (err e) = lift (err (wrapped (codes "getting PR status") e))
  check_mergeable (ok pr) =
      if not pr.mergeable
      then lift (err (failure (codes "PR has merge conflicts, please resolve before syncing")))
      else pure tt

  unfoldable pub check_approval_for : PrEvent → Bool → Doing R E (Unit {0})
  check_approval_for event required = when required (
      attempt (on_vcs (E.vcs.is_pr_approved event.repo.owner event.repo.name event.pr.number))
      >>= check_approved)

  -- The configuration is read by the caller, right before.
  unfoldable pub check_sync_requirements :
      PrEvent → Option RepoConfig → List Lock → Doing R E (Unit {0})
  check_sync_requirements event config locks = do
    check_approval_for event
        (is_approval_required E.match_string E.quote_meta E.config.require_approval config locks)
    pr ← attempt (on_vcs (E.vcs.get_pr event.repo.owner event.repo.name event.pr.number))
    check_mergeable pr

  abbrev pub merge_method : Text
  merge_method = if E.config.merge_method == [] then codes "squash" else E.config.merge_method

  unfoldable pub auto_merge_pr : PrEvent → Doing R E (Unit {0})
  auto_merge_pr event = do
    context (codes "merging PR") (
        on_vcs (
          E.vcs.merge_pull_request event.repo.owner event.repo.name event.pr.number event.pr.title
            [] merge_method))
    when
        (E.config.delete_source_branch
          && not (is_protected_branch event.pr.head_ref E.config.protected_branches))
        (logged (on_vcs (E.vcs.delete_branch event.repo.owner event.repo.name event.pr.head_ref)))
