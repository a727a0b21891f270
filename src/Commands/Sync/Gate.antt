-- ===== src/Commands/Sync/Gate.antt =====
-- internal/commands/sync.go: what has been asked and found before a sync reaches Argo CD.
use lemuria.Prelude.{
  ◌||◌, codes, if◌then◌else◌, Text, Bool, true, false, ◌==◌, Option, Option-cases, none, some, List,
  [], ◌∷◌, All, ◌≡◌, ◌⊎◌, inl, inr, refl, ap, ◌∙◌, Bool-cases, eq_iff, arith,
}
use lemuria.Effect.{Result, ok, err, Result-cases}
use lemuria.Model.Event.{PrEvent, PullRequestDetail, Comment}
use lemuria.Model.Lock.{Lock}
use lemuria.Redis.{Redis}
use lemuria.Locking.Manager.{LockCodec, list_by_pr}
use lemuria.Services.World.{World, pure, lift, attempt, logged, when, ◌>>=◌, on_redis, on_vcs}
use lemuria.Services.Config.{RepoConfig}
use lemuria.Services.Executor.{
  Services, react, post_comment, post_error, parse_repo_config, get_repo_config,
}
use lemuria.Commands.Command.{Command}
use lemuria.Commands.Sync.Requirements.{
  app_requires_approval, is_approval_required, check_approved, check_mergeable, check_approval_for,
  check_sync_requirements,
}
use lemuria.Commands.Sync.Execute.{
  filter_sync_locks, first_stale, sync_fresh, sync_checked, sync_filtered, sync_chosen, sync_listed,
  execute_sync,
}

or_true : (b : Bool) → (b || true) ≡ true
or_true true = refl
or_true false = refl

-- Every plan is of the commit.
abbrev pub AllFresh : Text → List Lock → Type 0
AllFresh head_sha locks = All (λ (l : Lock). l.plan_revision ≡ head_sha) locks

first_stale-AllFresh :
    (head_sha : Text) (locks : List Lock)
    → first_stale head_sha locks ≡ none
    → AllFresh head_sha locks
unfolding first_stale
first_stale-AllFresh head_sha [] h = tt
first_stale-AllFresh head_sha (l ∷ locks) h = elim (Bool-cases (l.plan_revision == head_sha)) [
  | inl e ↦ ((eq_iff l.plan_revision head_sha).0 e, first_stale-AllFresh head_sha locks (rw e at h))
  | inr e ↦ absurd (ground (arith, e, h))
]

module _ (R : Redis) (J : LockCodec) (E : Services) (event : PrEvent) where
  abbrev W : Type 0
  W = World R.Db E.argo.State E.vcs.State

  -- The configuration that the event keeps, or the one that the provider answers with, and the
  -- state of the provider behind it.
  abbrev pub config_read :
      Option (Option RepoConfig) → E.vcs.State → Option RepoConfig × E.vcs.State
  config_read (some loaded) v = (loaded, v)
  config_read none v =
      let r = E.vcs.get_repo_config event.repo.owner event.repo.name event.pr.head_ref v in
      (parse_repo_config R E r.0, r.1)

  -- The state of the provider behind the reaction to the comment.
  abbrev pub reacted : Option Comment → E.vcs.State → E.vcs.State
  reacted none v = v
  reacted (some c) v = (E.vcs.add_reaction event.repo.owner event.repo.name c.id (codes "eyes") v).1

  -- What the provider answers.
  abbrev pub IsApproved : E.vcs.State → Type 0
  IsApproved v =
      (E.vcs.is_pr_approved event.repo.owner event.repo.name event.pr.number v).0 ≡ ok true

  abbrev pub IsMergeable : Type 0
  IsMergeable =
      (v : E.vcs.State) × (pr : PullRequestDetail) × ((E.vcs.get_pr event.repo.owner event.repo.name
          event.pr.number v).0
        ≡ ok pr)
      × (pr.mergeable ≡ true)

  -- Where the configuration asks for the approval of one of the applications, the pull request is
  -- approved.
  abbrev pub AllApproved : Option RepoConfig → E.vcs.State → List Lock → Type 0
  AllApproved config v locks =
      All
        (λ (l : Lock).
          app_requires_approval E.match_string E.quote_meta E.config.require_approval config
              l.application
            ≡ true
          → IsApproved v)
        locks

  -- The applications may be synced, by the configuration and the answers that are read from `v` on.
  pub record MaySync (cached : Option (Option RepoConfig)) (v : E.vcs.State) (locks : List Lock)
      : Type 0 where
    pub approved : AllApproved (config_read cached v).0 (config_read cached v).1 locks
    pub mergeable : IsMergeable
    pub fresh : AllFresh event.pr.head_sha locks

  required-AllApproved :
      (config : Option RepoConfig) (v : E.vcs.State) (locks : List Lock)
      → (is_approval_required E.match_string E.quote_meta E.config.require_approval config locks
            ≡ true
          → IsApproved v)
      → AllApproved config v locks
  unfolding is_approval_required
  required-AllApproved config v [] h = tt
  required-AllApproved config v (l ∷ locks) h =
      let app =
        app_requires_approval E.match_string E.quote_meta E.config.require_approval config
          l.application in
      let rest =
        is_approval_required E.match_string E.quote_meta E.config.require_approval config locks in
      (
        λ e. h (ap (λ b. b || rest) e),
        required-AllApproved config v locks (λ e. h (ap (λ b. app || b) e ∙ or_true app)),
      )

  check_approved_lem :
      (r : Result Bool) (s : W)
      → ((check_approved R E r s).1.1 ≡ s.1) × ((check_approved R E r s).0 ≡ ok tt → r ≡ ok true)
  unfolding check_approved lift pure
  check_approved_lem (err e) s = (refl, λ h. absurd (ground (arith, h)))
  check_approved_lem (ok false) s = (refl, λ h. absurd (ground (arith, h)))
  check_approved_lem (ok true) s = (refl, λ h. refl)

  check_mergeable_lem :
      (r : Result PullRequestDetail) (s : W)
      → ((check_mergeable R E r s).1.1 ≡ s.1)
        × ((check_mergeable R E r s).0 ≡ ok tt
            → (pr : PullRequestDetail) × (r ≡ ok pr) × (pr.mergeable ≡ true))
  unfolding check_mergeable lift pure
  check_mergeable_lem (err e) s = (refl, λ h. absurd (ground (arith, h)))
  check_mergeable_lem (ok pr) s = elim (Bool-cases pr.mergeable) [
    | inl e ↦ (ground (arith, e), λ h. (pr, refl, e))
    | inr e ↦ (ground (arith, e), λ h. absurd (ground (arith, e, h)))
  ]

  check_approval_for_lem :
      (required : Bool) (s : W)
      → ((check_approval_for R E event required s).1.1 ≡ s.1)
        × ((check_approval_for R E event required s).0 ≡ ok tt → required ≡ true → IsApproved s.2)
  unfolding check_approval_for when pure attempt on_vcs ◌>>=◌
  check_approval_for_lem false s = (refl, λ h e. absurd (ground (arith, e)))
  check_approval_for_lem true s =
      let (x, y) =
        check_approved_lem
          (E.vcs.is_pr_approved event.repo.owner event.repo.name event.pr.number s.2).0 _ in
      (x, λ h e. y h)

  check_sync_requirements_lem :
      (config : Option RepoConfig) (locks : List Lock) (s : W)
      → ((check_sync_requirements R E event config locks s).1.1 ≡ s.1)
        × ((check_sync_requirements R E event config locks s).0 ≡ ok tt
            → AllApproved config s.2 locks × IsMergeable)
  unfolding check_sync_requirements attempt on_vcs ◌>>=◌
  check_sync_requirements_lem config locks s =
      let required =
        is_approval_required E.match_string E.quote_meta E.config.require_approval config locks in
      let m = check_approval_for R E event required s in
      let (x, y) = check_approval_for_lem required s in
      elim (Result-cases m.0) [
        | inr (e, q) ↦ rw q (x, λ h. absurd (ground (arith, h)))
        | inl (done, q) ↦
            let pr = E.vcs.get_pr event.repo.owner event.repo.name event.pr.number m.1.2 in
            let (x', y') = check_mergeable_lem pr.0 (m.1.0, m.1.1, pr.1) in
            rw q (
              x' ∙ x,
              λ h.
                  let (d, e, k) = y' h in
                  (required-AllApproved config s.2 locks (y q), (m.1.2, d, e, k)),
            )
      ]

  -- Argo CD is left alone, or the applications may be synced.
  abbrev Left : Option (Option RepoConfig) → E.vcs.State → W → W → List Lock → Type 0
  Left cached v s s' locks = (s'.1 ≡ s.1) ⊎ MaySync cached v locks

  post_comment-quiet : (body : Text) (s : W) → (post_comment R E event body s).1.1 ≡ s.1
  unfolding post_comment pure on_vcs ◌>>=◌
  post_comment-quiet body s =
      elim (Result-cases
        (E.vcs.post_comment event.repo.owner event.repo.name event.pr.number body false s.2).0) [
          | inl (x, q) ↦ rw q refl
          | inr (e, q) ↦ rw q refl
        ]

  sync_checked_gate :
      (cmd : Command) (cached : Option (Option RepoConfig)) (v : E.vcs.State) (locks : List Lock)
      (r : Result (Unit {0})) (s : W)
      → (r ≡ ok tt
          → AllApproved (config_read cached v).0 (config_read cached v).1 locks × IsMergeable)
      → Left cached v s (sync_checked R J E cmd event (config_read cached v).0 locks r s).1 locks
  unfolding sync_checked sync_fresh
  sync_checked_gate cmd cached v locks (err e) s h = inl (post_comment-quiet _ s)
  sync_checked_gate cmd cached v locks (ok _) s h =
      elim (Option-cases (first_stale event.pr.head_sha locks)) [
        | inr (l, q) ↦ inl (rw q (post_comment-quiet _ s))
        | inl q ↦ inr (record {
          approved = (h refl).0;
          mergeable = (h refl).1;
          fresh = first_stale-AllFresh event.pr.head_sha locks q;
        })
      ]

  get_repo_config_lem :
      (cached : Option (Option RepoConfig)) (s : W)
      → get_repo_config R E event cached s
        ≡ (ok (config_read cached s.2).0, (s.0, s.1, (config_read cached s.2).1))
  unfolding get_repo_config pure attempt on_vcs ◌>>=◌
  get_repo_config_lem (some loaded) s = refl
  get_repo_config_lem none s = refl

  sync_filtered_gate :
      (cmd : Command) (cached : Option (Option RepoConfig)) (locks : List Lock) (s : W)
      → Left cached s.2 s (sync_filtered R J E cmd event cached (ok locks) s).1 locks
  unfolding sync_filtered attempt ◌>>=◌
  sync_filtered_gate cmd cached [] s = inl (post_comment-quiet _ s)
  sync_filtered_gate cmd cached (l ∷ locks) s =
      let (config, v) = config_read cached s.2 in
      let m = check_sync_requirements R E event config (l ∷ locks) (s.0, s.1, v) in
      let (x, y) = check_sync_requirements_lem config (l ∷ locks) (s.0, s.1, v) in
      rw (get_repo_config_lem cached s)
        (elim (sync_checked_gate cmd cached s.2 (l ∷ locks) m.0 m.1 y) [
          | inl same ↦ inl (same ∙ x)
          | inr clear ↦ inr clear
        ])

  -- A sync that reached Argo CD, whose locks are those that were listed.
  abbrev pub Cleared : Option (Option RepoConfig) → E.vcs.State → R.Db → Type 0
  Cleared cached v d =
      (locks : List Lock) × ((list_by_pr R J event.repo.full_name event.pr.number d).0 ≡ ok locks)
      × MaySync cached v locks

  chosen_all :
      (cmd : Command) (locks : List Lock) (s : W)
      → cmd.application ≡ []
      → sync_chosen R J E cmd locks s ≡ (ok locks, s)
  unfolding sync_chosen pure ◌==◌
  chosen_all cmd locks s h =
      ap (λ a. (if a == [] then pure locks else filter_sync_locks R J E locks a) s) h

  sync_listed_gate :
      (cmd : Command) (cached : Option (Option RepoConfig)) (d : R.Db) (r : Result (List Lock))
      (s : W)
      → cmd.application ≡ []
      → (list_by_pr R J event.repo.full_name event.pr.number d).0 ≡ r
      → ((sync_listed R J E cmd event cached r s).1.1 ≡ s.1) ⊎ Cleared cached s.2 d
  unfolding sync_listed post_error attempt ◌>>=◌
  sync_listed_gate cmd cached d (err e) s h q = inl (post_comment-quiet _ s)
  sync_listed_gate cmd cached d (ok []) s h q = inl (post_comment-quiet _ s)
  sync_listed_gate cmd cached d (ok (l ∷ locks)) s h q =
      rw (chosen_all cmd (l ∷ locks) s h) (elim (sync_filtered_gate cmd cached (l ∷ locks) s) [
        | inl same ↦ inl same
        | inr clear ↦ inr (l ∷ locks, q, clear)
      ])

  reacted_gate :
      (cmd : Command) (cached : Option (Option RepoConfig)) (o : Option Comment) (s : W)
      → cmd.application ≡ []
      → (((react R E event o >>= λ _.
              attempt (on_redis (list_by_pr R J event.repo.full_name event.pr.number))
              >>= sync_listed R J E cmd event cached)
            s).1.1
          ≡ s.1)
        ⊎ Cleared cached (reacted o s.2) s.0
  unfolding react logged attempt pure on_vcs on_redis ◌>>=◌
  reacted_gate cmd cached none s h = sync_listed_gate cmd cached s.0 _ _ h refl
  reacted_gate cmd cached (some comment) s h = sync_listed_gate cmd cached s.0 _ _ h refl

  -- A sync of all applications of the pull request leaves Argo CD as it is, unless the listed locks
  -- pass: where the configuration that it read requires approval for the application of one of them,
  -- the provider answered the question behind that read by saying that the pull request is approved;
  -- the provider answered that it can be merged; and every listed plan is of its head commit.
  pub execute_sync-gate :
      (cmd : Command) (cached : Option (Option RepoConfig)) (s : W)
      → cmd.application ≡ []
      → ((execute_sync R J E cmd event cached s).1.1 ≡ s.1)
        ⊎ Cleared cached (reacted event.comment s.2) s.0
  unfolding execute_sync
  execute_sync-gate cmd cached s h = reacted_gate cmd cached event.comment s h
