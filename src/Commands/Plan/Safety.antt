-- ===== src/Commands/Plan/Safety.antt =====
-- internal/commands/plan.go: what a plan may do to the locks of other pull requests.
use mathlib.Core.Path.{subst}
use lemuria.Prelude.{
  if◌then◌else◌, ℕ, Text, Bool, true, false, Option, none, some, List, ◌∷◌, ◌≡◌, inl, inr, refl,
  sym, ap, ◌∙◌, Bool-cases, some_injective, arith,
}
use lemuria.Effect.{Result, ok, err, ok_injective}
use lemuria.Model.Event.{is_closed_state, PullRequestDetail, PrEvent}
use lemuria.Model.Lock.{Lock, LockRequest, LockResult, is_held_by_pr}
use lemuria.Locking.Manager.{lock, lock_after, granted, refused}
use lemuria.Locking.Reads.{held, held-get_lock}
use lemuria.Locking.Grants.{lock_lem, create_lock_lem, refresh_lock_lem}
use lemuria.Locking.Respects.{
  Site, Setting, IsOwn, IsKeyed, IsOpen, Respects, Respects-refl, Respects-trans, IsKeyed-after,
}
use lemuria.Locking.Steps.{force_unlock-Respects, store_plan-Respects, lock-Respects, lock-IsOwn}
use lemuria.Services.World.{World, pure, attempt, ◌>>=◌, on_redis, on_vcs}
use lemuria.Services.Executor.{Services, lock_request}
use lemuria.Services.Safe.{
  AllOwn, AllOwn-Respects, continue-Respects, setting, Safe, Safe-pure, Safe-vcs, Safe-redis,
  Safe-logged, Safe-if, Safe-bind,
}
use lemuria.Services.Replies.{Holding, Safe-lock}
use lemuria.Services.Planner.{PlanOutcome}
use lemuria.Model.Application.{Application, ApplicationChangeType}
use lemuria.Commands.Plan.Render.{split_repo_full_name}
use lemuria.Commands.Plan.Reclaim.{
  reclaim_checked, reclaim_of, reclaim_stale_lock, store_locked_plan, plan_summary, plan_diffs,
  plan_locked, plan_retried, plan_refused, plan_requested, lock_and_store_plan,
}

module _ (c : Setting) where
  open c use {site}
  open site use {redis, codec, laws}

  lock_after-refused :
      (req : LockRequest) (now : ℕ) (o : Option Lock) (d : redis.Db) (res : LockResult)
      → held redis codec d req.application ≡ o
      → (lock_after redis codec req now (ok o) d).0 ≡ ok res
      → res.acquired ≡ false
      → (l : Lock) × (res.held_by ≡ some l)
        × (held redis codec (lock_after redis codec req now (ok o) d).1 req.application ≡ some l)
  unfolding lock_after
  lock_after-refused req now none d res h done refusal =
      absurd (ground (arith, create_lock_lem redis codec laws req now d res done, refusal))
  lock_after-refused req now (some l) d res h done refusal =
      elim (Bool-cases (is_held_by_pr l req.repo req.pr_number)) [
        | inl e ↦ absurd (
            ground
              (arith, refresh_lock_lem redis codec laws req now l d res (rw e at done), refusal))
        | inr e ↦
            rw e (l, ap (λ (r : LockResult). r.held_by) (sym (ok_injective (rw e at done))), h)
      ]

  -- A request that is refused names the present lock.
  lock-refused :
      (req : LockRequest) (now : ℕ) (d : redis.Db) (res : LockResult)
      → (lock redis codec req now d).0 ≡ ok res
      → res.acquired ≡ false
      → (l : Lock) × (res.held_by ≡ some l)
        × (held redis codec (lock redis codec req now d).1 req.application ≡ some l)
  lock-refused req now d res done refusal = elim (lock_lem redis codec laws req now d) [
    | inl (e, p) ↦ absurd (ground (arith, p, done))
    | inr p ↦ rw p (
        lock_after-refused req now _ _ res
          (held-get_lock redis codec laws req.application d req.application) (rw p at done) refusal)
  ]

-- A pull request that has to be left is not closed, whenever the provider is asked for it.
abbrev pub SparesOpen : Site → Services → Type 0
SparesOpen site E =
    (repo : Text) (n : ℕ) (owner name : Text) (v : E.vcs.State) (pr : PullRequestDetail)
    → site.IsSpared repo n
    → split_repo_full_name repo ≡ some (owner, name)
    → (E.vcs.get_pr owner name n v).0 ≡ ok pr
    → is_closed_state pr.state ≡ false

module _ (site : Site) (E : Services) (event : PrEvent) (spares : SparesOpen site E) where
  open site use {redis, codec}

  abbrev c : Setting
  c = setting site event

  reclaim_checked-Respects :
      (a : Text) (r : Result PullRequestDetail) (s : World redis.Db E.argo.State E.vcs.State)
      → IsKeyed c s.0
      → ((pr : PullRequestDetail) → r ≡ ok pr → is_closed_state pr.state ≡ true → IsOpen c s.0 a)
      → Respects c s.0 (reclaim_checked redis codec E a r s).1.0
  unfolding reclaim_checked pure attempt on_redis ◌>>=◌
  reclaim_checked-Respects a (err e) s k free = Respects-refl c s.0 k
  reclaim_checked-Respects a (ok pr) s k free = elim (Bool-cases (is_closed_state pr.state)) [
    | inl e ↦ rw e (force_unlock-Respects c a s.0 k (free pr refl e))
    | inr e ↦ rw e (Respects-refl c s.0 k)
  ]

  reclaim_of-Respects :
      (a : Text) (l : Lock) (o : Option (Text × Text)) (s : World redis.Db E.argo.State E.vcs.State)
      → IsKeyed c s.0
      → split_repo_full_name l.repo ≡ o
      → held redis codec s.0 a ≡ some l
      → Respects c s.0 (reclaim_of redis codec E a l.pr_number o s).1.0
  unfolding reclaim_of pure attempt on_vcs ◌>>=◌
  reclaim_of-Respects a l none s k e h = Respects-refl c s.0 k
  reclaim_of-Respects a l (some (owner, name)) s k e h =
      reclaim_checked-Respects a (E.vcs.get_pr owner name l.pr_number s.2).0 _ k
        (λ pr e' closed l' h' f spared. absurd (
          ground (
            arith,
            closed,
            spares l.repo l.pr_number owner name s.2 pr
                (subst (λ (x : Lock). site.IsSpared x.repo x.pr_number)
                  (some_injective (sym h' ∙ h)) spared)
                e e',
          )))

  -- The lock that is looked at is the one that the server holds.
  reclaim_stale_lock-Respects :
      (a : Text) (l : Lock) (s : World redis.Db E.argo.State E.vcs.State)
      → IsKeyed c s.0
      → held redis codec s.0 a ≡ some l
      → Respects c s.0 (reclaim_stale_lock redis codec E (some l) a s).1.0
  unfolding reclaim_stale_lock
  reclaim_stale_lock-Respects a l s k h = reclaim_of-Respects a l _ s k refl h

  module _ (apps : List Text) where
    store_locked_plan-Safe :
        (app : Application) (o : PlanOutcome)
        → Safe c (app.name ∷ apps) (store_locked_plan redis codec E event app o)
    unfolding store_locked_plan
    store_locked_plan-Safe app o =
        Safe-bind
          (Safe-logged (
            Safe-redis _ (λ d k own.
              store_plan-Respects c app.name event.pr.number event.pr.head_sha app.source_file
                (plan_summary o) (plan_diffs o) d k own.0)))
          (λ _. Safe-pure _)

    plan_locked_ok-Safe :
        (app : Application) (o : PlanOutcome) (res : LockResult)
        → Safe c (app.name ∷ apps) (plan_locked redis codec E event app o (ok res))
    unfolding plan_locked
    plan_locked_ok-Safe app o res =
        Safe-if res.acquired (store_locked_plan-Safe app o) (Safe-pure _)

    plan_locked_refused-Safe :
        (app : Application) (o : PlanOutcome) (res : LockResult)
        → res.acquired ≡ false
        → Safe c apps (plan_locked redis codec E event app o (ok res))
    unfolding plan_locked
    plan_locked_refused-Safe app o res e = rw e (Safe-pure _)

    plan_retried-Safe :
        (app : Application) (t : ApplicationChangeType) (o : PlanOutcome) (res : LockResult)
        (b : Bool)
        → res.acquired ≡ false
        → Safe c apps (plan_retried redis codec E event app t o res b)
    unfolding plan_retried
    plan_retried-Safe app t o res false e = plan_locked_refused-Safe app o res e
    plan_retried-Safe app t o res true e = Safe-bind (Safe-vcs _) (λ now.
        Safe-lock (lock_request event app.name t) now _ (refl, refl)
          (λ x. unfold plan_locked in Safe-pure _) (λ res' h. plan_locked_ok-Safe app o res')
          (λ res' h. plan_locked_refused-Safe app o res' h))

    plan_refused-Holding :
        (app : Application) (t : ApplicationChangeType) (o : PlanOutcome) (res : LockResult)
        (l : Lock)
        → res.acquired ≡ false
        → Holding c apps app.name l (plan_refused redis codec E event app t o res (some l))
    unfolding plan_refused ◌>>=◌
    plan_refused-Holding app t o res l e = record {
      step = λ s k own h.
          let step = reclaim_stale_lock-Respects app.name l s k h in
          let s' = (reclaim_stale_lock redis codec E (some l) app.name s).1 in
          continue-Respects (reclaim_stale_lock redis codec E (some l) app.name s).0 _ s s' step
            (λ b.
              (plan_retried-Safe app t o res b e).step s' (IsKeyed-after c step)
                (AllOwn-Respects c apps s.0 s'.0 step own));
    }

    plan_requested_refused :
        (app : Application) (t : ApplicationChangeType) (o : PlanOutcome) (res : LockResult)
        (l : Lock)
        → res.acquired ≡ false
        → res.held_by ≡ some l
        → Holding c apps app.name l (plan_requested redis codec E event app t o (ok res))
    unfolding plan_requested
    plan_requested_refused app t o res l e q =
        subst
          (λ b. Holding c apps app.name l (
            if b
            then store_locked_plan redis codec E event app o
            else plan_refused redis codec E event app t o res res.held_by))
          (sym e)
          (subst (λ h. Holding c apps app.name l (plan_refused redis codec E event app t o res h))
            (sym q) (plan_refused-Holding app t o res l e))

    plan_requested_granted :
        (app : Application) (t : ApplicationChangeType) (o : PlanOutcome) (res : LockResult)
        → res.acquired ≡ true
        → Safe c (app.name ∷ apps) (plan_requested redis codec E event app t o (ok res))
    unfolding plan_requested
    plan_requested_granted app t o res e =
        subst
          (λ b. Safe c (app.name ∷ apps) (
            if b
            then store_locked_plan redis codec E event app o
            else plan_refused redis codec E event app t o res res.held_by))
          (sym e) (store_locked_plan-Safe app o)

    -- What follows the first request.
    plan_requested-Respects :
        (app : Application) (t : ApplicationChangeType) (o : PlanOutcome) (r : Result LockResult)
        (s : World redis.Db E.argo.State E.vcs.State)
        → IsKeyed c s.0
        → AllOwn c apps s.0
        → ((res : LockResult) → r ≡ ok res → res.acquired ≡ true → IsOwn c s.0 app.name)
        → ((res : LockResult)
            → r ≡ ok res
            → res.acquired ≡ false
            → (l : Lock) × (res.held_by ≡ some l) × (held redis codec s.0 app.name ≡ some l))
        → Respects c s.0 (plan_requested redis codec E event app t o r s).1.0
    plan_requested-Respects app t o (err e) s k own granted refused =
        unfold plan_requested pure in Respects-refl c s.0 k
    plan_requested-Respects app t o (ok res) s k own granted refused =
        elim (Bool-cases res.acquired) [
          | inl e ↦ (plan_requested_granted app t o res e).step s k (granted res refl e, own)
          | inr e ↦
              let (l, q, h) = refused res refl e in
              (plan_requested_refused app t o res l e q).step s k own h
        ]

    requested-Safe :
        (app : Application) (t : ApplicationChangeType) (o : PlanOutcome) (now : ℕ)
        → Safe c apps (
            attempt (on_redis (lock redis codec (lock_request event app.name t) now))
            >>= plan_requested redis codec E event app t o)
    unfolding attempt on_redis ◌>>=◌
    requested-Safe app t o now = record {
      step = λ s k own.
          let req = lock_request event app.name t in
          let m = lock redis codec req now s.0 in
          let step = lock-Respects c req now s.0 (refl, refl) k in
          Respects-trans c step (
            plan_requested-Respects app t o m.0 (m.1, s.1, s.2) (IsKeyed-after c step)
              (AllOwn-Respects c apps s.0 m.1 step own)
              (λ res e acquired. lock-IsOwn c req now s.0 res (refl, refl) k e acquired)
              (λ res e refusal. lock-refused c req now s.0 res e refusal));
    }

    pub lock_and_store_plan-Safe :
        (app : Application) (t : ApplicationChangeType) (o : PlanOutcome)
        → Safe c apps (lock_and_store_plan redis codec E event app t o)
    unfolding lock_and_store_plan
    lock_and_store_plan-Safe app t o = Safe-bind (Safe-vcs _) (λ now. requested-Safe app t o now)
