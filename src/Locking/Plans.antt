-- ===== src/Locking/Plans.antt =====
-- `StorePlan` of internal/lock/redis.go: the plan goes under its own key and into the lock.
use lemuria.Prelude.{
  ℕ, Text, List, Option, none, some, if◌then◌else◌, nat_eq, Bool-cases, ◌≡◌, inl, inr, refl, sym,
  ap, ◌∙◌, arith,
}
use lemuria.Effect.{ok, Result-cases}
use lemuria.Model.Lock.{Lock, PlanDiffEntry}
use lemuria.Redis.{Redis, RedisLaws}
use lemuria.Locking.Keys.{
  lock_ttl, lock_key, plan_key, pr_locks_key, lock_key-ne-plan_key, pr_locks_key-ne-plan_key,
}
use lemuria.Locking.Manager.{LockCodec, store_plan_lock, store_plan}
use lemuria.Locking.Reads.{held, read, held-get_lock, get_lock-cases, held-set_lock}
use lemuria.Locking.Index.{IsIndexed, read-IsIndexed, set_lock-IsIndexed}

-- A lock with a plan in it.
abbrev pub planned : Text → Text → Text → List PlanDiffEntry → Lock → Lock
planned revision source_file plan_output diffs l = record l {
  plan_revision = revision;
  source_file = source_file;
  plan_output = plan_output;
  plan_diffs = diffs;
}

-- The lock after `StorePlan`, by the lock before it: only the number of the pull request counts.
abbrev pub plan_outcome : ℕ → Text → Text → Text → List PlanDiffEntry → Option Lock → Option Lock
plan_outcome n revision source_file plan_output diffs none = none
plan_outcome n revision source_file plan_output diffs (some l) =
    if nat_eq l.pr_number n then some (planned revision source_file plan_output diffs l) else some l

module _ (R : Redis) (J : LockCodec) (L : RedisLaws R) where
  module _ (n : ℕ) (revision source_file plan_output : Text) (diffs : List PlanDiffEntry) where
    abbrev with_plan : Lock → Lock
    with_plan = planned revision source_file plan_output diffs

    abbrev after_plan : Option Lock → Option Lock
    after_plan = plan_outcome n revision source_file plan_output diffs

    store_plan_lock-held :
        (app : Text) (o : Option Lock) (d : R.Db)
        → IsIndexed R J d
        → held R J d app ≡ o
        → (store_plan_lock R J n revision source_file plan_output diffs o d).0 ≡ ok tt
        → (held R J (store_plan_lock R J n revision source_file plan_output diffs o d).1 app
            ≡ after_plan o)
          × IsIndexed R J (store_plan_lock R J n revision source_file plan_output diffs o d).1
    unfolding store_plan_lock
    store_plan_lock-held app none d inv h done = (h, inv)
    store_plan_lock-held app (some l) d inv h done = elim (Bool-cases (nat_eq l.pr_number n)) [
      | inl e ↦
          let there : held R J d l.application ≡ some l = ap (held R J d) (inv.keyed app l h) ∙ h in
          let stored = rw e at done in
          rw e (
            ap (held R J _) (sym (inv.keyed app l h)) ∙ held-set_lock R J L (with_plan l) d stored,
            set_lock-IsIndexed R J L l (with_plan l) d inv there refl refl stored,
          )
      | inr e ↦ rw e (h, inv)
    ]

    plan_set : Text → R.Db → R.Db
    plan_set app d = (R.set (plan_key app n) revision lock_ttl d).1

    plan_set-held : (app : Text) (d : R.Db) (a : Text) → held R J (plan_set app d) a ≡ held R J d a
    unfolding held plan_set
    plan_set-held app d a = rw (
        L.value-set_ne (plan_key app n) revision lock_ttl d (lock_key a)
          (lock_key-ne-plan_key a app n))

    plan_set-IsIndexed : (app : Text) (d : R.Db) → IsIndexed R J d → IsIndexed R J (plan_set app d)
    plan_set-IsIndexed app d inv = record {
      keyed = λ a l h. inv.keyed a l (rw (plan_set-held app d a) at h);
      indexed = λ a l h.
          unfold plan_set in
          L.member-set_ne (plan_key app n) revision lock_ttl d (pr_locks_key l.repo l.pr_number) a
            (pr_locks_key-ne-plan_key l.repo l.pr_number app n)
          ∙ inv.indexed a l (sym (plan_set-held app d a) ∙ h);
    }

    store_plan_step :
        (app : Text) (d : R.Db)
        → (store_plan R J app n revision source_file plan_output diffs d).0 ≡ ok tt
        → store_plan R J app n revision source_file plan_output diffs d
          ≡ store_plan_lock R J n revision source_file plan_output diffs
              (held R J (plan_set app d) app)
              (read R J app (plan_set app d))
    unfolding store_plan plan_set
    store_plan_step app d done =
        elim (Result-cases (R.set (plan_key app n) revision lock_ttl d).0) [
          | inr (e, s) ↦ absurd (ground (arith, s))
          | inl (tt', s) ↦
              let d1 = (R.set (plan_key app n) revision lock_ttl d).1 in
              elim (get_lock-cases R J L app d1) [
                | inl (e, g) ↦ absurd (ground (arith, s, g))
                | inr g ↦ rw (s, g) refl
              ]
        ]

    -- A plan that is stored is found in the lock of its application if, and only if, the lock is of a
    -- pull request with that number: the repository is not compared. The invariant is kept.
    pub store_plan-held :
        (app : Text) (d : R.Db)
        → IsIndexed R J d
        → (store_plan R J app n revision source_file plan_output diffs d).0 ≡ ok tt
        → (held R J (store_plan R J app n revision source_file plan_output diffs d).1 app
            ≡ plan_outcome n revision source_file plan_output diffs (held R J d app))
          × IsIndexed R J (store_plan R J app n revision source_file plan_output diffs d).1
    store_plan-held app d inv done =
        let step = store_plan_step app d done in
        let d1 = plan_set app d in
        let (p, q) =
          store_plan_lock-held app (held R J d1 app) (read R J app d1)
            (read-IsIndexed R J L app d1 (plan_set-IsIndexed app d inv))
            (held-get_lock R J L app d1 app) (rw step at done) in
        rw step (p ∙ ap after_plan (plan_set-held app d app), q)
