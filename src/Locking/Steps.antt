-- ===== src/Locking/Steps.antt =====
-- internal/lock/redis.go: what each operation of the lock manager may do to the locks of others when
-- one pull request calls it.
use mathlib.Core.Path.{subst}
use lemuria.Prelude.{
  ℕ, Text, codes, true, Option, none, some, List, ◌≡◌, ◌≢◌, inl, inr, refl, sym, ap, ◌∙◌,
  Bool-cases, some_injective, nat_eq, arith, eq_refl,
}
use lemuria.Effect.{ok, Result-cases, continue, context, wrap_result-ok, Action}
use lemuria.Model.Lock.{Lock, LockRequest, LockResult, PlanDiffEntry, is_held_by_pr}
use lemuria.Locking.Keys.{lock_key, lock_ttl, plan_key, pr_locks_key, lock_key-ne-plan_key}
use lemuria.Locking.Manager.{
  get_lock, set_lock, new_lock, create_lock, refresh_lock, lock_after, lock, delete_lock,
  force_unlock, unlock_found, unlock, store_plan, store_plan_lock,
}
use lemuria.Locking.Reads.{decoded, held, held-get_lock, get_lock-ok}
use lemuria.Locking.Deletes.{force_unlock_lem, unlock_lem}
use lemuria.Locking.Grants.{lock_lem, refreshed}
use lemuria.Locking.Holders.{lock-Granted}
use lemuria.Locking.Respects.{
  Setting, IsKeyed, IsMine, IsOwn, IsOpen, Respects, Respects-refl, Respects-trans, Respects-same,
  Respects-set_lock, Respects-del, Respects-value, IsOwn-IsOpen, IsKeyed-after, IsOwn-after,
}

module _ (c : Setting) where
  open c use {site, repo, number}
  open site use {redis, codec}

  pub Respects-then :
      {X Y : Type 0} (m : Action redis.Db X) (f : X → Action redis.Db Y) (d : redis.Db)
      → Respects c d (m d).1
      → ((x : X) → (m d).0 ≡ ok x → Respects c (m d).1 (f x (m d).1).1)
      → Respects c d (continue (m d).0 f (m d).1).1
  Respects-then m f d p q = elim (Result-cases (m d).0) [
    | inl (x, e) ↦ rw e (Respects-trans c p (q x e))
    | inr (x, e) ↦ rw e p
  ]

  pub Respects-get_lock :
      (a : Text) (d : redis.Db) → IsKeyed c d → Respects c d (get_lock redis codec a d).1
  Respects-get_lock a d k = Respects-same c d _ k (held-get_lock redis codec c.site.laws a d)

  pub Respects-sadd : (k m : Text) (d : redis.Db) → IsKeyed c d → Respects c d (redis.sadd k m d).1
  Respects-sadd k m d h = Respects-value c d _ h (λ a. c.site.laws.value-sadd k m d (lock_key a))

  pub Respects-srem : (k m : Text) (d : redis.Db) → IsKeyed c d → Respects c d (redis.srem k m d).1
  Respects-srem k m d h = Respects-value c d _ h (λ a. c.site.laws.value-srem k m d (lock_key a))

  pub Respects-expire :
      (k : Text) (t : ℕ) (d : redis.Db) → IsKeyed c d → Respects c d (redis.expire k t d).1
  Respects-expire k t d h =
      Respects-value c d _ h (λ a. c.site.laws.value-expire k t d (lock_key a))

  -- A key that is no key of a lock.
  pub Respects-set :
      (k v : Text) (t : ℕ) (d : redis.Db)
      → ((a : Text) → lock_key a ≢ k)
      → IsKeyed c d
      → Respects c d (redis.set k v t d).1
  Respects-set k v t d ne h =
      Respects-value c d _ h (λ a. c.site.laws.value-set_ne k v t d (lock_key a) (ne a))

  pub Respects-del_other :
      (k : Text) (d : redis.Db)
      → ((a : Text) → lock_key a ≢ k)
      → IsKeyed c d
      → Respects c d (redis.del k d).1
  Respects-del_other k d ne h =
      Respects-value c d _ h (λ a. c.site.laws.value-del_ne k d (lock_key a) (ne a))

  abbrev pub IsOurs : LockRequest → Type 0
  IsOurs req = (req.repo ≡ repo) × (req.pr_number ≡ number)

  new_lock-IsMine : (req : LockRequest) (now : ℕ) → IsOurs req → IsMine c (new_lock req now)
  unfolding new_lock is_held_by_pr
  new_lock-IsMine req now (p, q) = ground (arith, p, q, eq_refl repo)

  ours_holder :
      (req : LockRequest) (l : Lock)
      → IsOurs req
      → is_held_by_pr l repo number ≡ is_held_by_pr l req.repo req.pr_number
  ours_holder req l (p, q) =
      ap (λ r. is_held_by_pr l r number) (sym p) ∙ ap (is_held_by_pr l req.repo) (sym q)

  IsMine-IsOpen :
      (a : Text) (l : Lock) (d : redis.Db)
      → held redis codec d a ≡ some l
      → IsMine c l
      → IsOpen c d a
  IsMine-IsOpen a l d h mine m h' f s =
      absurd (
        ground
          (arith, mine, f, ap (λ x. is_held_by_pr x repo number) (some_injective (sym h ∙ h'))))

  create_lock-Respects :
      (req : LockRequest) (now : ℕ) (d : redis.Db)
      → IsOurs req
      → IsKeyed c d
      → IsOpen c d req.application
      → Respects c d (create_lock redis codec req now d).1
  unfolding create_lock
  create_lock-Respects req now d ours k free =
      let pr_key = pr_locks_key req.repo req.pr_number in
      let stored =
        Respects-set_lock c (new_lock req now) d k (new_lock-IsMine req now ours)
          (unfold new_lock in free) in
      Respects-then (set_lock redis codec (new_lock req now)) _ d stored (λ x e.
        let added = Respects-sadd pr_key req.application _ (IsKeyed-after c stored) in
        Respects-then (context (codes "updating PR index") (redis.sadd pr_key req.application)) _ _
          added (λ y e'. Respects-expire pr_key lock_ttl _ (IsKeyed-after c added)))

  lock_after-Respects :
      (req : LockRequest) (now : ℕ) (o : Option Lock) (d : redis.Db)
      → IsOurs req
      → IsKeyed c d
      → held redis codec d req.application ≡ o
      → Respects c d (lock_after redis codec req now (ok o) d).1
  unfolding lock_after refresh_lock
  lock_after-Respects req now none d ours k h =
      create_lock-Respects req now d ours k (λ l e f s. cc)
  lock_after-Respects req now (some l) d ours k h =
      elim (Bool-cases (is_held_by_pr l req.repo req.pr_number)) [
        | inr e ↦ rw e (Respects-refl c d k)
        | inl e ↦ rw e (
            let mine = ours_holder req l ours ∙ e in
            let same = ap (held redis codec d) (k req.application l h) ∙ h in
            let stored =
              Respects-set_lock c (refreshed req now l) d k (refreshed-IsMine req now l mine)
                (IsMine-IsOpen l.application l d same mine) in
            Respects-then (set_lock redis codec (refreshed req now l)) _ d stored
              (λ x e'. Respects-refl c _ (IsKeyed-after c stored)))
      ]
    where
      refreshed-IsMine :
          (req : LockRequest) (now : ℕ) (l : Lock) → IsMine c l → IsMine c (refreshed req now l)
      refreshed-IsMine req now l h = unfold is_held_by_pr in h

  -- A request of the pull request takes no lock of another.
  pub lock-Respects :
      (req : LockRequest) (now : ℕ) (d : redis.Db)
      → IsOurs req
      → IsKeyed c d
      → Respects c d (lock redis codec req now d).1
  lock-Respects req now d ours k = elim (lock_lem redis codec c.site.laws req now d) [
    | inl (e, p) ↦ rw p (Respects-get_lock req.application d k)
    | inr p ↦
        let behind = Respects-get_lock req.application d k in
        rw p (
          Respects-trans c behind (
            lock_after-Respects req now _ _ ours (IsKeyed-after c behind)
              (held-get_lock redis codec c.site.laws req.application d req.application)))
  ]

  -- A granted request leaves the application to the pull request.
  pub lock-IsOwn :
      (req : LockRequest) (now : ℕ) (d : redis.Db) (res : LockResult)
      → IsOurs req
      → IsKeyed c d
      → (lock redis codec req now d).0 ≡ ok res
      → res.acquired ≡ true
      → IsOwn c (lock redis codec req now d).1 req.application
  lock-IsOwn req now d res ours k done acquired l h =
      let g =
        lock-Granted redis codec c.site.laws req now d res (k req.application) done acquired in
      subst (IsMine c) (some_injective (sym g.stored ∙ h)) (ours_holder req g.holder ours ∙ g.mine)

  -- What a removal does before it deletes the key of the lock.
  delete_lock-before :
      (app : Text) (l : Lock) (d : redis.Db) (a : Text)
      → held redis codec
          (redis.del
            (plan_key app l.pr_number)
            (redis.srem (pr_locks_key l.repo l.pr_number) app d).1).1
          a
        ≡ held redis codec d a
  unfolding held
  delete_lock-before app l d a = ap (decoded codec) (
      c.site.laws.value-del_ne (plan_key app l.pr_number) _ (lock_key a)
        (lock_key-ne-plan_key a app l.pr_number)
      ∙ c.site.laws.value-srem (pr_locks_key l.repo l.pr_number) app d (lock_key a))

  delete_lock-Respects :
      (a : Text) (o : Option Lock) (d : redis.Db)
      → IsKeyed c d
      → IsOpen c d a
      → Respects c d (delete_lock redis codec a o d).1
  unfolding delete_lock
  delete_lock-Respects a none d k free = Respects-del c a d k free
  delete_lock-Respects a (some l) d k free =
      let before = delete_lock-before a l d in
      let p = Respects-same c d _ k before in
      Respects-trans c p
        (Respects-del c a _ (IsKeyed-after c p) (λ m h. free m (sym (before a) ∙ h)))

  -- The lock of an own application is written again, for the same pull request.
  pub update_own-Respects :
      (a : Text) (l m : Lock) (d : redis.Db)
      → IsKeyed c d
      → IsOwn c d a
      → held redis codec d a ≡ some l
      → (m.application ≡ l.application) × (m.repo ≡ l.repo) × (m.pr_number ≡ l.pr_number)
      → Respects c d (set_lock redis codec m d).1
  unfolding is_held_by_pr
  update_own-Respects a l m d k own h (x, y, z) =
      Respects-set_lock c m d k (rw (y, z) (own l h))
        (subst (IsOpen c d) (sym (x ∙ k a l h)) (IsOwn-IsOpen c d a own))

  pub force_unlock-Respects :
      (a : Text) (d : redis.Db)
      → IsKeyed c d
      → IsOpen c d a
      → Respects c d (force_unlock redis codec a d).1
  force_unlock-Respects a d k free =
      let p = Respects-get_lock a d k in
      elim (force_unlock_lem redis codec c.site.laws a d) [
        | inl (e, q) ↦ rw q p
        | inr q ↦ rw q (
            Respects-trans c p (
              delete_lock-Respects a _ _ (IsKeyed-after c p)
                (λ m h. free m (sym (held-get_lock redis codec c.site.laws a d a) ∙ h))))
      ]

  unlock_found-Respects :
      (a : Text) (o : Option Lock) (d : redis.Db)
      → IsKeyed c d
      → held redis codec d a ≡ o
      → Respects c d (unlock_found redis codec a repo number o d).1
  unfolding unlock_found
  unlock_found-Respects a none d k h = Respects-refl c d k
  unlock_found-Respects a (some l) d k h = elim (Bool-cases (is_held_by_pr l repo number)) [
    | inl e ↦ rw e (force_unlock-Respects a d k (IsMine-IsOpen a l d h e))
    | inr e ↦ rw e (Respects-refl c d k)
  ]

  pub unlock-Respects :
      (a : Text) (d : redis.Db) → IsKeyed c d → Respects c d (unlock redis codec a repo number d).1
  unlock-Respects a d k =
      let p = Respects-get_lock a d k in
      elim (unlock_lem redis codec c.site.laws a repo number d) [
        | inl (e, q) ↦ rw q p
        | inr q ↦ rw q (
            Respects-trans c p (
              unlock_found-Respects a _ _ (IsKeyed-after c p)
                (held-get_lock redis codec c.site.laws a d a)))
      ]

  store_plan_lock-Respects :
      (n : ℕ) (revision source_file plan_output : Text) (diffs : List PlanDiffEntry) (a : Text)
      (o : Option Lock) (d : redis.Db)
      → IsKeyed c d
      → IsOwn c d a
      → held redis codec d a ≡ o
      → Respects c d (store_plan_lock redis codec n revision source_file plan_output diffs o d).1
  unfolding store_plan_lock
  store_plan_lock-Respects n revision source_file plan_output diffs a none d k own h =
      Respects-refl c d k
  store_plan_lock-Respects n revision source_file plan_output diffs a (some l) d k own h =
      elim (Bool-cases (nat_eq l.pr_number n)) [
        | inr e ↦ rw e (Respects-refl c d k)
        | inl e ↦ rw e (
            update_own-Respects a l
              (record l {
                plan_revision = revision;
                source_file = source_file;
                plan_output = plan_output;
                plan_diffs = diffs;
              })
              d k own h (refl, refl, refl))
      ]

  pub store_plan-Respects :
      (a : Text) (n : ℕ) (revision source_file plan_output : Text) (diffs : List PlanDiffEntry)
      (d : redis.Db)
      → IsKeyed c d
      → IsOwn c d a
      → Respects c d (store_plan redis codec a n revision source_file plan_output diffs d).1
  unfolding store_plan
  store_plan-Respects a n revision source_file plan_output diffs d k own =
      let p = Respects-set (plan_key a n) revision lock_ttl d (λ b. lock_key-ne-plan_key b a n) k in
      let q = Respects-get_lock a _ (IsKeyed-after c p) in
      Respects-then (redis.set (plan_key a n) revision lock_ttl) _ d p (λ x e.
        Respects-then
          (context (codes "getting lock to update plan revision") (get_lock redis codec a)) _ _ q
          (λ o e'.
            store_plan_lock-Respects n revision source_file plan_output diffs a o _
              (IsKeyed-after c q) (IsOwn-after c (Respects-trans c p q) a own)
              (held-get_lock redis codec c.site.laws a _ a
                ∙ sym (get_lock-ok redis codec c.site.laws a _ o (wrap_result-ok _ _ o e')))))
