-- ===== src/Locking/Deletes.antt =====
-- What the removal of a lock in internal/lock/redis.go (`Unlock`, `ForceUnlock`) leaves behind.
use lemuria.Prelude.{ℕ, Text, Option, none, some, ◌≡◌, ◌≢◌, ◌⊎◌, inl, inr, refl, ap, ◌∙◌}
use lemuria.Effect.{ok, err, Error}
use lemuria.Model.Lock.{Lock}
use lemuria.Redis.{Redis, RedisLaws}
use lemuria.Locking.Keys.{
  lock_key, plan_key, pr_locks_key, lock_key-ne, lock_key-ne-plan_key, pr_locks_key-ne-lock_key,
  pr_locks_key-ne-plan_key,
}
use lemuria.Locking.Manager.{LockCodec, delete_lock, force_unlock, unlock_found, unlock}
use lemuria.Locking.Reads.{decoded, held, held-get_lock, get_lock-cases, unless_nil-get_lock, read}

module _ (R : Redis) (J : LockCodec) (L : RedisLaws R) where
  value-delete_lock :
      (app : Text) (o : Option Lock) (d : R.Db) (a : Text)
      → a ≢ app
      → R.value (delete_lock R J app o d).1 (lock_key a) ≡ R.value d (lock_key a)
  unfolding delete_lock
  value-delete_lock app none d a h =
      L.value-del_ne (lock_key app) d (lock_key a) (lock_key-ne a app h)
  value-delete_lock app (some l) d a h =
      L.value-del_ne (lock_key app) _ (lock_key a) (lock_key-ne a app h)
      ∙ L.value-del_ne (plan_key app l.pr_number) _ (lock_key a)
          (lock_key-ne-plan_key a app l.pr_number)
      ∙ L.value-srem (pr_locks_key l.repo l.pr_number) app d (lock_key a)

  pub held-delete_lock_ne :
      (app : Text) (o : Option Lock) (d : R.Db) (a : Text)
      → a ≢ app
      → held R J (delete_lock R J app o d).1 a ≡ held R J d a
  unfolding held
  held-delete_lock_ne app o d a h = ap (decoded J) (value-delete_lock app o d a h)

  pub held-delete_lock :
      (app : Text) (o : Option Lock) (d : R.Db)
      → (delete_lock R J app o d).0 ≡ ok tt
      → held R J (delete_lock R J app o d).1 app ≡ none
  unfolding held delete_lock decoded
  held-delete_lock app none d h = rw (L.del-ok (lock_key app) d h)
  held-delete_lock app (some l) d h = rw (L.del-ok (lock_key app) _ h)

  -- Of the index only the entry of the deleted lock may be gone.
  pub member-delete_lock :
      (app : Text) (o : Option Lock) (d : R.Db) (repo : Text) (n : ℕ) (m : Text)
      → m ≢ app
      → R.member (delete_lock R J app o d).1 (pr_locks_key repo n) m
        ≡ R.member d (pr_locks_key repo n) m
  unfolding delete_lock
  member-delete_lock app none d repo n m h =
      L.member-del_ne (lock_key app) d (pr_locks_key repo n) m (pr_locks_key-ne-lock_key repo n app)
  member-delete_lock app (some l) d repo n m h =
      L.member-del_ne (lock_key app) _ (pr_locks_key repo n) m (pr_locks_key-ne-lock_key repo n app)
      ∙ L.member-del_ne (plan_key app l.pr_number) _ (pr_locks_key repo n) m
          (pr_locks_key-ne-plan_key repo n app l.pr_number)
      ∙ L.member-srem_ne (pr_locks_key l.repo l.pr_number) app d (pr_locks_key repo n) m (inr h)

  pub force_unlock_lem :
      (app : Text) (d : R.Db)
      → ((e : Error) × (force_unlock R J app d ≡ (err e, read R J app d)))
        ⊎ (force_unlock R J app d ≡ delete_lock R J app (held R J d app) (read R J app d))
  unfolding force_unlock
  force_unlock_lem app d = elim (get_lock-cases R J L app d) [
    | inl (e, h) ↦ inl (e, rw (unless_nil-get_lock R J L app d, h) refl)
    | inr h ↦ inr (rw (unless_nil-get_lock R J L app d, h) refl)
  ]

  pub unlock_lem :
      (app repo : Text) (n : ℕ) (d : R.Db)
      → ((e : Error) × (unlock R J app repo n d ≡ (err e, read R J app d)))
        ⊎ (unlock R J app repo n d ≡ unlock_found R J app repo n (held R J d app) (read R J app d))
  unfolding unlock
  unlock_lem app repo n d = elim (get_lock-cases R J L app d) [
    | inl (e, h) ↦ inl (e, rw (unless_nil-get_lock R J L app d, h) refl)
    | inr h ↦ inr (rw (unless_nil-get_lock R J L app d, h) refl)
  ]

  -- A lock that was removed is gone, and the locks of other applications are untouched.
  pub held-force_unlock :
      (app : Text) (d : R.Db)
      → (force_unlock R J app d).0 ≡ ok tt
      → held R J (force_unlock R J app d).1 app ≡ none
  held-force_unlock app d h = elim (force_unlock_lem app d) [
    | inl (e, p) ↦ cc
    | inr p ↦ rw p (held-delete_lock app _ _ (rw p at h))
  ]

  pub held-force_unlock_ne :
      (app : Text) (d : R.Db) (a : Text)
      → a ≢ app
      → held R J (force_unlock R J app d).1 a ≡ held R J d a
  held-force_unlock_ne app d a h = elim (force_unlock_lem app d) [
    | inl (e, p) ↦ rw p (held-get_lock R J L app d a)
    | inr p ↦ rw p (held-delete_lock_ne app _ _ a h ∙ held-get_lock R J L app d a)
  ]
