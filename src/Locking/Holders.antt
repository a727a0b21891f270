-- ===== src/Locking/Holders.antt =====
-- Who holds a lock after `Lock` and `Unlock` of internal/lock/redis.go.
use lemuria.Prelude.{
  ℕ, Text, true, false, Option, none, some, Bool-cases, ◌≡◌, ◌⊎◌, inl, inr, refl, sym, ap, eq_refl,
  ◌∙◌, arith,
}
use lemuria.Effect.{Error, ok, err, not_held}
use lemuria.Model.Lock.{Lock, LockRequest, LockResult, is_held_by_pr}
use lemuria.Redis.{Redis, RedisLaws}
use lemuria.Locking.Manager.{LockCodec, new_lock, refused, lock_after, lock, unlock_found, unlock}
use lemuria.Locking.Reads.{held, read, held-get_lock, held-set_lock}
use lemuria.Locking.Deletes.{held-force_unlock, unlock_lem}
use lemuria.Locking.Grants.{refreshed, refresh_lock_lem, lock_lem, create_lock_lem}

-- A lock is of a pull request.
abbrev pub IsHeldBy : LockRequest → Lock → Type 0
IsHeldBy req l = is_held_by_pr l req.repo req.pr_number ≡ true

-- What a granted request leaves: the lock that it returns, held by the requester, where no other
-- pull request held one.
pub record Granted (req : LockRequest) (before after : Option Lock) (res : LockResult)
    : Type 0 where
  pub holder : Lock
  pub returned : res.lock ≡ some holder
  pub stored : after ≡ some holder
  pub mine : IsHeldBy req holder
  pub free : (l : Lock) → before ≡ some l → IsHeldBy req l

module _ (R : Redis) (J : LockCodec) (L : RedisLaws R) where
  lock_after_foreign :
      (req : LockRequest) (now : ℕ) (d : R.Db) (l : Lock)
      → is_held_by_pr l req.repo req.pr_number ≡ false
      → lock_after R J req now (ok (some l)) d ≡ (ok (refused l), d)
  unfolding lock_after
  lock_after_foreign req now d l h = rw h refl

  -- An application that another pull request has locked is not locked again: the request fails, or
  -- is refused with the present lock. Either way every application keeps its lock.
  pub lock_foreign :
      (req : LockRequest) (now : ℕ) (d : R.Db) (l : Lock)
      → held R J d req.application ≡ some l
      → is_held_by_pr l req.repo req.pr_number ≡ false
      → (((e : Error) × ((lock R J req now d).0 ≡ err e))
          ⊎ ((lock R J req now d).0 ≡ ok (refused l)))
        × ((a : Text) → held R J (lock R J req now d).1 a ≡ held R J d a)
  lock_foreign req now d l h foreign = elim (lock_lem R J L req now d) [
    | inl (e, p) ↦ (inl (e, ap (λ r. r.0) p), λ a. rw p (held-get_lock R J L req.application d a))
    | inr p ↦
        let q = p ∙ rw h (lock_after_foreign req now (read R J req.application d) l foreign) in
        (inr (ap (λ r. r.0) q), λ a. rw q (held-get_lock R J L req.application d a))
  ]

  lock_after-Granted :
      (req : LockRequest) (now : ℕ) (o : Option Lock) (d : R.Db) (res : LockResult)
      → ((l : Lock) → held R J d req.application ≡ some l → l.application ≡ req.application)
      → held R J d req.application ≡ o
      → (lock_after R J req now (ok o) d).0 ≡ ok res
      → res.acquired ≡ true
      → Granted req o (held R J (lock_after R J req now (ok o) d).1 req.application) res
  unfolding lock_after new_lock is_held_by_pr
  lock_after-Granted req now none d res keyed h done acquired =
      let (same, stored, added) = create_lock_lem R J L req now d res done in
      record {
        holder = new_lock req now;
        returned = ground arith;
        stored = stored;
        mine = ground (arith, eq_refl req.repo);
        free = λ l e. cc;
      }
  lock_after-Granted req now (some l) d res keyed h done acquired =
      elim (Bool-cases (is_held_by_pr l req.repo req.pr_number)) [
        | inl e ↦
            let (same, stored, state) = refresh_lock_lem R J L req now l d res (rw e at done) in
            rw e (record {
              holder = refreshed req now l;
              returned = ground arith;
              stored =
                  ap (λ s. held R J s req.application) state
                  ∙ ap (held R J _) (sym (keyed l h))
                  ∙ held-set_lock R J L (refreshed req now l) d stored;
              mine = e;
              free = λ k q. ground arith;
            })
        | inr e ↦ ground (arith, e)
      ]

  -- A request that is granted leaves the requester as the holder, and was made while no other pull
  -- request held the application, where the lock that is stored for the application, if there is
  -- one, carries the name of the application.
  pub lock-Granted :
      (req : LockRequest) (now : ℕ) (d : R.Db) (res : LockResult)
      → ((l : Lock) → held R J d req.application ≡ some l → l.application ≡ req.application)
      → (lock R J req now d).0 ≡ ok res
      → res.acquired ≡ true
      → Granted req
          (held R J d req.application)
          (held R J (lock R J req now d).1 req.application)
          res
  lock-Granted req now d res keyed done acquired = elim (lock_lem R J L req now d) [
    | inl (e, p) ↦ cc
    | inr p ↦
        let behind = held-get_lock R J L req.application d req.application in
        rw p (
          lock_after-Granted req now _ _ res (λ l h. keyed l (sym behind ∙ h)) behind (rw p at done)
            acquired)
  ]

  unlock_found_ok :
      (app repo : Text) (n : ℕ) (o : Option Lock) (d : R.Db)
      → held R J d app ≡ o
      → (unlock_found R J app repo n o d).0 ≡ ok tt
      → (held R J (unlock_found R J app repo n o d).1 app ≡ none)
        × ((l : Lock) → o ≡ some l → is_held_by_pr l repo n ≡ true)
  unfolding unlock_found
  unlock_found_ok app repo n none d h done = (h, λ l e. cc)
  unlock_found_ok app repo n (some l) d h done = elim (Bool-cases (is_held_by_pr l repo n)) [
    | inl e ↦ (rw e (held-force_unlock R J L app d (rw e at done)), λ k q. ground arith)
    | inr e ↦ ground (arith, e)
  ]

  -- An unlock that succeeds leaves the application with no lock, and only the holder can have
  -- released it.
  pub unlock_ok :
      (app repo : Text) (n : ℕ) (d : R.Db)
      → (unlock R J app repo n d).0 ≡ ok tt
      → (held R J (unlock R J app repo n d).1 app ≡ none)
        × ((l : Lock) → held R J d app ≡ some l → is_held_by_pr l repo n ≡ true)
  unlock_ok app repo n d done = elim (unlock_lem R J L app repo n d) [
    | inl (e, p) ↦ cc
    | inr p ↦ rw p (unlock_found_ok app repo n _ _ (held-get_lock R J L app d app) (rw p at done))
  ]

  unlock_found_foreign :
      (app repo : Text) (n : ℕ) (l : Lock) (d : R.Db)
      → is_held_by_pr l repo n ≡ false
      → unlock_found R J app repo n (some l) d ≡ (err (not_held n), d)
  unfolding unlock_found
  unlock_found_foreign app repo n l d h = rw h refl

  -- An unlock by another pull request than the holder fails, and every application keeps its lock.
  pub unlock_foreign :
      (app repo : Text) (n : ℕ) (d : R.Db) (l : Lock)
      → held R J d app ≡ some l
      → is_held_by_pr l repo n ≡ false
      → ((e : Error) × ((unlock R J app repo n d).0 ≡ err e))
        × ((a : Text) → held R J (unlock R J app repo n d).1 a ≡ held R J d a)
  unlock_foreign app repo n d l h foreign = elim (unlock_lem R J L app repo n d) [
    | inl (e, p) ↦ ((e, ap (λ r. r.0) p), λ a. rw p (held-get_lock R J L app d a))
    | inr p ↦
        let q = p ∙ rw h (unlock_found_foreign app repo n l (read R J app d) foreign) in
        ((not_held n, ap (λ r. r.0) q), λ a. rw q (held-get_lock R J L app d a))
  ]
