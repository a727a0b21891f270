-- ===== src/Locking/Outcomes.antt =====
-- `Lock` and `Unlock` of internal/lock/redis.go on a server that answers: what they return is a
-- function of the lock that is held.
use lemuria.Prelude.{
  ℕ, Text, Option, none, some, true, if◌then◌else◌, Bool-cases, ◌≡◌, inl, inr, refl, arith,
}
use lemuria.Effect.{Error, ok, err, is_nil, unless_nil, Result-cases}
use lemuria.Model.Lock.{Lock, LockRequest, LockResult, is_held_by_pr}
use lemuria.Redis.{Redis, RedisLaws}
use lemuria.Locking.Keys.{lock_ttl, lock_key, pr_locks_key}
use lemuria.Locking.Manager.{
  LockCodec, new_lock, granted, refused, decode_lock, get_lock, set_lock, create_lock, refresh_lock,
  lock_after, lock,
}
use lemuria.Locking.Reads.{decoded, held, read}
use lemuria.Locking.Grants.{refreshed}

-- Every command is answered; that a key is missing is an answer.
pub record Answers (R : Redis) : Type 0 where
  pub reads : (k : Text) (d : R.Db) (e : Error) → (R.get k d).0 ≡ err e → is_nil e ≡ true
  pub sets : (k v : Text) (t : ℕ) (d : R.Db) → (R.set k v t d).0 ≡ ok tt
  pub dels : (k : Text) (d : R.Db) → (R.del k d).0 ≡ ok tt
  pub sadds : (k m : Text) (d : R.Db) → (R.sadd k m d).0 ≡ ok tt

-- Every lock can be written.
abbrev pub Encodes : LockCodec → Type 0
Encodes J = (l : Lock) → (t : Text) × (J.marshal l ≡ some t)

-- What stands under the key of a lock is a lock.
abbrev pub Decodes : (R : Redis) → LockCodec → R.Db → Text → Type 0
Decodes R J d a =
    (v : Text) → R.value d (lock_key a) ≡ some v → (l : Lock) × (J.unmarshal v ≡ some l)

-- What `Lock` returns, by the lock that is held when it reads.
abbrev pub outcome : LockRequest → ℕ → Option Lock → LockResult
outcome req now none = granted (new_lock req now)
outcome req now (some l) =
    if is_held_by_pr l req.repo req.pr_number then granted (refreshed req now l) else refused l

module _ (R : Redis) (J : LockCodec) (L : RedisLaws R) (S : Answers R) where
  pub get_lock_answered :
      (a : Text) (d : R.Db) → Decodes R J d a → (get_lock R J a d).0 ≡ ok (held R J d a)
  unfolding held get_lock decode_lock decoded
  get_lock_answered a d good = elim (Result-cases (R.get (lock_key a) d).0) [
    | inl (v, q) ↦
        let (l, u) = good v (L.get-ok (lock_key a) d v q) in
        ground (arith, q, u, L.get-ok (lock_key a) d v q)
    | inr (e, q) ↦ ground (arith, q, S.reads (lock_key a) d e q, L.get-nil (lock_key a) d e q)
  ]

  module _ (E : Encodes J) where
    set_lock_answered : (l : Lock) (d : R.Db) → (set_lock R J l d).0 ≡ ok tt
    unfolding set_lock
    set_lock_answered l d =
        let (t, e) = E l in ground (arith, e, S.sets (lock_key l.application) t lock_ttl d)

    pub create_lock_answered :
        (req : LockRequest) (now : ℕ) (d : R.Db)
        → (create_lock R J req now d).0 ≡ ok (granted (new_lock req now))
    unfolding create_lock
    create_lock_answered req now d =
        let l = new_lock req now in
        let d1 = (set_lock R J l d).1 in
        ground (
          arith,
          set_lock_answered l d,
          S.sadds (pr_locks_key req.repo req.pr_number) req.application d1,
        )

    refresh_lock_answered :
        (req : LockRequest) (now : ℕ) (l : Lock) (d : R.Db)
        → (refresh_lock R J req now l d).0 ≡ ok (granted (refreshed req now l))
    unfolding refresh_lock
    refresh_lock_answered req now l d = ground (arith, set_lock_answered (refreshed req now l) d)

    lock_after_answered :
        (req : LockRequest) (now : ℕ) (o : Option Lock) (d : R.Db)
        → (lock_after R J req now (ok o) d).0 ≡ ok (outcome req now o)
    unfolding lock_after
    lock_after_answered req now none d = create_lock_answered req now d
    lock_after_answered req now (some l) d =
        elim (Bool-cases (is_held_by_pr l req.repo req.pr_number)) [
          | inl e ↦ rw e (refresh_lock_answered req now l d)
          | inr e ↦ rw e refl
        ]

    -- On a server that answers, `Lock` returns, and its result is decided by the lock that is held:
    -- a free application and one's own lock are granted, another's lock is refused.
    pub lock_outcome :
        (req : LockRequest) (now : ℕ) (d : R.Db)
        → Decodes R J d req.application
        → (lock R J req now d).0 ≡ ok (outcome req now (held R J d req.application))
    unfolding lock unless_nil
    lock_outcome req now d good =
        rw (get_lock_answered req.application d good)
          (lock_after_answered req now _ (read R J req.application d))
