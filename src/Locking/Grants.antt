-- ===== src/Locking/Grants.antt =====
-- The two ways in which `Lock` of internal/lock/redis.go grants a lock: a new lock, and the refresh
-- of a lock that the pull request holds already.
use lemuria.Prelude.{ℕ, Text, codes, true, some, ◌≡◌, ◌≢◌, ◌⊎◌, inl, inr, refl, arith}
use lemuria.Effect.{Error, ok, err, wrapped, Result-cases}
use lemuria.Model.Lock.{Lock, LockRequest, LockResult}
use lemuria.Redis.{Redis, RedisLaws}
use lemuria.Locking.Keys.{lock_ttl, pr_locks_key, pr_locks_key-ne-lock_key}
use lemuria.Locking.Manager.{
  LockCodec, set_lock, new_lock, granted, create_lock, lock_after, lock, refresh_lock,
}
use lemuria.Locking.Reads.{
  held, read, get_lock-cases, unless_nil-get_lock, held-set_lock, held-set_lock_ne, member-set_lock,
  held-sadd, held-expire,
}

abbrev pub refreshed : LockRequest → ℕ → Lock → Lock
refreshed req now l = record l { locked_at = now; change_type = req.change_type }

module _ (R : Redis) (J : LockCodec) (L : RedisLaws R) where
  pub lock_lem :
      (req : LockRequest) (now : ℕ) (d : R.Db)
      → ((e : Error) × (lock R J req now d ≡ (err e, read R J req.application d)))
        ⊎ (lock R J req now d
            ≡ lock_after R J req now (ok (held R J d req.application)) (read R J req.application d))
  unfolding lock
  lock_lem req now d = elim (get_lock-cases R J L req.application d) [
    | inl (e, h) ↦ inl (
      wrapped (codes "checking existing lock") e,
      rw (unless_nil-get_lock R J L req.application d, h) (unfold lock_after in refl),
    )
    | inr h ↦ inr (rw (unless_nil-get_lock R J L req.application d, h) refl)
  ]

  module _ (req : LockRequest) (now : ℕ) (d : R.Db) where
    abbrev fresh : Lock
    fresh = new_lock req now

    abbrev stored : R.Db
    stored = (set_lock R J fresh d).1

    abbrev pr_key : Text
    pr_key = pr_locks_key req.repo req.pr_number

    pub create_lock_lem :
        (res : LockResult)
        → (create_lock R J req now d).0 ≡ ok res
        → (res ≡ granted (new_lock req now))
          × (held R J (create_lock R J req now d).1 req.application ≡ some (new_lock req now))
          × (R.member
                (create_lock R J req now d).1
                (pr_locks_key req.repo req.pr_number)
                req.application
              ≡ true)
    unfolding create_lock new_lock
    create_lock_lem res h = elim (Result-cases (set_lock R J fresh d).0) [
      | inr (e, s) ↦ ground (arith, s)
      | inl (done, s) ↦ elim (Result-cases (R.sadd pr_key req.application stored).0) [
        | inr (e, a) ↦ ground (arith, s, a)
        | inl (added, a) ↦ ground (
          arith,
          s,
          a,
          held-set_lock R J L fresh d,
          held-sadd R J L pr_key req.application stored req.application,
          held-expire R J L pr_key lock_ttl (R.sadd pr_key req.application stored).1
              req.application,
          L.sadd-ok pr_key req.application stored,
          L.member-expire pr_key lock_ttl (R.sadd pr_key req.application stored).1 pr_key
              req.application,
        )
      ]
    ]

    pub held-create_lock_ne :
        (a : Text) → a ≢ req.application → held R J (create_lock R J req now d).1 a ≡ held R J d a
    unfolding create_lock new_lock
    held-create_lock_ne a h = elim (Result-cases (set_lock R J fresh d).0) [
      | inr (e, s) ↦ ground (arith, s, held-set_lock_ne R J L fresh d a h)
      | inl (done, s) ↦ elim (Result-cases (R.sadd pr_key req.application stored).0) [
        | inr (e, x) ↦ ground (
          arith,
          s,
          x,
          held-set_lock_ne R J L fresh d a h,
          held-sadd R J L pr_key req.application stored a,
        )
        | inl (added, x) ↦ ground (
          arith,
          s,
          x,
          held-set_lock_ne R J L fresh d a h,
          held-sadd R J L pr_key req.application stored a,
          held-expire R J L pr_key lock_ttl (R.sadd pr_key req.application stored).1 a,
        )
      ]
    ]

    -- A new lock adds one entry to one index, and takes none out.
    pub member-create_lock :
        (repo : Text) (n : ℕ) (m : Text)
        → m ≢ req.application
        → R.member (create_lock R J req now d).1 (pr_locks_key repo n) m
          ≡ R.member d (pr_locks_key repo n) m
    unfolding create_lock new_lock
    member-create_lock repo n m h =
        let k = pr_locks_key repo n in
        let kept =
          member-set_lock R J L fresh d k m (pr_locks_key-ne-lock_key repo n req.application) in
        let put = L.member-sadd_ne pr_key req.application stored k m (inr h) in
        let aged = L.member-expire pr_key lock_ttl (R.sadd pr_key req.application stored).1 k m in
        elim (Result-cases (set_lock R J fresh d).0) [
          | inr (e, s) ↦ ground (arith, s)
          | inl (done, s) ↦ elim (Result-cases (R.sadd pr_key req.application stored).0) [
            | inr (e, x) ↦ ground (arith, s, x)
            | inl (added, x) ↦ ground (arith, s, x)
          ]
        ]

  pub refresh_lock_lem :
      (req : LockRequest) (now : ℕ) (l : Lock) (d : R.Db) (res : LockResult)
      → (refresh_lock R J req now l d).0 ≡ ok res
      → (res ≡ granted (refreshed req now l))
        × ((set_lock R J (refreshed req now l) d).0 ≡ ok tt)
        × ((refresh_lock R J req now l d).1 ≡ (set_lock R J (refreshed req now l) d).1)
  unfolding refresh_lock
  refresh_lock_lem req now l d res h =
      elim (Result-cases (set_lock R J (refreshed req now l) d).0) [
        | inr (e, s) ↦ ground (arith, s)
        | inl (done, s) ↦ ground (arith, s)
      ]
