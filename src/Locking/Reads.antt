-- ===== src/Locking/Reads.antt =====
-- What `Get` and `setLock` of internal/lock/redis.go read and write, in terms of the locks that the
-- server holds.
use lemuria.Prelude.{
  ℕ, Text, Option, none, some, ◌≡◌, ◌≢◌, ◌⊎◌, inl, inr, Option-cases, ap, ◌∙◌, arith,
}
use lemuria.Effect.{Error, ok, err, is_nil, unless_nil, Result-cases}
use lemuria.Model.Lock.{Lock}
use lemuria.Redis.{Redis, RedisLaws}
use lemuria.Locking.Keys.{lock_ttl, lock_key, lock_key-ne}
use lemuria.Locking.Manager.{LockCodec, decode_lock, get_lock, set_lock}

-- The lock that a text under a key stands for.
unfoldable pub decoded : LockCodec → Option Text → Option Lock
decoded J none = none
decoded J (some text) = J.unmarshal text

module _ (R : Redis) (J : LockCodec) where
  -- The lock that the server holds for an application.
  unfoldable pub held : R.Db → Text → Option Lock
  held d application = decoded J (R.value d (lock_key application))

  -- The state that a read leaves.
  abbrev pub read : Text → R.Db → R.Db
  read a d = (get_lock R J a d).1

  module _ (L : RedisLaws R) where
    pub held-get_lock : (b : Text) (d : R.Db) (a : Text) → held (get_lock R J b d).1 a ≡ held d a
    unfolding held get_lock
    held-get_lock b d a = rw (L.value-get (lock_key b) d (lock_key a))

    pub member-get_lock :
        (b : Text) (d : R.Db) (k m : Text) → R.member (get_lock R J b d).1 k m ≡ R.member d k m
    unfolding get_lock
    member-get_lock b d k m = L.member-get (lock_key b) d k m

    -- A read that succeeds returns the lock that the server holds.
    pub get_lock-ok :
        (a : Text) (d : R.Db) (o : Option Lock) → (get_lock R J a d).0 ≡ ok o → o ≡ held d a
    unfolding held get_lock decode_lock decoded
    get_lock-ok a d o h = grind (arith, L.get-ok (lock_key a) d, L.get-nil (lock_key a) d)

    -- The reply to a read is an error or the lock that the server holds.
    pub get_lock-cases :
        (a : Text) (d : R.Db)
        → ((e : Error) × ((get_lock R J a d).0 ≡ err e)) ⊎ ((get_lock R J a d).0 ≡ ok (held d a))
    get_lock-cases a d = elim (Result-cases (get_lock R J a d).0) [
      | inl (o, h) ↦ inr (h ∙ ap ok (get_lock-ok a d o h))
      | inr (e, h) ↦ inl (e, h)
    ]

    -- A missing key is no error, so the callers' tests for `redis.Nil` change nothing.
    pub unless_nil-get_lock :
        (a : Text) (d : R.Db) → unless_nil (get_lock R J a d).0 ≡ (get_lock R J a d).0
    unfolding get_lock decode_lock unless_nil is_nil
    unless_nil-get_lock a d = ground arith

    pub held-set_lock :
        (l : Lock) (d : R.Db)
        → (set_lock R J l d).0 ≡ ok tt
        → held (set_lock R J l d).1 l.application ≡ some l
    unfolding held set_lock decoded
    held-set_lock l d h = elim (Option-cases (J.marshal l)) [
      | inr (t, e) ↦
          grind
            (arith, e, L.set-ok (lock_key l.application) t lock_ttl d, J.unmarshal-marshal l t e)
      | inl e ↦ ground (arith, e)
    ]

    pub held-set_lock_ne :
        (l : Lock) (d : R.Db) (a : Text)
        → a ≢ l.application
        → held (set_lock R J l d).1 a ≡ held d a
    unfolding held set_lock
    held-set_lock_ne l d a h = elim (Option-cases (J.marshal l)) [
      | inr (t, e) ↦ ground (
        arith,
        e,
        L.value-set_ne (lock_key l.application) t lock_ttl d (lock_key a)
            (lock_key-ne a l.application h),
      )
      | inl e ↦ ground (arith, e)
    ]

    pub member-set_lock :
        (l : Lock) (d : R.Db) (k m : Text)
        → k ≢ lock_key l.application
        → R.member (set_lock R J l d).1 k m ≡ R.member d k m
    unfolding set_lock
    member-set_lock l d k m h = elim (Option-cases (J.marshal l)) [
      | inr (t, e) ↦ ground (arith, e, L.member-set_ne (lock_key l.application) t lock_ttl d k m h)
      | inl e ↦ ground (arith, e)
    ]

    pub held-sadd : (k m : Text) (d : R.Db) (a : Text) → held (R.sadd k m d).1 a ≡ held d a
    unfolding held
    held-sadd k m d a = rw (L.value-sadd k m d (lock_key a))

    pub held-expire :
        (k : Text) (t : ℕ) (d : R.Db) (a : Text) → held (R.expire k t d).1 a ≡ held d a
    unfolding held
    held-expire k t d a = rw (L.value-expire k t d (lock_key a))
