-- ===== src/Locking/Race.antt =====
-- Two calls of `Lock` of internal/lock/redis.go in two processes: each reads, and then writes in a
-- command of its own, so that both can read before either writes.
use lemuria.Prelude.{ℕ, Text, none, some, ◌≡◌, refl, sym, ◌∙◌, ap, arith}
use lemuria.Effect.{Result, ok, unless_nil}
use lemuria.Model.Lock.{LockRequest, LockResult}
use lemuria.Redis.{Redis, RedisLaws}
use lemuria.Locking.Keys.{lock_key}
use lemuria.Locking.Manager.{LockCodec, new_lock, granted, get_lock, create_lock, lock_after}
use lemuria.Locking.Reads.{decoded, held, read}
use lemuria.Locking.Grants.{create_lock_lem}
use lemuria.Locking.Outcomes.{Answers, Encodes, get_lock_answered, create_lock_answered}

module _ (R : Redis) (J : LockCodec) where
  -- First reads, second reads, first goes on, second goes on.
  unfoldable pub race :
      LockRequest → ℕ → LockRequest → ℕ → R.Db → Result LockResult × Result LockResult × R.Db
  race first now second now' d =
      let (r, d1) = get_lock R J first.application d in
      let (r', d2) = get_lock R J second.application d1 in
      let (a, d3) = lock_after R J first now (unless_nil r) d2 in
      let (a', d4) = lock_after R J second now' (unless_nil r') d3 in (a, a', d4)

  module _ (L : RedisLaws R) (S : Answers R) (E : Encodes J) where
    free_read :
        (a : Text) (d : R.Db) → R.value d (lock_key a) ≡ none → (get_lock R J a d).0 ≡ ok none
    free_read a d free =
        get_lock_answered R J L S a d (λ v h. absurd (ground arith))
        ∙ ap ok (unfold held decoded in ap (decoded J) free)

    -- What the two calls leave, where both have read that there is no lock.
    race_lem :
        (first second : LockRequest) (now now' : ℕ) (d : R.Db)
        → (get_lock R J first.application d).0 ≡ ok none
        → (get_lock R J second.application (read R J first.application d)).0 ≡ ok none
        → let d2 = read R J second.application (read R J first.application d) in
          let d3 = (create_lock R J first now d2).1 in
          race first now second now' d ≡ (
            (create_lock R J first now d2).0,
            (create_lock R J second now' d3).0,
            (create_lock R J second now' d3).1,
          )
    unfolding race unless_nil lock_after
    race_lem first second now now' d p q = rw (p, q) refl

    -- On a server that answers, and with locks that are encoded, two requests for one free
    -- application that both read before either writes are both granted, whoever makes them; where
    -- the second writes after the first, the lock that stays is that of the second.
    pub race_both_granted :
        (first second : LockRequest) (now now' : ℕ) (d : R.Db)
        → second.application ≡ first.application
        → R.value d (lock_key first.application) ≡ none
        → let out = race first now second now' d in
          (out.0 ≡ ok (granted (new_lock first now)))
          × (out.1 ≡ ok (granted (new_lock second now')))
          × (held R J out.2 first.application ≡ some (new_lock second now'))
    race_both_granted first second now now' d same free =
        let d1 = read R J first.application d in
        let d2 = read R J second.application d1 in
        let d3 = (create_lock R J first now d2).1 in
        let still : R.value d1 (lock_key second.application) ≡ none =
          unfold get_lock in
          L.value-get (lock_key first.application) d (lock_key second.application)
          ∙ ap (λ a. R.value d (lock_key a)) same
          ∙ free in
        let runs =
          race_lem first second now now' d (free_read first.application d free)
            (free_read second.application d1 still) in
        let answered = create_lock_answered R J L S E second now' d3 in
        let (_, kept, _) = create_lock_lem R J L second now' d3 _ answered in
        rw runs
          (create_lock_answered R J L S E first now d2, answered, ap (held R J _) (sym same) ∙ kept)
