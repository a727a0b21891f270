-- ===== src/Locking/Index.antt =====
-- The invariant of the lock manager of internal/lock/redis.go: every lock stands under the name of
-- its application, and in the index of its pull request.
use lemuria.Prelude.{
  ℕ, Text, true, Option, none, some, Bool-cases, text_discrete, ◌≡◌, inl, inr, refl, ap, ◌∙◌, arith,
}
use lemuria.Effect.{ok}
use lemuria.Model.Lock.{Lock, LockRequest, LockResult, is_held_by_pr}
use lemuria.Redis.{Redis, RedisLaws}
use lemuria.Locking.Keys.{pr_locks_key, pr_locks_key-ne-lock_key}
use lemuria.Locking.Manager.{
  LockCodec, set_lock, new_lock, refresh_lock, create_lock, delete_lock, lock_after, lock,
  unlock_found, unlock, force_unlock,
}
use lemuria.Locking.Reads.{
  held, read, held-get_lock, member-get_lock, held-set_lock, held-set_lock_ne, member-set_lock,
}
use lemuria.Locking.Deletes.{
  held-delete_lock, held-delete_lock_ne, member-delete_lock, force_unlock_lem, unlock_lem,
}
use lemuria.Locking.Grants.{
  refreshed, refresh_lock_lem, lock_lem, create_lock_lem, held-create_lock_ne, member-create_lock,
}

pub record IsIndexed (R : Redis) (J : LockCodec) (d : R.Db) : Type 0 where
  pub keyed : (a : Text) (l : Lock) → held R J d a ≡ some l → l.application ≡ a
  pub indexed :
      (a : Text) (l : Lock)
      → held R J d a ≡ some l
      → R.member d (pr_locks_key l.repo l.pr_number) a ≡ true

module _ (R : Redis) (J : LockCodec) (L : RedisLaws R) where
  pub read-IsIndexed : (b : Text) (d : R.Db) → IsIndexed R J d → IsIndexed R J (read R J b d)
  read-IsIndexed b d inv = record {
    keyed = λ a l h. inv.keyed a l (rw (held-get_lock R J L b d a) at h);
    indexed = λ a l h.
        rw (member-get_lock R J L b d (pr_locks_key l.repo l.pr_number) a)
          (inv.indexed a l (rw (held-get_lock R J L b d a) at h));
  }

  -- A lock that is written over one with the same holder keeps the invariant.
  pub set_lock-IsIndexed :
      (old new : Lock) (d : R.Db)
      → IsIndexed R J d
      → held R J d new.application ≡ some old
      → old.repo ≡ new.repo
      → old.pr_number ≡ new.pr_number
      → (set_lock R J new d).0 ≡ ok tt
      → IsIndexed R J (set_lock R J new d).1
  set_lock-IsIndexed old new d inv before same_repo same_pr done = record {
    keyed = λ a l h. elim (text_discrete a new.application) [
      | yes e ↦ ground (arith, held-set_lock R J L new d done)
      | no e ↦ inv.keyed a l (rw (held-set_lock_ne R J L new d a e) at h)
    ];
    indexed = λ a l h.
        let kept =
          member-set_lock R J L new d (pr_locks_key l.repo l.pr_number) a
            (pr_locks_key-ne-lock_key l.repo l.pr_number new.application) in
        elim (text_discrete a new.application) [
          | yes e ↦ ground (arith, held-set_lock R J L new d done, inv.indexed a old)
          | no e ↦ rw kept (inv.indexed a l (rw (held-set_lock_ne R J L new d a e) at h))
        ];
  }

  create_lock-IsIndexed :
      (req : LockRequest) (now : ℕ) (d : R.Db) (res : LockResult)
      → IsIndexed R J d
      → (create_lock R J req now d).0 ≡ ok res
      → IsIndexed R J (create_lock R J req now d).1
  create_lock-IsIndexed req now d res inv done =
      let (same, stored, added) = create_lock_lem R J L req now d res done in
      record {
        keyed = λ a l h. elim (text_discrete a req.application) [
          | yes e ↦ unfold new_lock in ground arith
          | no e ↦ inv.keyed a l (rw (held-create_lock_ne R J L req now d a e) at h)
        ];
        indexed = λ a l h. elim (text_discrete a req.application) [
          | yes e ↦ unfold new_lock in ground arith
          | no e ↦
              rw (member-create_lock R J L req now d l.repo l.pr_number a e)
                (inv.indexed a l (rw (held-create_lock_ne R J L req now d a e) at h))
        ];
      }

  delete_lock-IsIndexed :
      (app : Text) (o : Option Lock) (d : R.Db)
      → IsIndexed R J d
      → (delete_lock R J app o d).0 ≡ ok tt
      → IsIndexed R J (delete_lock R J app o d).1
  delete_lock-IsIndexed app o d inv done = record {
    keyed = λ a l h. elim (text_discrete a app) [
      | yes e ↦ ground (arith, held-delete_lock R J L app o d done)
      | no e ↦ inv.keyed a l (rw (held-delete_lock_ne R J L app o d a e) at h)
    ];
    indexed = λ a l h. elim (text_discrete a app) [
      | yes e ↦ ground (arith, held-delete_lock R J L app o d done)
      | no e ↦
          rw (member-delete_lock R J L app o d l.repo l.pr_number a e)
            (inv.indexed a l (rw (held-delete_lock_ne R J L app o d a e) at h))
    ];
  }

  pub force_unlock-IsIndexed :
      (app : Text) (d : R.Db)
      → IsIndexed R J d
      → (force_unlock R J app d).0 ≡ ok tt
      → IsIndexed R J (force_unlock R J app d).1
  force_unlock-IsIndexed app d inv done = elim (force_unlock_lem R J L app d) [
    | inl (e, p) ↦ cc
    | inr p ↦ rw p (delete_lock-IsIndexed app _ _ (read-IsIndexed app d inv) (rw p at done))
  ]

  unlock_found-IsIndexed :
      (app repo : Text) (n : ℕ) (o : Option Lock) (d : R.Db)
      → IsIndexed R J d
      → (unlock_found R J app repo n o d).0 ≡ ok tt
      → IsIndexed R J (unlock_found R J app repo n o d).1
  unfolding unlock_found
  unlock_found-IsIndexed app repo n none d inv done = inv
  unlock_found-IsIndexed app repo n (some l) d inv done =
      elim (Bool-cases (is_held_by_pr l repo n)) [
        | inl e ↦ rw e (force_unlock-IsIndexed app d inv (rw e at done))
        | inr e ↦ ground (arith, e)
      ]

  -- An unlock that succeeds keeps the invariant: each lock stands under the name of its own
  -- application, which is in the index of the pull request that holds it.
  pub unlock-IsIndexed :
      (app repo : Text) (n : ℕ) (d : R.Db)
      → IsIndexed R J d
      → (unlock R J app repo n d).0 ≡ ok tt
      → IsIndexed R J (unlock R J app repo n d).1
  unlock-IsIndexed app repo n d inv done = elim (unlock_lem R J L app repo n d) [
    | inl (e, p) ↦ cc
    | inr p ↦ rw p (unlock_found-IsIndexed app repo n _ _ (read-IsIndexed app d inv) (rw p at done))
  ]

  refresh_lock-IsIndexed :
      (req : LockRequest) (now : ℕ) (l : Lock) (d : R.Db) (res : LockResult)
      → IsIndexed R J d
      → held R J d req.application ≡ some l
      → (refresh_lock R J req now l d).0 ≡ ok res
      → IsIndexed R J (refresh_lock R J req now l d).1
  refresh_lock-IsIndexed req now l d res inv h done =
      let (same, stored, state) = refresh_lock_lem R J L req now l d res done in
      let found : held R J d l.application ≡ some l =
        ap (held R J d) (inv.keyed req.application l h) ∙ h in
      rw state (set_lock-IsIndexed l (refreshed req now l) d inv found refl refl stored)

  lock_after-IsIndexed :
      (req : LockRequest) (now : ℕ) (o : Option Lock) (d : R.Db) (res : LockResult)
      → IsIndexed R J d
      → held R J d req.application ≡ o
      → (lock_after R J req now (ok o) d).0 ≡ ok res
      → IsIndexed R J (lock_after R J req now (ok o) d).1
  unfolding lock_after
  lock_after-IsIndexed req now none d res inv h done = create_lock-IsIndexed req now d res inv done
  lock_after-IsIndexed req now (some l) d res inv h done =
      elim (Bool-cases (is_held_by_pr l req.repo req.pr_number)) [
        | inl e ↦ rw e (refresh_lock-IsIndexed req now l d res inv h (rw e at done))
        | inr e ↦ rw e inv
      ]

  -- Taking a lock, when it succeeds, keeps the invariant, whether the lock is granted or refused.
  pub lock-IsIndexed :
      (req : LockRequest) (now : ℕ) (d : R.Db) (res : LockResult)
      → IsIndexed R J d
      → (lock R J req now d).0 ≡ ok res
      → IsIndexed R J (lock R J req now d).1
  lock-IsIndexed req now d res inv done = elim (lock_lem R J L req now d) [
    | inl (e, p) ↦ cc
    | inr p ↦ rw p (
        lock_after-IsIndexed req now _ _ res (read-IsIndexed req.application d inv)
          (held-get_lock R J L req.application d req.application) (rw p at done))
  ]
