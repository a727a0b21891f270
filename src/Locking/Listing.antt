-- ===== src/Locking/Listing.antt =====
-- `ListByPR` of internal/lock/redis.go lists the locks that a pull request holds: no other, and
-- with the index in order and no read failing, all.
use mathlib.Core.Path.{subst, ap₂}
use mathlib.Core.List.{Memᴰ}
use lemuria.Prelude.{
  ℕ, Text, Bool, true, Option, none, some, List, [], ◌∷◌, All, elem, eq_iff, Bool-cases, ◌==◌, ◌≡◌,
  inl, inr, refl, sym, ap, ◌∙◌, arith,
}
use lemuria.Effect.{Error, Result, ok, err, is_nil, Result-cases}
use lemuria.Model.Lock.{Lock, is_held_by_pr, held_by_lem}
use lemuria.Redis.{Redis, RedisLaws}
use lemuria.Locking.Keys.{lock_key, pr_locks_key}
use lemuria.Locking.Manager.{LockCodec, decode_lock, get_lock, keep_lock, collect_locks, list_by_pr}
use lemuria.Locking.Reads.{decoded, held, read, held-get_lock, get_lock-ok}
use lemuria.Locking.Index.{IsIndexed}

-- A listed lock passes the test, and is the one that the server holds for some application.
abbrev pub IsListed : (R : Redis) → LockCodec → (Lock → Bool) → R.Db → Lock → Type 0
IsListed R J p d l = (p l ≡ true) × ((a : Text) × (held R J d a ≡ some l))

-- The server answers every read; that a key is missing is an answer.
abbrev pub AnswersReads : Redis → Type 0
AnswersReads R = (k : Text) (d : R.Db) (e : Error) → (R.get k d).0 ≡ err e → is_nil e ≡ true

module _ (R : Redis) (J : LockCodec) (L : RedisLaws R) where
  IsListed-read :
      (p : Lock → Bool) (b : Text) (d : R.Db) (ls : List Lock)
      → All (IsListed R J p (read R J b d)) ls
      → All (IsListed R J p d) ls
  IsListed-read p b d [] h = tt
  IsListed-read p b d (l ∷ ls) ((t, (a, h)), hs) =
      ((t, (a, sym (held-get_lock R J L b d a) ∙ h)), IsListed-read p b d ls hs)

  collect_locks-total :
      (p : Lock → Bool) (apps : List Text) (d : R.Db)
      → (ls : List Lock) × ((collect_locks R J p apps d).0 ≡ ok ls)
  unfolding collect_locks
  collect_locks-total p [] d = ([], refl)
  collect_locks-total p (app ∷ apps) d =
      let (rest, h) = collect_locks-total p apps (read R J app d) in
      (keep_lock R J p (get_lock R J app d).0 rest, rw h refl)

  -- One round of the loop.
  collect_locks_step :
      (p : Lock → Bool) (app : Text) (apps : List Text) (d : R.Db) (ls : List Lock)
      → (collect_locks R J p (app ∷ apps) d).0 ≡ ok ls
      → (rest : List Lock) × ((collect_locks R J p apps (read R J app d)).0 ≡ ok rest)
        × (ls ≡ keep_lock R J p (get_lock R J app d).0 rest)
  unfolding collect_locks
  collect_locks_step p app apps d ls h =
      let (rest, q) = collect_locks-total p apps (read R J app d) in (rest, q, ground (arith, q))

  keep_lock-IsListed :
      (p : Lock → Bool) (d : R.Db) (a : Text) (r : Result (Option Lock)) (rest : List Lock)
      → ((o : Option Lock) → r ≡ ok o → o ≡ held R J d a)
      → All (IsListed R J p d) rest
      → All (IsListed R J p d) (keep_lock R J p r rest)
  unfolding keep_lock
  keep_lock-IsListed p d a (err e) rest q hs = hs
  keep_lock-IsListed p d a (ok none) rest q hs = hs
  keep_lock-IsListed p d a (ok (some l)) rest q hs = elim (Bool-cases (p l)) [
    | inl t ↦ rw t ((t, (a, sym (q (some l) refl))), hs)
    | inr t ↦ rw t hs
  ]

  collect_locks_sound :
      (p : Lock → Bool) (apps : List Text) (d : R.Db) (ls : List Lock)
      → (collect_locks R J p apps d).0 ≡ ok ls
      → All (IsListed R J p d) ls
  unfolding collect_locks
  collect_locks_sound p [] d ls h = let e : [] ≡ ls = cc in subst (All (IsListed R J p d)) e tt
  collect_locks_sound p (app ∷ apps) d ls h =
      let (rest, q, e) = collect_locks_step p app apps d ls h in
      let found = collect_locks_sound p apps (read R J app d) rest q in
      subst (All (IsListed R J p d)) (sym e) (
        keep_lock-IsListed p d app _ rest (get_lock-ok R J L app d)
          (IsListed-read p app d rest found))

  get_lock-held :
      AnswersReads R
      → (a : Text) (d : R.Db) (l : Lock) → held R J d a ≡ some l
      → (get_lock R J a d).0 ≡ ok (some l)
  unfolding held get_lock decode_lock decoded
  get_lock-held answers a d l h = elim (Result-cases (R.get (lock_key a) d).0) [
    | inl (v, q) ↦ ground (arith, q, L.get-ok (lock_key a) d v q)
    | inr (e, q) ↦ ground (arith, q, L.get-nil (lock_key a) d e q (answers (lock_key a) d e q))
  ]

  keep_lock-tail :
      (p : Lock → Bool) (r : Result (Option Lock)) (rest : List Lock) (l : Lock)
      → Memᴰ l rest
      → Memᴰ l (keep_lock R J p r rest)
  unfolding keep_lock
  keep_lock-tail p (err e) rest l m = m
  keep_lock-tail p (ok none) rest l m = m
  keep_lock-tail p (ok (some k)) rest l m = elim (Bool-cases (p k)) [
    | inl t ↦ rw t (Memᴰ.tail m)
    | inr t ↦ rw t m
  ]

  collect_locks_complete :
      AnswersReads R
      → (p : Lock → Bool) (apps : List Text) (d : R.Db) (ls : List Lock) (a : Text) (l : Lock)
      → elem a apps ≡ true
      → held R J d a ≡ some l
      → p l ≡ true
      → (collect_locks R J p apps d).0 ≡ ok ls
      → Memᴰ l ls
  collect_locks_complete answers p [] d ls a l m h t q = cc
  collect_locks_complete answers p (app ∷ apps) d ls a l m h t q =
      let (rest, q', e) = collect_locks_step p app apps d ls q in
      elim (Bool-cases (app == a)) [
        | inl same ↦
            let there : held R J d app ≡ some l = ap (held R J d) ((eq_iff app a).0 same) ∙ h in
            subst (Memᴰ l) (sym e)
              (rw (get_lock-held answers app d l there) (unfold keep_lock in rw t (Memᴰ.head refl)))
        | inr other ↦
            let later : elem a apps ≡ true = ground (arith, other) in
            subst (Memᴰ l) (sym e) (
              keep_lock-tail p _ rest l (
                collect_locks_complete answers p apps (read R J app d) rest a l later
                  (held-get_lock R J L app d a ∙ h) t q'))
      ]

  held-smembers : (k : Text) (d : R.Db) (a : Text) → held R J (R.smembers k d).1 a ≡ held R J d a
  unfolding held
  held-smembers k d a = rw (L.value-smembers k d (lock_key a))

  list_by_pr_step :
      (repo : Text) (n : ℕ) (d : R.Db) (ls : List Lock)
      → (list_by_pr R J repo n d).0 ≡ ok ls
      → let index = pr_locks_key repo n in
        (apps : List Text) × ((R.smembers index d).0 ≡ ok apps)
        × ((collect_locks R J (λ l. is_held_by_pr l repo n) apps (R.smembers index d).1).0 ≡ ok ls)
  unfolding list_by_pr
  list_by_pr_step repo n d ls h = elim (Result-cases (R.smembers (pr_locks_key repo n) d).0) [
    | inl (apps, q) ↦ (apps, q, rw q at h)
    | inr (e, q) ↦ absurd (ground (arith, q))
  ]

  IsListed-smembers :
      (p : Lock → Bool) (k : Text) (d : R.Db) (ls : List Lock)
      → All (IsListed R J p (R.smembers k d).1) ls
      → All (IsListed R J p d) ls
  IsListed-smembers p k d [] h = tt
  IsListed-smembers p k d (l ∷ ls) ((t, (a, h)), hs) =
      ((t, (a, sym (held-smembers k d a) ∙ h)), IsListed-smembers p k d ls hs)

  -- Each lock that is listed for a pull request is held by it, and stands on the server.
  pub list_by_pr_sound :
      (repo : Text) (n : ℕ) (d : R.Db) (ls : List Lock)
      → (list_by_pr R J repo n d).0 ≡ ok ls
      → All (IsListed R J (λ l. is_held_by_pr l repo n) d) ls
  list_by_pr_sound repo n d ls h =
      let (apps, q, c) = list_by_pr_step repo n d ls h in
      IsListed-smembers _ (pr_locks_key repo n) d ls (collect_locks_sound _ apps _ ls c)

  -- With every lock in its index and a server that answers reads, each lock that the pull request
  -- holds is listed.
  pub list_by_pr_complete :
      (repo : Text) (n : ℕ) (d : R.Db) (ls : List Lock) (a : Text) (l : Lock)
      → AnswersReads R
      → IsIndexed R J d
      → (list_by_pr R J repo n d).0 ≡ ok ls
      → held R J d a ≡ some l
      → is_held_by_pr l repo n ≡ true
      → Memᴰ l ls
  list_by_pr_complete repo n d ls a l answers inv h there mine =
      let (apps, q, c) = list_by_pr_step repo n d ls h in
      let index = pr_locks_key repo n in
      let (r, m) = held_by_lem l repo n mine in
      let entry : elem a apps ≡ true =
        L.smembers-ok index d apps q a
        ∙ ap₂ (λ x y. R.member d (pr_locks_key x y) a) (sym r) (sym m)
        ∙ inv.indexed a l there in
      collect_locks_complete answers _ apps _ ls a l entry (held-smembers index d a ∙ there) mine c
