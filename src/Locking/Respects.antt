-- ===== src/Locking/Respects.antt =====
-- What a pull request may do to the locks of internal/lock/redis.go: its own, and free ones.
use mathlib.Core.Path.{subst}
use lemuria.Prelude.{
  ℕ, Text, true, false, some, ◌≡◌, ◌≢◌, ◌⊎◌, inl, inr, refl, sym, ap, ◌∙◌, Option-cases,
  text_discrete, some_injective, arith,
}
use lemuria.Model.Lock.{Lock, is_held_by_pr}
use lemuria.Redis.{Redis, RedisLaws}
use lemuria.Locking.Keys.{lock_key, lock_key-ne, lock_ttl}
use lemuria.Locking.Manager.{LockCodec, set_lock}
use lemuria.Locking.Reads.{decoded, held, held-set_lock_ne}

-- A server, which pull requests have to be left alone on it, and what may become of their locks.
pub record Site : Type 1 where
  pub redis : Redis
  pub codec : LockCodec
  pub laws : RedisLaws redis
  pub IsSpared : Text → ℕ → Type 0
  pub IsKept : Lock → Lock → Type 0
  pub kept-refl : (l : Lock) → IsKept l l
  pub kept-trans : (k l m : Lock) → IsKept k l → IsKept l m → IsKept k m
  pub kept-holder : (k l : Lock) → IsKept k l → (k.repo ≡ l.repo) × (k.pr_number ≡ l.pr_number)

-- A pull request on it.
pub record Setting : Type 1 where
  pub site : Site
  pub repo : Text
  pub number : ℕ

module _ (c : Setting) where
  open c use {site, repo, number}
  open site use {redis, codec}

  -- Every lock stands under the name of its application.
  abbrev pub IsKeyed : redis.Db → Type 0
  IsKeyed d = (a : Text) (l : Lock) → held redis codec d a ≡ some l → l.application ≡ a

  abbrev pub IsMine : Lock → Type 0
  IsMine l = is_held_by_pr l repo number ≡ true

  -- No other pull request has locked the application.
  abbrev pub IsOwn : redis.Db → Text → Type 0
  IsOwn d a = (l : Lock) → held redis codec d a ≡ some l → IsMine l

  -- The application has no lock that must be left.
  abbrev pub IsOpen : redis.Db → Text → Type 0
  IsOpen d a =
      (l : Lock)
      → held redis codec d a ≡ some l
      → is_held_by_pr l repo number ≡ false
      → c.site.IsSpared l.repo l.pr_number
      → ⊥

  abbrev pub KeepsAt : redis.Db → Text → Lock → Type 0
  KeepsAt d a l = (l' : Lock) × (held redis codec d a ≡ some l') × c.site.IsKept l l'

  abbrev pub WasAt : redis.Db → Text → Lock → Type 0
  WasAt d a l = (l' : Lock) × (held redis codec d a ≡ some l') × c.site.IsKept l' l

  -- A step of the pull request, at one application: a lock there is its own, or was there before.
  pub record RespectsAt (a : Text) (d d' : redis.Db) : Type 0 where
    pub keyed : (l : Lock) → held redis codec d' a ≡ some l → l.application ≡ a
    pub spared :
        (l : Lock)
        → held redis codec d a ≡ some l
        → is_held_by_pr l repo number ≡ false
        → c.site.IsSpared l.repo l.pr_number
        → KeepsAt d' a l
    pub taken : (l : Lock) → held redis codec d' a ≡ some l → IsMine l ⊎ WasAt d a l

  -- A step of the pull request.
  pub record Respects (d d' : redis.Db) : Type 0 where
    pub at : (a : Text) → RespectsAt a d d'

  pub IsKeyed-after : {d d' : redis.Db} → Respects d d' → IsKeyed d'
  IsKeyed-after r a l h = (r.at a).keyed l h

  RespectsAt-same :
      (a : Text) (d d' : redis.Db)
      → IsKeyed d
      → held redis codec d' a ≡ held redis codec d a
      → RespectsAt a d d'
  RespectsAt-same a d d' k e = record {
    keyed = λ l h. k a l (sym e ∙ h);
    spared = λ l h f s. (l, e ∙ h, c.site.kept-refl l);
    taken = λ l h. inr (l, sym e ∙ h, c.site.kept-refl l);
  }

  pub Respects-same :
      (d d' : redis.Db)
      → IsKeyed d
      → ((a : Text) → held redis codec d' a ≡ held redis codec d a)
      → Respects d d'
  Respects-same d d' k e = record { at = λ a. RespectsAt-same a d d' k (e a) }

  pub Respects-refl : (d : redis.Db) → IsKeyed d → Respects d d
  Respects-refl d k = Respects-same d d k (λ a. refl)

  kept-foreign :
      (k l : Lock) → c.site.IsKept k l → is_held_by_pr l repo number ≡ is_held_by_pr k repo number
  unfolding is_held_by_pr
  kept-foreign k l h = let (p, q) = c.site.kept-holder k l h in rw (p, q) refl

  kept-spared :
      (k l : Lock)
      → c.site.IsKept k l
      → c.site.IsSpared k.repo k.pr_number
      → c.site.IsSpared l.repo l.pr_number
  kept-spared k l h s =
      let (p, q) = c.site.kept-holder k l h in
      subst (λ n. c.site.IsSpared l.repo n) q (subst (λ r. c.site.IsSpared r k.pr_number) p s)

  IsMine-kept : (k l : Lock) → c.site.IsKept k l → IsMine k → IsMine l
  IsMine-kept k l h mine = kept-foreign k l h ∙ mine

  taken_trans :
      {a : Text} {d d' : redis.Db}
      → RespectsAt a d d'
      → (l : Lock) → IsMine l ⊎ WasAt d' a l
      → IsMine l ⊎ WasAt d a l
  taken_trans p l (inl mine) = inl mine
  taken_trans p l (inr (k, h, kept)) = elim (p.taken k h) [
    | inl mine ↦ inl (IsMine-kept k l kept mine)
    | inr (j, h', kept') ↦ inr (j, h', c.site.kept-trans j k l kept' kept)
  ]

  pub IsOwn-after : {d d' : redis.Db} → Respects d d' → (a : Text) → IsOwn d a → IsOwn d' a
  IsOwn-after r a o l h = elim ((r.at a).taken l h) [
    | inl mine ↦ mine
    | inr (k, h', kept) ↦ IsMine-kept k l kept (o k h')
  ]

  RespectsAt-trans :
      (a : Text) (d d' d'' : redis.Db)
      → RespectsAt a d d'
      → RespectsAt a d' d''
      → RespectsAt a d d''
  RespectsAt-trans a d d' d'' p q = record {
    keyed = q.keyed;
    spared = λ l h f s.
        let (m, hm, km) = p.spared l h f s in
        let (n, hn, kn) = q.spared m hm (kept-foreign l m km ∙ f) (kept-spared l m km s) in
        (n, hn, c.site.kept-trans l m n km kn);
    taken = λ l h. taken_trans p l (q.taken l h);
  }

  pub Respects-trans : {d d' d'' : redis.Db} → Respects d d' → Respects d' d'' → Respects d d''
  Respects-trans {d} {d'} {d''} p q = record {
    at = λ a. RespectsAt-trans a d d' d'' (p.at a) (q.at a);
  }

  -- A step that touches one application.
  pub Respects-one :
      (a : Text) (d d' : redis.Db)
      → IsKeyed d
      → ((b : Text) → b ≢ a → held redis codec d' b ≡ held redis codec d b)
      → RespectsAt a d d'
      → Respects d d'
  Respects-one a d d' k ne r = record {
    at = λ b. elim (text_discrete b a) [
      | yes q ↦ subst (λ x. RespectsAt x d d') (sym q) r
      | no q ↦ RespectsAt-same b d d' k (ne b q)
    ];
  }

  -- The application had no lock to be left, and has none or one of the pull request's own then.
  RespectsAt-open :
      (a : Text) (d d' : redis.Db)
      → IsOpen d a
      → ((l : Lock) → held redis codec d' a ≡ some l → IsMine l × (l.application ≡ a))
      → RespectsAt a d d'
  RespectsAt-open a d d' free fresh = record {
    keyed = λ l h. (fresh l h).1;
    spared = λ l h f s. absurd (free l h f s);
    taken = λ l h. inl (fresh l h).0;
  }

  -- What a write of a lock leaves, whether or not the server says that it succeeded.
  set_lock-either :
      (l : Lock) (d : redis.Db)
      → (held redis codec (set_lock redis codec l d).1 l.application ≡ some l)
        ⊎ (held redis codec (set_lock redis codec l d).1 l.application
            ≡ held redis codec d l.application)
  unfolding held set_lock decoded
  set_lock-either l d = elim (Option-cases (codec.marshal l)) [
    | inl e ↦ inr (ground (arith, e))
    | inr (t, e) ↦ elim (c.site.laws.set-either (lock_key l.application) t lock_ttl d) [
      | inl s ↦ inl (rw e (rw s (codec.unmarshal-marshal l t e)))
      | inr s ↦ inr (rw e (rw s refl))
    ]
  ]

  pub Respects-set_lock :
      (l : Lock) (d : redis.Db)
      → IsKeyed d
      → IsMine l
      → IsOpen d l.application
      → Respects d (set_lock redis codec l d).1
  Respects-set_lock l d k mine free =
      let d' = (set_lock redis codec l d).1 in
      Respects-one l.application d d' k (λ b ne. held-set_lock_ne redis codec c.site.laws l d b ne)
        (elim (set_lock-either l d) [
          | inr same ↦ RespectsAt-same l.application d d' k same
          | inl put ↦ RespectsAt-open l.application d d' free (λ l' h.
              subst (λ x. IsMine x × (x.application ≡ l.application)) (some_injective (sym put ∙ h))
                (mine, refl))
        ])

  -- A lock is written again, with a change that it may have whoever holds it.
  pub Respects-rewrite :
      (l m : Lock) (d : redis.Db)
      → IsKeyed d
      → held redis codec d m.application ≡ some l
      → c.site.IsKept l m
      → Respects d (set_lock redis codec m d).1
  Respects-rewrite l m d k h kept =
      let d' = (set_lock redis codec m d).1 in
      Respects-one m.application d d' k (λ b ne. held-set_lock_ne redis codec c.site.laws m d b ne)
        (elim (set_lock-either m d) [
          | inr same ↦ RespectsAt-same m.application d d' k same
          | inl put ↦ record {
            keyed = λ x e. ap (λ (y : Lock). y.application) (some_injective (sym e ∙ put));
            spared = λ x e f s.
                (m, put, subst (λ y. c.site.IsKept y m) (some_injective (sym h ∙ e)) kept);
            taken = λ x e.
                inr (l, h, subst (λ y. c.site.IsKept l y) (some_injective (sym put ∙ e)) kept);
          }
        ])

  pub IsOwn-IsOpen : (d : redis.Db) (a : Text) → IsOwn d a → IsOpen d a
  IsOwn-IsOpen d a o l h f s = absurd (ground (arith, o l h, f))

  pub Respects-del :
      (a : Text) (d : redis.Db) → IsKeyed d → IsOpen d a → Respects d (redis.del (lock_key a) d).1
  unfolding held decoded
  Respects-del a d k free =
      let d' = (redis.del (lock_key a) d).1 in
      Respects-one a d d' k
        (λ b ne.
          ap (decoded codec)
            (c.site.laws.value-del_ne (lock_key a) d (lock_key b) (lock_key-ne b a ne)))
        (elim (c.site.laws.del-either (lock_key a) d) [
          | inr same ↦ RespectsAt-same a d d' k (ap (decoded codec) same)
          | inl gone ↦ RespectsAt-open a d d' free (λ l h. absurd (ground (arith, gone, h)))
        ])

  -- A command on keys that hold no lock.
  pub Respects-value :
      (d d' : redis.Db)
      → IsKeyed d
      → ((a : Text) → redis.value d' (lock_key a) ≡ redis.value d (lock_key a))
      → Respects d d'
  unfolding held
  Respects-value d d' k e = Respects-same d d' k (λ a. ap (decoded codec) (e a))
