-- ===== src/Services/Replies.antt =====
-- What a command does with the replies of the lock manager: a lock that was read, a request that
-- was granted, the locks that were listed.
use lemuria.Services.Safe.{AllOwn, AllOwn-Respects, Safe, continue-Respects}
use lemuria.Prelude.{
  map, Bool-cases, ℕ, Text, true, false, Option, none, some, List, ◌∷◌, ◌≡◌, inl, inr, refl, sym,
  ◌∙◌,
}
use lemuria.Effect.{Error, Result, ok, err, Action}
use lemuria.Locking.Respects.{Setting, IsKeyed, IsOwn, Respects, IsKeyed-after, Respects-trans}
use lemuria.Model.Lock.{Lock, LockRequest, LockResult}
use lemuria.Locking.Manager.{get_lock, lock, list_by_pr}
use lemuria.Locking.Reads.{held, held-get_lock, get_lock-ok}
use lemuria.Locking.Steps.{Respects-get_lock, IsOurs, lock-Respects, lock-IsOwn}
use lemuria.Locking.PolicySteps.{list_by_pr-Respects, list_by_pr-IsOwn}
use lemuria.Services.World.{World, pure, attempt, context, logged, ◌>>=◌, on_redis}

-- An action that is safe where the server holds a given lock for an application.
pub record Holding (c : Setting) {A V X : Type 0} (apps : List Text) (a : Text) (l : Lock)
    (m : Action (World c.site.redis.Db A V) X) : Type 0 where
  pub step :
      (s : World c.site.redis.Db A V)
      → IsKeyed c s.0
      → AllOwn c apps s.0
      → held c.site.redis c.site.codec s.0 a ≡ some l
      → Respects c s.0 (m s).1.0

module _ {c : Setting} {A V : Type 0} {apps : List Text} where
  reply-Respects :
      {Y : Type 0} (a : Text) (r : Result (Option Lock))
      (f : Result (Option Lock) → Action (World c.site.redis.Db A V) Y)
      (s : World c.site.redis.Db A V)
      → ((e : Error) → Safe c apps (f (err e)))
      → Safe c apps (f (ok none))
      → ((l : Lock) → Holding c apps a l (f (ok (some l))))
      → IsKeyed c s.0
      → AllOwn c apps s.0
      → ((o : Option Lock) → r ≡ ok o → o ≡ held c.site.redis c.site.codec s.0 a)
      → Respects c s.0 (f r s).1.0
  reply-Respects a (err e) f s p q r k o h = (p e).step s k o
  reply-Respects a (ok none) f s p q r k o h = q.step s k o
  reply-Respects a (ok (some l)) f s p q r k o h = (r l).step s k o (sym (h (some l) refl))

  -- What follows a read of a lock.
  pub Safe-get :
      {Y : Type 0} (a : Text) (f : Result (Option Lock) → Action (World c.site.redis.Db A V) Y)
      → ((e : Error) → Safe c apps (f (err e)))
      → Safe c apps (f (ok none))
      → ((l : Lock) → Holding c apps a l (f (ok (some l))))
      → Safe c apps (attempt (on_redis (get_lock c.site.redis c.site.codec a)) >>= f)
  unfolding attempt on_redis ◌>>=◌
  Safe-get a f p q r = record {
    step = λ s k o.
        let m = get_lock c.site.redis c.site.codec a s.0 in
        let read = Respects-get_lock c a s.0 k in
        Respects-trans c read (
          reply-Respects a m.0 f (m.1, s.1, s.2) p q r (IsKeyed-after c read)
            (AllOwn-Respects c apps s.0 m.1 read o)
            (λ x e.
              get_lock-ok c.site.redis c.site.codec c.site.laws a s.0 x e
              ∙ sym (held-get_lock c.site.redis c.site.codec c.site.laws a s.0 a)));
  }

  -- The lock that was read is written again.
  pub Holding-redis :
      {X : Type 0} (a : Text) (l : Lock) (m : Action c.site.redis.Db X)
      → ((d : c.site.redis.Db)
          → IsKeyed c d
          → AllOwn c apps d
          → held c.site.redis c.site.codec d a ≡ some l
          → Respects c d (m d).1)
      → Holding c {A = A} {V = V} apps a l (on_redis m)
  unfolding on_redis
  Holding-redis a l m h = record { step = λ s k o e. h s.0 k o e }

  pub Holding-context :
      {X : Type 0} {a : Text} {l : Lock} {m : Action (World c.site.redis.Db A V) X} (msg : Text)
      → Holding c apps a l m
      → Holding c apps a l (context msg m)
  unfolding context
  Holding-context msg h = record { step = λ s k o e. h.step s k o e }

  pub Holding-logged :
      {X : Type 0} {a : Text} {l : Lock} {m : Action (World c.site.redis.Db A V) X}
      → Holding c apps a l m
      → Holding c apps a l (logged m)
  unfolding logged attempt pure ◌>>=◌
  Holding-logged h = record { step = λ s k o e. h.step s k o e }

  pub Holding-bind :
      {X Y : Type 0} {a : Text} {l : Lock} {m : Action (World c.site.redis.Db A V) X}
      {f : X → Action (World c.site.redis.Db A V) Y}
      → Holding c apps a l m
      → ((x : X) → Safe c apps (f x))
      → Holding c apps a l (m >>= f)
  unfolding ◌>>=◌
  Holding-bind {X} {Y} {a} {l} {m} {f} p q = record {
    step = λ s k o e.
        let r = p.step s k o e in
        continue-Respects (m s).0 f s (m s).1 r
          (λ x. (q x).step (m s).1 (IsKeyed-after c r) (AllOwn-Respects c apps s.0 (m s).1.0 r o));
  }

  -- What follows a read of a lock, where the reply is only looked at.
  pub Safe-Holding :
      {X : Type 0} {a : Text} {l : Lock} {m : Action (World c.site.redis.Db A V) X}
      → Safe c apps m
      → Holding c apps a l m
  Safe-Holding h = record { step = λ s k o e. h.step s k o }

  granted-Respects :
      {Y : Type 0} (req : LockRequest) (r : Result LockResult)
      (f : Result LockResult → Action (World c.site.redis.Db A V) Y) (s : World c.site.redis.Db A V)
      → ((e : Error) → Safe c apps (f (err e)))
      → ((res : LockResult) → res.acquired ≡ true → Safe c (req.application ∷ apps) (f (ok res)))
      → ((res : LockResult) → res.acquired ≡ false → Safe c apps (f (ok res)))
      → IsKeyed c s.0
      → AllOwn c apps s.0
      → ((res : LockResult) → r ≡ ok res → res.acquired ≡ true → IsOwn c s.0 req.application)
      → Respects c s.0 (f r s).1.0
  granted-Respects req (err e) f s p q r k o h = (p e).step s k o
  granted-Respects req (ok res) f s p q r k o h = elim (Bool-cases res.acquired) [
    | inl e ↦ (q res e).step s k (h res refl e, o)
    | inr e ↦ (r res e).step s k o
  ]

  -- What follows a request for a lock: one that is granted makes the application an own one.
  pub Safe-lock :
      {Y : Type 0} (req : LockRequest) (now : ℕ)
      (f : Result LockResult → Action (World c.site.redis.Db A V) Y)
      → IsOurs c req
      → ((e : Error) → Safe c apps (f (err e)))
      → ((res : LockResult) → res.acquired ≡ true → Safe c (req.application ∷ apps) (f (ok res)))
      → ((res : LockResult) → res.acquired ≡ false → Safe c apps (f (ok res)))
      → Safe c apps (attempt (on_redis (lock c.site.redis c.site.codec req now)) >>= f)
  unfolding attempt on_redis ◌>>=◌
  Safe-lock req now f ours p q r = record {
    step = λ s k o.
        let m = lock c.site.redis c.site.codec req now s.0 in
        let step = lock-Respects c req now s.0 ours k in
        Respects-trans c step (
          granted-Respects req m.0 f (m.1, s.1, s.2) p q r (IsKeyed-after c step)
            (AllOwn-Respects c apps s.0 m.1 step o)
            (λ res e acquired. lock-IsOwn c req now s.0 res ours k e acquired));
  }

  listed-Respects :
      {Y : Type 0} (r : Result (List Lock))
      (f : Result (List Lock) → Action (World c.site.redis.Db A V) Y)
      (s : World c.site.redis.Db A V)
      → ((e : Error) → Safe c apps (f (err e)))
      → ((ls : List Lock) → Safe c (map (λ (l : Lock). l.application) ls) (f (ok ls)))
      → IsKeyed c s.0
      → AllOwn c apps s.0
      → ((ls : List Lock) → r ≡ ok ls → AllOwn c (map (λ (l : Lock). l.application) ls) s.0)
      → Respects c s.0 (f r s).1.0
  listed-Respects (err e) f s p q k o h = (p e).step s k o
  listed-Respects (ok ls) f s p q k o h = (q ls).step s k (h ls refl)

  -- What follows the listing of the pull request's locks.
  pub Safe-list :
      {Y : Type 0} (f : Result (List Lock) → Action (World c.site.redis.Db A V) Y)
      → ((e : Error) → Safe c apps (f (err e)))
      → ((ls : List Lock) → Safe c (map (λ (l : Lock). l.application) ls) (f (ok ls)))
      → Safe c apps
          (attempt (on_redis (list_by_pr c.site.redis c.site.codec c.repo c.number)) >>= f)
  unfolding attempt on_redis ◌>>=◌
  Safe-list f p q = record {
    step = λ s k o.
        let m = list_by_pr c.site.redis c.site.codec c.repo c.number s.0 in
        let step = list_by_pr-Respects c s.0 k in
        Respects-trans c step (
          listed-Respects m.0 f (m.1, s.1, s.2) p q (IsKeyed-after c step)
            (AllOwn-Respects c apps s.0 m.1 step o)
            (λ ls e. AllOwn-Respects c _ s.0 m.1 step (list_by_pr-IsOwn c s.0 ls k e)));
  }
