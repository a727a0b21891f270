-- ===== src/Services/Safe.antt =====
-- A command of a pull request that leaves the locks that others hold, and how it is put together
-- from others. `apps` are applications that no other pull request has locked when it begins.
use lemuria.Prelude.{◌≡◌, refl, Text, Bool, true, false, List, [], ◌∷◌, All, if◌then◌else◌}
use lemuria.Effect.{Result, ok, err, Action, continue}
use lemuria.Model.Event.{PrEvent}
use lemuria.Locking.Respects.{
  Site, Setting, IsKeyed, IsOwn, Respects, Respects-refl, IsKeyed-after, IsOwn-after,
  Respects-trans,
}
use lemuria.Services.World.{
  World, pure, lift, attempt, context, logged, when, ◌>>=◌, on_redis, on_argo, on_both, on_vcs,
}

-- The pull request of an event.
abbrev pub setting : Site → PrEvent → Setting
setting site event = record { site = site; repo = event.repo.full_name; number = event.pr.number }

abbrev pub AllOwn : (c : Setting) → List Text → c.site.redis.Db → Type 0
AllOwn c apps d = All (IsOwn c d) apps

pub AllOwn-Respects :
    (c : Setting) (apps : List Text) (d d' : c.site.redis.Db)
    → Respects c d d'
    → AllOwn c apps d
    → AllOwn c apps d'
AllOwn-Respects c [] d d' r o = tt
AllOwn-Respects c (a ∷ apps) d d' r (o, os) =
    (IsOwn-after c r a o, AllOwn-Respects c apps d d' r os)

pub record Safe (c : Setting) {A V X : Type 0} (apps : List Text)
    (m : Action (World c.site.redis.Db A V) X) : Type 0 where
  pub step :
      (s : World c.site.redis.Db A V) → IsKeyed c s.0 → AllOwn c apps s.0 → Respects c s.0 (m s).1.0

module _ {c : Setting} {A V : Type 0} where
  pub continue-Respects :
      {X Y : Type 0} (r : Result X) (f : X → Action (World c.site.redis.Db A V) Y)
      (s s' : World c.site.redis.Db A V)
      → Respects c s.0 s'.0
      → ((x : X) → Respects c s'.0 (f x s').1.0)
      → Respects c s.0 (continue r f s').1.0
  continue-Respects (ok x) f s s' p q = Respects-trans c p (q x)
  continue-Respects (err e) f s s' p q = p

module _ {c : Setting} {A V : Type 0} {apps : List Text} where
  pub Safe-pure : {X : Type 0} (x : X) → Safe c {A = A} {V = V} apps (pure x)
  unfolding pure
  Safe-pure x = record { step = λ s k o. Respects-refl c s.0 k }

  pub Safe-lift : {X : Type 0} (x : Result X) → Safe c {A = A} {V = V} apps (lift x)
  unfolding lift
  Safe-lift x = record { step = λ s k o. Respects-refl c s.0 k }

  pub Safe-argo : {X : Type 0} (m : Action A X) → Safe c {A = A} {V = V} apps (on_argo m)
  unfolding on_argo
  Safe-argo m = record { step = λ s k o. Respects-refl c s.0 k }

  pub Safe-vcs : {X : Type 0} (m : Action V X) → Safe c {A = A} {V = V} apps (on_vcs m)
  unfolding on_vcs
  Safe-vcs m = record { step = λ s k o. Respects-refl c s.0 k }

  pub Safe-both : {X : Type 0} (m : Action (A × V) X) → Safe c {A = A} {V = V} apps (on_both m)
  unfolding on_both
  Safe-both m = record { step = λ s k o. Respects-refl c s.0 k }

  pub Safe-redis :
      {X : Type 0} (m : Action c.site.redis.Db X)
      → ((d : c.site.redis.Db) → IsKeyed c d → AllOwn c apps d → Respects c d (m d).1)
      → Safe c {A = A} {V = V} apps (on_redis m)
  unfolding on_redis
  Safe-redis m h = record { step = λ s k o. h s.0 k o }

  pub Safe-attempt :
      {X : Type 0} {m : Action (World c.site.redis.Db A V) X}
      → Safe c apps m
      → Safe c apps (attempt m)
  unfolding attempt
  Safe-attempt h = record { step = λ s k o. h.step s k o }

  pub Safe-context :
      {X : Type 0} {m : Action (World c.site.redis.Db A V) X} (msg : Text)
      → Safe c apps m
      → Safe c apps (context msg m)
  unfolding context
  Safe-context msg h = record { step = λ s k o. h.step s k o }

  pub Safe-if :
      {X : Type 0} {m n : Action (World c.site.redis.Db A V) X} (b : Bool)
      → Safe c apps m
      → Safe c apps n
      → Safe c apps (if b then m else n)
  Safe-if true p q = p
  Safe-if false p q = q

  pub Safe-logged :
      {X : Type 0} {m : Action (World c.site.redis.Db A V) X}
      → Safe c apps m
      → Safe c apps (logged m)
  unfolding logged attempt pure ◌>>=◌
  Safe-logged h = record { step = λ s k o. h.step s k o }

  pub Safe-when :
      {m : Action (World c.site.redis.Db A V) (Unit {0})} (b : Bool)
      → Safe c apps m
      → Safe c apps (when b m)
  unfolding when
  Safe-when true p = p
  Safe-when false p = Safe-pure tt

  pub Safe-bind :
      {X Y : Type 0} {m : Action (World c.site.redis.Db A V) X}
      {f : X → Action (World c.site.redis.Db A V) Y}
      → Safe c apps m
      → ((x : X) → Safe c apps (f x))
      → Safe c apps (m >>= f)
  unfolding ◌>>=◌
  Safe-bind {X} {Y} {m} {f} p q = record {
    step = λ s k o.
        let r = p.step s k o in
        continue-Respects (m s).0 f s (m s).1 r
          (λ x. (q x).step (m s).1 (IsKeyed-after c r) (AllOwn-Respects c apps s.0 (m s).1.0 r o));
  }

  -- Fewer applications are needed than are known.
  pub Safe-more :
      {X : Type 0} {m : Action (World c.site.redis.Db A V) X} (a : Text)
      → Safe c apps m
      → Safe c (a ∷ apps) m
  Safe-more a h = record { step = λ s k o. h.step s k o.1 }

  pub Safe-sub :
      {X : Type 0} {m : Action (World c.site.redis.Db A V) X} (apps' : List Text)
      → ((d : c.site.redis.Db) → AllOwn c apps d → AllOwn c apps' d)
      → Safe c apps' m
      → Safe c apps m
  Safe-sub apps' sub h = record { step = λ s k o. h.step s k (sub s.0 o) }

  -- What is known of every result of the first action is known in the second.
  pub Safe-bind_known :
      {X Y : Type 0} {m : Action (World c.site.redis.Db A V) X}
      {f : X → Action (World c.site.redis.Db A V) Y} (P : X → Type 0)
      → ((s : World c.site.redis.Db A V) (x : X) → (m s).0 ≡ ok x → P x)
      → Safe c apps m
      → ((x : X) → P x → Safe c apps (f x))
      → Safe c apps (m >>= f)
  unfolding ◌>>=◌
  Safe-bind_known {X} {Y} {m} {f} P known p q = record {
    step = λ s k o.
        let r = p.step s k o in
        known-Respects (m s).0 f s (m s).1 r (λ x e.
          (q x (known s x e)).step (m s).1 (IsKeyed-after c r)
            (AllOwn-Respects c apps s.0 (m s).1.0 r o));
  }
    where
      known-Respects :
          {X Y : Type 0} (r : Result X) (f : X → Action (World c.site.redis.Db A V) Y)
          (s s' : World c.site.redis.Db A V)
          → Respects c s.0 s'.0
          → ((x : X) → r ≡ ok x → Respects c s'.0 (f x s').1.0)
          → Respects c s.0 (continue r f s').1.0
      known-Respects (ok x) f s s' p q = Respects-trans c p (q x refl)
      known-Respects (err e) f s s' p q = p
