-- ===== src/Services/World.antt =====
-- The state that a command changes is that of the Redis server, of Argo CD and of the provider.
-- The names of Effect are taken again here as functions that compute only where they are unfolded,
-- so that a proof about a command follows the lines of the command.
use lemuria.Prelude.{Text, Bool, if◌then◌else◌}
use lemuria.Effect.{Result, ok, Action, wrap_result, continue}

abbrev pub World : Type 0 → Type 0 → Type 0 → Type 0
World D A V = D × A × V

module _ {S A : Type 0} where
  unfoldable pub pure : A → Action S A
  pure a s = (ok a, s)

  unfoldable pub lift : Result A → Action S A
  lift r s = (r, s)

  unfoldable pub attempt : Action S A → Action S (Result A)
  attempt m s = (ok (m s).0, (m s).1)

  unfoldable pub context : Text → Action S A → Action S A
  context msg m s = (wrap_result msg (m s).0, (m s).1)

module _ {S A B : Type 0} where
  infixl 5 ◌>>=◌ ◌>>◌
  unfoldable pub ◌>>=◌ : Action S A → (A → Action S B) → Action S B
  ◌>>=◌ m f s = continue (m s).0 f (m s).1

  abbrev pub ◌>>◌ : Action S A → Action S B → Action S B
  m >> n = m >>= λ _. n

module _ {S A : Type 0} where
  -- An error is only logged.
  unfoldable pub logged : Action S A → Action S (Unit {0})
  logged m = attempt m >> pure tt

module _ {S : Type 0} where
  unfoldable pub when : Bool → Action S (Unit {0}) → Action S (Unit {0})
  when b m = if b then m else pure tt

module _ {D A V : Type 0} {X : Type 0} where
  unfoldable pub on_redis : Action D X → Action (World D A V) X
  on_redis m s = ((m s.0).0, ((m s.0).1, s.1, s.2))

  unfoldable pub on_argo : Action A X → Action (World D A V) X
  on_argo m s = ((m s.1).0, (s.0, (m s.1).1, s.2))

  unfoldable pub on_vcs : Action V X → Action (World D A V) X
  on_vcs m s = ((m s.2).0, (s.0, s.1, (m s.2).1))

  unfoldable pub on_both : Action (A × V) X → Action (World D A V) X
  on_both m s = let r = m (s.1, s.2) in (r.0, (s.0, r.1.0, r.1.1))
