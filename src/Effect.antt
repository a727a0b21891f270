-- ===== src/Effect.antt =====
-- Go functions that call a server: an action takes the state of the server and returns the reply,
-- with the state that it leaves also where the reply is an error.
use lemuria.Prelude.{
  some, ℕ, Text, Bool, true, false, ◌≡◌, refl, ◌⊎◌, inl, inr, Option, none, if◌then◌else◌, arith,
}

pub data Error : Type 0 where
  redis_nil : Error  -- `redis.Nil`, the reply to a read of a missing key
  failure : Text → Error  -- any other error of a server or of its connection
  bad_json : Error
  not_held : ℕ → Error
  skip_retry : Error  -- `asynq.SkipRetry`
  wrapped : Text → Error → Error  -- fmt.Errorf with `%w`

-- errors.Is(err, redis.Nil)
unfoldable pub is_nil : Error → Bool
is_nil redis_nil = true
is_nil (wrapped _ e) = is_nil e
is_nil _ = false

-- errors.Is(err, asynq.SkipRetry)
unfoldable pub is_skip_retry : Error → Bool
is_skip_retry skip_retry = true
is_skip_retry (wrapped _ e) = is_skip_retry e
is_skip_retry _ = false

pub data Result {ℓ} (A : Type ℓ) : Type ℓ where
  ok : A → Result A
  err : Error → Result A

abbrev pub Action : Type 0 → Type 0 → Type 0
Action S A = S → Result A × S

-- `if err != nil { return fmt.Errorf("…: %w", err) }`
abbrev pub wrap_result {ℓ} : {A : Type ℓ} → Text → Result A → Result A
wrap_result msg (ok a) = ok a
wrap_result msg (err e) = err (wrapped msg e)

-- `err != nil && !errors.Is(err, redis.Nil)` returns the error; any other error leaves a nil lock.
unfoldable pub unless_nil {ℓ} : {A : Type ℓ} → Result (Option A) → Result (Option A)
unless_nil (ok o) = ok o
unless_nil (err e) = if is_nil e then ok none else err e

module _ {S A : Type 0} where
  abbrev pub pure : A → Action S A
  pure a s = (ok a, s)

  abbrev pub fail : Error → Action S A
  fail e s = (err e, s)

  abbrev pub lift : Result A → Action S A
  lift r s = (r, s)

  -- The caller looks at the error itself.
  abbrev pub attempt : Action S A → Action S (Result A)
  attempt m s = let (r, s') = m s in (ok r, s')

  abbrev pub context : Text → Action S A → Action S A
  context msg m s = let (r, s') = m s in (wrap_result msg r, s')

module _ {S A B : Type 0} where
  abbrev pub continue : Result A → (A → Action S B) → Action S B
  continue (ok a) f s = f a s
  continue (err e) f s = (err e, s)

  infixl 5 ◌>>=◌ ◌>>◌
  abbrev pub ◌>>=◌ : Action S A → (A → Action S B) → Action S B
  ◌>>=◌ m f s = let (r, s') = m s in continue r f s'

  abbrev pub ◌>>◌ : Action S A → Action S B → Action S B
  m >> n = m >>= λ _. n

pub Result-cases {ℓ} :
    {A : Type ℓ} (r : Result A) → ((a : A) × (r ≡ ok a)) ⊎ ((e : Error) × (r ≡ err e))
Result-cases (ok a) = inl (a, refl)
Result-cases (err e) = inr (e, refl)

pub ok_injective {ℓ} : {A : Type ℓ} {a b : A} → ok a ≡ ok b → a ≡ b
ok_injective h = ground (arith, h)

-- A codec that fails returns an error of its own.
abbrev pub or_bad_json {ℓ} : {A : Type ℓ} → Text → Option A → Result A
or_bad_json msg none = err (wrapped msg bad_json)
or_bad_json msg (some a) = ok a

pub or_bad_json-ok :
    {A : Type 0} (msg : Text) (o : Option A) (a : A) → or_bad_json msg o ≡ ok a → o ≡ some a
or_bad_json-ok msg none a h = ground (arith, h)
or_bad_json-ok msg (some b) a h = ground (arith, h)

pub wrap_result-ok {ℓ} :
    {A : Type ℓ} (msg : Text) (r : Result A) (a : A) → wrap_result msg r ≡ ok a → r ≡ ok a
wrap_result-ok msg (ok b) a h = h
wrap_result-ok msg (err e) a h = ground (arith, h)
