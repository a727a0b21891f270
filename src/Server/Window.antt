-- ===== src/Server/Window.antt =====
-- The rate limiter of internal/server/ratelimit.go, and a log of all granted attempts in its place.
use mathlib.Core.Path.{ap₂}
use lemuria.Prelude.{
  ℕ, ◌+◌, ◌≤◌, Text, Bool, false, List, [], ◌∷◌, ◌++◌, length, select, ltb, if◌then◌else◌, ◌==◌,
  ◌&&◌, eq_iff, Bool-cases, length-append, select-append, ◌≡◌, inl, inr, refl, ap, ◌∙◌, arith,
}
use lemuria.Server.RateLimiter.{
  RateLimiter, new_rate_limiter, valid, keep_or_delete, allow, cleanup,
}

pub data Event : Type 0 where
  attempt : Text → ℕ → Event
  tick : ℕ → Event

abbrev pub time : Event → ℕ
time (attempt key now) = now
time (tick now) = now

-- The clock does not go back.
abbrev pub IsOrdered : ℕ → List Event → Type 0
IsOrdered last [] = Unit
IsOrdered last (e ∷ es) = (last ≤ time e) × IsOrdered (time e) es

-- The limiter over a list of events, with its answers.
unfoldable pub run : RateLimiter → List Event → List Bool
run rl [] = []
run rl (attempt key now ∷ es) = let (rl', granted) = allow rl key now in granted ∷ run rl' es
run rl (tick now ∷ es) = run (cleanup rl now) es

-- The specification: a log of the granted attempts from which nothing is ever removed.
abbrev pub Log : Type 0
Log = List (Text × ℕ)

-- The granted attempts of a key in the window that ends at a time.
abbrev pub recent : ℕ → Text → ℕ → Log → Log
recent window key now = select (λ e. key == e.0 && ltb now (e.1 + window))

abbrev pub may : ℕ → ℕ → Text → ℕ → Log → Bool
may max window key now log = ltb (length (recent window key now log)) max

unfoldable pub expected : ℕ → ℕ → Log → List Event → List Bool
expected max window log [] = []
expected max window log (attempt key now ∷ es) =
    let granted = may max window key now log in
    granted ∷ expected max window (if granted then log ++ (key, now) ∷ [] else log) es
expected max window log (tick now ∷ es) = expected max window log es

-- The limiter and the log count the same attempts at every time from `last` on.
pub record Agrees (rl : RateLimiter) (log : Log) (last : ℕ) : Type 0 where
  pub counts :
      (k : Text) (now : ℕ)
      → last ≤ now
      → length (valid rl.window now (rl.attempts k)) ≡ length (recent rl.window k now log)

-- What is outside of a window stays outside.
valid-valid :
    (w now later : ℕ) (xs : List ℕ)
    → now ≤ later
    → valid w later (valid w now xs) ≡ valid w later xs
valid-valid w now later [] h = refl
valid-valid w now later (t ∷ xs) h = elim (Bool-cases (ltb now (t + w))) [
  | inl in_ ↦ rw in_ (elim (Bool-cases (ltb later (t + w))) [
    | inl l ↦ rw l (ap (λ ys. t ∷ ys) (valid-valid w now later xs h))
    | inr l ↦ rw l (valid-valid w now later xs h)
  ])
  | inr out ↦
      let gone : ltb later (t + w) ≡ false = ground arith in
      rw (out, gone) (valid-valid w now later xs h)
]

keep_or_delete_lem : (xs : List ℕ) → keep_or_delete xs ≡ xs
keep_or_delete_lem [] = refl
keep_or_delete_lem (x ∷ xs) = refl

length-valid_last :
    (w later t : ℕ) (xs : List ℕ)
    → length (valid w later (xs ++ t ∷ []))
      ≡ length (valid w later xs) + (if ltb later (t + w) then 1 else 0)
length-valid_last w later t xs =
    ap length (select-append (λ u. ltb later (u + w)) xs (t ∷ []))
    ∙ length-append (valid w later xs) _
    ∙ ground arith

pub length-recent_last :
    (w : ℕ) (k : Text) (later : ℕ) (key : Text) (t : ℕ) (log : Log)
    → length (recent w k later (log ++ (key, t) ∷ []))
      ≡ length (recent w k later log) + (if k == key && ltb later (t + w) then 1 else 0)
length-recent_last w k later key t log =
    ap length (select-append (λ e. k == e.0 && ltb later (e.1 + w)) log ((key, t) ∷ []))
    ∙ length-append (recent w k later log) _
    ∙ ground arith

module _ (rl : RateLimiter) (log : Log) (last now : ℕ) (inv : Agrees rl log last)
    (h : last ≤ now) where
  pub allow-may : (key : Text) → (allow rl key now).1 ≡ may rl.max_attempts rl.window key now log
  unfolding allow
  allow-may key = ground (arith, inv.counts key now h)

  pub allow-Agrees :
      (key : Text)
      → let granted = may rl.max_attempts rl.window key now log in
        Agrees (allow rl key now).0 (if granted then log ++ (key, now) ∷ [] else log) now
  unfolding allow
  allow-Agrees key = record {
    counts = λ k later g.
        let xs = valid rl.window now (rl.attempts key) in
        ground (
          arith,
          inv.counts key now h,
          inv.counts k later,
          inv.counts key later,
          eq_iff key k,
          eq_iff k key,
          valid-valid rl.window now later (rl.attempts key) g,
          length-valid_last rl.window later now xs,
          length-recent_last rl.window k later key now log,
        );
  }

  pub cleanup-Agrees : Agrees (cleanup rl now) log now
  unfolding cleanup
  cleanup-Agrees = record {
    counts = λ k later g.
        rw
          (
            keep_or_delete_lem (valid rl.window now (rl.attempts k)),
            valid-valid rl.window now later (rl.attempts k) g,
          )
          (inv.counts k later (omega arith));
  }

pub allow_config :
    (rl : RateLimiter) (key : Text) (now : ℕ)
    → ((allow rl key now).0.max_attempts ≡ rl.max_attempts)
      × ((allow rl key now).0.window ≡ rl.window)
unfolding allow
allow_config rl key now = ground arith

pub cleanup_config :
    (rl : RateLimiter) (now : ℕ)
    → ((cleanup rl now).max_attempts ≡ rl.max_attempts) × ((cleanup rl now).window ≡ rl.window)
unfolding cleanup
cleanup_config rl now = (refl, refl)

run-eq-expected :
    (rl : RateLimiter) (log : Log) (last : ℕ) (es : List Event)
    → Agrees rl log last
    → IsOrdered last es
    → run rl es ≡ expected rl.max_attempts rl.window log es
unfolding run expected
run-eq-expected rl log last [] inv o = refl
run-eq-expected rl log last (attempt key now ∷ es) inv (h, o) =
    let (m, w) = allow_config rl key now in
    let same = allow-may rl log last now inv h key in
    let next = allow-Agrees rl log last now inv h key in
    let log' : Log =
      if may rl.max_attempts rl.window key now log then log ++ (key, now) ∷ [] else log in
    ap₂ ◌∷◌ same (
      run-eq-expected (allow rl key now).0 log' now es next o
      ∙ ap₂ (λ a b. expected a b log' es) m w)
run-eq-expected rl log last (tick now ∷ es) inv (h, o) =
    let (m, w) = cleanup_config rl now in
    run-eq-expected (cleanup rl now) log now es (cleanup-Agrees rl log last now inv h) o
    ∙ ap₂ (λ a b. expected a b log es) m w

-- Whatever attempts and cleanups come, in the order of the clock, the limiter answers each attempt
-- as a log would from which nothing is ever removed: it grants those, and only those, that find
-- fewer granted attempts of their key in the window than the limit.
pub run-expected :
    (max window : ℕ) (es : List Event)
    → IsOrdered 0 es
    → run (new_rate_limiter max window) es ≡ expected max window [] es
unfolding new_rate_limiter
run-expected max window es o =
    run-eq-expected (new_rate_limiter max window) [] 0 es (record { counts = λ k now h. refl }) o
