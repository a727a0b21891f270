-- ===== src/Server/Bounds.antt =====
-- internal/server/ratelimit.go: no window holds more granted attempts than the limit.
use mathlib.Core.Path.{subst, subst₂}
use lemuria.Prelude.{
  ℕ, ◌≤◌, Text, Bool, List, [], ◌∷◌, ◌++◌, length, if◌then◌else◌, eq_iff, refl, sym, arith,
}
use lemuria.Server.RateLimiter.{RateLimiter, new_rate_limiter, allow, cleanup}
use lemuria.Server.Window.{
  Event, attempt, tick, time, IsOrdered, Log, recent, may, Agrees, allow-may, allow-Agrees,
  cleanup-Agrees, allow_config, cleanup_config, length-recent_last,
}

-- The attempts that the limiter grants, behind those of a log.
unfoldable pub granted_by : RateLimiter → Log → List Event → Log
granted_by rl log [] = log
granted_by rl log (attempt key now ∷ es) =
    let (rl', granted) = allow rl key now in
    granted_by rl' (if granted then log ++ (key, now) ∷ [] else log) es
granted_by rl log (tick now ∷ es) = granted_by (cleanup rl now) log es

length-recent-le :
    (w : ℕ) (k : Text) (now later : ℕ) (log : Log)
    → now ≤ later
    → length (recent w k later log) ≤ length (recent w k now log)
length-recent-le w k now later [] h = omega arith
length-recent-le w k now later ((j, t) ∷ log) h =
    ground (arith, length-recent-le w k now later log h)

-- No window that ends at `last` or later holds more than the limit.
abbrev IsBounded : ℕ → ℕ → Log → ℕ → Type 0
IsBounded max w log last = (k : Text) (now : ℕ) → last ≤ now → length (recent w k now log) ≤ max

IsBounded-step :
    (max w : ℕ) (log : Log) (last : ℕ) (key : Text) (now : ℕ)
    → last ≤ now
    → IsBounded max w log last
    → IsBounded max w (if may max w key now log then log ++ (key, now) ∷ [] else log) now
IsBounded-step max w log last key now h b k later g = ground (
  arith,
  b k later,
  eq_iff k key,
  length-recent-le w key now later log g,
  length-recent_last w k later key now log,
)

abbrev pub end_of : ℕ → List Event → ℕ
end_of last [] = last
end_of last (e ∷ es) = end_of (time e) es

granted_by-IsBounded :
    (rl : RateLimiter) (log : Log) (last : ℕ) (es : List Event)
    → Agrees rl log last
    → IsBounded rl.max_attempts rl.window log last
    → IsOrdered last es
    → IsBounded rl.max_attempts rl.window (granted_by rl log es) (end_of last es)
unfolding granted_by
granted_by-IsBounded rl log last [] inv b o k t g = b k t g
granted_by-IsBounded rl log last (attempt key now ∷ es) inv b (h, o) k t g =
    let rl' = (allow rl key now).0 in
    let extend : Bool → Log = λ granted. if granted then log ++ (key, now) ∷ [] else log in
    let (m, w) = allow_config rl key now in
    let same = sym (allow-may rl log last now inv h key) in
    let next : Agrees rl' (extend (allow rl key now).1) now =
      subst (λ x. Agrees rl' (extend x) now) same (allow-Agrees rl log last now inv h key) in
    let bound : IsBounded rl.max_attempts rl.window (extend (allow rl key now).1) now =
      subst (λ x. IsBounded rl.max_attempts rl.window (extend x) now) same
        (IsBounded-step rl.max_attempts rl.window log last key now h b) in
    let bound' : IsBounded rl'.max_attempts rl'.window (extend (allow rl key now).1) now =
      subst₂ (λ x y. IsBounded x y (extend (allow rl key now).1) now) (sym m) (sym w) bound in
    subst₂ (λ x y. length (recent y k t (granted_by rl' (extend (allow rl key now).1) es)) ≤ x) m w
      (granted_by-IsBounded rl' (extend (allow rl key now).1) now es next bound' o k t g)
granted_by-IsBounded rl log last (tick now ∷ es) inv b (h, o) k t g =
    let rl' = cleanup rl now in
    let (m, w) = cleanup_config rl now in
    let bound : IsBounded rl'.max_attempts rl'.window log now =
      subst₂ (λ x y. IsBounded x y log now) (sym m) (sym w) (λ j u i. b j u (omega arith)) in
    subst₂ (λ x y. length (recent y k t (granted_by rl' log es)) ≤ x) m w
      (granted_by-IsBounded rl' log now es (cleanup-Agrees rl log last now inv h) bound o k t g)

-- Of the attempts that the limiter grants, with the clock never going back, no key has more than
-- the limit in a window that ends when the last event comes or later.
pub window_bound :
    (max window : ℕ) (es : List Event) (key : Text) (now : ℕ)
    → IsOrdered 0 es
    → end_of 0 es ≤ now
    → length (recent window key now (granted_by (new_rate_limiter max window) [] es)) ≤ max
unfolding new_rate_limiter
window_bound max window es key now o h =
    granted_by-IsBounded (new_rate_limiter max window) [] 0 es (record { counts = λ k t g. refl })
      (λ k t g. omega arith) o key now h
