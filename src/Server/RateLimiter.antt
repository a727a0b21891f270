-- ===== src/Server/RateLimiter.antt =====
-- internal/server/ratelimit.go: the sliding window of attempts. Times are numbers of nanoseconds,
-- and `t.After(now.Add(-window))` is `now < t + window`. A map gives the nil slice for a missing
-- key, so it is a function into lists; the mutex makes each call and each round of the cleanup one
-- step.
use lemuria.Prelude.{
  ℕ, ◌+◌, Text, Bool, true, false, List, [], ◌∷◌, ◌++◌, length, select, ltb, leb, if◌then◌else◌,
  ◌==◌,
}

pub record RateLimiter : Type 0 where
  pub attempts : Text → List ℕ
  pub max_attempts : ℕ
  pub window : ℕ

unfoldable pub new_rate_limiter : ℕ → ℕ → RateLimiter
new_rate_limiter max_attempts window = record {
  attempts = λ k. [];
  max_attempts = max_attempts;
  window = window;
}

-- The loops that keep the attempts behind the cutoff.
abbrev pub valid : ℕ → ℕ → List ℕ → List ℕ
valid window now = select (λ t. ltb now (t + window))

abbrev pub update : (Text → List ℕ) → Text → List ℕ → Text → List ℕ
update f key v k = if key == k then v else f k

unfoldable pub allow : RateLimiter → Text → ℕ → RateLimiter × Bool
allow rl key now =
    let left = valid rl.window now (rl.attempts key) in
    if leb rl.max_attempts (length left)
    then (record rl { attempts = update rl.attempts key left }, false)
    else (record rl { attempts = update rl.attempts key (left ++ now ∷ []) }, true)

-- `len(valid) == 0` deletes the key, which then has the nil slice.
abbrev pub keep_or_delete : List ℕ → List ℕ
keep_or_delete [] = []
keep_or_delete (t ∷ ts) = t ∷ ts

-- One tick of the loop of `cleanup`.
unfoldable pub cleanup : RateLimiter → ℕ → RateLimiter
cleanup rl now = record rl { attempts = λ k. keep_or_delete (valid rl.window now (rl.attempts k)) }
