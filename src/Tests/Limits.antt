-- ===== src/Tests/Limits.antt =====
-- The rate limiter run on a few attempts.
use lemuria.Prelude.{◌≤◌, codes, Bool, true, false, List, [], ◌∷◌, length, ◌==◌, ◌≡◌, refl, arith}
use lemuria.Server.RateLimiter.{new_rate_limiter, allow, cleanup}
use lemuria.Server.Bounds.{granted_by, window_bound}
use lemuria.Server.Window.{Event, attempt, tick, run, expected, run-expected, recent}

-- Two attempts in a window of ten: the third is refused, and one at 11 is granted again.
abbrev events : List Event
events =
    attempt (codes "1.2.3.4") 1
    ∷ attempt (codes "1.2.3.4") 5
    ∷ attempt (codes "1.2.3.4") 9
    ∷ tick 10
    ∷ attempt (codes "1.2.3.4") 11
    ∷ []

abbrev answers : List Bool
answers = true ∷ true ∷ false ∷ true ∷ []

run_limiter : run (new_rate_limiter 2 10) events ≡ answers
unfolding run new_rate_limiter allow cleanup ◌==◌
run_limiter = refl

run-expected_example : run (new_rate_limiter 2 10) events ≡ expected 2 10 [] events
run-expected_example =
    run-expected 2 10 events
      (omega arith, (omega arith, (omega arith, (omega arith, (omega arith, tt)))))

window_bound_example :
    length (recent 10 (codes "1.2.3.4") 12 (granted_by (new_rate_limiter 2 10) [] events)) ≤ 2
window_bound_example =
    window_bound 2 10 events (codes "1.2.3.4") 12
      (omega arith, (omega arith, (omega arith, (omega arith, (omega arith, tt))))) (omega arith)
