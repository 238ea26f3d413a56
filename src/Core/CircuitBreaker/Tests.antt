-- ===== src/Core/CircuitBreaker/Tests.antt =====
-- A breaker that opens at the second failure and may be tried again after 100 units of time.
use okf_mcp_rs.Prelude.{take, ℕ, ◌≡◌, refl, true, some, List, [], ◌∷◌, ◌++◌, arith}
use okf_mcp_rs.Core.CircuitBreaker.{
  Settings, Inner, Event, closed, opened, half_open, new, enter, on_failure, begin, failure, step,
  run,
}
use okf_mcp_rs.Core.CircuitBreaker.Invariant.{opens_at_threshold}

abbrev settings : Settings
settings = record { failure_threshold = 2; reset_timeout = 100 }

abbrev events : List Event
events = begin 1 ∷ failure 2 ∷ begin 3 ∷ failure 4 ∷ begin 50 ∷ begin 200 ∷ []

abbrev open_at_4 : Inner
open_at_4 = record { state = opened; failure_count = 2; opened_at = some 4 }

then_half_open : (run settings new events).state ≡ half_open
unfolding run step enter on_failure
then_half_open = refl

-- Two calls overlap, and both fail.
opens_at_threshold_example :
    ((k at : ℕ)
      → (let s = run settings new (take k (begin 1 ∷ begin 2 ∷ failure 3 ∷ [])) in
          (s.state ≡ closed) × (enter settings at s ≡ (s, true))))
    × (run settings new ((begin 1 ∷ begin 2 ∷ failure 3 ∷ []) ++ failure 4 ∷ []) ≡ open_at_4)
opens_at_threshold_example =
    opens_at_threshold settings (begin 1 ∷ begin 2 ∷ failure 3 ∷ []) 4 (omega arith)
      (tt, (tt, (tt, tt))) (omega arith)
