-- ===== src/Core/CircuitBreaker.antt =====
-- src/core/circuit_breaker.rs. `execute` takes the lock twice, before the call and after it, so a
-- call is two events, and calls may overlap. An `Instant` is a number, which `elapsed` subtracts
-- down to 0; the failure count is a `u32`.
pub mod Invariant
mod Tests
use okf_mcp_rs.Prelude.{
  ℕ, ◌+◌, ◌-◌, ◌%◌, ◌^◌, Bool, true, false, ◌||◌, Option, none, some, List, [], ◌∷◌, ltb, leb,
  if◌then◌else◌,
}

pub data State : Type 0 where
  closed opened half_open : State

pub record Inner : Type 0 where
  pub state : State
  pub failure_count : ℕ
  pub opened_at : Option ℕ

pub record Settings : Type 0 where
  pub failure_threshold : ℕ
  pub reset_timeout : ℕ

abbrev pub new : Inner
new = record { state = closed; failure_count = 0; opened_at = none }

-- `Default for CircuitBreaker`; times are in milliseconds.
abbrev pub default_settings : Settings
default_settings = record { failure_threshold = 5; reset_timeout = 30000 }

abbrev pub elapsed : Option ℕ → ℕ → ℕ
elapsed none now = 0
elapsed (some at) now = now - at

-- The first locked block of `execute`: whether the call is let through.
enter_from : Settings → ℕ → Inner → State → Inner × Bool
enter_from c now s opened =
    if ltb (elapsed s.opened_at now) c.reset_timeout
    then (s, false)
    else (record s { state = half_open }, true)
enter_from c now s _ = (s, true)

unfoldable pub enter : Settings → ℕ → Inner → Inner × Bool
unfolding enter_from
enter c now s = enter_from c now s s.state

unfoldable pub on_success : Inner → Inner
on_success s = record s { failure_count = 0; state = closed }

abbrev pub is_half_open : State → Bool
is_half_open half_open = true
is_half_open _ = false

unfoldable pub on_failure : Settings → ℕ → Inner → Inner
on_failure c now s =
    let count = (s.failure_count + 1) % 2 ^ 32 in
    if is_half_open s.state || leb c.failure_threshold count
    then record { state = opened; failure_count = count; opened_at = some now }
    else record s { failure_count = count }

-- What happens to the breaker: a call begins, or one that was let through ends.
pub data Event : Type 0 where
  begin success failure : ℕ → Event

unfoldable pub step : Settings → Inner → Event → Inner
step c s (begin now) = (enter c now s).0
step c s (success now) = on_success s
step c s (failure now) = on_failure c now s

unfoldable pub run : Settings → Inner → List Event → Inner
run c s [] = s
run c s (e ∷ es) = run c (step c s e) es
