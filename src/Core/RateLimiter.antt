-- ===== src/Core/RateLimiter.antt =====
-- src/core/rate_limiter.rs. An `Instant` is a number, and `duration_since` subtracts down to 0.
pub mod Window
mod Tests
use okf_mcp_rs.Prelude.{
  ℕ, ◌-◌, Bool, List, [], ◌∷◌, ◌++◌, length, filter, ltb, leb, if◌then◌else◌, Result, ok, err,
}

pub record RateLimiter : Type 0 where
  pub limit : ℕ
  pub window : ℕ
  pub timestamps : List ℕ

pub data Error : Type 0 where
  rate_limit_exceeded : Error

unfoldable pub new : ℕ → ℕ → RateLimiter
new limit window = record { limit = limit; window = window; timestamps = [] }

-- The closure of `retain`.
abbrev pub is_recent : ℕ → ℕ → ℕ → Bool
is_recent window now t = ltb (now - t) window

unfoldable pub acquire : ℕ → RateLimiter → RateLimiter × Result Error Unit
acquire now r =
    let kept = filter (is_recent r.window now) r.timestamps in
    if leb r.limit (length kept)
    then (record r { timestamps = kept }, err rate_limit_exceeded)
    else (record r { timestamps = kept ++ now ∷ [] }, ok tt)

abbrev pub accepted : Result Error Unit → ℕ → List ℕ
accepted (ok _) now = now ∷ []
accepted (err _) now = []

-- Calls at the given times; what is let through is added to the log.
unfoldable pub run : RateLimiter → List ℕ → List ℕ → RateLimiter × List ℕ
run r log [] = (r, log)
run r log (now ∷ times) =
    let (r', result) = acquire now r in run r' (log ++ accepted result now) times
