-- ===== src/Core/RateLimiter/Tests.antt =====
-- A limiter of two calls in ten units of time.
use okf_mcp_rs.Prelude.{
  ℕ, ◌≤◌, ◌≡◌, refl, List, [], ◌∷◌, length, filter, leb, if◌then◌else◌, ok, err, arith,
}
use okf_mcp_rs.Core.RateLimiter.{rate_limit_exceeded, new, is_recent, acquire, run}
use okf_mcp_rs.Core.RateLimiter.Window.{log_of, acquire_exact}

abbrev times : List ℕ
times = 1 ∷ 5 ∷ 7 ∷ 12 ∷ []

third_refused : log_of 2 10 times ≡ 1 ∷ 5 ∷ 12 ∷ []
unfolding run new acquire
third_refused = refl

acquire_exact_example :
    (length (filter (is_recent 10 13) (log_of 2 10 times)) ≤ 2)
    × ((acquire 13 (run (new 2 10) [] times).0).1 ≡ (
        if leb 2 (length (filter (is_recent 10 13) (log_of 2 10 times)))
        then err rate_limit_exceeded
        else ok tt))
acquire_exact_example = acquire_exact 2 10 times 13 (omega arith) (omega arith) (omega arith)
