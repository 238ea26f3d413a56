-- ===== src/Compiler/Concurrency/Tests.antt =====
-- `run_bounded` on four items whose results are their squares, with a callback that logs indices.
use okf_mcp_rs.Prelude.{
  ℕ, ◌+◌, ◌*◌, ◌≤◌, ◌≡◌, refl, Bool, true, ◌==◌, not, some, List, [], ◌∷◌, ◌++◌, take, map, length,
  min, max, arith,
}
use okf_mcp_rs.Compiler.Concurrency.{
  Window, enumerate_from, set, pick, flatten, spawn_next, prime, complete, join_next, rounds,
  started, run_bounded,
}
use okf_mcp_rs.Compiler.Concurrency.Bounds.{Reached-IsBounded, primed}
use okf_mcp_rs.Compiler.Concurrency.Order.{run_bounded_prefix}
use okf_mcp_rs.Compiler.Concurrency.Complete.{run_bounded_all}
use okf_mcp_rs.Compiler.Concurrency.Logged.{run_bounded-Logged}
use mathlib.Core.List.{Perm}
use okf_mcp_rs.Compiler.Concurrency.Sequential.{sequential, run_bounded-eq-sequential}

abbrev square : ℕ → ℕ
square n = n * n

abbrev items : List ℕ
items = 5 ∷ 6 ∷ 7 ∷ 8 ∷ []

abbrev log_all : List ℕ → ℕ → ℕ → List ℕ × Bool
log_all log i r = (log ++ i ∷ [], true)

-- Asks to stop after the item at index 1.
abbrev log_stop : List ℕ → ℕ → ℕ → List ℕ × Bool
log_stop log i r = (log ++ i ∷ [], not (i == 1))

-- The task that was started last ends first.
abbrev newest : ℕ → ℕ
newest round = 9

two_at_once :
    run_bounded square log_all newest items 2 [] ≡ some (25 ∷ 36 ∷ 49 ∷ 64 ∷ [], 1 ∷ 2 ∷ 3 ∷ 0 ∷ [])
unfolding run_bounded started prime rounds join_next complete spawn_next pick set flatten
    enumerate_from
two_at_once = refl

stopped_at_once : run_bounded square log_stop newest items 2 [] ≡ some (25 ∷ 36 ∷ [], 1 ∷ 0 ∷ [])
unfolding run_bounded started prime rounds join_next complete spawn_next pick set flatten
    enumerate_from
stopped_at_once = refl

run_bounded_prefix_example :
    (n : ℕ) × (s : List ℕ) × (run_bounded square log_stop newest items 2 []
      ≡ some (map square (take n items), s))
    × (min (max 2 1) (length items) ≤ n)
    × (n ≤ length items)
run_bounded_prefix_example = run_bounded_prefix square items log_stop newest 2 []

-- Logs the results.
abbrev log_results : List ℕ → ℕ → ℕ → List ℕ × Bool
log_results log i r = (log ++ r ∷ [], not (i == 1))

run_bounded-Logged_example :
    (n : ℕ) × (s : List ℕ) × (run_bounded square log_results newest items 2 []
      ≡ some (map square (take n items), s))
    × Perm s (map square (take n items))
run_bounded-Logged_example =
    run_bounded-Logged square log_results (λ s. s) square (λ s idx item. refl) items newest 2 []
      refl

run_bounded_all_example :
    (s : List ℕ) × (run_bounded square log_all newest items 2 [] ≡ some (map square items, s))
run_bounded_all_example = run_bounded_all square log_all (λ s i r. refl) newest items 2 []

run_bounded-eq-sequential_example :
    run_bounded square log_stop newest items 0 []
    ≡ some (sequential square log_stop (enumerate_from 0 items) [])
run_bounded-eq-sequential_example =
    run_bounded-eq-sequential square log_stop newest items 0 [] (omega arith)

abbrev first : Window (List ℕ) ℕ ℕ
first = started items 2 []

Reached-IsBounded_example :
    (first.permits + length first.in_flight ≡ max 2 1) × (length first.in_flight ≤ max 2 1)
Reached-IsBounded_example = Reached-IsBounded square log_all items 2 [] first primed
