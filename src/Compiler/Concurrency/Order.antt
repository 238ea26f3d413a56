-- ===== src/Compiler/Concurrency/Order.antt =====
-- The results of `run_bounded`, and the order they stand in.
use okf_mcp_rs.Prelude.{
  ℕ, suc, ◌≤◌, ◌≡◌, ap, inl, inr, Bool, Option, some, List, [], ◌∷◌, length, take, drop, map, min,
  max, arith,
}
use okf_mcp_rs.Compiler.Concurrency.{
  Window, enumerate_from, pick, complete, started, report, run_bounded,
}
use okf_mcp_rs.Compiler.Concurrency.Bounds.{left-started, rounds_inv}
use okf_mcp_rs.Compiler.Concurrency.Picks.{flatten_prefix}
use okf_mcp_rs.Compiler.Concurrency.Placed.{PlacedFrom, complete-PlacedFrom, started-PlacedFrom}

module _ {S T R : Type 0} (f : T → R) (items : List T) where
  -- How a run ends: with the results of the first `n` items, the others pending, and what every
  -- round has kept.
  pub record IsEnd (P : Window S T R → Type 0) (limit : ℕ) (r : Option (List R × S)) : Type 0 where
    pub n : ℕ
    pub last : Window S T R
    pub ends : r ≡ some (map f (take n items), last.caller)
    pub at_least : min (max limit 1) (length items) ≤ n
    pub at_most : n ≤ length items
    pub waiting : last.pending ≡ enumerate_from n (drop n items)
    pub idle : last.in_flight ≡ []
    pub kept : P last

  pub run_bounded-IsEnd :
      (on_result : S → ℕ → R → S × Bool) (choose : ℕ → ℕ) (limit : ℕ) (caller : S)
      (P : Window S T R → Type 0)
      → ((w : Window S T R) (k : ℕ) (job : ℕ × T) (jobs : List (ℕ × T))
          → w.in_flight ≡ job ∷ jobs
          → P w
          → P (complete f on_result w (pick k job jobs).0 (pick k job jobs).1))
      → P (started items limit caller)
      → IsEnd P limit (run_bounded f on_result choose items limit caller)
  unfolding run_bounded report PlacedFrom
  run_bounded-IsEnd on_result choose limit caller P keep start =
      let (t, ends, ((n, lo, p), kept), idle) =
        rounds_inv f on_result choose (λ w. PlacedFrom f items (max limit 1) w × P w)
          (λ w k job jobs busy h. (
            complete-PlacedFrom f items on_result _ w k job jobs busy h.0,
            keep w k job jobs busy h.1,
          ))
          (suc (length items)) 0 (started items limit caller)
          (omega (arith, left-started R items limit caller))
          (started-PlacedFrom f items limit caller, start) in
      record {
        n = n;
        last = t;
        ends = rw ends (
            ap (λ l. some (l, t.caller))
              (flatten_prefix f items t.slots n p.slots_length
                (λ i x e lt. elim (p.filled i x e lt) [
                  | inl done ↦ done
                  | inr busy ↦ absurd (rw idle at busy)
                ])
                p.unfilled));
        at_least = lo;
        at_most = p.le_length;
        waiting = p.waiting;
        idle = idle;
        kept = kept;
      }

  -- Whatever the callback says and whichever tasks end first, `run_bounded` ends, and returns the
  -- results of the items of a prefix of the input, in input order, that holds at least as many items
  -- as the limit (1 for a limit of 0) or all of them.
  pub run_bounded_prefix :
      (on_result : S → ℕ → R → S × Bool) (choose : ℕ → ℕ) (limit : ℕ) (caller : S)
      → (n : ℕ) × (s : S) × (run_bounded f on_result choose items limit caller
          ≡ some (map f (take n items), s))
        × (min (max limit 1) (length items) ≤ n)
        × (n ≤ length items)
  run_bounded_prefix on_result choose limit caller =
      let e =
        run_bounded-IsEnd on_result choose limit caller (λ w. Unit) (λ w k job jobs busy h. tt)
          tt in
      (e.n, e.last.caller, e.ends, e.at_least, e.at_most)
