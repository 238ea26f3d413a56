-- ===== src/Compiler/Concurrency.antt =====
-- src/compiler/concurrency.rs: `run_bounded`, which runs items through a function with at most
-- `limit` of them in flight. A task is the value that its future yields; that it ends, drops its
-- permit and is joined is one step. Which of the tasks in flight is joined next is not determined
-- by the code: `choose` picks one in each round, and the theorems hold for every `choose`.
pub mod Bounds
mod Picks
mod Placed
pub mod Order
pub mod Logged
pub mod Complete
pub mod Sequential
pub mod Caller
mod Tests
use okf_mcp_rs.Prelude.{
  ℕ, zero, suc, ◌+◌, ◌-◌, Bool, true, ◌&&◌, Option, none, some, List, [], ◌∷◌, ◌++◌, length, map,
  max, if◌then◌else◌,
}

-- What the call's variables hold; `caller` is the state that the callback captures.
pub record Window (S T R : Type 0) : Type 0 where
  pub in_flight : List (ℕ × T)
  pub permits : ℕ
  pub pending : List (ℕ × T)
  pub slots : List (Option R)
  pub keep_dispatching : Bool
  pub caller : S

unfoldable pub enumerate_from {ℓ} : {A : Type ℓ} → ℕ → List A → List (ℕ × A)
enumerate_from n [] = []
enumerate_from n (x ∷ xs) = (n, x) ∷ enumerate_from (suc n) xs

-- A write to a slot.
unfoldable pub set {ℓ} : {A : Type ℓ} → List A → ℕ → A → List A
set [] i v = []
set (x ∷ xs) zero v = v ∷ xs
set (x ∷ xs) (suc i) v = x ∷ set xs i v

-- The task that is joined, and those that stay in flight.
unfoldable pub pick {ℓ} : {A : Type ℓ} → ℕ → A → List A → A × List A
pick zero x xs = (x, xs)
pick (suc k) x [] = (x, [])
pick (suc k) x (y ∷ ys) = let (z, rest) = pick k y ys in (z, x ∷ rest)

-- `into_iter().flatten().collect()`
unfoldable pub flatten {ℓ} : {A : Type ℓ} → List (Option A) → List A
flatten [] = []
flatten (none ∷ xs) = flatten xs
flatten (some x ∷ xs) = x ∷ flatten xs

module _ {S T R : Type 0} where
  -- `spawn_one` on what `pending.next()` yields. With no permit left it would wait.
  spawn_from : List (ℕ × T) → Window S T R → Window S T R
  spawn_from [] w = w
  spawn_from (job ∷ jobs) w = record w {
    in_flight = w.in_flight ++ job ∷ [];
    permits = w.permits - 1;
    pending = jobs;
  }

  unfoldable pub spawn_next : Window S T R → Window S T R
  unfolding spawn_from
  spawn_next w = spawn_from w.pending w

  -- `for … in pending.by_ref().take(limit)`
  unfoldable pub prime : ℕ → Window S T R → Window S T R
  prime zero w = w
  prime (suc k) w = prime k (spawn_next w)

  unfoldable pub started : List T → ℕ → S → Window S T R
  started items limit caller = prime (max limit 1) (record {
    in_flight = [];
    permits = max limit 1;
    pending = enumerate_from 0 items;
    slots = map (λ _. none) items;
    keep_dispatching = true;
    caller = caller;
  })

-- The results in input order, and the callback's state.
report : {S T R : Type 0} → Option (Window S T R) → Option (List R × S)
report none = none
report (some w) = some (flatten w.slots, w.caller)

module _ {S T R : Type 0} (f : T → R) (on_result : S → ℕ → R → S × Bool) where
  -- The loop's body after `join_next` has yielded the job.
  unfoldable pub complete : Window S T R → ℕ × T → List (ℕ × T) → Window S T R
  complete w (idx, item) rest =
      let result = f item in
      let (caller, more) = on_result w.caller idx result in
      let w' : Window S T R = record {
        in_flight = rest;
        permits = w.permits + 1;
        pending = w.pending;
        slots = set w.slots idx (some result);
        keep_dispatching = w.keep_dispatching && more;
        caller = caller;
      } in
      if w.keep_dispatching && more then spawn_next w' else w'

  pub join_from : ℕ → List (ℕ × T) → Window S T R → Option (Window S T R)
  join_from k [] w = none
  join_from k (job ∷ jobs) w = let (joined, rest) = pick k job jobs in some (complete w joined rest)

module _ {S T R : Type 0} (f : T → R) (on_result : S → ℕ → R → S × Bool) (choose : ℕ → ℕ) where
  -- One round of the loop; `none` when no task is in flight.
  unfoldable pub join_next : ℕ → Window S T R → Option (Window S T R)
  unfolding join_from
  join_next round w = join_from f on_result (choose round) w.in_flight w

  -- The rounds of the loop on fuel; `none` when the fuel runs out.
  unfoldable pub rounds : ℕ → ℕ → Window S T R → Option (Window S T R)
  rounds zero round w = none
  rounds (suc fuel) round w = elim (join_next round w) [
    | none ↦ some w
    | some w' ↦ rounds fuel (suc round) w'
  ]

  unfoldable pub run_bounded : List T → ℕ → S → Option (List R × S)
  unfolding report
  run_bounded items limit caller =
      report (rounds (suc (length items)) 0 (started items limit caller))
