-- ===== src/Compiler/Concurrency/Sequential.antt =====
-- `run_bounded` with one permit, beside the sequential loop.
use okf_mcp_rs.Prelude.{
  ℕ, zero, suc, ◌+◌, ◌-◌, ◌≤◌, ◌<◌, ◌≡◌, refl, ap, ◌∙◌, inl, inr, Bool, true, false, Option, none,
  some, List, [], ◌∷◌, ◌++◌, append_assoc, map, length, length-append, max, arith, if◌then◌else◌,
  Bool-cases,
}
use okf_mcp_rs.Compiler.Concurrency.{
  Window, enumerate_from, set, pick, flatten, spawn_from, spawn_next, prime, complete, join_from,
  join_next, rounds, started, report, run_bounded,
}
use okf_mcp_rs.Compiler.Concurrency.Placed.{blank}

max_one : (limit : ℕ) → limit ≤ 1 → max limit 1 ≡ 1
max_one limit le = omega arith

pick_one {ℓ} : {A : Type ℓ} (k : ℕ) (x : A) → pick k x [] ≡ (x, [])
unfolding pick
pick_one zero x = refl
pick_one (suc k) x = refl

module _ {T R : Type 0} where
  flatten_done :
      (done : List R) (xs : List T) → flatten (map some done ++ map (blank {R = R}) xs) ≡ done
  unfolding flatten
  flatten_done [] [] = refl
  flatten_done [] (x ∷ xs) = flatten_done [] xs
  flatten_done (r ∷ done) xs = ap (λ l. r ∷ l) (flatten_done done xs)

module _ {R : Type 0} where
  length-snoc : (l : List R) (r : R) → length (l ++ r ∷ []) ≡ suc (length l)
  length-snoc l r = omega (arith, length-append l (r ∷ []))

  set_next :
      (done : List R) (v : R) (l : List (Option R))
      → set (map some done ++ none ∷ l) (length done) (some v) ≡ map some (done ++ v ∷ []) ++ l
  unfolding set
  set_next [] v l = refl
  set_next (r ∷ done) v l = ap (λ k. some r ∷ k) (set_next done v l)

module _ {S T R : Type 0} (f : T → R) (on_result : S → ℕ → R → S × Bool) where
  -- The loop that the module's documentation compares a limit of 1 with.
  abbrev pub sequential : List (ℕ × T) → S → List R × S
  sequential [] s = ([], s)
  sequential ((i, x) ∷ jobs) s =
      let (s', more) = on_result s i (f x) in
      let rest = sequential jobs s' in if more then (f x ∷ rest.0, rest.1) else (f x ∷ [], s')

  module _ (choose : ℕ → ℕ) where
    -- The window with one task in flight, after `done`.
    abbrev single : ℕ → List R → T → List T → S → Window S T R
    single permits done x xs s = record {
      in_flight = (length done, x) ∷ [];
      permits = permits;
      pending = enumerate_from (suc (length done)) xs;
      slots = map some done ++ none ∷ map blank xs;
      keep_dispatching = true;
      caller = s;
    }

    abbrev idle : ℕ → List (ℕ × T) → List R → List T → Bool → S → Window S T R
    idle permits pending done xs keep s = record {
      in_flight = [];
      permits = permits;
      pending = pending;
      slots = map some done ++ map blank xs;
      keep_dispatching = keep;
      caller = s;
    }

    report-idle :
        (fuel round permits : ℕ) (pending : List (ℕ × T)) (done : List R) (xs : List T)
        (keep : Bool) (s : S)
        → report (rounds f on_result choose (suc fuel) round (idle permits pending done xs keep s))
          ≡ some (done, s)
    unfolding rounds join_next join_from report
    report-idle fuel round permits pending done xs keep s =
        ap (λ l. some (l, s)) (flatten_done done xs)

    join_next-single :
        (round permits : ℕ) (done : List R) (x : T) (xs : List T) (s : S)
        → join_next f on_result choose round (single permits done x xs s)
          ≡ some (complete f on_result (single permits done x xs s) (length done, x) [])
    unfolding join_next join_from
    join_next-single round permits done x xs s = rw pick_one

    rounds-single :
        (fuel round permits : ℕ) (done : List R) (x : T) (xs : List T) (s : S)
        → rounds f on_result choose (suc fuel) round (single permits done x xs s)
          ≡ rounds f on_result choose fuel
              (suc round)
              (complete f on_result (single permits done x xs s) (length done, x) [])
    unfolding rounds
    rounds-single fuel round permits done x xs s =
        rw (join_next-single round permits done x xs s, rounds)

    -- The window after the task, if the callback goes on.
    next : ℕ → List R → T → List T → S → Window S T R
    next permits done x [] s = idle permits [] (done ++ f x ∷ []) [] true s
    next permits done x (y ∷ ys) s = single permits (done ++ f x ∷ []) y ys s

    complete-go :
        (permits : ℕ) (done : List R) (x : T) (xs : List T) (s : S)
        → (on_result s (length done) (f x)).1 ≡ true
        → (p : ℕ) × (complete f on_result (single permits done x xs s) (length done, x) []
            ≡ next p done x xs (on_result s (length done) (f x)).0)
    unfolding complete next spawn_next spawn_from enumerate_from
    complete-go permits done x [] s go = (permits + 1, rw (go, set_next))
    complete-go permits done x (y ∷ ys) s go = (permits + 1 - 1, rw (go, set_next, length-snoc))

    report-halt :
        (fuel round permits : ℕ) (done : List R) (x : T) (xs : List T) (s : S)
        → (on_result s (length done) (f x)).1 ≡ false
        → report (
            rounds f on_result choose
              (suc fuel)
              round
              (complete f on_result (single permits done x xs s) (length done, x) []))
          ≡ some (done ++ f x ∷ [], (on_result s (length done) (f x)).0)
    unfolding complete
    report-halt fuel round permits done x xs s halt =
        rw (halt, set_next) (report-idle fuel round _ _ (done ++ f x ∷ []) xs false _)

    report-single :
        (fuel round permits : ℕ) (done : List R) (x : T) (xs : List T) (s : S)
        → length xs < fuel
        → report (rounds f on_result choose (suc fuel) round (single permits done x xs s)) ≡ (
            let r = sequential ((length done, x) ∷ enumerate_from (suc (length done)) xs) s in
            some (done ++ r.0, r.1))
    unfolding next enumerate_from
    report-single zero round permits done x xs s lt = elim lt [ ]
    report-single (suc fuel) round permits done x [] s lt =
        ap report (rounds-single (suc fuel) round permits done x [] s)
        ∙ elim (Bool-cases (on_result s (length done) (f x)).1) [
          | inl go ↦
              let (p, e) = complete-go permits done x [] s go in
              ap (λ w. report (rounds f on_result choose (suc fuel) (suc round) w)) e
              ∙ rw go (report-idle fuel (suc round) p [] (done ++ f x ∷ []) [] true _)
          | inr halt ↦ report-halt fuel (suc round) permits done x [] s halt ∙ rw halt
        ]
    report-single (suc fuel) round permits done x (y ∷ ys) s lt =
        ap report (rounds-single (suc fuel) round permits done x (y ∷ ys) s)
        ∙ elim (Bool-cases (on_result s (length done) (f x)).1) [
          | inl go ↦
              let (p, e) = complete-go permits done x (y ∷ ys) s go in
              ap (λ w. report (rounds f on_result choose (suc fuel) (suc round) w)) e
              ∙ report-single fuel (suc round) p (done ++ f x ∷ []) y ys _ (omega arith)
              ∙ rw (go, length-snoc, append_assoc)
          | inr halt ↦ report-halt fuel (suc round) permits done x (y ∷ ys) s halt ∙ rw halt
        ]

    -- With a limit of 0 or 1 `run_bounded` ends, and both its results and what its callback has done
    -- are those of the sequential loop, which stops after the first item whose callback is `false`.
    pub run_bounded-eq-sequential :
        (items : List T) (limit : ℕ) (s : S)
        → limit ≤ 1
        → run_bounded f on_result choose items limit s
          ≡ some (sequential (enumerate_from 0 items) s)
    unfolding run_bounded started prime spawn_next spawn_from enumerate_from
    run_bounded-eq-sequential [] limit s le =
        rw (max_one limit le) (report-idle 0 0 1 [] [] [] true s)
    run_bounded-eq-sequential (x ∷ xs) limit s le =
        rw (max_one limit le) (report-single (suc (length xs)) 0 _ [] x xs s (omega arith))
