-- ===== src/Compiler/Concurrency/Complete.antt =====
-- `run_bounded` with a callback that never asks to stop.
use okf_mcp_rs.Prelude.{
  ℕ, zero, suc, ◌≤◌, ◌<◌, ◌≡◌, refl, sym, ap, ◌∙◌, ◌⊎◌, inl, inr, Bool, true, some, List, [], ◌∷◌,
  length, length-append, take, drop, map, max, arith,
}
use okf_mcp_rs.Compiler.Concurrency.{
  Window, enumerate_from, spawn_from, spawn_next, prime, complete, started, report, run_bounded,
}
use okf_mcp_rs.Compiler.Concurrency.Bounds.{left-started, rounds_inv}
use okf_mcp_rs.Compiler.Concurrency.Picks.{drop_done, flatten_prefix}
use okf_mcp_rs.Compiler.Concurrency.Placed.{PlacedFrom, complete-PlacedFrom, started-PlacedFrom}

-- No item waits while no task is in flight.
record IsBusy {S T R : Type 0} (w : Window S T R) : Type 0 where
  going : w.keep_dispatching ≡ true
  busy : (0 < length w.in_flight) ⊎ (length w.pending ≡ 0)

module _ {S T R : Type 0} where
  spawn_from-IsBusy :
      (p : List (ℕ × T)) (w : Window S T R)
      → length w.pending ≡ length p
      → w.keep_dispatching ≡ true
      → IsBusy (spawn_from p w)
  unfolding spawn_from
  spawn_from-IsBusy [] w e k = record { going = k; busy = inr e }
  spawn_from-IsBusy (j ∷ js) w e k = record {
    going = k;
    busy = inl (omega (arith, length-append w.in_flight (j ∷ [])));
  }

  spawn_next-IsBusy : (w : Window S T R) → w.keep_dispatching ≡ true → IsBusy (spawn_next w)
  unfolding spawn_next
  spawn_next-IsBusy w k = spawn_from-IsBusy w.pending w refl k

  prime-IsBusy : (k : ℕ) (w : Window S T R) → IsBusy w → IsBusy (prime k w)
  unfolding prime
  prime-IsBusy zero w h = h
  prime-IsBusy (suc k) w h = prime-IsBusy k (spawn_next w) (spawn_next-IsBusy w h.going)

  prime_pos-IsBusy :
      (k : ℕ) (w : Window S T R) → 0 < k → w.keep_dispatching ≡ true → IsBusy (prime k w)
  unfolding prime
  prime_pos-IsBusy zero w lt h = elim lt [ ]
  prime_pos-IsBusy (suc k) w lt h = prime-IsBusy k (spawn_next w) (spawn_next-IsBusy w h)

  started-IsBusy :
      (items : List T) (limit : ℕ) (caller : S) → IsBusy {R = R} (started items limit caller)
  unfolding started
  started-IsBusy items limit caller = prime_pos-IsBusy (max limit 1) _ (omega arith) refl

take_all {ℓ} : {A : Type ℓ} (n : ℕ) (xs : List A) → length xs ≤ n → take n xs ≡ xs
take_all zero [] h = refl
take_all zero (x ∷ xs) h = absurd (omega arith)
take_all (suc n) [] h = refl
take_all (suc n) (x ∷ xs) h = ap (λ l. x ∷ l) (take_all n xs (omega arith))

enumerate_none {ℓ} : {A : Type ℓ} (n : ℕ) (xs : List A) → length (enumerate_from n xs) ≡ 0 → xs ≡ []
unfolding enumerate_from
enumerate_none n [] h = refl
enumerate_none n (x ∷ xs) h = absurd (omega arith)

module _ {S T R : Type 0} (f : T → R) (on_result : S → ℕ → R → S × Bool)
    (never_stops : (s : S) (i : ℕ) (r : R) → (on_result s i r).1 ≡ true) where
  complete-IsBusy :
      (w : Window S T R) (job : ℕ × T) (rest : List (ℕ × T))
      → IsBusy w
      → IsBusy (complete f on_result w job rest)
  unfolding complete
  complete-IsBusy w (i, x) rest h = rw (never_stops, h.going) (spawn_next-IsBusy _ refl)

  -- If the callback never returns `false`, `run_bounded` ends and returns the result of every item,
  -- in input order, whatever the limit and whichever tasks end first.
  pub run_bounded_all :
      (choose : ℕ → ℕ) (items : List T) (limit : ℕ) (caller : S)
      → (s : S) × (run_bounded f on_result choose items limit caller ≡ some (map f items, s))
  unfolding run_bounded report PlacedFrom
  run_bounded_all choose items limit caller =
      let (t, ends, ((n, lo, p), b), idle) =
        rounds_inv f on_result choose (λ w. PlacedFrom f items (max limit 1) w × IsBusy w)
          (λ w k job jobs busy h. (
            complete-PlacedFrom f items on_result _ w k job jobs busy h.0,
            complete-IsBusy w _ _ h.1,
          ))
          (suc (length items)) 0 (started items limit caller)
          (omega (arith, left-started R items limit caller))
          (started-PlacedFrom f items limit caller, started-IsBusy items limit caller) in
      let none_left : drop n items ≡ [] =
        enumerate_none n (drop n items)
          (ap length (sym p.waiting) ∙ omega (arith, b.busy, ap length idle)) in
      (
        t.caller,
        ap report ends
            ∙ ap (λ l. some (l, t.caller))
                (flatten_prefix f items t.slots n p.slots_length
                    (λ i x e lt. elim (p.filled i x e lt) [
                      | inl done ↦ done
                      | inr busy ↦ absurd (rw idle at busy)
                    ])
                    p.unfilled
                  ∙ ap (map f) (take_all n items (drop_done n items none_left))),
      )
