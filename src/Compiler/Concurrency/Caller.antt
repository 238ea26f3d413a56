-- ===== src/Compiler/Concurrency/Caller.antt =====
-- What the callback keeps of the caller's state, in any order of completion.
use okf_mcp_rs.Prelude.{
  ◌∙◌, ◌≡◌, refl, sym, subst, inl, inr, ℕ, zero, suc, max, ◌&&◌, Bool, Option, none, some, List, [],
  ◌∷◌, length, Bool-cases, Option-cases, none_ne_some, eq_of_some,
}
use okf_mcp_rs.Compiler.Concurrency.{
  Window, spawn_next, spawn_from, prime, started, complete, join_from, join_next, rounds,
  run_bounded, report, pick,
}

module _ {S T R : Type 0} where
  caller-spawn_from :
      (jobs : List (ℕ × T)) (w : Window S T R) → (spawn_from jobs w).caller ≡ w.caller
  unfolding spawn_from
  caller-spawn_from [] w = refl
  caller-spawn_from (job ∷ jobs) w = refl

  caller-spawn_next : (w : Window S T R) → (spawn_next w).caller ≡ w.caller
  unfolding spawn_next
  caller-spawn_next w = caller-spawn_from w.pending w

  caller-prime : (k : ℕ) (w : Window S T R) → (prime k w).caller ≡ w.caller
  unfolding prime
  caller-prime zero w = refl
  caller-prime (suc k) w = caller-prime k (spawn_next w) ∙ caller-spawn_next w

module _ {S T R : Type 0} (f : T → R) (on_result : S → ℕ → R → S × Bool) (choose : ℕ → ℕ)
    (P : S → Type 0)
    (kept : (s : S) (idx : ℕ) (item : T) → P s → P (on_result s idx (f item)).0) where
  complete-keeps :
      (w : Window S T R) (idx : ℕ) (item : T) (rest : List (ℕ × T))
      → P w.caller
      → P (complete f on_result w (idx, item) rest).caller
  unfolding complete
  complete-keeps w idx item rest h =
      elim (Bool-cases (w.keep_dispatching && (on_result w.caller idx (f item)).1)) [
        | inl t ↦ rw t (subst P (sym (caller-spawn_next _)) (kept w.caller idx item h))
        | inr n ↦ rw n (kept w.caller idx item h)
      ]

  join_from-keeps :
      (k : ℕ) (jobs : List (ℕ × T)) (w w' : Window S T R)
      → join_from f on_result k jobs w ≡ some w'
      → P w.caller
      → P w'.caller
  unfolding join_from
  join_from-keeps k [] w w' e h = absurd (none_ne_some e)
  join_from-keeps k (job ∷ jobs) w w' e h =
      let ((idx, item), rest) = pick k job jobs in
      subst (λ x. P x.caller) (eq_of_some e) (complete-keeps w idx item rest h)

  rounds-keeps :
      (fuel round : ℕ) (w w' : Window S T R)
      → rounds f on_result choose fuel round w ≡ some w'
      → P w.caller
      → P w'.caller
  unfolding rounds join_next
  rounds-keeps zero round w w' e h = absurd (none_ne_some e)
  rounds-keeps (suc fuel) round w w' e h =
      elim (Option-cases (join_next f on_result choose round w)) [
        | inl n ↦ subst (λ x. P x.caller) (eq_of_some (rw (rounds, n) at e)) h
        | inr (w'', j) ↦
            rounds-keeps fuel (suc round) w'' w' (rw (rounds, j) at e)
              (join_from-keeps (choose round) w.in_flight w w'' j h)
      ]

  report-keeps :
      (o : Option (Window S T R)) (results : List R) (s : S)
      → report o ≡ some (results, s)
      → ((w : Window S T R) → o ≡ some w → P w.caller)
      → P s
  unfolding report
  report-keeps none results s e h = absurd (none_ne_some e)
  report-keeps (some w) results s e h = subst (λ p. P p.1) (eq_of_some e) (h w refl)

  start-keeps :
      (items : List T) (limit : ℕ) (caller : S)
      → P caller
      → P (started {R = R} items limit caller).caller
  unfolding started
  start-keeps items limit caller h = subst P (sym (caller-prime (max limit 1) _)) h

  -- What holds of the caller's state at the start, and is kept by the callback on every result, holds
  -- at the end.
  pub run_bounded-keeps :
      (items : List T) (limit : ℕ) (caller : S) (results : List R) (s : S)
      → run_bounded f on_result choose items limit caller ≡ some (results, s)
      → P caller
      → P s
  unfolding run_bounded
  run_bounded-keeps items limit caller results s e h = report-keeps _ results s e (λ w r.
      rounds-keeps (suc (length items)) 0 (started items limit caller) w r
        (start-keeps items limit caller h))
