-- ===== src/Compiler/Concurrency/Bounds.antt =====
-- The permits, and the fuel that `run_bounded` needs.
use okf_mcp_rs.Prelude.{
  ℕ, zero, suc, ◌+◌, ◌≤◌, ◌<◌, ◌≡◌, refl, ◌∙◌, sym, ap, subst, eq_of_some, map, ◌⊎◌, Bool, true,
  ◌&&◌, none, some, List, [], ◌∷◌, length, length-append, max, arith, Bool-cases, inl, inr,
}
use okf_mcp_rs.Compiler.Concurrency.{
  Window, enumerate_from, pick, spawn_from, spawn_next, prime, complete, join_from, join_next,
  rounds, started,
}

pub length-enumerate_from {ℓ} :
    {A : Type ℓ} (n : ℕ) (xs : List A) → length (enumerate_from n xs) ≡ length xs
unfolding enumerate_from
length-enumerate_from n [] = refl
length-enumerate_from n (x ∷ xs) = omega (arith, length-enumerate_from (suc n) xs)

length-pick {ℓ} : {A : Type ℓ} (k : ℕ) (x : A) (xs : List A) → length (pick k x xs).1 ≡ length xs
unfolding pick
length-pick zero x xs = refl
length-pick (suc k) x [] = refl
length-pick (suc k) x (y ∷ ys) = omega (arith, length-pick k y ys)

-- Every permit is free or held by a task in flight.
pub record IsBounded {S T R : Type 0} (limit : ℕ) (w : Window S T R) : Type 0 where
  pub conserved : w.permits + length w.in_flight ≡ limit

-- The work that is left.
abbrev pub left : {S T R : Type 0} → Window S T R → ℕ
left w = length w.in_flight + length w.pending

module _ {S T R : Type 0} where
  left-spawn_from :
      (p : List (ℕ × T)) (w : Window S T R)
      → length w.pending ≡ length p
      → left (spawn_from p w) ≡ left w
  unfolding spawn_from
  left-spawn_from [] w e = refl
  left-spawn_from (j ∷ js) w e = omega (arith, length-append w.in_flight (j ∷ []))

  pub left-spawn_next : (w : Window S T R) → left (spawn_next w) ≡ left w
  unfolding spawn_next
  left-spawn_next w = left-spawn_from w.pending w refl

  spawn_from-IsBounded :
      (limit : ℕ) (p : List (ℕ × T)) (w : Window S T R)
      → 0 < w.permits
      → IsBounded limit w
      → IsBounded limit (spawn_from p w)
  unfolding spawn_from
  spawn_from-IsBounded limit [] w free h = h
  spawn_from-IsBounded limit (j ∷ js) w free h = record {
    conserved = omega (arith, h.conserved, length-append w.in_flight (j ∷ []));
  }

  permits-spawn_next : (w : Window S T R) → w.permits ≤ (spawn_next w).permits + 1
  unfolding spawn_next spawn_from
  permits-spawn_next w = go w.pending
    where
      go : (p : List (ℕ × T)) → w.permits ≤ (spawn_from p w).permits + 1
      go [] = omega arith
      go (j ∷ js) = omega arith

  prime-IsBounded :
      (limit k : ℕ) (w : Window S T R)
      → k ≤ w.permits
      → IsBounded limit w
      → IsBounded limit (prime k w)
  unfolding prime
  prime-IsBounded limit zero w free h = h
  prime-IsBounded limit (suc k) w free h =
      prime-IsBounded limit k (spawn_next w) (omega (arith, permits-spawn_next w))
        (unfold spawn_next in spawn_from-IsBounded limit w.pending w (omega arith) h)

  left-prime : (k : ℕ) (w : Window S T R) → left (prime k w) ≡ left w
  unfolding prime
  left-prime zero w = refl
  left-prime (suc k) w = left-prime k (spawn_next w) ∙ left-spawn_next w

module _ {S T R : Type 0} (f : T → R) (on_result : S → ℕ → R → S × Bool) where
  complete-IsBounded :
      (limit : ℕ) (w : Window S T R) (job : ℕ × T) (rest : List (ℕ × T))
      → length w.in_flight ≡ suc (length rest)
      → IsBounded limit w
      → IsBounded limit (complete f on_result w job rest)
  unfolding complete spawn_next
  complete-IsBounded limit w (idx, item) rest e h =
      elim (Bool-cases (w.keep_dispatching && (on_result w.caller idx (f item)).1)) [
        | inl go ↦ rw go (
            spawn_from-IsBounded limit w.pending _ (omega arith)
              (record { conserved = omega (arith, h.conserved) }))
        | inr halt ↦ rw halt (record { conserved = omega (arith, h.conserved) })
      ]

  left-complete :
      (w : Window S T R) (job : ℕ × T) (rest : List (ℕ × T))
      → length w.in_flight ≡ suc (length rest)
      → suc (left (complete f on_result w job rest)) ≡ left w
  unfolding complete
  left-complete w (idx, item) rest e =
      elim (Bool-cases (w.keep_dispatching && (on_result w.caller idx (f item)).1)) [
        | inl go ↦ rw go (omega (arith, left-spawn_next))
        | inr halt ↦ rw halt (omega arith)
      ]

  join_from-cases :
      (k : ℕ) (l : List (ℕ × T)) (w : Window S T R)
      → ((l ≡ []) × (join_from f on_result k l w ≡ none))
        ⊎ ((job : ℕ × T) × (jobs : List (ℕ × T)) × (l ≡ job ∷ jobs)
            × (join_from f on_result k l w
                ≡ some (complete f on_result w (pick k job jobs).0 (pick k job jobs).1)))
  unfolding join_from
  join_from-cases k [] w = inl (refl, refl)
  join_from-cases k (job ∷ jobs) w = inr (job, jobs, refl, refl)

module _ {S T R : Type 0} (f : T → R) (on_result : S → ℕ → R → S × Bool) (choose : ℕ → ℕ) where
  -- With more fuel than work the loop ends with no task in flight, and what each round keeps holds.
  module _ (P : Window S T R → Type 0)
      (keep : (w : Window S T R) (k : ℕ) (job : ℕ × T) (jobs : List (ℕ × T))
        → w.in_flight ≡ job ∷ jobs
        → P w
        → P (complete f on_result w (pick k job jobs).0 (pick k job jobs).1)) where
    pub rounds_inv :
        (fuel round : ℕ) (w : Window S T R)
        → left w < fuel
        → P w
        → (t : Window S T R) × (rounds f on_result choose fuel round w ≡ some t)
          × P t
          × (t.in_flight ≡ [])
    unfolding rounds join_next
    rounds_inv zero round w lt h = elim lt [ ]
    rounds_inv (suc fuel) round w lt h =
        elim (join_from-cases f on_result (choose round) w.in_flight w) [
          | inl (idle, e) ↦ (w, rw (e, rounds), h, idle)
          | inr (job, jobs, busy, e) ↦
              let (t, r, p, idle) =
                rounds_inv fuel (suc round) _
                  (omega (
                    arith,
                    left-complete f on_result w (pick (choose round) job jobs).0
                        (pick (choose round) job jobs).1,
                    ap length busy,
                    length-pick (choose round) job jobs,
                  ))
                  (keep w (choose round) job jobs busy h) in
              (t, rw (e, rounds) r, p, idle)
        ]

module _ {S T : Type 0} (R : Type 0) where
  abbrev initial : List T → ℕ → S → Window S T R
  initial items limit caller = record {
    in_flight = [];
    permits = max limit 1;
    pending = enumerate_from 0 items;
    slots = map (λ _. none) items;
    keep_dispatching = true;
    caller = caller;
  }

  pub started-IsBounded :
      (items : List T) (limit : ℕ) (caller : S)
      → IsBounded {R = R} (max limit 1) (started items limit caller)
  unfolding started
  started-IsBounded items limit caller =
      prime-IsBounded (max limit 1) (max limit 1) (initial items limit caller) (omega arith)
        (record { conserved = omega arith })

  pub left-started :
      (items : List T) (limit : ℕ) (caller : S)
      → left {R = R} (started items limit caller) ≡ length items
  unfolding started prime
  left-started items limit caller =
      left-prime (max limit 1) (initial items limit caller)
      ∙ omega (arith, length-enumerate_from 0 items)

module _ {S T R : Type 0} (f : T → R) (on_result : S → ℕ → R → S × Bool) where
  -- The windows that the loop goes through, from the primed one.
  pub data Reached (items : List T) (limit : ℕ) (caller : S) : Window S T R → Type 0 where
    primed : Reached items limit caller (started items limit caller)
    joined :
        {w w' : Window S T R} (k : ℕ)
        → Reached items limit caller w
        → join_from f on_result k w.in_flight w ≡ some w'
        → Reached items limit caller w'

  join_from-IsBounded :
      (limit k : ℕ) (w w' : Window S T R)
      → IsBounded limit w
      → join_from f on_result k w.in_flight w ≡ some w'
      → IsBounded limit w'
  join_from-IsBounded limit k w w' h q = elim (join_from-cases f on_result k w.in_flight w) [
    | inl (idle, e) ↦ cc
    | inr (job, jobs, busy, e) ↦ subst (IsBounded limit) (eq_of_some (sym e ∙ q)) (
        complete-IsBounded f on_result limit w _ _
          (omega (arith, ap length busy, length-pick k job jobs)) h)
  ]

  -- At every moment of the loop, whichever tasks end first, the permits left and the tasks in
  -- flight add up to the limit, or to 1 if the limit is 0: no more tasks than that are in flight.
  pub Reached-IsBounded :
      (items : List T) (limit : ℕ) (caller : S) (w : Window S T R)
      → Reached items limit caller w
      → (w.permits + length w.in_flight ≡ max limit 1) × (length w.in_flight ≤ max limit 1)
  Reached-IsBounded items limit caller w r =
      let h = Reached-keeps r in (h.conserved, omega (arith, h.conserved))
    where
      Reached-keeps : {w : Window S T R} → Reached items limit caller w → IsBounded (max limit 1) w
      Reached-keeps primed = started-IsBounded R items limit caller
      Reached-keeps (joined {w = v} {w' = v'} k r e) =
          join_from-IsBounded (max limit 1) k v v' (Reached-keeps r) e
