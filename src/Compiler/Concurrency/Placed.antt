-- ===== src/Compiler/Concurrency/Placed.antt =====
-- Where the items of `run_bounded` are: in flight, in their slots or pending.
use okf_mcp_rs.Prelude.{
  ℕ, zero, suc, ◌+◌, ◌≤◌, ◌<◌, ◌≡◌, refl, sym, ap, ap₂, ◌∙◌, subst, ◌⊎◌, inl, inr, Bool, ◌&&◌,
  Option, none, some, eq_of_some, List, [], ◌∷◌, ◌++◌, length, get_elem?, drop, map, min, max,
  arith, if◌then◌else◌, Bool-cases, ◌==◌, ==_iff,
}
use okf_mcp_rs.Compiler.Concurrency.{
  Window, enumerate_from, set, pick, spawn_from, spawn_next, prime, complete, started,
}
use okf_mcp_rs.Compiler.Concurrency.Picks.{
  Has, Has-append, Has-append_left, Has-append_last, pick_split, picked, not_picked, get_elem?-set,
  length-set, get_elem?-lt, drop_step, drop_done,
}

-- The items before `n` have been dispatched: each is in flight or has its result in its slot. The
-- others are pending, in order, and have empty slots.
pub record Placed {S T R : Type 0} (f : T → R) (items : List T) (n : ℕ) (w : Window S T R)
    : Type 0 where
  pub le_length : n ≤ length items
  pub waiting : w.pending ≡ enumerate_from n (drop n items)
  pub slots_length : length w.slots ≡ length items
  pub flying : (i : ℕ) (x : T) → Has (i, x) w.in_flight → (get_elem? items i ≡ some x) × (i < n)
  pub filled :
      (i : ℕ) (x : T)
      → get_elem? items i ≡ some x
      → i < n
      → (get_elem? w.slots i ≡ some (some (f x))) ⊎ Has (i, x) w.in_flight
  pub unfilled : (i : ℕ) → n ≤ i → i < length items → get_elem? w.slots i ≡ some none

module _ {S T R : Type 0} (f : T → R) (items : List T) where
  -- At least `n` items have been dispatched.
  unfoldable pub PlacedFrom : ℕ → Window S T R → Type 0
  PlacedFrom n w = (m : ℕ) × (min n (length items) ≤ m) × Placed f items m w

  spawn_from-PlacedFrom :
      (n : ℕ) (w : Window S T R) (r : List T)
      → drop n items ≡ r
      → Placed f items n w
      → PlacedFrom (n + 1) (spawn_from (enumerate_from n r) w)
  unfolding PlacedFrom spawn_from enumerate_from
  spawn_from-PlacedFrom n w [] q p = (n, omega (arith, drop_done n items q), p)
  spawn_from-PlacedFrom n w (x ∷ r) q p =
      let (here, next) = drop_step n items x r q in
      (
        suc n,
        omega arith,
        record {
          le_length = omega (arith, get_elem?-lt items n x here);
          waiting = rw next;
          slots_length = p.slots_length;
          flying = λ i y h. elim (Has-append (i, y) (n, x) w.in_flight h) [
            | inl old ↦ let (e, lt) = p.flying i y old in (e, omega arith)
            | inr new ↦ (
              rw (ap (λ (t : ℕ × T). t.0) new) (here ∙ ap some (sym (ap (λ (t : ℕ × T). t.1) new))),
              omega (arith, ap (λ (t : ℕ × T). t.0) new),
            )
          ];
          filled = λ i y e lt. elim (Bool-cases (i == n)) [
            | inl same ↦
                let i≡n = (==_iff i n).0 same in
                inr (
                  subst (λ q. Has q (w.in_flight ++ (n, x) ∷ []))
                    (ap₂ (λ a b. (a, b)) (sym i≡n)
                      (eq_of_some (sym here ∙ ap (get_elem? items) (sym i≡n) ∙ e)))
                    (Has-append_last (n, x) w.in_flight))
            | inr other ↦ elim (p.filled i y e (ground arith)) [
              | inl done ↦ inl done
              | inr busy ↦ inr (Has-append_left (i, y) (n, x) w.in_flight busy)
            ]
          ];
          unfilled = λ i le lt. p.unfilled i (omega arith) lt;
        },
      )

  spawn_next-PlacedFrom :
      (n : ℕ) (w : Window S T R) → Placed f items n w → PlacedFrom (n + 1) (spawn_next w)
  unfolding spawn_next
  spawn_next-PlacedFrom n w p =
      subst (λ l. PlacedFrom (n + 1) (spawn_from l w)) (sym p.waiting)
        (spawn_from-PlacedFrom n w (drop n items) refl p)

  prime-PlacedFrom : (k n : ℕ) (w : Window S T R) → PlacedFrom n w → PlacedFrom (n + k) (prime k w)
  unfolding prime PlacedFrom
  prime-PlacedFrom zero n w (m, lo, p) = (m, omega arith, p)
  prime-PlacedFrom (suc k) n w (m, lo, p) =
      let (m', lo', p') = spawn_next-PlacedFrom m w p in
      let (m'', lo'', p'') = prime-PlacedFrom k (n + 1) (spawn_next w) (m', omega arith, p') in
      (m'', omega arith, p'')

  -- A job of those in flight is joined: its slot gets its result.
  joined-Placed :
      (n : ℕ) (w w' : Window S T R) (k : ℕ) (job : ℕ × T) (jobs : List (ℕ × T))
      → w.in_flight ≡ job ∷ jobs
      → w'.in_flight ≡ (pick k job jobs).1
      → w'.pending ≡ w.pending
      → w'.slots ≡ set w.slots (pick k job jobs).0.0 (some (f (pick k job jobs).0.1))
      → Placed f items n w
      → Placed f items n w'
  joined-Placed n w w' k job jobs busy fl pd sl p =
      let j : ℕ = (pick k job jobs).0.0 in
      let y : T = (pick k job jobs).0.1 in
      let was : Has (pick k job jobs).0 w.in_flight = rw busy (picked k job jobs) in
      let (at, before) = p.flying j y was in
      let slot : (i : ℕ)
          → get_elem? w'.slots i ≡ (if j == i then some (some (f y)) else get_elem? w.slots i) =
        λ i.
          ap (λ l. get_elem? l i) sl
          ∙ get_elem?-set w.slots j i (some (f y)) (omega (arith, p.le_length, p.slots_length)) in
      record {
        le_length = p.le_length;
        waiting = pd ∙ p.waiting;
        slots_length = rw (sl, length-set) p.slots_length;
        flying = λ i x h. p.flying i x (rw busy (not_picked k (i, x) job jobs (rw fl at h)));
        filled = λ i x e lt. elim (Bool-cases (j == i)) [
          | inl same ↦ inl (
              slot i
              ∙ rw same (
                  ap (λ z. some (some (f z)))
                    (eq_of_some (sym at ∙ ap (get_elem? items) ((==_iff j i).0 same) ∙ e))))
          | inr other ↦ elim (p.filled i x e lt) [
            | inl done ↦ inl (slot i ∙ rw other done)
            | inr flew ↦ elim (pick_split k (i, x) job jobs (rw busy at flew)) [
              | inl that ↦ absurd (ground (arith, ap (λ (t : ℕ × T). t.0) that))
              | inr stays ↦ inr (rw fl stays)
            ]
          ]
        ];
        unfilled = λ i le lt. slot i ∙ ground (arith, p.unfilled i le lt);
      }

  pub complete-PlacedFrom :
      (on_result : S → ℕ → R → S × Bool) (n : ℕ) (w : Window S T R) (k : ℕ) (job : ℕ × T)
      (jobs : List (ℕ × T))
      → w.in_flight ≡ job ∷ jobs
      → PlacedFrom n w
      → PlacedFrom n (complete f on_result w (pick k job jobs).0 (pick k job jobs).1)
  unfolding complete PlacedFrom
  complete-PlacedFrom on_result n w k job jobs busy (m, lo, p) =
      let (j, y) = (pick k job jobs).0 in
      elim (Bool-cases (w.keep_dispatching && (on_result w.caller j (f y)).1)) [
        | inl go ↦ rw go (
            let (m', lo', p') =
              spawn_next-PlacedFrom m _ (joined-Placed m w _ k job jobs busy refl refl refl p) in
            (m', omega arith, p'))
        | inr halt ↦ rw halt (m, lo, joined-Placed m w _ k job jobs busy refl refl refl p)
      ]

abbrev pub blank : {T R : Type 0} → T → Option R
blank x = none

module _ {T : Type 0} (R : Type 0) where
  slots_empty :
      (l : List T) (i : ℕ) → i < length l → get_elem? (map (blank {R = R}) l) i ≡ some none
  slots_empty [] i h = elim h [ ]
  slots_empty (x ∷ l) zero h = refl
  slots_empty (x ∷ l) (suc i) h = slots_empty l i (omega arith)

  length-slots : (l : List T) → length (map (blank {R = R}) l) ≡ length l
  length-slots [] = refl
  length-slots (x ∷ l) = ap suc (length-slots l)

module _ {S T R : Type 0} (f : T → R) (items : List T) where
  pub started-PlacedFrom :
      (limit : ℕ) (caller : S) → PlacedFrom f items (max limit 1) (started items limit caller)
  unfolding started PlacedFrom
  started-PlacedFrom limit caller =
      let (m, lo, p) = prime-PlacedFrom f items (max limit 1) 0 _ (
        0,
        omega arith,
        record {
          le_length = omega arith;
          waiting = refl;
          slots_length = length-slots R items;
          flying = λ i x h. absurd h;
          filled = λ i x e lt. absurd (omega arith);
          unfilled = λ i le lt. slots_empty R items i lt;
        },
      ) in
      (m, omega arith, p)
