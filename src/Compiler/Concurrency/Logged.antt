-- ===== src/Compiler/Concurrency/Logged.antt =====
-- A callback that keeps a log has the results in it once each, in any order of completion.
use mathlib.Core.List.{Perm}
use mathlib.Core.List.Perm
use okf_mcp_rs.Prelude.{
  ℕ, zero, suc, ◌≤◌, ◌≡◌, refl, sym, ap, ◌∙◌, subst, inl, inr, Bool, ◌&&◌, some, List, [], ◌∷◌,
  ◌++◌, append-nil, append_assoc, map-append, ◌+◌, length, length-append, take, drop, map, max,
  arith, Bool-cases,
}
use okf_mcp_rs.Compiler.Concurrency.{
  Window, enumerate_from, pick, spawn_from, spawn_next, prime, complete, started, run_bounded,
}
use okf_mcp_rs.Compiler.Concurrency.Order.{run_bounded-IsEnd}

pick_perm :
    {A L : Type 0} (h : A → L) (k : ℕ) (x : A) (xs : List A)
    → Perm (map h (x ∷ xs)) (h (pick k x xs).0 ∷ map h (pick k x xs).1)
unfolding pick
pick_perm h zero x xs = Perm.refl _
pick_perm h (suc k) x [] = Perm.refl _
pick_perm h (suc k) x (y ∷ ys) =
    Perm.trans (Perm.cons (h x) (pick_perm h k y ys))
      (Perm.swap (h (pick k y ys).0) (h x) (map h (pick k y ys).1))

map_enumerate :
    {A : Type 0} (n : ℕ) (l : List A) → map (λ (j : ℕ × A). j.1) (enumerate_from n l) ≡ l
unfolding enumerate_from
map_enumerate n [] = refl
map_enumerate n (x ∷ l) = ap (λ m. x ∷ m) (map_enumerate (suc n) l)

length-drop : {A : Type 0} (n : ℕ) (l : List A) → n ≤ length l → n + length (drop n l) ≡ length l
length-drop zero l h = omega arith
length-drop (suc n) [] h = absurd (omega arith)
length-drop (suc n) (x ∷ l) h = omega (arith, length-drop n l (omega arith))

take-append : {A : Type 0} (d l : List A) → take (length d) (d ++ l) ≡ d
take-append [] l = refl
take-append (x ∷ d) l = ap (λ m. x ∷ m) (take-append d l)

-- The front of a list whose back is known is known too.
front : {A : Type 0} (n : ℕ) (d l : List A) → n ≤ length l → d ++ drop n l ≡ l → d ≡ take n l
front n d l h e =
    let same : length d ≡ n =
      omega (arith, length-append d (drop n l), ap length e, length-drop n l h) in
    sym (take-append d (drop n l)) ∙ (ap (take (length d)) e ∙ ap (λ k. take k l) same)

module _ {S T R L : Type 0} (f : T → R) (on_result : S → ℕ → R → S × Bool) (seen : S → List L)
    (entry : T → L)
    (logs : (s : S) (idx : ℕ) (item : T)
      → seen (on_result s idx (f item)).0 ≡ seen s ++ entry item ∷ [])
    (items : List T) where
  abbrev entry_of : ℕ × T → L
  entry_of job = entry job.1

  -- The log and the tasks in flight are the items that have been dispatched; the others are pending.
  abbrev Logged : Window S T R → Type 0
  Logged w =
      (dispatched : List T) × (dispatched ++ map (λ (j : ℕ × T). j.1) w.pending ≡ items)
      × Perm (seen w.caller ++ map entry_of w.in_flight) (map entry dispatched)

  spawn_from-Logged :
      (jobs : List (ℕ × T)) (w : Window S T R)
      → w.pending ≡ jobs
      → Logged w
      → Logged (spawn_from jobs w)
  unfolding spawn_from
  spawn_from-Logged [] w q h = h
  spawn_from-Logged (job ∷ jobs) w q (d, e, p) = (
    d ++ job.1 ∷ [],
    append_assoc d (job.1 ∷ []) (map (λ (j : ℕ × T). j.1) jobs)
        ∙ (ap (λ l. d ++ map (λ (j : ℕ × T). j.1) l) (sym q) ∙ e),
    subst (λ l. Perm (seen w.caller ++ l) (map entry (d ++ job.1 ∷ [])))
        (sym (map-append entry_of w.in_flight (job ∷ [])))
        (subst (λ l. Perm (seen w.caller ++ (map entry_of w.in_flight ++ entry_of job ∷ [])) l)
          (sym (map-append entry d (job.1 ∷ [])))
          (subst (λ l. Perm l (map entry d ++ entry_of job ∷ []))
            (append_assoc (seen w.caller) (map entry_of w.in_flight) (entry_of job ∷ []))
            (Perm.append_right (entry_of job ∷ []) p))),
  )

  spawn_next-Logged : (w : Window S T R) → Logged w → Logged (spawn_next w)
  unfolding spawn_next
  spawn_next-Logged w h = spawn_from-Logged w.pending w refl h

  prime-Logged : (k : ℕ) (w : Window S T R) → Logged w → Logged (prime k w)
  unfolding prime
  prime-Logged zero w h = h
  prime-Logged (suc k) w h = prime-Logged k (spawn_next w) (spawn_next-Logged w h)

  joined :
      (s : List L) (fl d : List L) (k : ℕ) (job : ℕ × T) (jobs : List (ℕ × T))
      → fl ≡ map entry_of (job ∷ jobs)
      → Perm (s ++ fl) d
      → Perm ((s ++ entry_of (pick k job jobs).0 ∷ []) ++ map entry_of (pick k job jobs).1) d
  joined s fl d k job jobs e p =
      let p' = subst (λ l. Perm (s ++ l) d) e p in
      subst (λ l. Perm l d)
        (sym
          (append_assoc s (entry_of (pick k job jobs).0 ∷ []) (map entry_of (pick k job jobs).1)))
        (Perm.trans (Perm.append_left s (Perm.symm (pick_perm entry_of k job jobs))) p')

  complete-Logged :
      (w : Window S T R) (k : ℕ) (job : ℕ × T) (jobs : List (ℕ × T))
      → w.in_flight ≡ job ∷ jobs
      → Logged w
      → Logged (complete f on_result w (pick k job jobs).0 (pick k job jobs).1)
  unfolding complete
  complete-Logged w k job jobs busy (d, e, p) =
      let (j, y) = (pick k job jobs).0 in
      let q =
        subst (λ s. Perm (s ++ map entry_of (pick k job jobs).1) (map entry d))
          (sym (logs w.caller j y))
          (joined (seen w.caller) (map entry_of w.in_flight) (map entry d) k job jobs
            (ap (map entry_of) busy) p) in
      elim (Bool-cases (w.keep_dispatching && (on_result w.caller j (f y)).1)) [
        | inl go ↦ rw go (spawn_next-Logged _ (d, e, q))
        | inr halt ↦ rw halt (d, e, q)
      ]

  started-Logged : (limit : ℕ) (caller : S) → seen caller ≡ [] → Logged (started items limit caller)
  unfolding started
  started-Logged limit caller z =
      prime-Logged (max limit 1) _
        ([], map_enumerate 0 items, subst (λ s. Perm (s ++ []) []) (sym z) (Perm.refl []))

  -- When the callback adds to a log one entry, made of the item, for each result, whichever tasks end
  -- first and whatever it says: the run ends with the results of a prefix of the items, and the log,
  -- which was empty, has an entry for each of them, in some order.
  pub run_bounded-Logged :
      (choose : ℕ → ℕ) (limit : ℕ) (caller : S)
      → seen caller ≡ []
      → (n : ℕ) × (s : S) × (run_bounded f on_result choose items limit caller
          ≡ some (map f (take n items), s))
        × Perm (seen s) (map entry (take n items))
  run_bounded-Logged choose limit caller z =
      let e =
        run_bounded-IsEnd f items on_result choose limit caller Logged complete-Logged
          (started-Logged limit caller z) in
      let (d, split, p) = e.kept in
      let back = ap (map (λ (j : ℕ × T). j.1)) e.waiting ∙ map_enumerate e.n (drop e.n items) in
      let same = front e.n d items e.at_most (ap (λ l. d ++ l) (sym back) ∙ split) in
      (
        e.n,
        e.last.caller,
        e.ends,
        subst (λ l. Perm l (map entry (take e.n items)))
            (ap (λ l. seen e.last.caller ++ map entry_of l) e.idle
              ∙ append-nil (seen e.last.caller))
            (subst (λ l. Perm (seen e.last.caller ++ map entry_of e.last.in_flight) (map entry l))
              same p),
      )
