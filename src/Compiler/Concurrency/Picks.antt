-- ===== src/Compiler/Concurrency/Picks.antt =====
-- Lists of jobs: what `pick` takes out of one, and slots that are written by index.
use okf_mcp_rs.Prelude.{
  ℕ, zero, suc, ◌≤◌, ◌<◌, ◌≡◌, refl, ap, ◌⊎◌, inl, inr, Option, none, some, eq_of_some, List, [],
  ◌∷◌, ◌++◌, length, get_elem?, take, drop, map, arith, if◌then◌else◌, ◌==◌,
}
use okf_mcp_rs.Compiler.Concurrency.{set, pick, flatten}

abbrev pub Has : {A : Type 0} → A → List A → Type 0
Has a [] = ⊥
Has a (x ∷ xs) = (a ≡ x) ⊎ Has a xs

module _ {A : Type 0} where
  pub Has-append : (a b : A) (xs : List A) → Has a (xs ++ b ∷ []) → Has a xs ⊎ (a ≡ b)
  Has-append a b [] (inl e) = inr e
  Has-append a b [] (inr h) = absurd h
  Has-append a b (x ∷ xs) (inl e) = inl (inl e)
  Has-append a b (x ∷ xs) (inr h) = elim (Has-append a b xs h) [
    | inl p ↦ inl (inr p)
    | inr e ↦ inr e
  ]

  pub Has-append_left : (a b : A) (xs : List A) → Has a xs → Has a (xs ++ b ∷ [])
  Has-append_left a b [] h = absurd h
  Has-append_left a b (x ∷ xs) (inl e) = inl e
  Has-append_left a b (x ∷ xs) (inr h) = inr (Has-append_left a b xs h)

  pub Has-append_last : (b : A) (xs : List A) → Has b (xs ++ b ∷ [])
  Has-append_last b [] = inl refl
  Has-append_last b (x ∷ xs) = inr (Has-append_last b xs)

  -- What `pick` takes out and what it leaves is what was there.
  pub pick_split :
      (k : ℕ) (a x : A) (xs : List A)
      → Has a (x ∷ xs)
      → (a ≡ (pick k x xs).0) ⊎ Has a (pick k x xs).1
  unfolding pick
  pick_split zero a x xs h = h
  pick_split (suc k) a x [] h = h
  pick_split (suc k) a x (y ∷ ys) (inl e) = inr (inl e)
  pick_split (suc k) a x (y ∷ ys) (inr h) = elim (pick_split k a y ys h) [
    | inl e ↦ inl e
    | inr p ↦ inr (inr p)
  ]

  pub picked : (k : ℕ) (x : A) (xs : List A) → Has (pick k x xs).0 (x ∷ xs)
  unfolding pick
  picked zero x xs = inl refl
  picked (suc k) x [] = inl refl
  picked (suc k) x (y ∷ ys) = inr (picked k y ys)

  pub not_picked : (k : ℕ) (a x : A) (xs : List A) → Has a (pick k x xs).1 → Has a (x ∷ xs)
  unfolding pick
  not_picked zero a x xs h = inr h
  not_picked (suc k) a x [] h = absurd h
  not_picked (suc k) a x (y ∷ ys) (inl e) = inl e
  not_picked (suc k) a x (y ∷ ys) (inr h) = inr (not_picked k a y ys h)

  pub get_elem?-set :
      (xs : List A) (i j : ℕ) (v : A)
      → i < length xs
      → get_elem? (set xs i v) j ≡ (if i == j then some v else get_elem? xs j)
  unfolding set
  get_elem?-set [] i j v h = elim h [ ]
  get_elem?-set (x ∷ xs) zero zero v h = ground arith
  get_elem?-set (x ∷ xs) zero (suc j) v h = ground arith
  get_elem?-set (x ∷ xs) (suc i) zero v h = ground arith
  get_elem?-set (x ∷ xs) (suc i) (suc j) v h = ground (arith, get_elem?-set xs i j v)

  pub length-set : (xs : List A) (i : ℕ) (v : A) → length (set xs i v) ≡ length xs
  unfolding set
  length-set [] i v = refl
  length-set (x ∷ xs) zero v = refl
  length-set (x ∷ xs) (suc i) v = ap suc (length-set xs i v)

  pub get_elem?-lt : (xs : List A) (i : ℕ) (x : A) → get_elem? xs i ≡ some x → i < length xs
  get_elem?-lt [] i x h = cc
  get_elem?-lt (y ∷ xs) zero x h = omega arith
  get_elem?-lt (y ∷ xs) (suc i) x h = omega (arith, get_elem?-lt xs i x h)

  pub drop_step :
      (n : ℕ) (xs : List A) (x : A) (r : List A)
      → drop n xs ≡ x ∷ r
      → (get_elem? xs n ≡ some x) × (drop (suc n) xs ≡ r)
  drop_step zero [] x r h = cc
  drop_step zero (y ∷ xs) x r h = ground arith
  drop_step (suc n) [] x r h = cc
  drop_step (suc n) (y ∷ xs) x r h = drop_step n xs x r h

  pub drop_done : (n : ℕ) (xs : List A) → drop n xs ≡ [] → length xs ≤ n
  drop_done zero [] h = omega arith
  drop_done zero (y ∷ xs) h = cc
  drop_done (suc n) [] h = omega arith
  drop_done (suc n) (y ∷ xs) h = omega (arith, drop_done n xs h)

pub flatten_prefix {ℓ κ} :
    {T : Type ℓ} {R : Type κ} (f : T → R) (items : List T) (slots : List (Option R)) (n : ℕ)
    → length slots ≡ length items
    → ((i : ℕ) (x : T) → get_elem? items i ≡ some x → i < n → get_elem? slots i ≡ some (some (f x)))
    → ((i : ℕ) → n ≤ i → i < length items → get_elem? slots i ≡ some none)
    → flatten slots ≡ map f (take n items)
unfolding flatten
flatten_prefix f [] [] zero e h k = refl
flatten_prefix f [] [] (suc n) e h k = refl
flatten_prefix f [] (s ∷ slots) n e h k = absurd (omega arith)
flatten_prefix f (x ∷ items) [] n e h k = absurd (omega arith)
flatten_prefix f (x ∷ items) (s ∷ slots) zero e h k =
    rw (eq_of_some (k 0 (omega arith) (omega arith))) (
      flatten_prefix f items slots zero (omega arith) (λ i y q lt. absurd (omega arith))
        (λ i le lt. k (suc i) (omega arith) (omega arith)))
flatten_prefix f (x ∷ items) (s ∷ slots) (suc n) e h k =
    rw (eq_of_some (h 0 x refl (omega arith))) (
      ap (λ l. f x ∷ l)
        (flatten_prefix f items slots n (omega arith) (λ i y q lt. h (suc i) y q (omega arith))
          (λ i le lt. k (suc i) (omega arith) (omega arith))))
