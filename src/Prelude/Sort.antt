-- ===== src/Prelude/Sort.antt =====
-- `sort` on texts and on pairs of texts, and what a list holds.
use mathlib.Core.Path.{◌≡◌}
use mathlib.Core.Logic.{◌↔◌, ◌⊎◌, inl, inr}
use mathlib.Core.Bool.{Bool, true, false}
use mathlib.Core.List.{List, [], ◌∷◌, ◌++◌}
use native.Mathlib.Omega.{arith}
use okf_mcp_rs.Prelude.Tests.{◌==◌, ltb, if◌then◌else◌, Bool-cases}
use okf_mcp_rs.Prelude.Lists.{Exists, filter}
use okf_mcp_rs.Prelude.Strings.{Text, text_eq}

-- The lexicographic order of code points, which is that of the bytes of UTF-8.
unfoldable pub text_leb : Text → Text → Bool
text_leb [] t = true
text_leb (a ∷ s) [] = false
text_leb (a ∷ s) (b ∷ t) = let rest = text_leb s t in if a == b then rest else ltb a b

unfoldable pub pair_leb : Text × Text → Text × Text → Bool
pair_leb (a, s) (b, t) = if text_eq a b then text_leb s t else text_leb a b

-- The list has the element.
abbrev pub Has : {A : Type 0} → A → List A → Type 0
Has a l = Exists (λ x. x ≡ a) l

module _ {A : Type 0} where
  unfoldable pub insert_sorted : (A → A → Bool) → A → List A → List A
  insert_sorted le a [] = a ∷ []
  insert_sorted le a (b ∷ l) =
      let rest = insert_sorted le a l in if le a b then a ∷ b ∷ l else b ∷ rest

  unfoldable pub sort : (A → A → Bool) → List A → List A
  sort le [] = []
  sort le (a ∷ l) = insert_sorted le a (sort le l)

  Exists-insert :
      (P : A → Type 0) (le : A → A → Bool) (a : A) (l : List A)
      → Exists P (insert_sorted le a l) ↔ (P a ⊎ Exists P l)
  unfolding insert_sorted
  Exists-insert P le a [] = (λ h. h, λ h. h)
  Exists-insert P le a (b ∷ l) =
      let i = Exists-insert P le a l in
      elim (Bool-cases (le a b)) [
        | inl t ↦ rw t (λ h. h, λ h. h)
        | inr f ↦ rw f (ground (arith, i))
      ]

  -- Sorting keeps what a list holds.
  pub Exists-sort :
      (P : A → Type 0) (le : A → A → Bool) (l : List A) → Exists P (sort le l) ↔ Exists P l
  unfolding sort
  Exists-sort P le [] = (λ h. h, λ h. h)
  Exists-sort P le (a ∷ l) =
      let i = Exists-insert P le a (sort le l) in let j = Exists-sort P le l in ground (arith, i, j)

  pub Exists-append :
      (P : A → Type 0) (l m : List A) → Exists P (l ++ m) ↔ (Exists P l ⊎ Exists P m)
  Exists-append P [] m = (inr, λ h. elim h [ inl x ↦ elim x [ ] | inr x ↦ x ])
  Exists-append P (a ∷ l) m = let i = Exists-append P l m in ground (arith, i)

  pub Exists-filter :
      (P : A → Type 0) (p : A → Bool) (l : List A)
      → Exists P (filter p l) ↔ Exists (λ a. P a × (p a ≡ true)) l
  Exists-filter P p [] = (λ h. h, λ h. h)
  Exists-filter P p (a ∷ l) =
      let i = Exists-filter P p l in
      elim (Bool-cases (p a)) [
        | inl t ↦ rw t (ground (arith, i))
        | inr f ↦ rw f (ground (arith, i))
      ]

abbrev pub flat_map : {A B : Type 0} → (A → List B) → List A → List B
flat_map f [] = []
flat_map f (a ∷ l) = f a ++ flat_map f l

pub Exists-flat_map :
    {A B : Type 0} (P : B → Type 0) (f : A → List B) (l : List A)
    → Exists P (flat_map f l) ↔ Exists (λ a. Exists P (f a)) l
Exists-flat_map P f [] = (λ h. h, λ h. h)
Exists-flat_map P f (a ∷ l) =
    let i = Exists-flat_map P f l in
    let j = Exists-append P (f a) (flat_map f l) in ground (arith, i, j)
