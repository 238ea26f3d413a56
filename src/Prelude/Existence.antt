-- ===== src/Prelude/Existence.antt =====
-- What the searches and the maps of a list keep of `Exists`, and equivalences of tests.
use mathlib.Core.Path.{◌≡◌, refl, ap}
use mathlib.Core.Logic.{◌↔◌, ◌⊎◌, inl, inr}
use mathlib.Core.Bool.{Bool, true, false, not, ◌||◌}
use mathlib.Core.Option.{Option, none, some}
use mathlib.Core.List.{List, [], ◌∷◌, map}
use native.Mathlib.Omega.{arith}
use okf_mcp_rs.Prelude.Tests.{Bool-cases, Option-cases}
use okf_mcp_rs.Prelude.Lists.{Exists, any, filter_map, is_empty}
use okf_mcp_rs.Prelude.Strings.{Text}

abbrev pub Gives : {B : Type 0} → (B → Type 0) → Option B → Type 0
Gives P none = ⊥
Gives P (some b) = P b

pub Exists-filter_map :
    {A B : Type 0} (P : B → Type 0) (f : A → Option B) (l : List A)
    → Exists P (filter_map f l) ↔ Exists (λ a. Gives P (f a)) l
Exists-filter_map P f [] = (λ h. h, λ h. h)
Exists-filter_map P f (a ∷ l) =
    let i = Exists-filter_map P f l in
    elim (Option-cases (f a)) [
      | inl n ↦ rw n (ground (arith, i))
      | inr (b, e) ↦ rw e (ground (arith, i))
    ]

pub Exists-map :
    {A B : Type 0} (P : B → Type 0) (f : A → B) (l : List A)
    → Exists P (map f l) ↔ Exists (λ a. P (f a)) l
Exists-map P f [] = (λ h. h, λ h. h)
Exists-map P f (a ∷ l) = let i = Exists-map P f l in ground (arith, i)

pub Exists-iff :
    {A : Type 0} (P Q : A → Type 0) (l : List A) → ((a : A) → P a ↔ Q a) → Exists P l ↔ Exists Q l
Exists-iff P Q [] h = (λ x. x, λ x. x)
Exists-iff P Q (a ∷ l) h = let i = Exists-iff P Q l h in let j = h a in ground (arith, i, j)

pub any_iff :
    {A : Type 0} (P : A → Type 0) (p : A → Bool) (l : List A)
    → ((a : A) → (p a ≡ true) ↔ P a)
    → (any p l ≡ true) ↔ Exists P l
any_iff P p [] h = ground arith
any_iff P p (a ∷ l) h =
    let i = any_iff P p l h in
    let j = h a in
    elim (Bool-cases (p a)) [
      | inl t ↦ rw t (λ e. inl (j.0 t), λ e. refl)
      | inr f ↦ rw f (ground (arith, i, j, f))
    ]

pub iff_trans : {A B C : Type 0} → A ↔ B → B ↔ C → A ↔ C
iff_trans f g = ground (arith, f, g)

pub not_iff : (b : Bool) (P : Type 0) → (b ≡ true) ↔ P → (b ≡ false) ↔ (P → ⊥)
not_iff b P h = ground (arith, h)

pub not_empty_iff : {A : Type 0} (l : List A) → (not (is_empty l) ≡ true) ↔ Exists (λ x. Unit) l
not_empty_iff [] = ground arith
not_empty_iff (x ∷ l) = (λ h. inl tt, λ h. refl)

pub or_iff :
    (a b : Bool) (P Q : Type 0) → (a ≡ true) ↔ P → (b ≡ true) ↔ Q → ((a || b) ≡ true) ↔ (P ⊎ Q)
or_iff a b P Q h k = ground (arith, h, k)

pub pairs : {a b c d : Text} → a ≡ c → b ≡ d → ◌≡◌ {A = Text × Text} (a, b) (c, d)
pairs e f = rw (e, f) refl

pub pair_iff : (a b c d : Text) → (◌≡◌ {A = Text × Text} (a, b) (c, d)) ↔ ((a ≡ c) × (b ≡ d))
pair_iff a b c d = (λ e. (ap (λ p. p.0) e, ap (λ p. p.1) e), λ (e, f). pairs e f)

pub Exists-const :
    {A : Type 0} (C D : Type 0) (Q : A → Type 0) (l : List A)
    → Exists (λ a. C × Q a × D) l ↔ (C × Exists Q l × D)
Exists-const C D Q [] = (λ x. elim x [ ], λ (c, x, d). x)
Exists-const C D Q (a ∷ l) = let i = Exists-const C D Q l in ground (arith, i)
