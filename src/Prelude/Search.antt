-- ===== src/Prelude/Search.antt =====
-- Rust's searches in a text: `find` and `split_once` of a separator, `contains` of a character,
-- `lines` and `join`.
use Prim.Native.Nat.{ℕ}
use mathlib.Core.Path.{◌≡◌, refl, ap, sym}
use mathlib.Core.Logic.{inl, inr}
use mathlib.Core.Bool.{Bool, false}
use mathlib.Core.Option.{Option, none, some}
use mathlib.Core.List.{[], ◌∷◌, ◌++◌}
use native.Mathlib.Omega.{arith}
use okf_mcp_rs.Prelude.Tests.{◌==◌, ==_iff, Option-cases, eq_of_some}
use okf_mcp_rs.Prelude.Lists.{All, any}
use okf_mcp_rs.Prelude.Strings.{Text, strip_prefix}

abbrev cons_before : ℕ → Option (Text × Text) → Option (Text × Text)
cons_before c none = none
cons_before c (some (before, after)) = some (c ∷ before, after)

abbrev nil_before : Option Text → Option (Text × Text)
nil_before none = none
nil_before (some after) = some ([], after)

-- The text before the first occurrence of the separator and the text after it: `split_once`, and
-- `find` with the slices on both sides of what it finds.
unfoldable pub split_once : Text → Text → Option (Text × Text)
split_once sep [] = nil_before (strip_prefix sep [])
split_once sep (c ∷ t) =
    let rest = split_once sep t in
    elim (strip_prefix sep (c ∷ t)) [ none ↦ cons_before c rest | some after ↦ some ([], after) ]

-- `contains` of a character
abbrev pub contains : ℕ → Text → Bool
contains c t = any (λ x. c == x) t

-- No character of the text is the given one.
abbrev pub Lacks : ℕ → Text → Type 0
Lacks c t = All (λ x. (c == x) ≡ false) t

pub Lacks→contains : (c : ℕ) (t : Text) → Lacks c t → contains c t ≡ false
Lacks→contains c [] h = refl
Lacks→contains c (x ∷ t) h = rw h.0 (Lacks→contains c t h.1)

pub contains→Lacks : (c : ℕ) (t : Text) → contains c t ≡ false → Lacks c t
contains→Lacks c [] h = tt
contains→Lacks c (x ∷ t) h = ground (arith, contains→Lacks c t)

pub strip_prefix-append : (s t : Text) → strip_prefix s (s ++ t) ≡ some t
strip_prefix-append [] t = refl
strip_prefix-append (a ∷ s) t = rw ((==_iff a a).1 refl) (strip_prefix-append s t)

pub strip_prefix-some : (s t u : Text) → strip_prefix s t ≡ some u → t ≡ s ++ u
strip_prefix-some [] t u h = cc
strip_prefix-some (a ∷ s) [] u h = cc
strip_prefix-some (a ∷ s) (b ∷ t) u h = ground (arith, strip_prefix-some s t u)

pub none_ne_some {ℓ} : {A : Type ℓ} {a : A} → ◌≡◌ {A = Option A} none (some a) → ⊥
none_ne_some h = cc

parts_at_start :
    (sep t u before after : Text)
    → strip_prefix sep t ≡ some u
    → ◌≡◌ {A = Option (Text × Text)} (some ([], u)) (some (before, after))
    → t ≡ before ++ (sep ++ after)
parts_at_start sep t u before after e h =
    let q = eq_of_some h in
    rw (sym (ap (λ p. p.0) q), sym (ap (λ p. p.1) q)) (strip_prefix-some sep t u e)

parts_later :
    (c : ℕ) (sep t before' before after' after : Text)
    → t ≡ before' ++ (sep ++ after')
    → ◌≡◌ {A = Option (Text × Text)} (some (c ∷ before', after')) (some (before, after))
    → c ∷ t ≡ before ++ (sep ++ after)
parts_later c sep t before' before after' after e h =
    let q = eq_of_some h in rw (sym (ap (λ p. p.0) q), sym (ap (λ p. p.1) q)) (ap (λ l. c ∷ l) e)

-- The parts and the separator make up the text.
pub split_once-some :
    (sep t before after : Text)
    → split_once sep t ≡ some (before, after)
    → t ≡ before ++ (sep ++ after)
unfolding split_once
split_once-some sep [] before after h = elim (Option-cases (strip_prefix sep [])) [
  | inl n ↦ absurd (none_ne_some (rw n at h))
  | inr (u, e) ↦ parts_at_start sep [] u before after e (rw (split_once, e) at h)
]
split_once-some sep (c ∷ t) before after h = elim (Option-cases (strip_prefix sep (c ∷ t))) [
  | inr (u, e) ↦ parts_at_start sep (c ∷ t) u before after e (rw (split_once, e) at h)
  | inl n ↦ elim (Option-cases (split_once sep t)) [
    | inl m ↦ absurd (none_ne_some (rw (split_once, n, m) at h))
    | inr ((before', after'), e) ↦
        parts_later c sep t before' before after' after (split_once-some sep t before' after' e)
          (rw (split_once, n, e) at h)
  ]
]

-- The text before a separator that starts with a character the text lacks.
pub split_once-append :
    (c : ℕ) (sep before after : Text)
    → Lacks c before
    → split_once (c ∷ sep) (before ++ ((c ∷ sep) ++ after)) ≡ some (before, after)
unfolding split_once
split_once-append c sep [] after h = rw (split_once, strip_prefix-append (c ∷ sep) after) refl
split_once-append c sep (x ∷ before) after h =
    rw (split_once, strip_prefix, h.0, split_once-append c sep before after h.1) refl

pub split_once-none : (c : ℕ) (sep t : Text) → Lacks c t → split_once (c ∷ sep) t ≡ none
unfolding split_once
split_once-none c sep [] h = refl
split_once-none c sep (x ∷ t) h =
    rw (split_once, strip_prefix, h.0, split_once-none c sep t h.1) refl
