-- ===== src/Core/VaultResolver/Names.antt =====
-- The names that a relative path is made of.
use okf_mcp_rs.Prelude.{
  ℕ, ◌≡◌, refl, false, Text, ascii, text_eq, List, [], ◌∷◌, ◌==◌, arith, All, All-append, any,
  is_empty, Bool-cases, inl, inr,
}
use okf_mcp_rs.Core.VaultResolver.{
  Component, normal, split, split_onto, piece, pieces, leading, components,
}

abbrev pub NoSlash : Text → Type 0
NoSlash s = any (λ c. c == 47) s ≡ false

-- A name in a directory: not empty, neither of the two dots, and free of slashes.
abbrev pub IsName : Text → Type 0
IsName s =
    (is_empty s ≡ false)
    × (text_eq s (ascii ".") ≡ false)
    × (text_eq s (ascii "..") ≡ false)
    × NoSlash s

abbrev pub IsNamed : Component → Type 0
IsNamed (normal s) = IsName s
IsNamed _ = Unit

split_onto-NoSlash :
    (c : ℕ) (ss : List Text) → (c == 47) ≡ false → All NoSlash ss → All NoSlash (split_onto c ss)
unfolding split_onto
split_onto-NoSlash c [] h hs = (rw h refl, tt)
split_onto-NoSlash c (s ∷ ss) h hs = (rw h hs.0, hs.1)

split-NoSlash : (t : Text) → All NoSlash (split t)
unfolding split
split-NoSlash [] = (refl, tt)
split-NoSlash (c ∷ cs) =
    let rest = split-NoSlash cs in
    elim (Bool-cases (c == 47)) [
      | inl slash ↦ rw slash (refl, rest)
      | inr other ↦ rw other (split_onto-NoSlash c (split cs) other rest)
    ]

piece-IsNamed : (s : Text) → NoSlash s → All IsNamed (piece s)
unfolding piece
piece-IsNamed s h = elim (Bool-cases (is_empty s)) [
  | inl e ↦ rw e tt
  | inr ne ↦ elim (Bool-cases (text_eq s (ascii "."))) [
    | inl d ↦ rw (ne, d) tt
    | inr nd ↦ elim (Bool-cases (text_eq s (ascii ".."))) [
      | inl u ↦ rw (ne, nd, u) (tt, tt)
      | inr nu ↦ rw (ne, nd, nu) ((ne, nd, nu, h), tt)
    ]
  ]
]

pieces-IsNamed : (ss : List Text) → All NoSlash ss → All IsNamed (pieces ss)
unfolding pieces
pieces-IsNamed [] h = tt
pieces-IsNamed (s ∷ ss) h =
    All-append IsNamed (piece s) (pieces ss) (piece-IsNamed s h.0) (pieces-IsNamed ss h.1)

leading-IsNamed : (ss : List Text) → All IsNamed (leading ss)
unfolding leading
leading-IsNamed [] = tt
leading-IsNamed (s ∷ []) = ground arith
leading-IsNamed (s ∷ s' ∷ ss) = ground arith

pub components-IsNamed : (t : Text) → All IsNamed (components t)
unfolding components
components-IsNamed t =
    All-append IsNamed (leading (split t)) (pieces (split t)) (leading-IsNamed (split t))
      (pieces-IsNamed (split t) (split-NoSlash t))
