-- ===== src/Core/ConfigManager/Cascade.antt =====
-- The order of the layers.
use okf_mcp_rs.Prelude.{
  ◌≡◌, refl, ◌∙◌, ap, inl, inr, Text, text_eq, Option, none, some, List, [], ◌∷◌, Bool-cases,
}
use okf_mcp_rs.Prelude.Assoc.{Assoc, lookup, lookup-insert}
use okf_mcp_rs.Core.Sanitizer.{Value}
use okf_mcp_rs.Core.ConfigManager.{extend, merge}

abbrev pub or : Option Value → Option Value → Option Value
or none later = later
or (some v) later = some v

-- The value of a key in the first layer that has it.
abbrev pub first_of : Text → List (Assoc Value) → Option Value
first_of key [] = none
first_of key (layer ∷ layers) = or (lookup key layer) (first_of key layers)

lookup-extend :
    (key : Text) (m layer : Assoc Value)
    → lookup key (extend m layer) ≡ or (lookup key layer) (lookup key m)
unfolding extend lookup
lookup-extend key m [] = refl
lookup-extend key m ((j, v) ∷ layer) =
    let i = lookup-insert j key v (extend m layer) in
    elim (Bool-cases (text_eq j key)) [
      | inl t ↦ i ∙ rw t refl
      | inr f ↦ i ∙ rw f (lookup-extend key m layer)
    ]

-- In the merged configuration a key has the value of the first layer that has the key: the search
-- stops at the first match.
pub lookup-merge :
    (key : Text) (layers : List (Assoc Value)) → lookup key (merge layers) ≡ first_of key layers
unfolding merge lookup
lookup-merge key [] = refl
lookup-merge key (layer ∷ lower) =
    lookup-extend key (merge lower) layer ∙ ap (or (lookup key layer)) (lookup-merge key lower)
