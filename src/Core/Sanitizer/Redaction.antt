-- ===== src/Core/Sanitizer/Redaction.antt =====
-- What is left of a value after redaction.
use okf_mcp_rs.Prelude.{
  sym, ◌≡◌, refl, ap, ap₂, inl, inr, Text, Bool, true, false, Bool-cases, if◌then◌else◌,
}
use okf_mcp_rs.Core.Sanitizer.{
  Value, null, boolean, number, string, array, object, Values, no_values, value, Fields, no_fields,
  field, is_sensitive_key, redacted, sanitize, sanitize_items, sanitize_fields,
}

false-true : false ≡ true → ⊥
false-true e = cc

field_kept :
    (key : Text) (v : Value) (b : Bool)
    → (b ≡ true → v ≡ redacted)
    → sanitize v ≡ v
    → (if b then redacted else sanitize v) ≡ v
field_kept key v true h e = sym (h refl)
field_kept key v false h e = e

-- At every depth a sensitive key has the redacted text for its value.
unfoldable mutual
  pub IsClean : Value → Type 0
  IsClean null = Unit
  IsClean (boolean b) = Unit
  IsClean (number n) = Unit
  IsClean (string s) = Unit
  IsClean (array items) = AreCleanItems items
  IsClean (object map) = AreCleanFields map

  pub AreCleanItems : Values → Type 0
  AreCleanItems no_values = Unit
  AreCleanItems (value v items) = IsClean v × AreCleanItems items

  pub AreCleanFields : Fields → Type 0
  AreCleanFields no_fields = Unit
  AreCleanFields (field key v rest) =
      (is_sensitive_key key ≡ true → v ≡ redacted) × IsClean v × AreCleanFields rest

mutual
  unfolding sanitize sanitize_items sanitize_fields IsClean AreCleanItems AreCleanFields

  value-IsClean : (v : Value) → IsClean (sanitize v)
  value-IsClean null = tt
  value-IsClean (boolean b) = tt
  value-IsClean (number n) = tt
  value-IsClean (string s) = tt
  value-IsClean (array items) = items-AreCleanItems items
  value-IsClean (object map) = fields-AreCleanFields map

  items-AreCleanItems : (items : Values) → AreCleanItems (sanitize_items items)
  items-AreCleanItems no_values = tt
  items-AreCleanItems (value v items) = (value-IsClean v, items-AreCleanItems items)

  fields-AreCleanFields : (map : Fields) → AreCleanFields (sanitize_fields map)
  fields-AreCleanFields no_fields = tt
  fields-AreCleanFields (field key v rest) = elim (Bool-cases (is_sensitive_key key)) [
    | inl t ↦ rw t ((λ e. refl), tt, fields-AreCleanFields rest)
    | inr f ↦ rw f ((λ e. absurd (false-true e)), value-IsClean v, fields-AreCleanFields rest)
  ]

mutual
  unfolding sanitize sanitize_items sanitize_fields IsClean AreCleanItems AreCleanFields

  value_kept : (v : Value) → IsClean v → sanitize v ≡ v
  value_kept null h = refl
  value_kept (boolean b) h = refl
  value_kept (number n) h = refl
  value_kept (string s) h = refl
  value_kept (array items) h = ap array (items_kept items h)
  value_kept (object map) h = ap object (fields_kept map h)

  items_kept : (items : Values) → AreCleanItems items → sanitize_items items ≡ items
  items_kept no_values h = refl
  items_kept (value v items) h = ap₂ value (value_kept v h.0) (items_kept items h.1)

  fields_kept : (map : Fields) → AreCleanFields map → sanitize_fields map ≡ map
  fields_kept no_fields h = refl
  fields_kept (field key v rest) h =
      ap₂ (field key) (field_kept key v (is_sensitive_key key) h.0 (value_kept v h.1))
        (fields_kept rest h.2)

-- A sanitized value has the redacted text under every sensitive key, at every depth, and a value that
-- has it there already is left as it is: so sanitizing twice is sanitizing once.
pub sanitize-IsClean : (v : Value) → IsClean (sanitize v) × (IsClean v → sanitize v ≡ v)
sanitize-IsClean v = (value-IsClean v, value_kept v)

-- What is logged of a field with a sensitive key does not depend on its value.
pub sanitize_hides :
    (key : Text) (v w : Value) (rest : Fields)
    → is_sensitive_key key ≡ true
    → sanitize (object (field key v rest)) ≡ sanitize (object (field key w rest))
unfolding sanitize sanitize_fields
sanitize_hides key v w rest h = rw h refl
