-- ===== src/Core/Sanitizer.antt =====
-- src/core/sanitizer.rs: the redaction of sensitive values in JSON before it is logged. The case of
-- letters other than those of ASCII is not modelled.
pub mod Redaction
mod Tests
use okf_mcp_rs.Prelude.{
  ℕ, ◌+◌, Text, ascii, Bool, true, false, ◌&&◌, Option, none, some, List, [], ◌∷◌, leb, any, map,
  if◌then◌else◌, split_once,
}

-- JSON, as the library serde_json has it; a number is its text.
mutual
  pub data Value : Type 0 where
    null : Value
    boolean : Bool → Value
    number : Text → Value
    string : Text → Value
    array : Values → Value
    object : Fields → Value

  pub data Values : Type 0 where
    no_values : Values
    value : Value → Values → Values

  pub data Fields : Type 0 where
    no_fields : Fields
    field : Text → Value → Fields → Fields

abbrev pub sensitive_key_substrings : List Text
sensitive_key_substrings =
    ascii "password"
    ∷ ascii "token"
    ∷ ascii "secret"
    ∷ ascii "authorization"
    ∷ ascii "apikey"
    ∷ ascii "api_key"
    ∷ ascii "api-key"
    ∷ ascii "credential"
    ∷ []

abbrev pub lowercase : ℕ → ℕ
lowercase c = if leb 65 c && leb c 90 then c + 32 else c

-- `lower.contains(needle)`
abbrev contains_text : Text → Text → Bool
contains_text text needle = elim (split_once needle text) [ none ↦ false | some parts ↦ true ]

unfoldable pub is_sensitive_key : Text → Bool
is_sensitive_key key = any (contains_text (map lowercase key)) sensitive_key_substrings

abbrev pub redacted : Value
redacted = string (ascii "[REDACTED]")

unfoldable mutual
  pub sanitize : Value → Value
  sanitize null = null
  sanitize (boolean b) = boolean b
  sanitize (number n) = number n
  sanitize (string s) = string s
  sanitize (array items) = array (sanitize_items items)
  sanitize (object map) = object (sanitize_fields map)

  pub sanitize_items : Values → Values
  sanitize_items no_values = no_values
  sanitize_items (value v items) = value (sanitize v) (sanitize_items items)

  pub sanitize_fields : Fields → Fields
  sanitize_fields no_fields = no_fields
  sanitize_fields (field key v rest) =
      let sanitized = sanitize v in
      field key (if is_sensitive_key key then redacted else sanitized) (sanitize_fields rest)
