-- ===== src/Core/Sanitizer/Tests.antt =====
-- Redaction of small values.
use okf_mcp_rs.Prelude.{◌≡◌, refl, ascii, split_once}
use okf_mcp_rs.Core.Sanitizer.{
  Value, string, array, object, value, no_values, field, no_fields, redacted, is_sensitive_key,
  sanitize, sanitize_items, sanitize_fields,
}
use okf_mcp_rs.Core.Sanitizer.Redaction.{IsClean, sanitize-IsClean}

abbrev login : Value
login = array (
    value
      (object (
        field (ascii "user") (string (ascii "a"))
          (field (ascii "apiKey") (string (ascii "s")) no_fields)))
      no_values)

nested :
    sanitize login
    ≡ array (
        value
          (object
            (field (ascii "user") (string (ascii "a")) (field (ascii "apiKey") redacted no_fields)))
          no_values)
unfolding sanitize sanitize_items sanitize_fields is_sensitive_key split_once
nested = refl

sanitize-IsClean_example : IsClean (sanitize login) × (IsClean login → sanitize login ≡ login)
sanitize-IsClean_example = sanitize-IsClean login
