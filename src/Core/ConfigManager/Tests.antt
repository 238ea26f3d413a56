-- ===== src/Core/ConfigManager/Tests.antt =====
-- Small configurations.
use okf_mcp_rs.Prelude.{◌≡◌, refl, Text, ascii, text_eq, All, arith, List, [], ◌∷◌}
use okf_mcp_rs.Prelude.Assoc.{Assoc, lookup, insert}
use okf_mcp_rs.Prelude.Pieces.{strip_suffix}
use okf_mcp_rs.Core.Sanitizer.{Value, string, number, object, field, no_fields}
use okf_mcp_rs.Core.ConfigManager.{
  extend, merge, env_overrides, fixed_overrides, parse_env_value, is_u64, digits_value,
  custom_provider_env_overrides, provider_name,
}
use okf_mcp_rs.Core.ConfigManager.Cascade.{first_of, lookup-merge}
use okf_mcp_rs.Core.ConfigManager.Provider.{IsNameChar}

abbrev vars : Assoc Text
vars =
    (ascii "OKF_MCP_PORT", ascii "80")
    ∷ (ascii "OKF_MCP_CUSTOM_PROVIDER_MY_LLM_BASE_URL", ascii "u")
    ∷ []

from_environment :
    env_overrides vars
    ≡ (ascii "port", number (ascii "80"))
      ∷ (
        ascii "custom_providers",
        object (
            field
              (ascii "my-llm")
              (object (field (ascii "base_url") (string (ascii "u")) no_fields))
              no_fields),
      )
      ∷ []
unfolding env_overrides fixed_overrides lookup insert text_eq parse_env_value is_u64 digits_value
    custom_provider_env_overrides extend provider_name strip_suffix
from_environment = refl

abbrev layers : List (Assoc Value)
layers =
    []
    ∷ ((ascii "host", string (ascii "a")) ∷ [])
    ∷ ((ascii "host", string (ascii "b")) ∷ (ascii "port", string (ascii "c")) ∷ [])
    ∷ []

lookup-merge_example : lookup (ascii "host") (merge layers) ≡ first_of (ascii "host") layers
lookup-merge_example = lookup-merge (ascii "host") layers

name-IsName : All IsNameChar (ascii "my-llm2")
name-IsName = ground arith
