-- ===== src/Core/ConfigManager.antt =====
-- src/core/config_manager.rs: the layers of the configuration. The environment is the list of its
-- variables, a file's layer is what `read_yaml_if_exists` gives for it, and the last step, which
-- makes a `Config` of the merged map, is that of the library serde_json. Names are in ASCII.
pub mod Cascade
pub mod Provider
mod Tests
use okf_mcp_rs.Prelude.{
  ℕ, zero, suc, ◌+◌, ◌-◌, ◌*◌, ◌^◌, Text, ascii, text_eq, Bool, true, false, ◌&&◌, ◌||◌, Option,
  none, some, List, [], ◌∷◌, ◌++◌, ◌==◌, leb, ltb, any, map, is_empty, filter_map, if◌then◌else◌,
  strip_prefix,
}
use okf_mcp_rs.Prelude.Assoc.{Assoc, lookup, insert}
use okf_mcp_rs.Prelude.Pieces.{strip_suffix}
use okf_mcp_rs.Ingest.Slug.{is_ascii_alphanumeric}
use okf_mcp_rs.Core.Sanitizer.{Value, number, string, object, field, no_fields, Fields, lowercase}

-- `parse::<u64>`: digits, after a plus or not, of a number below 2 ^ 64.
abbrev is_digit : ℕ → Bool
is_digit c = leb 48 c && leb c 57

unfoldable pub digits_value : ℕ → Text → Option ℕ
digits_value n [] = some n
digits_value n (c ∷ t) =
    let rest = digits_value (n * 10 + (c - 48)) t in if is_digit c then rest else none

abbrev below_u64 : Option ℕ → Bool
below_u64 none = false
below_u64 (some n) = ltb n (2 ^ 64)

abbrev unsigned : Text → Text
unsigned [] = []
unsigned (c ∷ t) = if (c == 43) then t else c ∷ t

unfoldable pub is_u64 : Text → Bool
is_u64 t = if is_empty (unsigned t) then false else below_u64 (digits_value 0 (unsigned t))

abbrev pub numeric_keys : List Text
numeric_keys =
    ascii "rate_limit"
    ∷ ascii "timeout_ms"
    ∷ ascii "cache_size"
    ∷ ascii "retry_attempts"
    ∷ ascii "port"
    ∷ []

-- A number keeps the text that it is read from.
unfoldable pub parse_env_value : Text → Text → Value
parse_env_value config_key value =
    if any (text_eq config_key) numeric_keys && is_u64 value then number value else string value

-- The configuration's keys and the ends of the variables' names.
abbrev pub env_keys : List (Text × Text)
env_keys =
    (ascii "url", ascii "URL")
    ∷ (ascii "firecrawl_base_url", ascii "FIRECRAWL_API_URL")
    ∷ (ascii "api_version", ascii "API_VERSION")
    ∷ (ascii "log_level", ascii "LOG_LEVEL")
    ∷ (ascii "transport", ascii "TRANSPORT")
    ∷ (ascii "host", ascii "HOST")
    ∷ (ascii "cors_allow", ascii "CORS_ALLOW")
    ∷ (ascii "rate_limit", ascii "RATE_LIMIT")
    ∷ (ascii "timeout_ms", ascii "TIMEOUT_MS")
    ∷ (ascii "cache_size", ascii "CACHE_SIZE")
    ∷ (ascii "retry_attempts", ascii "RETRY_ATTEMPTS")
    ∷ (ascii "port", ascii "PORT")
    ∷ []

abbrev set_if : Text → Option Text → Assoc Value → Assoc Value
set_if key none overrides = overrides
set_if key (some value) overrides = insert key (parse_env_value key value) overrides

unfoldable pub fixed_overrides : Assoc Text → List (Text × Text) → Assoc Value
fixed_overrides vars [] = []
fixed_overrides vars ((key, suffix) ∷ keys) =
    set_if key (lookup (ascii "OKF_MCP_" ++ suffix) vars) (fixed_overrides vars keys)

abbrev pub provider_prefix : Text
provider_prefix = ascii "OKF_MCP_CUSTOM_PROVIDER_"

abbrev pub provider_suffix : Text
provider_suffix = ascii "_BASE_URL"

abbrev pub uppercase : ℕ → ℕ
uppercase c = if leb 97 c && leb c 122 then c - 32 else c

abbrev pub sanitized : ℕ → ℕ
sanitized c = if is_ascii_alphanumeric c then c else 95

unfoldable pub custom_provider_base_url_env_name : Text → Text
custom_provider_base_url_env_name name =
    provider_prefix ++ (map (λ c. sanitized (uppercase c)) name ++ provider_suffix)

abbrev pub restored : ℕ → ℕ
restored c = if lowercase c == 95 then 45 else lowercase c

abbrev non_empty_name : Option Text → Option Text
non_empty_name none = none
non_empty_name (some middle) = if is_empty middle then none else some (map restored middle)

abbrev strip_both : Option Text → Option Text
strip_both none = none
strip_both (some rest) = strip_suffix provider_suffix rest

-- The provider that a variable is for.
unfoldable pub provider_name : Text → Option Text
provider_name key = non_empty_name (strip_both (strip_prefix provider_prefix key))

abbrev base_url : Text → Value
base_url value = object (field (ascii "base_url") (string value) no_fields)

abbrev named : Text → Option Text → Option (Text × Value)
named value none = none
named value (some name) = some (name, base_url value)

abbrev provider_of : Text × Text → Option (Text × Value)
provider_of (key, value) = named value (provider_name key)

-- `map.extend(layer)`: the entries of the layer go over those of the map.
unfoldable pub extend : Assoc Value → Assoc Value → Assoc Value
extend m [] = m
extend m ((key, value) ∷ layer) = insert key value (extend m layer)

abbrev to_fields : Assoc Value → Fields
to_fields [] = no_fields
to_fields ((key, value) ∷ m) = field key value (to_fields m)

unfoldable pub custom_provider_env_overrides : Assoc Text → Assoc Value
custom_provider_env_overrides vars =
    let providers = extend [] (filter_map provider_of vars) in
    if is_empty providers then [] else (ascii "custom_providers", object (to_fields providers)) ∷ []

unfoldable pub env_overrides : Assoc Text → Assoc Value
env_overrides vars = extend (fixed_overrides vars env_keys) (custom_provider_env_overrides vars)

-- The lowest layer first, each higher one over it; the layers come with the highest first.
unfoldable pub merge : List (Assoc Value) → Assoc Value
merge [] = []
merge (layer ∷ lower) = extend (merge lower) layer

unfoldable pub load_config :
    {A : Type 0} → (Assoc Value → A) → Assoc Value → Assoc Text → List (Assoc Value) → A
load_config from_value cli_flags vars files =
    from_value (merge (cli_flags ∷ env_overrides vars ∷ files))
