-- ===== src/Core/ConfigManager/Provider.antt =====
-- The names of custom providers in the environment.
use okf_mcp_rs.Prelude.{
  ℕ, ◌≤◌, ◌≡◌, refl, ap₂, ◌⊎◌, Text, false, some, [], ◌∷◌, map, is_empty, All, arith,
}
use okf_mcp_rs.Prelude.Pieces.{strip_suffix-append}
use okf_mcp_rs.Ingest.Slug.{is_ascii_alphanumeric}
use okf_mcp_rs.Core.ConfigManager.{
  provider_suffix, uppercase, sanitized, restored, custom_provider_base_url_env_name, provider_name,
}

-- A lower-case letter, a digit or a hyphen.
abbrev pub IsNameChar : ℕ → Type 0
IsNameChar c = ((97 ≤ c) × (c ≤ 122)) ⊎ ((48 ≤ c) × (c ≤ 57)) ⊎ (c ≡ 45)

restored-sanitized : (c : ℕ) → IsNameChar c → restored (sanitized (uppercase c)) ≡ c
unfolding is_ascii_alphanumeric
restored-sanitized c h = ground arith

restored_text :
    (name : Text)
    → All IsNameChar name
    → map restored (map (λ c. sanitized (uppercase c)) name) ≡ name
restored_text [] h = refl
restored_text (c ∷ name) h =
    ap₂ (λ x xs. x ∷ xs) (restored-sanitized c h.0) (restored_text name h.1)

map_not_empty : (f : ℕ → ℕ) (t : Text) → is_empty t ≡ false → is_empty (map f t) ≡ false
map_not_empty f [] h = cc
map_not_empty f (c ∷ t) h = refl

-- A provider's name of lower-case letters, digits and hyphens, and not empty, is read again from the
-- name of the variable that `setup` writes for it.
pub provider_name-env_name :
    (name : Text)
    → is_empty name ≡ false
    → All IsNameChar name
    → provider_name (custom_provider_base_url_env_name name) ≡ some name
unfolding provider_name custom_provider_base_url_env_name
provider_name-env_name name e h =
    let middle = map (λ c. sanitized (uppercase c)) name in
    rw
      (
        strip_suffix-append middle provider_suffix,
        map_not_empty (λ c. sanitized (uppercase c)) name e,
        restored_text name h,
      )
      refl
