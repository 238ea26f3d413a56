-- ===== src/Core/VaultLookup/Tests.antt =====
-- A call from `/home/v/raw`, where `/home/v` is a vault, and one from `/tmp`.
use okf_mcp_rs.Prelude.{
  ℕ, zero, suc, ◌≤◌, ◌<◌, ◌≡◌, refl, Bool, true, false, ascii, text_eq, none, some, [], ◌∷◌, length,
  arith,
}
use okf_mcp_rs.Core.VaultResolver.{PathBuf, path_eq}
use okf_mcp_rs.Core.VaultRegistry.{VaultRegistry}
use okf_mcp_rs.Core.VaultLookup.{vault_marker_dir, to_text, below_root}
use okf_mcp_rs.Core.VaultLookup.Nearest.{is_marked}

abbrev vault : PathBuf
vault = ascii "v" ∷ ascii "home" ∷ []

abbrev is_dir : PathBuf → Bool
is_dir p = path_eq p (vault_marker_dir ∷ vault)

abbrev registry : VaultRegistry
registry = record {
  default = some (ascii "work");
  vaults = (ascii "work", record { path = ascii "/srv/work"; description = none }) ∷ [];
}

text_of_vault : to_text vault ≡ ascii "/home/v"
unfolding to_text below_root
text_of_vault = refl

vault-is_marked : is_marked is_dir (ascii "raw" ∷ vault) 1 ≡ true
unfolding path_eq text_eq
vault-is_marked = refl

raw_is_not : (j : ℕ) → j < 1 → is_marked is_dir (ascii "raw" ∷ vault) j ≡ false
unfolding path_eq text_eq
raw_is_not zero h = refl
raw_is_not (suc j) h = absurd (omega arith)

tmp_is_unmarked :
    (k : ℕ) → k ≤ length (ascii "tmp" ∷ []) → is_marked is_dir (ascii "tmp" ∷ []) k ≡ false
unfolding path_eq text_eq
tmp_is_unmarked zero h = refl
tmp_is_unmarked (suc zero) h = refl
tmp_is_unmarked (suc (suc k)) h = absurd (omega arith)
