-- ===== src/Core/VaultLookup.antt =====
-- src/core/vault_resolver.rs: `resolve_vault_with`, which finds the vault of a call. `is_dir` asks the
-- disk whether a path is a directory. The current directory is an absolute path, the last component
-- first; what is returned is the text of a path.
pub mod Nearest
mod Tests
use okf_mcp_rs.Prelude.{
  Bool, true, false, Text, ascii, Option, none, some, List, [], ◌∷◌, ◌++◌, if◌then◌else◌, Result,
  ok,
}
use okf_mcp_rs.Core.VaultResolver.{PathBuf}
use okf_mcp_rs.Core.VaultRegistry.{VaultRegistry, RegistryError, resolve, default_path}

abbrev pub vault_marker_dir : Text
vault_marker_dir = ascii ".okf"

-- The text of an absolute path.
unfoldable pub below_root : PathBuf → Text
below_root [] = []
below_root (name ∷ parent) = below_root parent ++ 47 ∷ name

unfoldable pub to_text : PathBuf → Text
to_text [] = ascii "/"
to_text (name ∷ parent) = below_root (name ∷ parent)

module _ (is_dir : PathBuf → Bool) where
  -- The loop that pops components until a directory has the marker.
  unfoldable pub walk_up : PathBuf → Option PathBuf
  walk_up [] = if is_dir (vault_marker_dir ∷ []) then some [] else none
  walk_up (name ∷ parent) =
      let above = walk_up parent in
      if is_dir (vault_marker_dir ∷ name ∷ parent) then some (name ∷ parent) else above

  unfoldable pub resolve_vault_with :
      Option Text → PathBuf → VaultRegistry → Result RegistryError Text
  resolve_vault_with (some name_or_path) start_dir registry = ok (resolve registry name_or_path)
  resolve_vault_with none start_dir registry = elim (walk_up start_dir) [
    | none ↦ default_path registry
    | some dir ↦ ok (to_text dir)
  ]
