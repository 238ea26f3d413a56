-- ===== src/Storage/FsOps.antt =====
-- src/storage/fs_ops.rs: the calls of the file system behind the sandbox.
mod Tests
pub mod RoundTrip
use okf_mcp_rs.Prelude.{
  Bool, true, false, Text, Option, none, some, [], ◌∷◌, Result, ok, err, if◌then◌else◌,
}
use okf_mcp_rs.Core.VaultResolver.{PathBuf, SandboxError, sandbox_path}
use okf_mcp_rs.Storage.FileSystem.{World, Failure, sandbox, Io, and_then, create_dir_all, is_file}
use okf_mcp_rs.Storage.FileSystem

-- `sandbox_path(..)?`
abbrev pub sandboxed : {A : Type 0} → Result SandboxError PathBuf → (PathBuf → Io A) → Io A
sandboxed (ok p) k w = k p w
sandboxed (err e) k w = (err (sandbox e), w)

-- `if let Some(parent) = path.parent() { create_dir_all(parent)? }`
abbrev pub create_parent : PathBuf → Io Unit
create_parent [] w = (ok tt, w)
create_parent (a ∷ p) w = create_dir_all p w

module _ (canonicalize : Text → Option PathBuf) where
  unfoldable pub read_to_string : Text → Text → Io Text
  read_to_string vault_root relative =
      sandboxed (sandbox_path canonicalize vault_root relative) FileSystem.read_to_string

  unfoldable pub write : Text → Text → Text → Io PathBuf
  write vault_root relative contents =
      sandboxed (sandbox_path canonicalize vault_root relative) (λ path w.
        and_then (create_parent path w)
          (λ _ w. and_then (FileSystem.write path contents w) (λ _ w. (ok path, w))))

  unfoldable pub remove_file : Text → Text → Io Unit
  remove_file vault_root relative =
      sandboxed (sandbox_path canonicalize vault_root relative)
        (λ path w. if is_file w.disk path then FileSystem.remove_file path w else (ok tt, w))

  unfoldable pub exists : Text → Text → World → Bool
  exists vault_root relative w = elim (sandbox_path canonicalize vault_root relative) [
    | ok path ↦ elim (w.disk path) [ none ↦ false | some n ↦ true ]
    | err e ↦ false
  ]
