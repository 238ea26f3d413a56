-- ===== src/Compiler/Operations.antt =====
-- src/compiler/operations.rs: `apply_operations`. `serde_json` parses the payload, which is where
-- the model starts. A path is shown by `display` as it is, since its names are texts.
pub mod Atomic
pub mod Edits
pub mod Inside
mod Leak
pub mod Refines
mod Tests
use okf_mcp_rs.Prelude.{
  Text, ascii, Option, none, some, List, [], ◌∷◌, ◌++◌, ok, err, if◌then◌else◌,
}
use okf_mcp_rs.Core.VaultResolver.{PathBuf, sandbox_path}
use okf_mcp_rs.Storage.FileSystem.{Io, and_then, write, rename, remove_file, is_file}
use okf_mcp_rs.Storage.FsOps.{sandboxed, create_parent}

pub data CompileOperation : Type 0 where
  create_or_update : Text → Text → CompileOperation
  delete : Text → Text → CompileOperation

-- `format!("{}.tmp", full_path.display())`
abbrev pub tmp_path : PathBuf → PathBuf
tmp_path [] = ascii ".tmp" ∷ []
tmp_path (name ∷ parent) = (name ++ ascii ".tmp") ∷ parent

unfoldable pub create_file : PathBuf → Text → Io PathBuf
create_file full_path content w = and_then (create_parent full_path w) (λ _ w.
    and_then (write (tmp_path full_path) content w)
      (λ _ w. and_then (rename (tmp_path full_path) full_path w) (λ _ w. (ok full_path, w))))

unfoldable pub delete_file : PathBuf → Io PathBuf
delete_file full_path w =
    if is_file w.disk full_path
    then and_then (remove_file full_path w) (λ _ w. (ok full_path, w))
    else (ok full_path, w)

module _ (canonicalize : Text → Option PathBuf) (vault_root : Text) where
  -- One round of the loop: the path that it pushes.
  unfoldable pub apply_operation : CompileOperation → Io PathBuf
  apply_operation (create_or_update path content) =
      sandboxed (sandbox_path canonicalize vault_root path)
        (λ full_path. create_file full_path content)
  apply_operation (delete path reason) =
      sandboxed (sandbox_path canonicalize vault_root path) delete_file

  unfoldable pub apply_operations : List CompileOperation → Io (List PathBuf)
  apply_operations [] w = (ok [], w)
  apply_operations (op ∷ ops) w = and_then (apply_operation op w) (λ full_path w.
      and_then (apply_operations ops w) (λ touched w. (ok (full_path ∷ touched), w)))
