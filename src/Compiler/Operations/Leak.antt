-- ===== src/Compiler/Operations/Leak.antt =====
-- The temporary file of the root itself.
use okf_mcp_rs.Prelude.{
  ℕ, ◌≡◌, ◌≢◌, refl, ap, ◌∙◌, false, Text, ascii, text_eq, Option, some, [], ◌∷◌, ◌++◌, arith, ok,
  err, length, length-append,
}
use okf_mcp_rs.Core.VaultResolver.{
  PathBuf, sandbox_path, components, split, split_onto, piece, pieces, leading, resolve_component,
  resolve_components, cur_dir,
}
use okf_mcp_rs.Core.VaultResolver.Sandbox.{check_inside-below}
use okf_mcp_rs.Storage.FileSystem.{
  file, dir, Disk, World, refused, is_dir_node, create_dir_all, write, rename, put,
}
use okf_mcp_rs.Storage.FileSystem.Calls.{IsAbove, put_same, put_other}
use okf_mcp_rs.Compiler.Operations.{create_or_update, tmp_path, create_file, apply_operation}

create_dir_all_existing :
    (p : PathBuf) (w : World) → w.disk p ≡ some dir → create_dir_all p w ≡ (ok tt, w)
unfolding create_dir_all
create_dir_all_existing [] w h = rw h refl
create_dir_all_existing (a ∷ p) w h = rw (create_dir_all, h) refl

components_dot : components (ascii ".") ≡ cur_dir ∷ []
unfolding components split split_onto piece pieces leading text_eq
components_dot = refl

sandbox_dot :
    (canonicalize : Text → Option PathBuf) (vault_root : Text) (root : PathBuf)
    → canonicalize vault_root ≡ some root
    → sandbox_path canonicalize vault_root (ascii ".") ≡ ok root
unfolding sandbox_path resolve_components resolve_component
sandbox_dot canonicalize vault_root root c =
    rw (sandbox_path, c, components_dot) (check_inside-below root root ([], refl, tt))

not_inside :
    (name : Text) (parent : PathBuf) → IsAbove (name ∷ parent) (tmp_path (name ∷ parent)) → ⊥
not_inside name parent ([], e) =
    let h : length (name ++ ascii ".tmp") ≡ length name = ap head_length e in
    omega (arith, length-append name (ascii ".tmp"))
  where
    head_length : PathBuf → ℕ
    head_length [] = 0
    head_length (a ∷ p) = length a
not_inside name parent (x ∷ below, e) =
    omega (arith, ap length e, length-append below (name ∷ parent))

rename_onto_dir :
    (from to : PathBuf) (content : Text) (w : World)
    → w.disk from ≡ some (file content)
    → w.disk to ≡ some dir
    → rename from to w ≡ (err refused, w)
unfolding rename
rename_onto_dir from to content w f t = rw (rename, f, t) refl

-- On a disk where the vault's root, the directory above it and no temporary file of the root are
-- directories, and no call fails by itself, an operation that writes to `.` is refused, and has
-- left its text in the temporary file of the root, which is not in the vault.
pub root_write_leaks :
    (canonicalize : Text → Option PathBuf) (vault_root : Text) (name : Text) (parent : PathBuf)
    (content : Text) (disk : Disk)
    → canonicalize vault_root ≡ some (name ∷ parent)
    → disk (name ∷ parent) ≡ some dir
    → disk parent ≡ some dir
    → is_dir_node (disk (tmp_path (name ∷ parent))) ≡ false
    → (let root = name ∷ parent in
        let r =
          apply_operation canonicalize vault_root
            (create_or_update (ascii ".") content)
            (record { disk = disk; faults = [] }) in
        (r.0 ≡ err refused)
        × (r.1.disk (tmp_path root) ≡ some (file content))
        × (IsAbove root (tmp_path root) → ⊥))
unfolding apply_operation create_file write
root_write_leaks canonicalize vault_root name parent content disk c d u t =
    let root = name ∷ parent in
    let w : World = record { disk = disk; faults = [] } in
    let other : tmp_path root ≢ root = λ e. not_inside name parent ([], e) in
    let still = put_other (tmp_path root) root (some (file content)) disk other in
    let written : World = record {
      disk = put (tmp_path root) (some (file content)) disk;
      faults = [];
    } in
    let here = put_same (tmp_path root) (some (file content)) disk in
    rw
      (
        sandbox_dot canonicalize vault_root root c,
        create_dir_all_existing parent w u,
        t,
        u,
        rename_onto_dir (tmp_path root) root content written here (still ∙ d),
      )
      (refl, here, not_inside name parent)
