-- ===== src/Compiler/Operations/Tests.antt =====
-- Operations on a vault at `/v` that has the file `a.md`.
use okf_mcp_rs.Prelude.{
  ◌⊎◌, Exists, subst, ap, ◌∙◌, length, length-append, arith, ◌≡◌, ◌≢◌, refl, sym, Bool, true, false,
  Text, ascii, text_eq, Option, none, some, List, [], ◌∷◌, if◌then◌else◌, ok, err, All, map,
  eq_of_ok,
}
use okf_mcp_rs.Core.VaultResolver.{
  PathBuf, sandbox_path, components, split, split_onto, piece, pieces, leading, resolve_component,
  resolve_components, starts_with, path_eq,
}
use okf_mcp_rs.Core.VaultResolver.Sandbox.{path_eq_iff}
use okf_mcp_rs.Storage.FileSystem.{
  is_dir_node, is_file_node, dir, file, Disk, World, create_dir_all, change, put, write, rename,
  remove_file, writes_part, works, Fault, refused,
}
use okf_mcp_rs.Storage.FileSystem.Calls.{IsAbove}
use okf_mcp_rs.Compiler.Operations.{
  CompileOperation, create_or_update, delete, tmp_path, create_file, delete_file, apply_operation,
  apply_operations,
}
use okf_mcp_rs.Compiler.Operations.Atomic.{IsKept, Writes, apply_operations_atomic}
use okf_mcp_rs.Compiler.Operations.Inside.{IsRooted, StaysIn, apply_operations_inside}
use okf_mcp_rs.Compiler.Operations.Leak.{root_write_leaks}
use okf_mcp_rs.Compiler.Operations.Refines.{text_of, target, effects, apply_operations-refines}

abbrev root : PathBuf
root = ascii "v" ∷ []

abbrev a_md : PathBuf
a_md = ascii "a.md" ∷ root

abbrev canonicalize : Text → Option PathBuf
canonicalize path = some root

abbrev disk : Disk
disk [] = some dir
disk (name ∷ []) = if text_eq name (ascii "v") then some dir else none
disk (name ∷ parent ∷ p) =
    if path_eq (name ∷ parent ∷ p) a_md then some (file (ascii "old")) else none

abbrev world : List Fault → World
world faults = record { disk = disk; faults = faults }

abbrev ops : List CompileOperation
ops = create_or_update (ascii "w/b.md") (ascii "new") ∷ delete (ascii "a.md") (ascii "merged") ∷ []

applied :
    (apply_operations canonicalize (ascii "v") ops (world [])).0
    ≡ ok ((ascii "b.md" ∷ ascii "w" ∷ root) ∷ a_md ∷ [])
unfolding apply_operations apply_operation create_file delete_file sandbox_path components split
    split_onto piece pieces leading text_eq resolve_component resolve_components starts_with path_eq
    create_dir_all change put write rename remove_file
applied = refl

-- The write of the temporary file is interrupted after a character.
torn :
    (apply_operations canonicalize (ascii "v") ops (world (works ∷ writes_part 1 ∷ []))).1.disk
      (ascii "b.md.tmp" ∷ ascii "w" ∷ root)
    ≡ some (file (ascii "n"))
unfolding apply_operations apply_operation create_file delete_file sandbox_path components split
    split_onto piece pieces leading text_eq resolve_component resolve_components starts_with path_eq
    create_dir_all change put write rename remove_file
torn = refl

abbrev b_md : PathBuf
b_md = ascii "b.md" ∷ ascii "w" ∷ root

sandboxed_b : sandbox_path canonicalize (ascii "v") (ascii "w/b.md") ≡ ok b_md
unfolding sandbox_path components split split_onto piece pieces leading text_eq resolve_component
    resolve_components starts_with path_eq
sandboxed_b = refl

sandboxed_a : sandbox_path canonicalize (ascii "v") (ascii "a.md") ≡ ok a_md
unfolding sandbox_path components split split_onto piece pieces leading text_eq resolve_component
    resolve_components starts_with path_eq
sandboxed_a = refl

distinct : (p q : PathBuf) → path_eq p q ≡ false → p ≢ q
distinct p q h e = true-false ((path_eq_iff p q).1 e) h
  where
    true-false : {b : Bool} → b ≡ true → b ≡ false → ⊥
    true-false t f = cc

kept :
    (path : Text) (q p : PathBuf)
    → sandbox_path canonicalize (ascii "v") path ≡ ok q
    → path_eq (tmp_path q) p ≡ false
    → (full_path : PathBuf) → sandbox_path canonicalize (ascii "v") path ≡ ok full_path
    → tmp_path full_path ≢ p
kept path q p e ne full_path f t =
    let same : q ≡ full_path = eq_of_ok (sym e ∙ f) in
    distinct (tmp_path q) p ne (ap tmp_path same ∙ t)

a_IsKept : All (IsKept canonicalize (ascii "v") a_md) ops
unfolding path_eq text_eq
a_IsKept = (
  kept (ascii "w/b.md") b_md a_md sandboxed_b refl,
  (kept (ascii "a.md") a_md a_md sandboxed_a refl, tt),
)

above_root : (q : PathBuf) → IsAbove q root → disk q ≡ some dir
unfolding text_eq
above_root q ([], e) = subst (λ p. disk p ≡ some dir) e refl
above_root [] (x ∷ [], e) = refl
above_root (a ∷ q) (x ∷ [], e) = absurd (omega (arith, ap length e))
above_root [] (x ∷ y ∷ below, e) = refl
above_root (a ∷ q) (x ∷ y ∷ below, e) =
    absurd (omega (arith, ap length e, length-append below (a ∷ q)))

a_md_whole :
    (apply_operations canonicalize (ascii "v") ops (world (works ∷ writes_part 1 ∷ []))).1.disk a_md
    ≡ some (file (ascii "old"))
unfolding apply_operations apply_operation create_file delete_file sandbox_path components split
    split_onto piece pieces leading text_eq resolve_component resolve_components starts_with path_eq
    create_dir_all change put write rename remove_file
a_md_whole = refl

apply_operations_atomic_example :
    (disk a_md ≡ some (file (ascii "old")))
    ⊎ Exists (Writes canonicalize (ascii "v") a_md (ascii "old")) ops
apply_operations_atomic_example =
    apply_operations_atomic canonicalize (ascii "v") a_md ops (world (works ∷ writes_part 1 ∷ []))
      (ascii "old") a_IsKept a_md_whole

a_md_is_file : is_file_node (disk a_md) ≡ true
unfolding path_eq text_eq
a_md_is_file = refl

apply_operations_inside_example :
    let d = (apply_operations canonicalize (ascii "v") ops (world [])).1.disk in
    StaysIn root disk d × IsRooted root d
apply_operations_inside_example =
    apply_operations_inside canonicalize (ascii "v") root refl ops (world []) above_root

apply_operations-refines_example :
    (map (target canonicalize (ascii "v")) ops ≡ map (λ q. ok q) (b_md ∷ a_md ∷ []))
    × (text_of ((apply_operations canonicalize (ascii "v") ops (world [])).1.disk a_md)
        ≡ effects canonicalize (ascii "v") a_md ops (text_of (disk a_md)))
apply_operations-refines_example =
    apply_operations-refines canonicalize (ascii "v") ops (world []) (b_md ∷ a_md ∷ []) a_md
      a_IsKept applied

root_is_dir : disk root ≡ some dir
unfolding text_eq
root_is_dir = refl

tmp_is_none : is_dir_node (disk (tmp_path root)) ≡ false
unfolding text_eq
tmp_is_none = refl

root_write_leaks_example :
    let r =
      apply_operation canonicalize
        (ascii "v")
        (create_or_update (ascii ".") (ascii "x"))
        (record { disk = disk; faults = [] }) in
    (r.0 ≡ err refused)
    × (r.1.disk (tmp_path root) ≡ some (file (ascii "x")))
    × (IsAbove root (tmp_path root) → ⊥)
root_write_leaks_example =
    root_write_leaks canonicalize (ascii "v") (ascii "v") [] (ascii "x") disk refl root_is_dir refl
      tmp_is_none
