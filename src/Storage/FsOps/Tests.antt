-- ===== src/Storage/FsOps/Tests.antt =====
-- A vault at `/v` with an empty disk.
use okf_mcp_rs.Prelude.{
  ◌≡◌, refl, true, Text, ascii, text_eq, Option, none, some, [], ◌∷◌, if◌then◌else◌, ok,
}
use okf_mcp_rs.Core.VaultResolver.{
  PathBuf, sandbox_path, components, split, split_onto, piece, pieces, leading, resolve_component,
  resolve_components, starts_with, path_eq,
}
use okf_mcp_rs.Storage.FileSystem.{dir, Disk, World, create_dir_all, change, put, is_file}
use okf_mcp_rs.Storage.FileSystem
use okf_mcp_rs.Storage.FsOps.{read_to_string, write, remove_file, exists}
use okf_mcp_rs.Storage.FsOps.RoundTrip.{read_to_string-write}

abbrev root : PathBuf
root = ascii "v" ∷ []

abbrev canonicalize : Text → Option PathBuf
canonicalize path = some root

abbrev disk : Disk
disk [] = some dir
disk (a ∷ []) = if text_eq a (ascii "v") then some dir else none
disk (a ∷ b ∷ p) = none

abbrev world : World
world = record { disk = disk; faults = [] }

abbrev written : World
written = (write canonicalize (ascii "v") (ascii "raw/a.md") (ascii "hi") world).1

written_ok :
    (write canonicalize (ascii "v") (ascii "raw/a.md") (ascii "hi") world).0
    ≡ ok (ascii "a.md" ∷ ascii "raw" ∷ root)
unfolding write FileSystem.write sandbox_path components split split_onto piece pieces leading
    text_eq resolve_component resolve_components starts_with path_eq create_dir_all change put
written_ok = refl

read_to_string-write_example :
    ((read_to_string canonicalize (ascii "v") (ascii "raw/a.md") written).0 ≡ ok (ascii "hi"))
    × (exists canonicalize (ascii "v") (ascii "raw/a.md") written ≡ true)
read_to_string-write_example =
    read_to_string-write canonicalize (ascii "v") (ascii "raw/a.md") (ascii "hi") world
      (ascii "a.md" ∷ ascii "raw" ∷ root) written_ok

a_md_sandboxed :
    sandbox_path canonicalize (ascii "v") (ascii "raw/a.md")
    ≡ ok (ascii "a.md" ∷ ascii "raw" ∷ root)
unfolding sandbox_path components split split_onto piece pieces leading text_eq resolve_component
    resolve_components starts_with path_eq
a_md_sandboxed = refl

removed_ok : (remove_file canonicalize (ascii "v") (ascii "raw/a.md") written).0 ≡ ok tt
unfolding write FileSystem.write sandbox_path components split split_onto piece pieces leading
    text_eq resolve_component resolve_components starts_with path_eq create_dir_all change put
    remove_file FileSystem.remove_file
removed_ok = refl
