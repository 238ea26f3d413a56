-- ===== src/Core/VaultResolver/Tests.antt =====
-- Paths in the vault `/home/v`, which the file system reaches by the name `v`.
use okf_mcp_rs.Prelude.{
  ◌≡◌, refl, false, Text, ascii, text_eq, Option, none, some, [], ◌∷◌, if◌then◌else◌, ◌↔◌, ok, err,
}
use okf_mcp_rs.Core.VaultResolver.{
  PathBuf, components, normal, cur_dir, parent_dir, root_dir, escapes, absolute, sandbox_path,
  split, split_onto, piece, pieces, leading, path_eq, starts_with, resolve_component,
  resolve_components,
}
use okf_mcp_rs.Core.VaultResolver.Sandbox.{
  has_root, StaysBelow, IsInside, sandbox_path-IsInside, sandbox_path_accepts_iff,
}

abbrev root : PathBuf
root = ascii "v" ∷ ascii "home" ∷ []

abbrev canonicalize : Text → Option PathBuf
canonicalize path = if text_eq path (ascii "v") then some root else none

canonicalize_v : canonicalize (ascii "v") ≡ some root
unfolding text_eq
canonicalize_v = refl

components_of_path :
    components (ascii "./a//../.b/./c/")
    ≡ cur_dir ∷ normal (ascii "a") ∷ parent_dir ∷ normal (ascii ".b") ∷ normal (ascii "c") ∷ []
unfolding components split split_onto piece pieces leading text_eq
components_of_path = refl

components_of_absolute :
    components (ascii "/../etc") ≡ root_dir ∷ parent_dir ∷ normal (ascii "etc") ∷ []
unfolding components split split_onto piece pieces leading text_eq
components_of_absolute = refl

accepts_dots :
    sandbox_path canonicalize (ascii "v") (ascii "wiki/../raw/a.md")
    ≡ ok (ascii "a.md" ∷ ascii "raw" ∷ root)
unfolding sandbox_path components split split_onto piece pieces leading text_eq resolve_component
    resolve_components path_eq starts_with
accepts_dots = refl

-- Climbing out of the vault and back into it is refused.
refuses_detour : sandbox_path canonicalize (ascii "v") (ascii "raw/../../v/raw") ≡ err escapes
unfolding sandbox_path components split split_onto piece pieces leading text_eq resolve_component
    resolve_components path_eq starts_with
refuses_detour = refl

refuses_absolute : sandbox_path canonicalize (ascii "v") (ascii "/etc/passwd") ≡ err absolute
unfolding sandbox_path components split split_onto piece pieces leading text_eq resolve_component
    resolve_components path_eq starts_with
refuses_absolute = refl

sandbox_path-IsInside_example : IsInside root (ascii "a.md" ∷ ascii "raw" ∷ root)
sandbox_path-IsInside_example =
    sandbox_path-IsInside canonicalize (ascii "v") (ascii "wiki/../raw/a.md") root
      (ascii "a.md" ∷ ascii "raw" ∷ root) canonicalize_v accepts_dots

sandbox_path_accepts_iff_example :
    ((p : PathBuf) × (sandbox_path canonicalize (ascii "v") (ascii "a/../../b") ≡ ok p)) ↔ (
      (has_root (components (ascii "a/../../b")) ≡ false)
      × StaysBelow 0 (components (ascii "a/../../b")))
sandbox_path_accepts_iff_example =
    sandbox_path_accepts_iff canonicalize (ascii "v") (ascii "a/../../b") root canonicalize_v
