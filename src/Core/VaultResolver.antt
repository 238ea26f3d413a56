-- ===== src/Core/VaultResolver.antt =====
-- src/core/vault_resolver.rs: `sandbox_path`, on Unix paths. A relative path is its text, which
-- `components` splits as `std::path` does. An absolute path is the list of its components, the last
-- first, so that `push` and `pop` work at the head. `canonicalize` asks the file system for the
-- absolute path of the vault's root without symbolic links: it is a parameter.
mod Names
pub mod Sandbox
mod Tests
use okf_mcp_rs.Prelude.{
  ℕ, Bool, true, false, Text, ascii, text_eq, Option, none, some, List, [], ◌∷◌, ◌++◌, ◌==◌, ◌&&◌,
  if◌then◌else◌, Result, ok, err, ◌>>=◌, is_empty,
}

abbrev pub PathBuf : Type 0
PathBuf = List Text

pub data Component : Type 0 where
  normal : Text → Component
  cur_dir : Component
  parent_dir : Component
  root_dir : Component
  prefix : Text → Component

unfoldable pub split_onto : ℕ → List Text → List Text
split_onto c [] = (c ∷ []) ∷ []
split_onto c (s ∷ ss) = (c ∷ s) ∷ ss

-- The pieces of a text between its slashes.
unfoldable pub split : Text → List Text
split [] = [] ∷ []
split (c ∷ cs) = let rest = split cs in if c == 47 then [] ∷ rest else split_onto c rest

-- Empty pieces and dots are dropped.
unfoldable pub piece : Text → List Component
piece s =
    if is_empty s
    then []
    else if text_eq s (ascii ".")
    then []
    else if text_eq s (ascii "..")
    then parent_dir ∷ []
    else normal s ∷ []

unfoldable pub pieces : List Text → List Component
pieces [] = []
pieces (s ∷ ss) = piece s ++ pieces ss

-- A slash at the start is the root, and a dot at the start is kept.
unfoldable pub leading : List Text → List Component
leading [] = []
leading (s ∷ []) = if text_eq s (ascii ".") then cur_dir ∷ [] else []
leading (s ∷ s' ∷ ss) =
    if is_empty s then root_dir ∷ [] else if text_eq s (ascii ".") then cur_dir ∷ [] else []

-- `Path::new(relative).components()`
unfoldable pub components : Text → List Component
components relative = leading (split relative) ++ pieces (split relative)

unfoldable pub path_eq : PathBuf → PathBuf → Bool
path_eq [] [] = true
path_eq [] (b ∷ q) = false
path_eq (a ∷ p) [] = false
path_eq (a ∷ p) (b ∷ q) = text_eq a b && path_eq p q

-- `path.starts_with(root)`
unfoldable pub starts_with : PathBuf → PathBuf → Bool
starts_with [] root = path_eq [] root
starts_with (a ∷ p) root = if path_eq (a ∷ p) root then true else starts_with p root

-- `pop` with its result: `none` for a path that has no parent.
abbrev pub pop : PathBuf → Option PathBuf
pop [] = none
pop (a ∷ p) = some p

pub data SandboxError : Type 0 where
  not_accessible : SandboxError
  escapes : SandboxError
  absolute : SandboxError

abbrev pub check_inside : PathBuf → PathBuf → Result SandboxError PathBuf
check_inside root resolved = if starts_with resolved root then ok resolved else err escapes

-- One round of the loop over the components.
unfoldable pub resolve_component : PathBuf → PathBuf → Component → Result SandboxError PathBuf
resolve_component root resolved (normal part) = ok (part ∷ resolved)
resolve_component root resolved cur_dir = ok resolved
resolve_component root resolved parent_dir = elim (pop resolved) [
  | none ↦ err escapes
  | some popped ↦ check_inside root popped
]
resolve_component root resolved root_dir = err absolute
resolve_component root resolved (prefix p) = err absolute

unfoldable pub resolve_components : PathBuf → PathBuf → List Component → Result SandboxError PathBuf
resolve_components root resolved [] = ok resolved
resolve_components root resolved (c ∷ cs) =
    resolve_component root resolved c >>= λ next. resolve_components root next cs

unfoldable pub sandbox_path : (Text → Option PathBuf) → Text → Text → Result SandboxError PathBuf
sandbox_path canonicalize vault_root relative = elim (canonicalize vault_root) [
  | none ↦ err not_accessible
  | some canonical_root ↦
      resolve_components canonical_root canonical_root (components relative) >>= λ resolved.
      check_inside canonical_root resolved
]
