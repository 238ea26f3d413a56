-- ===== src/Storage/FileSystem.antt =====
-- The calls of `std::fs` that the code makes, on a disk that maps each absolute path to what stands
-- there. Any call that changes the disk may fail for a reason of its own: `faults` says what
-- happens to the calls to come. A write that fails may have written a part of its text. A directory
-- is made one level at a time. Only files are renamed. Symbolic links are not modelled.
pub mod Calls
use okf_mcp_rs.Prelude.{
  ℕ, Bool, true, false, Text, Option, none, some, List, [], ◌∷◌, take, if◌then◌else◌, Result, ok,
  err,
}
use okf_mcp_rs.Core.VaultResolver.{PathBuf, path_eq, SandboxError}

pub data Node : Type 0 where
  file : Text → Node
  dir : Node

abbrev pub Disk : Type 0
Disk = PathBuf → Option Node

pub data Fault : Type 0 where
  works : Fault
  fails : Fault
  writes_part : ℕ → Fault

pub record World : Type 0 where
  pub disk : Disk
  pub faults : List Fault

-- The errors that `?` passes on.
pub data Failure : Type 0 where
  sandbox : SandboxError → Failure
  refused : Failure
  interrupted : Failure

abbrev pub Io : Type 0 → Type 0
Io A = World → Result Failure A × World

abbrev pub and_then :
    {A B : Type 0} → Result Failure A × World → (A → Io B) → Result Failure B × World
and_then (ok a, w) k = k a w
and_then (err e, w) k = (err e, w)

abbrev pub next_fault : List Fault → Fault
next_fault [] = works
next_fault (f ∷ fs) = f

abbrev pub later : List Fault → List Fault
later [] = []
later (f ∷ fs) = fs

unfoldable pub put : PathBuf → Option Node → Disk → Disk
put p n disk q = if path_eq p q then n else disk q

abbrev pub is_dir_node : Option Node → Bool
is_dir_node none = false
is_dir_node (some (file content)) = false
is_dir_node (some dir) = true

abbrev pub is_file_node : Option Node → Bool
is_file_node none = false
is_file_node (some (file content)) = true
is_file_node (some dir) = false

-- `path.is_file()`
abbrev pub is_file : Disk → PathBuf → Bool
is_file disk p = is_file_node (disk p)

-- `path.parent()` is a directory.
abbrev pub has_parent : Disk → PathBuf → Bool
has_parent disk [] = false
has_parent disk (a ∷ p) = is_dir_node (disk p)

-- A change of the disk, unless it fails.
unfoldable pub change : (Disk → Disk) → Io Unit
change f w = elim (next_fault w.faults) [
  | works ↦ (ok tt, record { disk = f w.disk; faults = later w.faults })
  | fails ↦ (err interrupted, record { disk = w.disk; faults = later w.faults })
  | writes_part n ↦ (err interrupted, record { disk = w.disk; faults = later w.faults })
]

-- `create_dir_all`
unfoldable pub create_dir_all : PathBuf → Io Unit
create_dir_all [] w = if is_dir_node (w.disk []) then (ok tt, w) else (err refused, w)
create_dir_all (a ∷ p) w =
    let above = create_dir_all p w in
    elim (w.disk (a ∷ p)) [
      | some dir ↦ (ok tt, w)
      | some (file content) ↦ (err refused, w)
      | none ↦ and_then above (λ _. change (put (a ∷ p) (some dir)))
    ]

-- `write`
unfoldable pub write : PathBuf → Text → Io Unit
write p content w =
    if is_dir_node (w.disk p)
    then (err refused, w)
    else if has_parent w.disk p
    then elim (next_fault w.faults) [
      | works ↦
          (ok tt, record { disk = put p (some (file content)) w.disk; faults = later w.faults })
      | fails ↦ (err interrupted, record { disk = w.disk; faults = later w.faults })
      | writes_part n ↦ (
        err interrupted,
        record { disk = put p (some (file (take n content))) w.disk; faults = later w.faults },
      )
    ]
    else (err refused, w)

-- `rename`
unfoldable pub rename : PathBuf → PathBuf → Io Unit
rename from to w = elim (w.disk from) [
  | some (file content) ↦
      if is_dir_node (w.disk to)
      then (err refused, w)
      else change (λ disk. put to (some (file content)) (put from none disk)) w
  | some dir ↦ (err refused, w)
  | none ↦ (err refused, w)
]

-- `remove_file`
unfoldable pub remove_file : PathBuf → Io Unit
remove_file p w = if is_file w.disk p then change (put p none) w else (err refused, w)

-- `read_to_string`
unfoldable pub read_to_string : PathBuf → Io Text
read_to_string p w = elim (w.disk p) [
  | some (file content) ↦ (ok content, w)
  | some dir ↦ (err refused, w)
  | none ↦ (err refused, w)
]
