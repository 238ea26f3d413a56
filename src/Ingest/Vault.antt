-- ===== src/Ingest/Vault.antt =====
-- The vault as src/ingest works on it: the saved manifest, and the files by their paths from the
-- vault's root. `save` replaces the manifest at once or fails. Any call may fail: `faults` says what
-- happens to the calls to come, and a write that fails may have written a part of its text. Reading
-- `raw/` lists its files and directories in the order of the map, which has no directory without files.
use okf_mcp_rs.Prelude.{
  split_once, [], ◌∷◌, Text, ascii, Option, none, some, List, take, Result, ok, err, strip_prefix,
  filter_map,
}
use okf_mcp_rs.Prelude.Assoc.{Assoc, insert, remove}
use okf_mcp_rs.Core.VaultResolver.{SandboxError}
use okf_mcp_rs.Manifest.{Manifest, TombstoneError}
use okf_mcp_rs.Storage.FileSystem.{Fault, works, fails, writes_part, next_fault, later}

pub record Vault : Type 0 where
  pub manifest : Manifest
  pub files : Assoc Text
  pub faults : List Fault

-- The errors that `?` passes on.
pub data IngestError : Type 0 where
  unreadable : IngestError
  sandbox : SandboxError → IngestError
  interrupted : IngestError
  not_ingested : IngestError
  no_raw_file : IngestError
  not_active : TombstoneError → IngestError

abbrev pub Action : Type 0 → Type 0
Action A = Vault → Result IngestError A × Vault

abbrev pub and_then :
    {A B : Type 0} → Result IngestError A × Vault → (A → Action B) → Result IngestError B × Vault
and_then (ok a, v) k = k a v
and_then (err e, v) k = (err e, v)

-- A call that changes the vault, unless it fails.
abbrev pub attempt : Fault → (Vault → Vault) → Action Unit
attempt works f v = (ok tt, f v)
attempt fails f v = (err interrupted, v)
attempt (writes_part n) f v = (err interrupted, v)

abbrev pub call : (Vault → Vault) → Action Unit
call f v = attempt (next_fault v.faults) f (record v { faults = later v.faults })

unfoldable pub save : Manifest → Action Unit
save m = call (λ v. record v { manifest = m })

abbrev pub write_as : Fault → Text → Text → Action Unit
write_as works path content v = (ok tt, record v { files = insert path content v.files })
write_as fails path content v = (err interrupted, v)
write_as (writes_part n) path content v =
    (err interrupted, record v { files = insert path (take n content) v.files })

-- `std::fs::write`
unfoldable pub write : Text → Text → Action Unit
write path content v =
    write_as (next_fault v.faults) path content (record v { faults = later v.faults })

-- `std::fs::create_dir_all` of the directory `raw`, which the map of the files does not show.
unfoldable pub create_parent : Action Unit
create_parent = call (λ v. v)

-- `std::fs::remove_file`
unfoldable pub remove_file : Text → Action Unit
remove_file path = call (λ v. record v { files = remove path v.files })

-- The text up to its first slash.
unfoldable pub first_component : Text → Text
first_component path = elim (split_once (47 ∷ []) path) [ none ↦ path | some (name, rest) ↦ name ]

abbrev pub raw_name : Option Text → Option Text
raw_name none = none
raw_name (some path) = some (first_component path)

abbrev pub in_raw : Text × Text → Option Text
in_raw file = raw_name (strip_prefix (ascii "raw/") file.0)

-- The names of what is in `raw`: a file below a directory of `raw` stands for the directory.
unfoldable pub raw_names : Assoc Text → List Text
raw_names files = filter_map in_raw files

abbrev pub load_as : Fault → Action Manifest
load_as works v = (ok v.manifest, v)
load_as fails v = (err interrupted, v)
load_as (writes_part n) v = (err interrupted, v)

-- `manifest::store::load`
unfoldable pub load : Action Manifest
load v = load_as (next_fault v.faults) (record v { faults = later v.faults })

abbrev pub read_raw_dir_as : Fault → Action (List Text)
read_raw_dir_as works v = (ok (raw_names v.files), v)
read_raw_dir_as fails v = (err interrupted, v)
read_raw_dir_as (writes_part n) v = (ok (take n (raw_names v.files)), v)

-- `std::fs::read_dir` of `raw`, with `filter_map(Result::ok)`: where it stops after a part of the
-- entries, the others are errors, which are passed over.
unfoldable pub read_raw_dir : Action (List Text)
read_raw_dir v = read_raw_dir_as (next_fault v.faults) (record v { faults = later v.faults })
