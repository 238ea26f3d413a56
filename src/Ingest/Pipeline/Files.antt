-- ===== src/Ingest/Pipeline/Files.antt =====
-- What the calls on a vault leave of its files.
use okf_mcp_rs.Prelude.{
  ◌≡◌, sym, ◌∙◌, subst, inl, inr, Text, false, Option, none, some, List, text_eq, text_eq_iff, take,
  Result, ok, err, Bool-cases, Option-cases, none_ne_some, is_empty,
}
use okf_mcp_rs.Prelude.Assoc.{lookup, insert, lookup-insert}
use okf_mcp_rs.Storage.FileSystem.{Fault, works, fails, writes_part, next_fault, later}
use okf_mcp_rs.Manifest.{Manifest}
use okf_mcp_rs.Ingest.Vault.{
  load, load_as, read_raw_dir, read_raw_dir_as, raw_names, Vault, IngestError, Action, and_then,
  attempt, save, write, write_as, create_parent,
}
use okf_mcp_rs.Ingest.Blob.{recorded, scan_raw, find_raw, resolve_raw_path}
use okf_mcp_rs.Core.VaultResolver.{PathBuf}
use okf_mcp_rs.Manifest.{raw_path_for}

-- A file is there with its content.
abbrev pub Holds : Text → Text → Vault → Type 0
Holds path content v = lookup path v.files ≡ some content

-- What holds after the first of two calls, and gives the aim, gives it after both.
pub and_then-keeps :
    {A B : Type 0} (P Q : Vault → Type 0) (r : Result IngestError A × Vault) (k : A → Action B)
    → P r.1
    → ((v : Vault) → P v → Q v)
    → ((a : A) (v : Vault) → P v → Q (k a v).1)
    → Q (and_then r k).1
and_then-keeps P Q (ok a, v) k h stop next = next a v h
and_then-keeps P Q (err e, v) k h stop next = stop v h

attempt-keeps :
    (P : Vault → Type 0) (fault : Fault) (f : Vault → Vault) (v : Vault)
    → P v
    → P (f v)
    → P (attempt fault f v).1
attempt-keeps P works f v h g = g
attempt-keeps P fails f v h g = h
attempt-keeps P (writes_part n) f v h g = h

pub save-Holds :
    (path content : Text) (m : Manifest) (v : Vault)
    → Holds path content v
    → Holds path content (save m v).1
unfolding save
save-Holds path content m v h =
    attempt-keeps (Holds path content) (next_fault v.faults) (λ v. record v { manifest = m })
      (record v { faults = later v.faults }) h h

pub create_parent-keeps :
    (P : Vault → Type 0) (v : Vault)
    → ((v : Vault) (faults : List Fault) → P v → P (record v { faults = faults }))
    → P v
    → P (create_parent v).1
unfolding create_parent
create_parent-keeps P v more h =
    let h' = more v (later v.faults) h in
    attempt-keeps P (next_fault v.faults) (λ v. v) (record v { faults = later v.faults }) h' h'

pub insert-Holds :
    (path content new text : Text) (v : Vault)
    → text_eq new path ≡ false
    → Holds path content v
    → lookup path (insert new text v.files) ≡ some content
insert-Holds path content new text v d h = lookup-insert new path text v.files ∙ rw d h

write_as-Holds :
    (fault : Fault) (path content new text : Text) (v : Vault)
    → text_eq new path ≡ false
    → Holds path content v
    → Holds path content (write_as fault new text v).1
write_as-Holds works path content new text v d h = insert-Holds path content new text v d h
write_as-Holds fails path content new text v d h = h
write_as-Holds (writes_part k) path content new text v d h =
    insert-Holds path content new (take k text) v d h

-- A write to another path keeps a file, however it ends.
pub write-Holds :
    (path content new text : Text) (v : Vault)
    → text_eq new path ≡ false
    → Holds path content v
    → Holds path content (write new text v).1
unfolding write
write-Holds path content new text v d h =
    write_as-Holds (next_fault v.faults) path content new text
      (record v { faults = later v.faults }) d h

-- A path where a file stands is another than one where none stands.
pub other_path :
    (path content new : Text) (v : Vault)
    → Holds path content v
    → lookup new v.files ≡ none
    → text_eq new path ≡ false
other_path path content new v h n = elim (Bool-cases (text_eq new path)) [
  | inr d ↦ d
  | inl e ↦ absurd (
      none_ne_some
        (sym n ∙ subst (λ p. lookup p v.files ≡ some content) (sym ((text_eq_iff new path).0 e)) h))
]

-- A property of the files and the manifest alone.
abbrev pub OfFiles : (Vault → Type 0) → Type 0
OfFiles P = (v : Vault) (faults : List Fault) → P v → P (record v { faults = faults })

pub load_as-keeps : (P : Vault → Type 0) (fault : Fault) (v : Vault) → P v → P (load_as fault v).1
load_as-keeps P works v h = h
load_as-keeps P fails v h = h
load_as-keeps P (writes_part n) v h = h

pub load-keeps : (P : Vault → Type 0) (v : Vault) → OfFiles P → P v → P (load v).1
unfolding load
load-keeps P v more h = load_as-keeps P (next_fault v.faults) _ (more v (later v.faults) h)

read_raw_dir_as-keeps :
    (P : Vault → Type 0) (fault : Fault) (v : Vault) → P v → P (read_raw_dir_as fault v).1
read_raw_dir_as-keeps P works v h = h
read_raw_dir_as-keeps P fails v h = h
read_raw_dir_as-keeps P (writes_part n) v h = h

scan_raw-keeps :
    (P : Vault → Type 0) (raw_id : Text) (v : Vault) → OfFiles P → P v → P (scan_raw raw_id v).1
unfolding scan_raw read_raw_dir
scan_raw-keeps P raw_id v more h = elim (Bool-cases (is_empty (raw_names v.files))) [
  | inl t ↦ rw (scan_raw, t) h
  | inr f ↦
      rw (scan_raw, f)
        (and_then-keeps P P (read_raw_dir v) _
          (read_raw_dir_as-keeps P (next_fault v.faults) _ (more v (later v.faults) h)) (λ v p. p)
          (λ a v p. p))
]

find_raw-keeps :
    (canonicalize : Text → Option PathBuf) (root raw_id : Text) (m : Manifest) (P : Vault → Type 0)
    (v : Vault)
    → OfFiles P
    → P v
    → P (find_raw canonicalize root raw_id m v).1
unfolding find_raw
find_raw-keeps canonicalize root raw_id m P v more h =
    elim (Option-cases (recorded canonicalize root v.files (raw_path_for m raw_id))) [
      | inr (path, o) ↦ rw (find_raw, o) h
      | inl n ↦ rw (find_raw, n) (scan_raw-keeps P raw_id v more h)
    ]

-- A lookup changes neither files nor manifest.
pub resolve-keeps :
    (canonicalize : Text → Option PathBuf) (root raw_id : Text) (P : Vault → Type 0) (v : Vault)
    → OfFiles P
    → P v
    → P (resolve_raw_path canonicalize root raw_id v).1
unfolding resolve_raw_path
resolve-keeps canonicalize root raw_id P v more h =
    and_then-keeps P P (load v) _ (load-keeps P v more h) (λ v p. p)
      (λ m v p. find_raw-keeps canonicalize root raw_id m P v more p)
