-- ===== src/Ingest/Pipeline/Loss.antt =====
-- A write of a blob that stops half-way and the ingest after it, and a lookup that fails.
use okf_mcp_rs.Prelude.{
  some, ℕ, ◌≡◌, refl, ◌∙◌, ap, Text, List, ◌∷◌, take, Result, ok, err, text_eq_refl,
}
use okf_mcp_rs.Prelude.Assoc.{lookup, insert, lookup-insert}
use okf_mcp_rs.Core.VaultResolver.{PathBuf, sandbox_path}
use okf_mcp_rs.Storage.FileSystem.{Fault, works, fails, writes_part, later}
use okf_mcp_rs.Ingest.RawId.{raw_id_for}
use okf_mcp_rs.Ingest.Vault.{Vault, IngestError, interrupted, load, create_parent, write}
use okf_mcp_rs.Ingest.Blob.{resolve_raw_path, write_new, write_raw_blob, full_md}
use okf_mcp_rs.Ingest.Blob.Resolve.{ReadsWork}
use okf_mcp_rs.Ingest.Blob.Fresh.{IsAbsent, resolve_err-IsAbsent, resolve-insert}
use okf_mcp_rs.Ingest.Pipeline.{Calls}
use okf_mcp_rs.Ingest.Pipeline.Files.{resolve-keeps}
use okf_mcp_rs.Ingest.Pipeline.Keeps.{IsHash, blob_path, write_blob, blob_name_lem}

module _ (calls : Calls) (root : Text) (hash uri content now : Text) (tags : List Text) where
  abbrev pub new_path : Text
  new_path = blob_path calls root hash uri content

  -- The text of the blob.
  abbrev pub blob_text : Text
  blob_text =
      full_md calls.canonicalize root calls.to_yaml calls.parse_url (raw_id_for hash) uri tags hash
        now content

  abbrev pub find_blob : Vault → Result IngestError Text × Vault
  find_blob = resolve_raw_path calls.canonicalize root (raw_id_for hash)

  abbrev pub stopped : ℕ → List Fault → Vault → Vault
  stopped n later v = record v {
    files = insert new_path (take n blob_text) v.files;
    faults = later;
  }

  write_new-stopped :
      (v : Vault) (full_path : PathBuf) (n : ℕ) (later : List Fault)
      → sandbox_path calls.canonicalize root new_path ≡ ok full_path
      → v.faults ≡ works ∷ writes_part n ∷ later
      → write_new calls.canonicalize root calls.to_yaml calls.parse_url
          (raw_id_for hash)
          uri
          tags
          hash
          now
          content
          v
        ≡ (err interrupted, stopped n later v)
  unfolding write_new create_parent write
  write_new-stopped v full_path n later s f = rw (write_new, s, f) refl

  -- The first call: the lookup fails, and the write stops.
  write_blob-stopped :
      (v : Vault) (full_path : PathBuf) (x : IngestError) (n : ℕ) (later : List Fault)
      → (find_blob v).0 ≡ err x
      → sandbox_path calls.canonicalize root new_path ≡ ok full_path
      → (find_blob v).1.faults ≡ works ∷ writes_part n ∷ later
      → write_blob calls root hash uri content tags now v
        ≡ (err interrupted, stopped n later (find_blob v).1)
  unfolding write_raw_blob
  write_blob-stopped v full_path x n later r s f =
      rw (write_raw_blob, r) (write_new-stopped (find_blob v).1 full_path n later s f)

  write_blob_found :
      (v : Vault) (existing : Text)
      → (find_blob v).0 ≡ ok existing
      → write_blob calls root hash uri content tags now v ≡ (ok existing, (find_blob v).1)
  unfolding write_raw_blob
  write_blob_found v existing r = rw (write_raw_blob, r) refl

  torn :
      (v : Vault) (n : ℕ)
      → lookup new_path (insert new_path (take n blob_text) v.files) ≡ some (take n blob_text)
  torn v n =
      lookup-insert new_path new_path (take n blob_text) v.files ∙ rw (text_eq_refl new_path) refl

  same_files : (v w : Vault) → w.files ≡ v.files → (find_blob w).1.files ≡ v.files
  same_files v w h =
      resolve-keeps calls.canonicalize root (raw_id_for hash) (λ u. u.files ≡ v.files) w
        (λ u faults p. p) h

  reused :
      (v : Vault) (x : IngestError) (n : ℕ) (later : List Fault)
      → IsHash hash
      → ReadsWork v
      → (find_blob v).0 ≡ err x
      → (find_blob (stopped n (works ∷ works ∷ later) (find_blob v).1)).0 ≡ ok new_path
  reused v x n later k w r =
      let u = (find_blob v).1 in
      let b = blob_name_lem calls root hash uri content k in
      let a = resolve_err-IsAbsent calls.canonicalize root v (raw_id_for hash) x w r in
      let absent =
        resolve-keeps calls.canonicalize root (raw_id_for hash)
          (IsAbsent calls.canonicalize root (raw_id_for hash)) v (λ u faults p. p) a in
      resolve-insert calls.canonicalize root (record u { faults = works ∷ works ∷ later }) _
        (take n blob_text) (raw_id_for hash) (refl, refl) b.0 b.1 absent

  -- When nothing is found for a new blob, although the lookup works, and its write stops after a part
  -- of its text, the call fails and leaves that part under the final name of the blob. The same call
  -- after that, when its own lookup works, succeeds with the path of that part and changes no file:
  -- the part is taken for the blob.
  pub partial_blob_is_reused :
      (v : Vault) (full_path : PathBuf) (x : IngestError) (n : ℕ) (later : List Fault)
      → IsHash hash
      → ReadsWork v
      → (find_blob v).0 ≡ err x
      → sandbox_path calls.canonicalize root new_path ≡ ok full_path
      → (find_blob v).1.faults ≡ works ∷ writes_part n ∷ works ∷ works ∷ later
      → (let first = write_blob calls root hash uri content tags now v in
          let second = write_blob calls root hash uri content tags now first.1 in
          (first.0 ≡ err interrupted)
          × (lookup new_path first.1.files ≡ some (take n blob_text))
          × (second.0 ≡ ok new_path)
          × (second.1.files ≡ first.1.files))
  partial_blob_is_reused v full_path x n later k w r s f =
      let e = write_blob-stopped v full_path x n (works ∷ works ∷ later) r s f in
      let u = stopped n (works ∷ works ∷ later) (find_blob v).1 in
      let g = write_blob_found u new_path (reused v x n later k w r) in
      rw e
        (refl, torn (find_blob v).1 n, ap (λ p. p.0) g, ap (λ p. p.1.files) g ∙ same_files u u refl)

  -- When the manifest cannot be loaded to look for the blob, the blob is written as if there were
  -- none, whatever stands at its path: a write that stops then leaves a part of the new text there.
  pub failed_lookup_overwrites :
      (v : Vault) (full_path : PathBuf) (n : ℕ) (later : List Fault)
      → sandbox_path calls.canonicalize root new_path ≡ ok full_path
      → v.faults ≡ fails ∷ works ∷ writes_part n ∷ later
      → (let result = write_blob calls root hash uri content tags now v in
          (result.0 ≡ err interrupted) × (lookup new_path result.1.files ≡ some (take n blob_text)))
  unfolding resolve_raw_path load
  failed_lookup_overwrites v full_path n later s f =
      let failed : find_blob v
          ≡ (err interrupted, record v { faults = works ∷ writes_part n ∷ later }) =
        rw (resolve_raw_path, load, f) refl in
      let e =
        write_blob-stopped v full_path interrupted n later (ap (λ r. r.0) failed) s
          (ap (λ r. r.1.faults) failed) in
      rw e (refl, torn (find_blob v).1 n)
