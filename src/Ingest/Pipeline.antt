-- ===== src/Ingest/Pipeline.antt =====
-- src/ingest/pipeline.rs: `process_ingest` and `delete_source`. What reads the source is a parameter:
-- `fetch` for a URL and `parse_doc` for a local file give the content, and `canonicalize` and
-- `absolute` the path of a local file.
pub mod Files
pub mod Keeps
pub mod Loss
mod Tests
use okf_mcp_rs.Prelude.{
  Text, ascii, Bool, Option, none, some, List, [], ◌∷◌, ◌++◌, ◌==◌, map, if◌then◌else◌, Result, ok,
  err, ◌>>=◌, ok_or,
}
use okf_mcp_rs.Prelude.Pieces.{after_last}
use okf_mcp_rs.Core.VaultResolver.{PathBuf}
use okf_mcp_rs.Manifest.{
  Manifest, SourceVersion, SourceEntry, IngestOutcome, no_op, fresh, replaced, record_ingest,
  record_raw_path, tombstone, purge, TombstoneError,
}
use okf_mcp_rs.Ingest.RawId.{is_url, raw_id_for}
use okf_mcp_rs.Ingest.Vault.{
  Vault, IngestError, unreadable, not_ingested, not_active, Action, and_then, load, save,
  remove_file,
}
use okf_mcp_rs.Ingest.Blob.{RawFrontmatter, Url, resolve_raw_path, write_raw_blob}

pub record IngestReport : Type 0 where
  pub source_uri : Text
  pub outcome : IngestOutcome
  pub raw_path : Option Text

pub data DeleteOutcome : Type 0 where
  tombstoned : DeleteOutcome
  purged : List Text → DeleteOutcome

-- What the code calls outside of the repository.
pub record Calls : Type 0 where
  pub canonicalize : Text → Option PathBuf
  pub to_yaml : RawFrontmatter → Text
  pub parse_url : Text → Option Url
  pub fetch : Text → Option Text
  pub parse_doc : Text → Option Text
  pub canonical : Text → Option Text
  pub absolute : Text → Option Text
  pub hash_content : Text → Text

module _ (calls : Calls) (root : Text) where
  unfoldable pub normalize_local_uri : Text → Result IngestError Text
  normalize_local_uri path =
      ok_or unreadable (calls.canonical path) >>= λ canonical. ok (ascii "file://" ++ canonical)

  -- The URI of the source and its content.
  unfoldable pub read_source : Text → Result IngestError (Text × Text)
  read_source source =
      if is_url source
      then (ok_or unreadable (calls.fetch source) >>= (λ content. ok (source, content)))
      else (ok_or unreadable (calls.parse_doc source)
          >>= (λ content. normalize_local_uri source >>= (λ uri. ok (uri, content))))

  -- A blob for a new raw id: it is written, and its path recorded before the manifest is saved.
  unfoldable pub ingest_blob :
      Text → Text → Text → List Text → Text → Text → Manifest → IngestOutcome → Action IngestReport
  ingest_blob raw_id uri content tags hash now m outcome v =
      and_then
        (write_raw_blob calls.canonicalize root calls.to_yaml calls.parse_url raw_id uri tags hash
          now content v)
        (λ path v.
          and_then
            (save (record_raw_path m uri raw_id (ascii "raw/" ++ after_last (λ c. c == 47) path)) v)
            (λ _ v. (ok (record { source_uri = uri; outcome = outcome; raw_path = some path }), v)))

  abbrev pub ingest_outcome :
      Text → Text → List Text → Text → Text → Manifest → IngestOutcome → Action IngestReport
  ingest_outcome uri content tags hash now m no_op v =
      and_then (save m v)
        (λ _ v. (ok (record { source_uri = uri; outcome = no_op; raw_path = none }), v))
  ingest_outcome uri content tags hash now m (fresh raw_id) v =
      ingest_blob raw_id uri content tags hash now m (fresh raw_id) v
  ingest_outcome uri content tags hash now m (replaced raw_id previous) v =
      ingest_blob raw_id uri content tags hash now m (replaced raw_id previous) v

  unfoldable pub ingest_content : Text → Text → List Text → Text → Action IngestReport
  ingest_content uri content tags now v =
      let hash = calls.hash_content content in
      and_then (load v) (λ before v.
        let (m, outcome) = record_ingest before uri hash (raw_id_for hash) now in
        ingest_outcome uri content tags hash now m outcome v)

  unfoldable pub process_ingest : Text → List Text → Text → Action IngestReport
  process_ingest source tags now v = elim (read_source source) [
    | err e ↦ (err e, v)
    | ok (uri, content) ↦ ingest_content uri content tags now v
  ]

  -- Where the file is gone its path is made absolute from the current directory.
  unfoldable pub normalize_local_uri_best_effort : Text → Result IngestError Text
  normalize_local_uri_best_effort path = elim (calls.canonical path) [
    | some canonical ↦ ok (ascii "file://" ++ canonical)
    | none ↦ ok_or unreadable (calls.absolute path) >>= λ absolute. ok (ascii "file://" ++ absolute)
  ]

  -- One round of the loop of a purge: the errors of the lookup and of `remove_file` are dropped.
  unfoldable pub unlink : Text → Vault → Vault
  unlink raw_id v =
      let (found, v) = resolve_raw_path calls.canonicalize root raw_id v in
      elim found [ err _ ↦ v | ok path ↦ (remove_file path v).1 ]

  unfoldable pub unlink_all : List SourceVersion → Vault → Vault
  unlink_all [] v = v
  unlink_all (version ∷ history) v = unlink_all history (unlink version.raw_id v)

  unfoldable pub purge_source : Text → Manifest → Action DeleteOutcome
  purge_source uri before v =
      let (m, removed) = purge before uri in
      elim removed [
        | none ↦ (err not_ingested, v)
        | some entry ↦
            and_then (save m (unlink_all entry.history v))
              (λ _ v. (ok (purged (map (λ version. version.raw_id) entry.history)), v))
      ]

  unfoldable pub tombstone_source : Text → Text → Text → Manifest → Action DeleteOutcome
  tombstone_source uri reason now before v = elim (tombstone before uri reason now) [
    | err e ↦ (err (not_active e), v)
    | ok m ↦ and_then (save m v) (λ _ v. (ok tombstoned, v))
  ]

  abbrev delete_uri : Text → Result IngestError Text
  delete_uri source = if is_url source then ok source else normalize_local_uri_best_effort source

  unfoldable pub delete_source : Text → Bool → Text → Text → Action DeleteOutcome
  delete_source source is_purge reason now v = elim (delete_uri source) [
    | err e ↦ (err e, v)
    | ok uri ↦
        and_then (load v)
          (λ m v. if is_purge then purge_source uri m v else tombstone_source uri reason now m v)
  ]
