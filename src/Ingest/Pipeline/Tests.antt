-- ===== src/Ingest/Pipeline/Tests.antt =====
-- Ingests into a small vault.
use okf_mcp_rs.Prelude.{
  err, inl, ap, ◌≡◌, refl, arith, ascii, text_eq, Text, some, none, [], ◌∷◌, ok, split_once, take,
}
use okf_mcp_rs.Prelude.Assoc.{lookup, insert, remove}
use okf_mcp_rs.Prelude.Pieces.{trim_start, trim_end, last_piece, strip_suffix, lines}
use okf_mcp_rs.Core.VaultResolver.{
  PathBuf, sandbox_path, resolve_components, resolve_component, components, leading, pieces, piece,
  split, split_onto, starts_with, path_eq,
}
use okf_mcp_rs.Storage.FileSystem.{works, fails, writes_part}
use okf_mcp_rs.Manifest.{empty, record_ingest, entry_ingest, opt_text_eq, raw_path_for, purge}
use okf_mcp_rs.Ingest.Slug
use okf_mcp_rs.Ingest.Slug.{slugify, scan, push_char, is_ascii_alphanumeric, to_ascii_lowercase}
use okf_mcp_rs.Ingest.RawId.{raw_id_for, blob_name, raw_id_from_resource}
use okf_mcp_rs.Ingest.Vault.{
  Vault, interrupted, no_raw_file, first_component, raw_names, load, read_raw_dir, save,
  remove_file,
}
use okf_mcp_rs.Ingest.Blob.{resolve_raw_path, find_raw, scan_raw, derive_slug, raw_title_and_body}
use okf_mcp_rs.Ingest.Pipeline.{Calls, process_ingest, purge_source, unlink, unlink_all}
use okf_mcp_rs.Ingest.Pipeline.Keeps.{IsHash, process_ingest_keeps, blob_path, write_blob}
use okf_mcp_rs.Ingest.Pipeline.Files.{Holds}
use okf_mcp_rs.Ingest.Pipeline.Loss.{
  new_path, blob_text, partial_blob_is_reused, failed_lookup_overwrites,
}

abbrev root : Text
root = ascii "/v"

-- A hash of one value, a page for every URL, and a vault at `/v`.
abbrev calls : Calls
calls = record {
  canonicalize = λ p. some (ascii "v" ∷ []);
  to_yaml = λ f. f.id;
  parse_url = λ t. none;
  fetch = λ t. some (ascii "# Hi");
  parse_doc = λ t. none;
  canonical = λ t. none;
  absolute = λ t. some t;
  hash_content = λ t. ascii "sha256:0123456789ab";
}

every-IsHash : (content : Text) → IsHash (calls.hash_content content)
every-IsHash content = (ascii "0123456789ab", refl, ground arith)

abbrev old : Vault
old = record {
  manifest = empty;
  files = (ascii "raw/raw_1.md", ascii "old") ∷ [];
  faults = works ∷ works ∷ works ∷ writes_part 3 ∷ works ∷ works ∷ [];
}

old_blob : Holds (ascii "raw/raw_1.md") (ascii "old") old
unfolding lookup text_eq
old_blob = refl

abbrev hash : Text
hash = ascii "sha256:0123456789ab"

no_blob :
    resolve_raw_path calls.canonicalize root (raw_id_for hash) old
    ≡ (err no_raw_file, record old { faults = works ∷ writes_part 3 ∷ works ∷ works ∷ [] })
unfolding resolve_raw_path find_raw scan_raw load read_raw_dir raw_names first_component raw_id_for
    raw_path_for raw_id_from_resource text_eq trim_start trim_end last_piece strip_suffix split_once
no_blob = refl

abbrev full_path : PathBuf
full_path = ascii "raw_0123456789--hi.md" ∷ ascii "raw" ∷ ascii "v" ∷ []

new_path_inside :
    sandbox_path calls.canonicalize root
      (blob_path calls root hash (ascii "http://a") (ascii "# Hi"))
    ≡ ok full_path
unfolding sandbox_path resolve_components resolve_component components leading pieces piece split
    split_onto starts_with path_eq blob_name raw_id_for derive_slug raw_title_and_body lines
    split_once trim_start trim_end slugify scan push_char is_ascii_alphanumeric to_ascii_lowercase
    Slug.trim_end text_eq
new_path_inside = refl

process_ingest_keeps_example :
    Holds
      (ascii "raw/raw_1.md")
      (ascii "old")
      (process_ingest calls root (ascii "http://a") [] [] old).1
process_ingest_keeps_example =
    process_ingest_keeps calls root (ascii "raw/raw_1.md") (ascii "old") (ascii "http://a") [] []
      old every-IsHash (inl (refl, refl)) old_blob

partial_blob_is_reused_example :
    (let first = write_blob calls root hash (ascii "http://a") (ascii "# Hi") [] [] old in
      let second = write_blob calls root hash (ascii "http://a") (ascii "# Hi") [] [] first.1 in
      let path = new_path calls root hash (ascii "http://a") (ascii "# Hi") [] [] in
      (first.0 ≡ err interrupted)
      × (lookup path first.1.files
          ≡ some (take 3 (blob_text calls root hash (ascii "http://a") (ascii "# Hi") [] [])))
      × (second.0 ≡ ok path)
      × (second.1.files ≡ first.1.files))
partial_blob_is_reused_example =
    partial_blob_is_reused calls root hash (ascii "http://a") (ascii "# Hi") [] [] old full_path
      no_raw_file 3 [] (every-IsHash []) (refl, refl) (ap (λ r. r.0) no_blob) new_path_inside
      (ap (λ r. r.1.faults) no_blob)

-- The blob stands there already, and the manifest cannot be loaded.
abbrev unlucky : Vault
unlucky = record {
  manifest = empty;
  files = (ascii "raw/raw_0123456789--hi.md", ascii "the old text") ∷ [];
  faults = fails ∷ works ∷ writes_part 3 ∷ [];
}

failed_lookup_overwrites_example :
    (let result = write_blob calls root hash (ascii "http://a") (ascii "# Hi") [] [] unlucky in
      (result.0 ≡ err interrupted)
      × (lookup (new_path calls root hash (ascii "http://a") (ascii "# Hi") [] []) result.1.files
          ≡ some (take 3 (blob_text calls root hash (ascii "http://a") (ascii "# Hi") [] []))))
failed_lookup_overwrites_example =
    failed_lookup_overwrites calls root hash (ascii "http://a") (ascii "# Hi") [] [] unlucky
      full_path 3 [] new_path_inside refl

-- Two sources of the same content, which share one blob.
abbrev shared : Vault
shared =
    let m = (record_ingest empty (ascii "http://a") (ascii "h") (ascii "raw_1") []).0 in
    let m' = (record_ingest m (ascii "http://b") (ascii "h") (ascii "raw_1") []).0 in
    record { manifest = m'; files = (ascii "raw/raw_1.md", ascii "text") ∷ []; faults = [] }

-- The purge of one of them takes the blob of the other.
shared_blob_purged :
    (resolve_raw_path calls.canonicalize root
      (ascii "raw_1")
      (purge_source calls root (ascii "http://a") shared.manifest shared).1).0
    ≡ err no_raw_file
unfolding purge_source purge unlink_all unlink resolve_raw_path find_raw scan_raw load raw_path_for
    raw_names read_raw_dir first_component raw_id_from_resource text_eq trim_start trim_end
    last_piece strip_suffix split_once record_ingest entry_ingest opt_text_eq lookup insert remove
    remove_file save
shared_blob_purged = refl
