-- ===== src/Ingest/Blob.antt =====
-- src/ingest/frontmatter.rs: where a raw blob stands, and how it is written; and `raw_title_and_body`
-- of src/search/query.rs. `canonicalize` is that of the file system, `to_yaml` and `parse_url` are
-- those of the libraries serde_yaml and url.
pub mod Resolve
pub mod Fresh
use okf_mcp_rs.Prelude.{
  Text, ascii, Bool, true, false, Option, none, some, List, [], ◌∷◌, ◌++◌, ◌==◌, text_eq,
  if◌then◌else◌, is_empty, find, find_map, filter, Result, ok, err, strip_prefix, split_once,
}
use okf_mcp_rs.Prelude.Assoc.{Assoc, lookup}
use okf_mcp_rs.Prelude.Pieces.{trim, lines, rsplit_once}
use okf_mcp_rs.Core.VaultResolver.{
  PathBuf, Component, normal, cur_dir, parent_dir, root_dir, prefix, components, SandboxError,
  sandbox_path,
}
use okf_mcp_rs.Manifest.{Manifest, raw_path_for}
use okf_mcp_rs.Ingest.Slug.{slugify}
use okf_mcp_rs.Ingest.RawId.{is_url, raw_id_from_resource, blob_name}
use okf_mcp_rs.Ingest.Vault.{
  Vault, IngestError, sandbox, no_raw_file, Action, and_then, create_parent, write, load, raw_names,
  read_raw_dir,
}

pub record RawFrontmatter : Type 0 where
  pub okf_version : Text
  pub type : Text
  pub id : Text
  pub source_url : Option Text
  pub checksum : Text
  pub ingested_at : Text
  pub tags : List Text

-- What `url::Url::parse` gives: the segments of the path and the host.
pub record Url : Type 0 where
  pub path_segments : List Text
  pub host : Option Text

-- The text after the frontmatter, or the whole text where there is none.
abbrev body_after : Text → Option Text → Text
body_after content none = content
body_after content (some opened) = elim (split_once (ascii "\n---\n") opened) [
  | none ↦ content
  | some (yaml, body) ↦ body
]

abbrev or_empty : Option Text → Text
or_empty none = []
or_empty (some t) = t

unfoldable pub raw_title_and_body : Text → Text × Text
raw_title_and_body content =
    let body = body_after content (strip_prefix (ascii "---\n") content) in
    (trim (or_empty (find_map (strip_prefix (ascii "# ")) (lines body))), body)

-- `Path::file_name`: the last component, when it is a plain name.
abbrev pub last_name : List Component → Option Text
last_name [] = none
last_name (c ∷ d ∷ cs) = last_name (d ∷ cs)
last_name (normal name ∷ []) = some name
last_name (cur_dir ∷ []) = none
last_name (parent_dir ∷ []) = none
last_name (root_dir ∷ []) = none
last_name (prefix p ∷ []) = none

abbrev stem_or : Text → Option (Text × Text) → Text
stem_or name none = name
stem_or name (some (stem, extension)) = if is_empty stem then name else stem

-- `Path::file_stem` of a name
unfoldable pub name_stem : Text → Text
name_stem name = stem_or name (rsplit_once 46 name)

abbrev stem_of : Option Text → Text
stem_of none = []
stem_of (some name) = name_stem name

-- `file_stem().unwrap_or_default()`
abbrev pub file_stem : Text → Text
file_stem path = stem_of (last_name (components path))

-- The first slug that is not empty.
abbrev pub or_slug : Option Text → Option Text → Option Text
or_slug none later = later
or_slug (some slug) later = some slug

abbrev pub last_non_empty : List Text → Text
last_non_empty [] = []
last_non_empty (s ∷ ss) = let rest = last_non_empty ss in if is_empty rest then s else rest

abbrev pub slug_of_host : Option Text → Option Text
slug_of_host none = none
slug_of_host (some host) = slugify host

abbrev pub slug_of_url : Option Url → Option Text
slug_of_url none = none
slug_of_url (some url) =
    or_slug (slugify (last_non_empty url.path_segments)) (slug_of_host url.host)

unfoldable pub derive_slug : (Text → Option Url) → Text → Text → Option Text
derive_slug parse_url source content =
    or_slug (slugify (raw_title_and_body content).0) (elim (strip_prefix (ascii "file://") source) [
      | some local_path ↦ slugify (file_stem local_path)
      | none ↦ if is_url source then slug_of_url (parse_url source) else none
    ])

abbrev pub is_ok : Result SandboxError PathBuf → Bool
is_ok (ok path) = true
is_ok (err e) = false

abbrev pub is_found : Result IngestError Text → Bool
is_found (ok path) = true
is_found (err e) = false

abbrev pub found_path : Result IngestError Text → Option Text
found_path (ok path) = some path
found_path (err e) = none

abbrev pub is_some : Option Text → Bool
is_some none = false
is_some (some t) = true

abbrev pub has_id : Text → Option Text → Bool
has_id raw_id none = false
has_id raw_id (some id) = text_eq id raw_id

-- The path that the manifest records, where it stays in the vault and is a file.
abbrev pub recorded : (Text → Option PathBuf) → Text → Assoc Text → Option Text → Option Text
recorded canonicalize root files none = none
recorded canonicalize root files (some path) =
    if is_ok (sandbox_path canonicalize root path)
    then (if is_some (lookup path files) then some path else none)
    else none

abbrev pub scanned : Option Text → Result IngestError Text
scanned none = err no_raw_file
scanned (some name) = ok (ascii "raw/" ++ name)

-- The first entry of `raw` whose name has the raw id.
abbrev pub scan_names : Text → List Text → Result IngestError Text
scan_names raw_id names = scanned (find (λ name. has_id raw_id (raw_id_from_resource name)) names)

-- `raw` is read only where it is a directory.
unfoldable pub scan_raw : Text → Action Text
scan_raw raw_id v =
    if is_empty (raw_names v.files)
    then (err no_raw_file, v)
    else and_then (read_raw_dir v) (λ names v. (scan_names raw_id names, v))

-- The lookup with the manifest that was loaded.
unfoldable pub find_raw : (Text → Option PathBuf) → Text → Text → Manifest → Action Text
find_raw canonicalize root raw_id m v =
    elim (recorded canonicalize root v.files (raw_path_for m raw_id)) [
      | some path ↦ (ok path, v)
      | none ↦ scan_raw raw_id v
    ]

-- The path of the file of a raw id, from the vault's root.
unfoldable pub resolve_raw_path : (Text → Option PathBuf) → Text → Text → Action Text
resolve_raw_path canonicalize root raw_id v =
    and_then (load v) (λ m v. find_raw canonicalize root raw_id m v)

module _ (canonicalize : Text → Option PathBuf) (root : Text) (to_yaml : RawFrontmatter → Text)
    (parse_url : Text → Option Url) where
  -- The text of the file.
  abbrev pub full_md : Text → Text → List Text → Text → Text → Text → Text
  full_md raw_id source tags checksum ingested_at content =
      ascii "---\n"
      ++ (to_yaml (record {
        okf_version = ascii "0.2";
        type = ascii "raw_source";
        id = raw_id;
        source_url = some source;
        checksum = checksum;
        ingested_at = ingested_at;
        tags = tags;
      })
          ++ (ascii "---\n\n" ++ content))

  -- Any error of the lookup, not only a missing file, leads here.
  unfoldable pub write_new : Text → Text → List Text → Text → Text → Text → Action Text
  write_new raw_id source tags checksum ingested_at content v =
      let path = ascii "raw/" ++ blob_name raw_id (derive_slug parse_url source content) in
      elim (sandbox_path canonicalize root path) [
        | err e ↦ (err (sandbox e), v)
        | ok full_path ↦ and_then (create_parent v) (λ _ v.
            and_then (write path (full_md raw_id source tags checksum ingested_at content) v)
              (λ _ v. (ok path, v)))
      ]

  unfoldable pub write_raw_blob : Text → Text → List Text → Text → Text → Text → Action Text
  write_raw_blob raw_id source tags checksum ingested_at content v =
      let (found, v) = resolve_raw_path canonicalize root raw_id v in
      elim found [
        | ok existing ↦ (ok existing, v)
        | err _ ↦ write_new raw_id source tags checksum ingested_at content v
      ]
