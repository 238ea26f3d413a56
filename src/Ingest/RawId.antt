-- ===== src/Ingest/RawId.antt =====
-- src/ingest/frontmatter.rs: the names of raw blobs. The hash is that of `hash_content`, in ASCII,
-- so its first ten bytes are its first ten characters.
pub mod FileName
mod Tests
use okf_mcp_rs.Prelude.{
  ℕ, Text, ascii, Bool, ◌||◌, Option, none, some, ◌++◌, ◌==◌, if◌then◌else◌, is_empty, take,
  is_prefix, strip_prefix, split_once,
}
use okf_mcp_rs.Prelude.Pieces.{trim, after_last, strip_suffix}

abbrev pub or_else {ℓ} : {A : Type ℓ} → A → Option A → A
or_else a none = a
or_else a (some b) = b

unfoldable pub raw_id_for : Text → Text
raw_id_for hash = ascii "raw_" ++ take 10 (or_else hash (strip_prefix (ascii "sha256:") hash))

unfoldable pub is_url : Text → Bool
is_url source = is_prefix (ascii "http://") source || is_prefix (ascii "https://") source

abbrev pub is_separator : ℕ → Bool
is_separator c = (c == 47) || (c == 92)

-- `split_once("--").map_or(stem, |(id, _)| id)`
abbrev pub before_dashes : Text → Option (Text × Text) → Text
before_dashes stem none = stem
before_dashes stem (some (id, slug)) = id

unfoldable pub raw_id_from_resource : Text → Option Text
raw_id_from_resource resource =
    let basename = after_last is_separator (trim resource) in
    let stem = or_else basename (strip_suffix (ascii ".md") basename) in
    let candidate = trim (before_dashes stem (split_once (ascii "--") stem)) in
    if is_empty candidate then none else some candidate

-- The name that `write_raw_blob` gives to the file of a raw id.
unfoldable pub blob_name : Text → Option Text → Text
blob_name raw_id (some slug) = raw_id ++ (ascii "--" ++ (slug ++ ascii ".md"))
blob_name raw_id none = raw_id ++ ascii ".md"
