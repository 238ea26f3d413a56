-- ===== src/Ingest/RawId/Tests.antt =====
-- Raw ids of names and resources.
use okf_mcp_rs.Prelude.{
  ◌≡◌, refl, Text, true, ◌++◌, All, ascii, text_eq, some, none, split_once, arith,
}
use okf_mcp_rs.Prelude.Pieces.{trim_start, trim_end, last_piece, strip_suffix}
use okf_mcp_rs.Ingest.Slug.{slugify}
use okf_mcp_rs.Ingest.RawId.{raw_id_for, raw_id_from_resource, blob_name, is_url}
use okf_mcp_rs.Ingest.RawId.FileName.{IsHex, raw_id_from_resource-raw_id_for}

resource_with_slug :
    raw_id_from_resource (ascii " /raw/raw_a1f4--my-title.md ") ≡ some (ascii "raw_a1f4")
unfolding raw_id_from_resource trim_start trim_end last_piece strip_suffix split_once text_eq
resource_with_slug = refl

resource_of_directory : raw_id_from_resource (ascii "raw/") ≡ none
unfolding raw_id_from_resource trim_start trim_end last_piece strip_suffix split_once text_eq
resource_of_directory = refl

url : is_url (ascii "https://example.com") ≡ true
unfolding is_url
url = refl

abbrev hex : Text
hex = ascii "a1f448945fc0"

hex-IsHex : All IsHex hex
hex-IsHex = ground arith

raw_id_from_resource-raw_id_for_example :
    raw_id_from_resource
      (blob_name (raw_id_for (ascii "sha256:" ++ hex)) (slugify (ascii "My -- Title")))
    ≡ some (raw_id_for (ascii "sha256:" ++ hex))
raw_id_from_resource-raw_id_for_example =
    raw_id_from_resource-raw_id_for hex (ascii "My -- Title") hex-IsHex
