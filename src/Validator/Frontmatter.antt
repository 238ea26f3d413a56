-- ===== src/Validator/Frontmatter.antt =====
-- src/validator/frontmatter.rs: `parse_wiki_page`. `from_yaml` is that of the library serde_yaml.
use okf_mcp_rs.Prelude.{Text, ascii, Option, none, some, List, split_once, strip_prefix}

pub record SourceRef : Type 0 where
  pub resource : Text
  pub id : Option Text
  pub title : Option Text

pub record Generated : Type 0 where
  pub by : Text
  pub at : Text

pub record WikiFrontmatter : Type 0 where
  pub okf_version : Option Text
  pub type : Text
  pub id : Option Text
  pub title : Text
  pub description : Option Text
  pub sources : List SourceRef
  pub tags : List Text
  pub timestamp : Option Text
  pub status : Option Text
  pub stale_after : Option Text
  pub generated : Option Generated

pub record ParsedPage : Type 0 where
  pub frontmatter : WikiFrontmatter
  pub body : Text

-- The text between the delimiters and the text after them.
abbrev pub split_page : Text → Option (Text × Text)
split_page content = elim (strip_prefix (ascii "---\n") content) [
  | none ↦ none
  | some opened ↦ split_once (ascii "\n---\n") opened
]

abbrev parsed : Text → Option WikiFrontmatter → Option ParsedPage
parsed body none = none
parsed body (some frontmatter) = some (record { frontmatter = frontmatter; body = body })

-- Its errors, each with a message, are `none`.
unfoldable pub parse_wiki_page : (Text → Option WikiFrontmatter) → Text → Option ParsedPage
parse_wiki_page from_yaml content = elim (split_page content) [
  | none ↦ none
  | some (yaml, body) ↦ parsed body (from_yaml yaml)
]
