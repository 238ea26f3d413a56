-- ===== src/Compiler/Index.antt =====
-- src/compiler/driver.rs: `regenerate_index`, which writes the table of contents of the wiki.
-- `schema` is the text of the asset wiki-schema.md.
pub mod Fixpoint
mod Tests
use okf_mcp_rs.Prelude.{
  Text, ascii, text_eq, Bool, Option, none, some, List, [], ◌∷◌, ◌++◌, filter_map, is_empty,
  if◌then◌else◌, Result, ok, err,
}
use okf_mcp_rs.Prelude.Assoc.{Assoc, lookup}
use okf_mcp_rs.Prelude.Sort.{text_leb, sort}
use okf_mcp_rs.Core.VaultResolver.{PathBuf, sandbox_path}
use okf_mcp_rs.Ingest.Vault.{Vault, IngestError, sandbox, Action, and_then, create_parent, write}
use okf_mcp_rs.Ingest.Blob.{is_ok, is_some}
use okf_mcp_rs.Validator.Frontmatter.{WikiFrontmatter, ParsedPage, parse_wiki_page}
use okf_mcp_rs.Validator.Rules.{wiki_content_dirs, markdown_files_in, to_slashes}

unfoldable pub index_heading_for_kind : Text → Text
index_heading_for_kind kind =
    if text_eq kind (ascii "concept")
    then ascii "Concepts"
    else if text_eq kind (ascii "entity")
    then ascii "Entities"
    else if text_eq kind (ascii "synthesis")
    then ascii "Syntheses"
    else if text_eq kind (ascii "comparison")
    then ascii "Comparisons"
    else if text_eq kind (ascii "decision")
    then ascii "Decisions"
    else if text_eq kind (ascii "question")
    then ascii "Questions"
    else kind

pub record IndexEntry : Type 0 where
  pub title : Text
  pub path : Text
  pub description : Text

-- The order of the three texts, one after the other.
unfoldable pub entry_leb : IndexEntry → IndexEntry → Bool
entry_leb a b =
    if text_eq a.title b.title
    then (if text_eq a.path b.path
        then text_leb a.description b.description
        else text_leb a.path b.path)
    else text_leb a.title b.title

abbrev or_default_text : Option Text → Text
or_default_text none = []
or_default_text (some t) = t

abbrev entry_of : Text → Option ParsedPage → Option IndexEntry
entry_of path none = none
entry_of path (some parsed) = some (record {
  title = parsed.frontmatter.title;
  path = to_slashes path;
  description = or_default_text parsed.frontmatter.description;
})

-- A page that does not parse is left out.
unfoldable pub index_entries :
    (Text → Option WikiFrontmatter) → List (Text × Text) → List IndexEntry
index_entries from_yaml files =
    filter_map (λ (file : Text × Text). entry_of file.0 (parse_wiki_page from_yaml file.1)) files

abbrev entry_line : IndexEntry → Text
entry_line e =
    ascii "- ["
    ++ (e.title
        ++ (ascii "]("
            ++ (e.path
                ++ (if is_empty e.description
                    then ascii ")\n"
                    else ascii ") — " ++ (e.description ++ ascii "\n")))))

unfoldable pub entry_lines : List IndexEntry → Text
entry_lines [] = []
entry_lines (e ∷ entries) = entry_line e ++ entry_lines entries

unfoldable pub section : Text → List IndexEntry → Text
section kind entries =
    if is_empty entries
    then []
    else ascii "\n## "
      ++ (index_heading_for_kind kind ++ (ascii "\n\n" ++ entry_lines (sort entry_leb entries)))

-- The loop over the directories.
unfoldable pub sections : (Text → Option WikiFrontmatter) → Assoc Text → List (Text × Text) → Text
sections from_yaml files [] = []
sections from_yaml files ((dir, kind) ∷ dirs) =
    section kind (index_entries from_yaml (markdown_files_in dir files))
    ++ sections from_yaml files dirs

unfoldable pub index_text : (Text → Option WikiFrontmatter) → Assoc Text → Text
index_text from_yaml files =
    ascii "---\nokf_version: \"0.2\"\n---\n\n# Wiki Index\n"
    ++ sections from_yaml files wiki_content_dirs

abbrev pub index_path : Text
index_path = ascii "wiki/index.md"

abbrev pub schema_path : Text
schema_path = ascii "wiki/schema.md"

module _ (canonicalize : Text → Option PathBuf) (root : Text) where
  -- `fs_ops::write`
  unfoldable pub write_page : Text → Text → Action Unit
  write_page path content v = elim (sandbox_path canonicalize root path) [
    | err e ↦ (err (sandbox e), v)
    | ok full_path ↦ and_then (create_parent v) (λ _. write path content)
  ]

  unfoldable pub ensure_wiki_schema : Text → Action Unit
  ensure_wiki_schema schema v =
      if is_ok (sandbox_path canonicalize root schema_path)
      then (if is_some (lookup schema_path v.files)
          then (ok tt, v)
          else write_page schema_path schema v)
      else write_page schema_path schema v

  unfoldable pub regenerate_index : Text → (Text → Option WikiFrontmatter) → Action Unit
  regenerate_index schema from_yaml v =
      and_then (ensure_wiki_schema schema v)
        (λ _ v. write_page index_path (index_text from_yaml v.files) v)
