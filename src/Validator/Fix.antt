-- ===== src/Validator/Fix.antt =====
-- src/validator/fix.rs: `fix_bundle`, which renames a mistyped `tid:` field to `id:`.
pub mod Repairs
mod Tests
use okf_mcp_rs.Prelude.{
  Text, ascii, Bool, true, false, Option, none, some, List, [], ◌∷◌, ◌++◌, any, find, map,
  is_prefix, is_empty, if◌then◌else◌, drop, split_once, Result, ok, err, length,
}
use okf_mcp_rs.Prelude.Pieces.{lines, join}
use okf_mcp_rs.Core.VaultResolver.{PathBuf}
use okf_mcp_rs.Ingest.Vault.{Vault, IngestError, Action, and_then, write}
use okf_mcp_rs.Validator.Frontmatter.{WikiFrontmatter, ParsedPage, split_page, parse_wiki_page}
use okf_mcp_rs.Validator.Rules.{LintReport, content_paths, to_slashes, lint_bundle}

pub record FixReport : Type 0 where
  pub fixed_frontmatter_typos : List Text

-- `replacen(from, to, 1)`, of a text that has `from`
abbrev pub replace_first : Text → Text → Text → Text
replace_first from to text = elim (split_once from text) [
  | none ↦ text
  | some (before, after) ↦ before ++ (to ++ after)
]

-- The frontmatter with its first `tid:` line renamed, where no line is `id:` already.
unfoldable pub fix_yaml : Text → Option Text
fix_yaml yaml =
    if any (is_prefix (ascii "id:")) (lines yaml)
    then none
    else elim (find (is_prefix (ascii "tid:")) (lines yaml)) [
      | none ↦ none
      | some tid_line ↦ some (replace_first tid_line (ascii "id:" ++ drop 4 tid_line) yaml)
    ]

abbrev pub page_text : Text → Text → Text
page_text yaml body = ascii "---\n" ++ (yaml ++ (ascii "\n---\n" ++ body))

abbrev pub parses : (Text → Option WikiFrontmatter) → Text → Bool
parses from_yaml content = elim (parse_wiki_page from_yaml content) [
  | none ↦ false
  | some page ↦ true
]

abbrev pub if_parses : (Text → Option WikiFrontmatter) → Text → Option Text
if_parses from_yaml content = if parses from_yaml content then some content else none

-- The text that is written over a page, if any.
unfoldable pub fix_page : (Text → Option WikiFrontmatter) → Text → Option Text
fix_page from_yaml content = if parses from_yaml content then none else elim (split_page content) [
  | none ↦ none
  | some (yaml, body) ↦ elim (fix_yaml yaml) [
    | none ↦ none
    | some fixed ↦ if_parses from_yaml (page_text fixed body)
  ]
]

abbrev fixed_one : Text → Option Text → Action (List Text)
fixed_one path none v = (ok [], v)
fixed_one path (some content) v =
    and_then (write path content v) (λ _ v. (ok (to_slashes path ∷ []), v))

-- The loop over the pages.
unfoldable pub fix_files :
    (Text → Option WikiFrontmatter) → List (Text × Text × Text) → Action (List Text)
fix_files from_yaml [] v = (ok [], v)
fix_files from_yaml ((kind, path, content) ∷ files) v =
    and_then (fixed_one path (fix_page from_yaml content) v)
      (λ fixed v. and_then (fix_files from_yaml files v) (λ more v. (ok (fixed ++ more), v)))

unfoldable pub fix_id_field_typos : (Text → Option WikiFrontmatter) → Action (List Text)
fix_id_field_typos from_yaml v = fix_files from_yaml (content_paths v.files) v

-- The report of the lint after the repairs is an error of its own when a page still does not parse.
unfoldable pub fix_bundle :
    (Text → Option PathBuf)
    → Text
    → (Text → Option WikiFrontmatter)
    → Action (FixReport × Result Text LintReport)
fix_bundle canonicalize root from_yaml v = and_then (fix_id_field_typos from_yaml v) (λ fixed v.
    (ok (record { fixed_frontmatter_typos = fixed }, lint_bundle canonicalize root from_yaml v), v))
