-- ===== src/Validator/Rules.antt =====
-- src/validator/rules.rs: `lint_bundle`, over the vault as src/ingest/Vault has it; and
-- `wiki_content_dirs` of src/core/vault_resolver.rs. The files of a directory are those of the map
-- below it, in the order of the map. A file that cannot be read is not modelled.
pub mod Findings
mod Tests
use okf_mcp_rs.Prelude.{
  ℕ, Text, ascii, text_eq, Bool, true, false, not, ◌&&◌, ◌||◌, Option, none, some, List, [], ◌∷◌,
  ◌++◌, ◌==◌, if◌then◌else◌, any, map, filter, filter_map, is_empty, Result, ok, err, ◌>>=◌,
  strip_prefix,
}
use okf_mcp_rs.Prelude.Assoc.{Assoc}
use okf_mcp_rs.Prelude.Pieces.{after_last, rsplit_once}
use okf_mcp_rs.Prelude.Sort.{text_leb, pair_leb, sort, flat_map}
use okf_mcp_rs.Core.VaultResolver.{PathBuf}
use okf_mcp_rs.Manifest.{Manifest, active_entries, is_compiled_at_current_hash}
use okf_mcp_rs.Ingest.RawId.{raw_id_from_resource}
use okf_mcp_rs.Ingest.Vault.{Vault}
use okf_mcp_rs.Ingest.Blob.{resolve_raw_path, name_stem, is_found}
use okf_mcp_rs.Validator.Wikilink.{WikiLink, local, cross_vault, extract_wikilinks}
use okf_mcp_rs.Validator.Frontmatter.{WikiFrontmatter, ParsedPage, parse_wiki_page}

pub record LintReport : Type 0 where
  pub pending_compiles : List Text
  pub broken_links : List (Text × Text)
  pub orphan_pages : List Text
  pub missing_sources : List (Text × Text)
  pub cross_vault_links : List (Text × Text)

unfoldable pub has_errors : LintReport → Bool
has_errors r = not (is_empty r.broken_links) || not (is_empty r.missing_sources)

pub record ParsedConceptPage : Type 0 where
  pub relative_path : Text
  pub slug : Text
  pub sources : List Text
  pub links : List WikiLink
  pub kind : Text

unfoldable pub exempt_from_orphan_check : Text → Bool
exempt_from_orphan_check kind = text_eq kind (ascii "question") || text_eq kind (ascii "decision")

-- The directories of the wiki, from the vault's root, with their kinds.
abbrev pub wiki_content_dirs : List (Text × Text)
wiki_content_dirs =
    (ascii "wiki/concepts", ascii "concept")
    ∷ (ascii "wiki/entities", ascii "entity")
    ∷ (ascii "wiki/syntheses", ascii "synthesis")
    ∷ (ascii "wiki/comparisons", ascii "comparison")
    ∷ (ascii "wiki/decisions", ascii "decision")
    ∷ (ascii "wiki/questions", ascii "question")
    ∷ []

abbrev pub name_of : Text → Text
name_of path = after_last (λ c. c == 47) path

-- `Path::extension`: after the last dot, unless the dot is the first character.
abbrev has_md : Option (Text × Text) → Bool
has_md none = false
has_md (some (stem, extension)) = not (is_empty stem) && text_eq extension (ascii "md")

abbrev pub below : Text → Text × Text → Option (Text × Text)
below dir (path, content) = elim (strip_prefix (dir ++ ascii "/") path) [
  | none ↦ none
  | some rest ↦ if has_md (rsplit_once 46 (name_of path)) then some (path, content) else none
]

unfoldable pub markdown_files_in : Text → Assoc Text → List (Text × Text)
markdown_files_in dir files = filter_map (below dir) files

abbrev with_kind : Text → Text × Text → Text × Text × Text
with_kind kind (path, content) = (kind, path, content)

-- The files of all the directories, each with its kind.
unfoldable pub content_paths : Assoc Text → List (Text × Text × Text)
content_paths files =
    flat_map (λ (d : Text × Text). map (with_kind d.1) (markdown_files_in d.0 files))
      wiki_content_dirs

-- `replace('\\', "/")`
abbrev pub to_slashes : Text → Text
to_slashes path = map (λ c. if c == 92 then 47 else c) path

abbrev as_page : Text → Text → Option ParsedPage → Result Text ParsedConceptPage
as_page kind path none = err (to_slashes path)
as_page kind path (some parsed) = ok (record {
  relative_path = to_slashes path;
  slug = name_stem (name_of path);
  sources = map (λ source. source.resource) parsed.frontmatter.sources;
  links = extract_wikilinks parsed.body;
  kind = kind;
})

-- The error names the first page that does not parse.
unfoldable pub parse_pages :
    (Text → Option WikiFrontmatter)
    → List (Text × Text × Text)
    → Result Text (List ParsedConceptPage)
parse_pages from_yaml [] = ok []
parse_pages from_yaml ((kind, path, content) ∷ files) =
    let rest = parse_pages from_yaml files in
    as_page kind path (parse_wiki_page from_yaml content) >>= λ page.
    rest >>= λ pages. ok (page ∷ pages)

-- `existing_slugs.contains(slug)`
abbrev pub is_existing : List ParsedConceptPage → Text → Bool
is_existing pages slug = any (λ page. text_eq page.slug slug) pages

abbrev pub broken_link : List ParsedConceptPage → Text → WikiLink → Option (Text × Text)
broken_link pages path (local slug) = if is_existing pages slug then none else some (path, slug)
broken_link pages path (cross_vault vault concept) = none

abbrev pub cross_link : Text → WikiLink → Option (Text × Text)
cross_link path (local slug) = none
cross_link path (cross_vault vault concept) = some (path, vault ++ (ascii "::" ++ concept))

abbrev pub missing_source : (Text → Bool) → Text → Text → Option (Text × Text)
missing_source resolves path source = if resolves source then none else some (path, source)

abbrev pub links_to : Text → WikiLink → Bool
links_to slug (local target) = text_eq target slug
links_to slug (cross_vault vault concept) = false

-- `linked_slugs.contains(slug)`
abbrev pub is_linked : List ParsedConceptPage → Text → Bool
is_linked pages slug = any (λ page. any (links_to slug) page.links) pages

abbrev pub is_orphan : List ParsedConceptPage → ParsedConceptPage → Bool
is_orphan pages page = not (is_linked pages page.slug) && not (exempt_from_orphan_check page.kind)

-- The loops over the pages, and the sorting.
unfoldable pub lint_pages : List Text → (Text → Bool) → List ParsedConceptPage → LintReport
lint_pages pending resolves pages = record {
  pending_compiles = sort text_leb pending;
  broken_links =
      sort pair_leb
        (flat_map (λ page. filter_map (broken_link pages page.relative_path) page.links) pages);
  orphan_pages = sort text_leb (map (λ page. page.relative_path) (filter (is_orphan pages) pages));
  missing_sources = sort pair_leb (
      flat_map (λ page. filter_map (missing_source resolves page.relative_path) page.sources)
        pages);
  cross_vault_links =
      sort pair_leb
        (flat_map (λ page. filter_map (cross_link page.relative_path) page.links) pages);
}

abbrev resolves_id : (Text → Option PathBuf) → Text → Vault → Option Text → Bool
resolves_id canonicalize root v none = false
resolves_id canonicalize root v (some raw_id) =
    is_found (resolve_raw_path canonicalize root raw_id v).0

-- A lint does not change the vault: each lookup begins with the vault's faults.
unfoldable pub source_resolves : (Text → Option PathBuf) → Text → Vault → Text → Bool
source_resolves canonicalize root v source =
    resolves_id canonicalize root v (raw_id_from_resource source)

unfoldable pub pending_compiles : Manifest → List Text
pending_compiles m =
    filter (λ uri. not (is_compiled_at_current_hash m uri))
      (map (λ entry. entry.0) (active_entries m))

unfoldable pub lint_bundle :
    (Text → Option PathBuf)
    → Text
    → (Text → Option WikiFrontmatter)
    → Vault
    → Result Text LintReport
lint_bundle canonicalize root from_yaml v =
    parse_pages from_yaml (content_paths v.files) >>= λ pages.
    ok (lint_pages (pending_compiles v.manifest) (source_resolves canonicalize root v) pages)
