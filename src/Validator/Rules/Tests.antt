-- ===== src/Validator/Rules/Tests.antt =====
-- Lints of small vaults.
use okf_mcp_rs.Prelude.{
  Option, ◌≡◌, refl, ◌↔◌, ◌⊎◌, Text, ascii, text_eq, Bool, true, false, some, none, List, [], ◌∷◌,
  ◌++◌, Exists, ok, split_once,
}
use okf_mcp_rs.Prelude.Pieces.{trim_start, trim_end, last_piece, strip_suffix, rsplit_once}
use okf_mcp_rs.Prelude.Sort.{Has, sort, insert_sorted, text_leb, pair_leb}
use okf_mcp_rs.Manifest.{empty, active_entries, raw_path_for}
use okf_mcp_rs.Ingest.RawId.{raw_id_from_resource}
use okf_mcp_rs.Ingest.Vault.{Vault, load, raw_names, read_raw_dir, first_component}
use okf_mcp_rs.Ingest.Blob.{resolve_raw_path, find_raw, scan_raw, name_stem}
use okf_mcp_rs.Validator.Wikilink.{
  local, cross_vault, extract_wikilinks, scan, is_link_text, parse_link,
}
use okf_mcp_rs.Validator.Frontmatter.{WikiFrontmatter, parse_wiki_page}
use okf_mcp_rs.Validator.Rules.{
  has_errors, ParsedConceptPage, lint_pages, lint_bundle, content_paths, markdown_files_in,
  parse_pages, exempt_from_orphan_check, source_resolves, pending_compiles,
}
use okf_mcp_rs.Validator.Rules.Findings.{
  IsMissing, IsBroken, IsLinked, has_errors_iff, broken_links_exact, orphan_pages_exact,
}

abbrev page_of : Text → Text → List Text → ParsedConceptPage
page_of slug target sources = record {
  relative_path = slug ++ ascii ".md";
  slug = slug;
  sources = sources;
  links = local target ∷ cross_vault (ascii "v") (ascii "c") ∷ [];
  kind = ascii "concept";
}

-- A page with a link to another, which links to a page that is not there.
abbrev pages : List ParsedConceptPage
pages =
    page_of (ascii "a") (ascii "b") (ascii "raw/r.md" ∷ [])
    ∷ page_of (ascii "b") (ascii "x") []
    ∷ []

abbrev never : Text → Bool
never source = false

small_lint : lint_pages (ascii "u" ∷ []) never pages ≡ record {
  pending_compiles = ascii "u" ∷ [];
  broken_links = (ascii "b.md", ascii "x") ∷ [];
  orphan_pages = ascii "a.md" ∷ [];
  missing_sources = (ascii "a.md", ascii "raw/r.md") ∷ [];
  cross_vault_links = (ascii "a.md", ascii "v::c") ∷ (ascii "b.md", ascii "v::c") ∷ [];
}
unfolding lint_pages sort insert_sorted text_leb pair_leb text_eq exempt_from_orphan_check
small_lint = refl

has_errors_iff_example : (has_errors (lint_pages [] never pages) ≡ true) ↔ (
    Exists (λ page. Exists (IsBroken pages) page.links) pages
    ⊎ Exists (λ page. Exists (λ source. never source ≡ false) page.sources) pages)
has_errors_iff_example = has_errors_iff [] never pages

broken_links_exact_example :
    Has (ascii "b.md", ascii "x") (lint_pages [] never pages).broken_links
    ↔ Exists
        (λ page.
          (page.relative_path ≡ ascii "b.md")
          × Has (local (ascii "x")) page.links
          × IsMissing pages (ascii "x"))
        pages
broken_links_exact_example = broken_links_exact [] never pages (ascii "b.md") (ascii "x")

orphan_pages_exact_example :
    Has (ascii "a.md") (lint_pages [] never pages).orphan_pages
    ↔ Exists
        (λ page.
          (page.relative_path ≡ ascii "a.md")
          × (IsLinked pages page.slug → ⊥)
          × (exempt_from_orphan_check page.kind ≡ false))
        pages
orphan_pages_exact_example = orphan_pages_exact [] never pages (ascii "a.md")

-- A YAML reader that takes any text for a page with one source.
abbrev from_yaml : Text → Option WikiFrontmatter
from_yaml yaml = some (record {
  okf_version = none;
  type = ascii "Concept";
  id = none;
  title = yaml;
  description = none;
  sources = record { resource = ascii "/raw/raw_1.md"; id = none; title = none } ∷ [];
  tags = [];
  timestamp = none;
  status = none;
  stale_after = none;
  generated = none;
})

abbrev vault : Vault
vault = record {
  manifest = empty;
  files =
      (ascii "raw/raw_1--t.md", ascii "text")
      ∷ (ascii "wiki/concepts/a.md", ascii "---\nt\n---\n[[b]] [[a]]")
      ∷ (ascii "wiki/questions/q.md", ascii "---\nt\n---\nhm")
      ∷ (ascii "wiki/index.md", ascii "no page")
      ∷ [];
  faults = [];
}

lint_of_vault :
    lint_bundle (λ p. some []) [] from_yaml vault
    ≡ ok (record {
      pending_compiles = [];
      broken_links = (ascii "wiki/concepts/a.md", ascii "b") ∷ [];
      orphan_pages = [];
      missing_sources = [];
      cross_vault_links = [];
    })
unfolding lint_bundle parse_pages parse_wiki_page content_paths markdown_files_in rsplit_once
    last_piece name_stem extract_wikilinks scan is_link_text parse_link split_once lint_pages sort
    insert_sorted text_eq exempt_from_orphan_check source_resolves raw_id_from_resource trim_start
    trim_end strip_suffix resolve_raw_path find_raw scan_raw load raw_path_for raw_names
    read_raw_dir first_component pending_compiles active_entries
lint_of_vault = refl
