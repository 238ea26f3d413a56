-- ===== src/Compiler/LinkFix/Tests.antt =====
-- Broken links of three pages.
use okf_mcp_rs.Prelude.{◌≡◌, refl, ascii, text_eq, [], ◌∷◌}
use okf_mcp_rs.Prelude.Pieces.{join}
use okf_mcp_rs.Prelude.Sort.{text_leb}
use okf_mcp_rs.Compiler.TokenEstimate.{to_decimal, digits}
use okf_mcp_rs.Validator.Rules.{LintReport}
use okf_mcp_rs.Compiler.LinkFix.{
  synthesized, failed, synthesized_slugs, summary_line, group_broken_links_by_slug, group_links,
  push_page,
}

abbrev lint : LintReport
lint = record {
  pending_compiles = [];
  broken_links =
      (ascii "a.md", ascii "y") ∷ (ascii "b.md", ascii "x") ∷ (ascii "c.md", ascii "y") ∷ [];
  orphan_pages = [];
  missing_sources = [];
  cross_vault_links = [];
}

grouped :
    group_broken_links_by_slug lint
    ≡ (ascii "x", ascii "b.md" ∷ []) ∷ (ascii "y", ascii "a.md" ∷ ascii "c.md" ∷ []) ∷ []
unfolding group_broken_links_by_slug group_links push_page text_eq text_leb
grouped = refl

summary :
    summary_line (record {
      outcomes =
          record { slug = ascii "x"; status = synthesized }
          ∷ record { slug = ascii "y"; status = failed (ascii "e") }
          ∷ [];
      touched_paths = [];
    })
    ≡ ascii "Synthesized 1 concept page(s) via LLM: [[x]]\nFailed to synthesize [[y]]: e"
unfolding summary_line synthesized_slugs join to_decimal digits
summary = refl
