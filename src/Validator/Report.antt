-- ===== src/Validator/Report.antt =====
-- src/validator/report.rs: `to_text`, and `summary_line` of src/validator/fix.rs.
mod Tests
use okf_mcp_rs.Prelude.{
  ◌≡◌, refl, ℕ, Text, ascii, Bool, true, false, not, ◌&&◌, List, [], ◌∷◌, ◌++◌, map, is_empty,
  length, if◌then◌else◌,
}
use okf_mcp_rs.Prelude.Pieces.{join}
use okf_mcp_rs.Compiler.TokenEstimate.{to_decimal, digits}
use okf_mcp_rs.Validator.Rules.{LintReport, has_errors}
use okf_mcp_rs.Validator.Fix.{FixReport}

-- A heading and a line for each item, where there are any.
abbrev section : {A : Type 0} → Text → (A → Text) → List A → List Text
section heading line [] = []
section heading line (x ∷ xs) = heading ∷ map line (x ∷ xs)

abbrev count : {A : Type 0} → List A → Text
count xs = to_decimal (length xs)

unfoldable pub to_text : LintReport → Text
to_text r =
    if not (has_errors r)
      && (is_empty r.pending_compiles && (is_empty r.orphan_pages && is_empty r.cross_vault_links))
    then ascii "OK: no lint issues found."
    else join (ascii "\n") (
        section
          (ascii "Pending compile ("
            ++ (count r.pending_compiles
                ++ ascii " source(s) not yet fully compiled — run 'okf-mcp compile'):"))
          (λ uri. ascii "  " ++ uri) r.pending_compiles
        ++ (section (ascii "Broken links (" ++ (count r.broken_links ++ ascii "):"))
              (λ (link : Text × Text).
                ascii "  "
                ++ (link.0 ++ (ascii " -> [[" ++ (link.1 ++ ascii "]] (target does not exist)"))))
              r.broken_links
            ++ (section
                  (ascii "Missing provenance sources (" ++ (count r.missing_sources ++ ascii "):"))
                  (λ (m : Text × Text).
                    ascii "  "
                    ++ (m.0 ++ (ascii ": sources entry '" ++ (m.1 ++ ascii "' does not exist"))))
                  r.missing_sources
                ++ (section
                      (ascii "Orphan pages (" ++ (count r.orphan_pages ++ ascii ", warning):"))
                      (λ page. ascii "  " ++ (page ++ ascii " is not linked from any other page"))
                      r.orphan_pages
                    ++ (section
                          (ascii "Cross-vault links ("
                            ++ (count r.cross_vault_links ++ ascii ", informational):"))
                          (λ (link : Text × Text).
                            ascii "  " ++ (link.0 ++ (ascii " -> [[" ++ (link.1 ++ ascii "]]"))))
                          r.cross_vault_links
                        ++ (if has_errors r
                            then ascii "FAILED: fix broken links and missing sources above."
                            else ascii "OK: no blocking issues (see warnings above).")
                          ∷ [])))))

unfoldable pub summary_line : FixReport → Text
summary_line r =
    if is_empty r.fixed_frontmatter_typos
    then ascii "No auto-fixable issues found."
    else join (ascii "\n") (
        section
          (ascii "Fixed "
            ++ (count r.fixed_frontmatter_typos ++ ascii " frontmatter typo(s) (tid: -> id:):"))
          (λ page. ascii "  " ++ page) r.fixed_frontmatter_typos)
