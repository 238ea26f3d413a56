-- ===== src/Validator/Report/Tests.antt =====
-- The text of a small report.
use okf_mcp_rs.Prelude.{◌≡◌, refl, ascii, [], ◌∷◌}
use okf_mcp_rs.Prelude.Pieces.{join}
use okf_mcp_rs.Compiler.TokenEstimate.{to_decimal, digits}
use okf_mcp_rs.Validator.Rules.{LintReport, has_errors}
use okf_mcp_rs.Validator.Report.{to_text}

abbrev one_orphan : LintReport
one_orphan = record {
  pending_compiles = [];
  broken_links = [];
  orphan_pages = ascii "a.md" ∷ [];
  missing_sources = [];
  cross_vault_links = [];
}

orphan_text :
    to_text one_orphan
    ≡ ascii
        "Orphan pages (1, warning):\n  a.md is not linked from any other page\nOK: no blocking issues (see warnings above)."
unfolding to_text has_errors join to_decimal digits
orphan_text = refl
