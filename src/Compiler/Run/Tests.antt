-- ===== src/Compiler/Run/Tests.antt =====
-- Runs of two sources.
use okf_mcp_rs.Prelude.{Text, ascii, List, [], ◌∷◌, Result, ok, err, if◌then◌else◌, ◌==◌}
use okf_mcp_rs.Compiler.Run.{SourceJob}

-- The second source fails.
abbrev compile_fn : SourceJob → Result Text (List Text)
compile_fn job =
    if job.position == 2 then err (ascii "no") else ok (ascii "wiki/concepts/a.md" ∷ [])

abbrev sources : List (Text × Text)
sources = (ascii "u", ascii "raw_1") ∷ (ascii "w", ascii "raw_2") ∷ (ascii "x", ascii "raw_3") ∷ []
