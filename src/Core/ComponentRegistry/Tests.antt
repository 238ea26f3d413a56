-- ===== src/Core/ComponentRegistry/Tests.antt =====
-- A critical component and an optional one.
use okf_mcp_rs.Prelude.{◌≡◌, ◌↔◌, refl, true, false, ascii, text_eq, none, List, [], ◌∷◌, All}
use okf_mcp_rs.Prelude.Assoc.{lookup, insert}
use okf_mcp_rs.Core.ComponentRegistry.{
  healthy, degraded, unhealthy, new, register, report, is_impaired, snapshot, overall_status, Call,
  registers, reports, apply, run,
}
use okf_mcp_rs.Core.ComponentRegistry.Status.{Has, Spares, overall_status_healthy_iff}

abbrev calls : List Call
calls =
    registers (ascii "db") true
    ∷ registers (ascii "cache") false
    ∷ reports (ascii "cache") unhealthy none 7
    ∷ []

degraded_by_cache : overall_status (run new calls) ≡ degraded
unfolding overall_status snapshot run apply register report insert lookup text_eq
degraded_by_cache = refl

overall_status_healthy_iff_example :
    (overall_status (run new calls) ≡ healthy) ↔ (Has is_impaired (run new calls).components → ⊥)
overall_status_healthy_iff_example = overall_status_healthy_iff calls

abbrev later : List Call
later = reports (ascii "db") unhealthy none 8 ∷ registers (ascii "cache") true ∷ []

later-Spares : All (Spares (ascii "db")) later
unfolding text_eq
later-Spares = (tt, (refl, tt))
