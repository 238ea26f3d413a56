-- ===== src/Core/HealthCheckManager/Tests.antt =====
-- A manager with two checks.
use okf_mcp_rs.Prelude.{◌≡◌, refl, ascii, text_eq, true, false, []}
use okf_mcp_rs.Prelude.Assoc.{lookup, insert}
use okf_mcp_rs.Core.ComponentRegistry
use okf_mcp_rs.Core.ComponentRegistry.{new, degraded, unhealthy, overall_status, snapshot, report}
use okf_mcp_rs.Core.HealthCheckManager.{
  HealthCheckManager, passes, times_out, register, run_checks, run_once,
}

abbrev manager : HealthCheckManager
manager =
    register (register (record { registry = new; checks = [] }) (ascii "db") true (λ now. passes))
      (ascii "api") false (λ now. times_out)

one_times_out : overall_status (run_once manager 7).registry ≡ degraded
unfolding run_once run_checks register ComponentRegistry.register report overall_status snapshot
    insert lookup text_eq
one_times_out = refl
