-- ===== src/Core/HealthCheckManager.antt =====
-- src/core/health_check_manager.rs: the checks and `run_once`. A check is what its run gives, or the
-- timeout; the timer that repeats the runs is not modelled.
pub mod Latest
mod Tests
use okf_mcp_rs.Prelude.{ℕ, Text, ascii, Bool, Option, none, some, List, [], ◌∷◌, ◌++◌}
use okf_mcp_rs.Core.ComponentRegistry
use okf_mcp_rs.Core.ComponentRegistry.{
  ComponentRegistry, ComponentStatus, healthy, unhealthy, report,
}

-- How a check ends.
pub data CheckOutcome : Type 0 where
  passes : CheckOutcome
  fails_with : Text → CheckOutcome
  times_out : CheckOutcome

-- A check ends in some way at each time at which it is run.
pub record RegisteredCheck : Type 0 where
  pub name : Text
  pub check : ℕ → CheckOutcome

pub record HealthCheckManager : Type 0 where
  pub registry : ComponentRegistry
  pub checks : List RegisteredCheck

unfoldable pub register : HealthCheckManager → Text → Bool → (ℕ → CheckOutcome) → HealthCheckManager
register m name critical check = record {
  registry = ComponentRegistry.register m.registry name critical;
  checks = m.checks ++ record { name = name; check = check } ∷ [];
}

abbrev pub status_of : CheckOutcome → ComponentStatus
status_of passes = healthy
status_of (fails_with e) = unhealthy
status_of times_out = unhealthy

abbrev pub error_of : CheckOutcome → Option Text
error_of passes = none
error_of (fails_with e) = some e
error_of times_out = some (ascii "timed out")

-- The loop; the outcome of each check is reported at once.
unfoldable pub run_checks : List RegisteredCheck → ℕ → ComponentRegistry → ComponentRegistry
run_checks [] now r = r
run_checks (c ∷ checks) now r =
    run_checks checks now (report r c.name (status_of (c.check now)) (error_of (c.check now)) now)

unfoldable pub run_once : HealthCheckManager → ℕ → HealthCheckManager
run_once m now = record m { registry = run_checks m.checks now m.registry }
