-- ===== src/Core/ComponentRegistry.antt =====
-- src/core/component_registry.rs: the health of the server's components. The `HashMap` is an
-- association list, and the time of a report is an argument.
pub mod Status
mod Tests
use okf_mcp_rs.Prelude.{
  ℕ, Bool, true, false, not, Text, Option, none, some, List, [], ◌∷◌, map, any, if◌then◌else◌, ◌&&◌,
}
use okf_mcp_rs.Prelude.Assoc.{Assoc, lookup, insert}

pub data ComponentStatus : Type 0 where
  healthy degraded unhealthy : ComponentStatus

pub record ComponentState : Type 0 where
  pub name : Text
  pub critical : Bool
  pub status : ComponentStatus
  pub last_checked_at : Option ℕ
  pub last_error : Option Text

pub record ComponentRegistry : Type 0 where
  pub components : Assoc ComponentState

abbrev pub new : ComponentRegistry
new = record { components = [] }

unfoldable pub register : ComponentRegistry → Text → Bool → ComponentRegistry
register r name critical = record {
  components =
      insert name
        (record {
          name = name;
          critical = critical;
          status = healthy;
          last_checked_at = none;
          last_error = none;
        })
        r.components;
}

abbrev pub critical_or_false : Option ComponentState → Bool
critical_or_false none = false
critical_or_false (some existing) = existing.critical

unfoldable pub report :
    ComponentRegistry → Text → ComponentStatus → Option Text → ℕ → ComponentRegistry
report r name status error now = record {
  components =
      insert name
        (record {
          name = name;
          critical = critical_or_false (lookup name r.components);
          status = status;
          last_checked_at = some now;
          last_error = error;
        })
        r.components;
}

abbrev pub is_healthy : ComponentStatus → Bool
is_healthy healthy = true
is_healthy _ = false

abbrev pub is_unhealthy : ComponentStatus → Bool
is_unhealthy unhealthy = true
is_unhealthy _ = false

abbrev pub is_fatal : ComponentState → Bool
is_fatal c = c.critical && is_unhealthy c.status

abbrev pub is_impaired : ComponentState → Bool
is_impaired c = not (is_healthy c.status)

unfoldable pub snapshot : ComponentRegistry → List ComponentState
snapshot r = map (λ entry. entry.1) r.components

unfoldable pub overall_status : ComponentRegistry → ComponentStatus
overall_status r =
    let states = snapshot r in
    if any is_fatal states then unhealthy else if any is_impaired states then degraded else healthy

-- What happens to a registry.
pub data Call : Type 0 where
  registers : Text → Bool → Call
  reports : Text → ComponentStatus → Option Text → ℕ → Call

unfoldable pub apply : ComponentRegistry → Call → ComponentRegistry
apply r (registers name critical) = register r name critical
apply r (reports name status error now) = report r name status error now

unfoldable pub run : ComponentRegistry → List Call → ComponentRegistry
run r [] = r
run r (call ∷ calls) = run (apply r call) calls
