-- ===== src/Core/HealthCheckManager/Latest.antt =====
-- What the registry says of a component after the checks have run.
use okf_mcp_rs.Prelude.{
  ◌≡◌, refl, ◌∙◌, ap, ℕ, inl, inr, Text, text_eq, text_eq_iff, Option, some, List, [], ◌∷◌,
  if◌then◌else◌, Bool-cases,
}
use okf_mcp_rs.Prelude.Assoc.{lookup, lookup-insert}
use okf_mcp_rs.Core.ComponentRegistry.{ComponentRegistry, ComponentState, report, critical_or_false}
use okf_mcp_rs.Core.HealthCheckManager.{
  RegisteredCheck, HealthCheckManager, status_of, error_of, run_checks, run_once,
}

-- What a report makes of a component's state.
abbrev pub checked : RegisteredCheck → ℕ → Option ComponentState → ComponentState
checked c now before = record {
  name = c.name;
  critical = critical_or_false before;
  status = status_of (c.check now);
  last_checked_at = some now;
  last_error = error_of (c.check now);
}

-- The state of a component after the checks of its name, one after the other.
abbrev pub latest : Text → ℕ → List RegisteredCheck → Option ComponentState → Option ComponentState
latest name now [] before = before
latest name now (c ∷ checks) before =
    latest name now checks (if text_eq c.name name then some (checked c now before) else before)

lookup-report :
    (name : Text) (now : ℕ) (c : RegisteredCheck) (r : ComponentRegistry)
    → lookup name
        (report r c.name (status_of (c.check now)) (error_of (c.check now)) now).components
      ≡ (if text_eq c.name name
          then some (checked c now (lookup name r.components))
          else lookup name r.components)
unfolding report
lookup-report name now c r = elim (Bool-cases (text_eq c.name name)) [
  | inl t ↦
      lookup-insert c.name name (checked c now (lookup c.name r.components)) r.components
      ∙ rw t
          (ap (λ n. some (checked c now (lookup n r.components))) ((text_eq_iff c.name name).0 t))
  | inr f ↦
      lookup-insert c.name name (checked c now (lookup c.name r.components)) r.components
      ∙ rw f refl
]

lookup-run_checks :
    (name : Text) (now : ℕ) (checks : List RegisteredCheck) (r : ComponentRegistry)
    → lookup name (run_checks checks now r).components
      ≡ latest name now checks (lookup name r.components)
unfolding run_checks
lookup-run_checks name now [] r = refl
lookup-run_checks name now (c ∷ checks) r =
    lookup-run_checks name now checks _ ∙ ap (latest name now checks) (lookup-report name now c r)

-- After `run_once` the registry has, for each name, the result of the last check of that name, with
-- its error and the time, and as critical as the component was; a name without checks has the state
-- that it had.
pub lookup-run_once :
    (m : HealthCheckManager) (now : ℕ) (name : Text)
    → lookup name (run_once m now).registry.components
      ≡ latest name now m.checks (lookup name m.registry.components)
unfolding run_once
lookup-run_once m now name = lookup-run_checks name now m.checks m.registry
