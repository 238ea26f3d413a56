-- ===== src/Compiler/Run.antt =====
-- src/compiler/driver.rs: `run_compile_sources`, over `run_bounded`. The compilation of a source is
-- a parameter. The manifest in the vault stands beside the variables that the callback captures;
-- `saves` says which saves to come work. Progress lines are output and left out.
pub mod Outcomes
pub mod Resumable
mod Tests
use okf_mcp_rs.Prelude.{
  ℕ, suc, Text, Bool, true, false, not, Option, none, some, List, [], ◌∷◌, ◌++◌, if◌then◌else◌,
  Result, ok, err,
}
use okf_mcp_rs.Manifest.{Manifest, mark_compiled}
use okf_mcp_rs.Compiler.Concurrency.{run_bounded}

pub record SourceOutcome : Type 0 where
  pub uri : Text
  pub raw_id : Text
  pub error : Option Text

pub record SourceJob : Type 0 where
  pub position : ℕ
  pub uri : Text
  pub raw_id : Text

pub record SourceJobResult : Type 0 where
  pub position : ℕ
  pub uri : Text
  pub raw_id : Text
  pub outcome : Result Text (List Text)

-- What the callback changes, and the vault's manifest.
pub record RunState : Type 0 where
  pub manifest : Manifest
  pub saved : Manifest
  pub saves : List Bool
  pub manifest_save_failed : Bool
  pub outcomes : List SourceOutcome
  pub touched_paths : List Text

abbrev pub next_save : List Bool → Bool
next_save [] = true
next_save (works ∷ saves) = works

abbrev pub later_saves : List Bool → List Bool
later_saves [] = []
later_saves (works ∷ saves) = saves

unfoldable pub jobs_from : ℕ → List (Text × Text) → List SourceJob
jobs_from n [] = []
jobs_from n ((uri, raw_id) ∷ sources) =
    record { position = suc n; uri = uri; raw_id = raw_id } ∷ jobs_from (suc n) sources

-- `mark_compiled` and the save after it, where no save has failed before.
unfoldable pub save_marked : Text → RunState → RunState
save_marked uri s =
    let m = mark_compiled s.manifest uri in
    if s.manifest_save_failed
    then s
    else if next_save s.saves
    then record s { manifest = m; saved = m; saves = later_saves s.saves }
    else record s { manifest = m; saves = later_saves s.saves; manifest_save_failed = true }

abbrev pub error_of : Result Text (List Text) → Option Text
error_of (ok paths) = none
error_of (err e) = some e

abbrev pub after_outcome : Text → Result Text (List Text) → RunState → RunState
after_outcome uri (err e) s = s
after_outcome uri (ok paths) s =
    let s' = save_marked uri s in record s' { touched_paths = s'.touched_paths ++ paths }

-- The callback: whether it wants more sources dispatched.
unfoldable pub on_result : RunState → ℕ → SourceJobResult → RunState × Bool
on_result s idx result =
    let s' = after_outcome result.uri result.outcome s in
    let outcome : SourceOutcome = record {
      uri = result.uri;
      raw_id = result.raw_id;
      error = error_of result.outcome;
    } in
    (record s' { outcomes = s'.outcomes ++ outcome ∷ [] }, not s'.manifest_save_failed)

module _ (compile_fn : SourceJob → Result Text (List Text)) where
  unfoldable pub compile_job : SourceJob → SourceJobResult
  compile_job job = record {
    position = job.position;
    uri = job.uri;
    raw_id = job.raw_id;
    outcome = compile_fn job;
  }

  -- The state after the run: the run is an error when `manifest_save_failed`. `none` only when the
  -- fuel of `run_bounded` runs out.
  unfoldable pub run_compile_sources :
      (ℕ → ℕ)
      → Manifest
      → List Bool
      → List (Text × Text)
      → ℕ
      → Option (List SourceJobResult × RunState)
  run_compile_sources choose m saves sources concurrency =
      run_bounded compile_job on_result choose (jobs_from 0 sources) concurrency (record {
        manifest = m;
        saved = m;
        saves = saves;
        manifest_save_failed = false;
        outcomes = [];
        touched_paths = [];
      })
