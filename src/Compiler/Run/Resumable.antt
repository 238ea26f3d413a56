-- ===== src/Compiler/Run/Resumable.antt =====
-- What a run leaves in the vault's manifest, wherever it stops.
use okf_mcp_rs.Prelude.{◌≡◌, Text, Bool, false, Option, none, some, List, [], ◌∷◌, ◌++◌, filter_map}
use okf_mcp_rs.Manifest.{Manifest, mark_compiled}
use okf_mcp_rs.Compiler.Run.{SourceOutcome, RunState}

-- The URI of a source that was compiled without an error.
abbrev pub success : SourceOutcome → Option Text
success o = elim o.error [ none ↦ some o.uri | some e ↦ none ]

abbrev pub successes : List SourceOutcome → List Text
successes outcomes = filter_map success outcomes

-- The manifest with each of the sources marked compiled, in turn.
abbrev pub marks : Manifest → List Text → Manifest
marks m [] = m
marks m (uri ∷ uris) = marks (mark_compiled m uri) uris

-- The saved manifest has the marks of the first so many successes, and of all of them unless a save
-- has failed.
pub record IsResumable (m : Manifest) (s : RunState) : Type 0 where
  pub marked : List Text
  pub unmarked : List Text
  pub every : successes s.outcomes ≡ marked ++ unmarked
  pub on_disk : s.saved ≡ marks m marked
  pub none_unmarked : s.manifest_save_failed ≡ false → (unmarked ≡ []) × (s.manifest ≡ s.saved)

abbrev state : Manifest → Manifest → List Bool → Bool → List SourceOutcome → List Text → RunState
state manifest saved saves failed outcomes touched = record {
  manifest = manifest;
  saved = saved;
  saves = saves;
  manifest_save_failed = failed;
  outcomes = outcomes;
  touched_paths = touched;
}
