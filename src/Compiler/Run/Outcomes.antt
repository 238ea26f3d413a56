-- ===== src/Compiler/Run/Outcomes.antt =====
-- What the callback of a run logs.
use okf_mcp_rs.Prelude.{
  Bool-cases, ◌≡◌, refl, ap, inl, inr, ℕ, Text, List, [], ◌∷◌, ◌++◌, Result, ok, err,
}
use okf_mcp_rs.Compiler.Run.{
  SourceOutcome, SourceJobResult, RunState, next_save, error_of, after_outcome, save_marked,
  on_result,
}

-- What is logged of a source that has been compiled.
abbrev pub outcome_of : SourceJobResult → SourceOutcome
outcome_of result = record {
  uri = result.uri;
  raw_id = result.raw_id;
  error = error_of result.outcome;
}

save_marked-outcomes : (uri : Text) (s : RunState) → (save_marked uri s).outcomes ≡ s.outcomes
unfolding save_marked
save_marked-outcomes uri s = elim (Bool-cases s.manifest_save_failed) [
  | inl t ↦ rw (save_marked, t) refl
  | inr f ↦ elim (Bool-cases (next_save s.saves)) [
    | inl t ↦ rw (save_marked, f, t) refl
    | inr n ↦ rw (save_marked, f, n) refl
  ]
]

after_outcome-outcomes :
    (uri : Text) (outcome : Result Text (List Text)) (s : RunState)
    → (after_outcome uri outcome s).outcomes ≡ s.outcomes
after_outcome-outcomes uri (ok paths) s = save_marked-outcomes uri s
after_outcome-outcomes uri (err e) s = refl

pub on_result-outcomes :
    (s : RunState) (idx : ℕ) (result : SourceJobResult)
    → (on_result s idx result).0.outcomes ≡ s.outcomes ++ outcome_of result ∷ []
unfolding on_result
on_result-outcomes s idx result =
    ap (λ l. l ++ outcome_of result ∷ []) (after_outcome-outcomes result.uri result.outcome s)
