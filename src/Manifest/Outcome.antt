-- ===== src/Manifest/Outcome.antt =====
-- The raw id that an ingest reports.
use okf_mcp_rs.Prelude.{◌≡◌, refl, inl, inr, Text, Bool-cases, Option-cases, find, some}
use okf_mcp_rs.Prelude.Assoc.{lookup}
use okf_mcp_rs.Manifest.{
  Manifest, SourceEntry, IngestOutcome, no_op, fresh, replaced, is_active, opt_text_eq,
  entry_ingest, or_default, record_ingest,
}

abbrev pub HasRawId : Text → IngestOutcome → Type 0
HasRawId raw_id no_op = Unit
HasRawId raw_id (fresh new) = new ≡ raw_id
HasRawId raw_id (replaced new previous) = new ≡ raw_id

entry_ingest-HasRawId :
    (e : SourceEntry) (hash raw_id at : Text) → HasRawId raw_id (entry_ingest e hash raw_id at).1
unfolding entry_ingest
entry_ingest-HasRawId e hash raw_id at = elim (Bool-cases (opt_text_eq e.active_hash (some hash))) [
  | inl same ↦ rw same tt
  | inr new ↦ elim (Option-cases (find is_active e.history)) [
    | inl n ↦ rw (new, n) refl
    | inr (v, n) ↦ rw (new, n) refl
  ]
]

pub record_ingest-HasRawId :
    (m : Manifest) (uri hash raw_id at : Text)
    → HasRawId raw_id (record_ingest m uri hash raw_id at).1
unfolding record_ingest
record_ingest-HasRawId m uri hash raw_id at =
    entry_ingest-HasRawId (or_default (lookup uri m.sources)) hash raw_id at
