-- ===== src/Manifest/Entry.antt =====
-- The data of src/manifest/model.rs, and what `Manifest::record_ingest` does to one source's entry.
use okf_mcp_rs.Prelude.{
  Text, text_eq, text_eq_iff, ◌≡◌, ◌↔◌, Bool, true, false, Option, none, some, List, [], ◌∷◌, ◌++◌,
  arith, if◌then◌else◌, find, modify_first,
}

pub data SourceStatus : Type 0 where
  active : SourceStatus
  superseded : Text → SourceStatus
  tombstoned : Text → Text → SourceStatus

pub record SourceVersion : Type 0 where
  pub raw_id : Text
  pub hash : Text
  pub ingested_at : Text
  pub raw_path : Option Text
  pub status : SourceStatus

pub record SourceEntry : Type 0 where
  pub active_hash : Option Text
  pub compiled_hash : Option Text
  pub history : List SourceVersion

abbrev pub default_entry : SourceEntry
default_entry = record { active_hash = none; compiled_hash = none; history = [] }

-- `New` is `fresh` and `Superseded` is `replaced`, which holds the new and the previous raw id.
pub data IngestOutcome : Type 0 where
  no_op : IngestOutcome
  fresh : Text → IngestOutcome
  replaced : Text → Text → IngestOutcome

unfoldable pub opt_text_eq : Option Text → Option Text → Bool
opt_text_eq none none = true
opt_text_eq (some a) (some b) = text_eq a b
opt_text_eq _ _ = false

pub opt_text_eq_iff : (a b : Option Text) → (opt_text_eq a b ≡ true) ↔ (a ≡ b)
unfolding opt_text_eq
opt_text_eq_iff none none = ground arith
opt_text_eq_iff (some a) (some b) = ground (arith, text_eq_iff a b)
opt_text_eq_iff (some a) none = ground arith
opt_text_eq_iff none (some b) = ground arith

active_status : SourceStatus → Bool
active_status active = true
active_status _ = false

unfoldable pub is_active : SourceVersion → Bool
unfolding active_status
is_active v = active_status v.status

-- The closure that `record_ingest` applies to the version that was active.
unfoldable pub supersede : Text → SourceVersion → SourceVersion
supersede by_raw_id v = record v { status = superseded by_raw_id }

ingest_outcome : Text → Option SourceVersion → IngestOutcome
ingest_outcome raw_id none = fresh raw_id
ingest_outcome raw_id (some v) = replaced raw_id v.raw_id

unfoldable pub entry_ingest : SourceEntry → Text → Text → Text → SourceEntry × IngestOutcome
unfolding supersede ingest_outcome
entry_ingest e hash raw_id ingested_at =
    if opt_text_eq e.active_hash (some hash) then (e, no_op) else (
      record e {
        active_hash = some hash;
        history =
            modify_first is_active (supersede raw_id) e.history
            ++ record {
              raw_id = raw_id;
              hash = hash;
              ingested_at = ingested_at;
              raw_path = none;
              status = active;
            }
              ∷ [];
      },
      ingest_outcome raw_id (find is_active e.history),
    )
