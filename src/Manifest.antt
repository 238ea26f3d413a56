-- ===== src/Manifest.antt =====
-- src/manifest/model.rs: the manifest, a map from the URI of a source to the history of its
-- versions. A method on `&mut self` returns the new manifest beside its result. `HashMap` is an
-- association list, whose order stands for the map's iteration order.
mod Entry
pub mod Invariant
pub mod Steps
pub mod Outcome
mod Tests
pub mod Lookup
pub mod Compiled
pub mod History
pub mod Active
pub use Entry.{
  SourceStatus, active, superseded, tombstoned, SourceVersion, SourceEntry, IngestOutcome, no_op,
  fresh, replaced,
}
unfoldable pub use Entry.{opt_text_eq, is_active, supersede, entry_ingest}
pub use Entry.{default_entry, opt_text_eq_iff}
use okf_mcp_rs.Prelude.{
  Text, text_eq, Bool, true, false, ◌&&◌, Option, none, some, List, [], ◌∷◌, if◌then◌else◌, find,
  find_map, filter_map, modify_first, Result, ok, err,
}
use okf_mcp_rs.Prelude.Assoc.{Assoc, lookup, insert, remove}

pub record Manifest : Type 0 where
  pub sources : Assoc SourceEntry

abbrev pub empty : Manifest
empty = record { sources = [] }

active_raw_id : Option SourceEntry → Option Text
active_raw_id none = none
active_raw_id (some e) = elim (find is_active e.history) [ none ↦ none | some v ↦ some v.raw_id ]

unfoldable pub get_active_raw_id : Manifest → Text → Option Text
unfolding active_raw_id
get_active_raw_id m uri = active_raw_id (lookup uri m.sources)

-- `entry(uri).or_default()`
abbrev pub or_default : Option SourceEntry → SourceEntry
or_default none = default_entry
or_default (some e) = e

unfoldable pub record_ingest : Manifest → Text → Text → Text → Text → Manifest × IngestOutcome
record_ingest m uri hash raw_id ingested_at =
    let (e, outcome) = entry_ingest (or_default (lookup uri m.sources)) hash raw_id ingested_at in
    (record { sources = insert uri e m.sources }, outcome)

-- The two errors of `tombstone`.
pub data TombstoneError : Type 0 where
  no_source no_active_version : TombstoneError

pub tombstone_entry : Text → Text → SourceEntry → Result TombstoneError SourceEntry
tombstone_entry reason at e = elim (find is_active e.history) [
  | none ↦ err no_active_version
  | some v ↦ ok (record e {
    active_hash = none;
    history = modify_first is_active (λ w. record w { status = tombstoned reason at }) e.history;
  })
]

-- What is written before an error stays: nothing is.
tombstone_at : Manifest → Text → Text → Text → Option SourceEntry → Result TombstoneError Manifest
tombstone_at m uri reason at none = err no_source
tombstone_at m uri reason at (some e) = elim (tombstone_entry reason at e) [
  | err x ↦ err x
  | ok e' ↦ ok (record { sources = insert uri e' m.sources })
]

unfoldable pub tombstone : Manifest → Text → Text → Text → Result TombstoneError Manifest
unfolding tombstone_at
tombstone m uri reason at = tombstone_at m uri reason at (lookup uri m.sources)

unfoldable pub purge : Manifest → Text → Manifest × Option SourceEntry
purge m uri = (record { sources = remove uri m.sources }, lookup uri m.sources)

-- `if let Some(entry) = self.sources.get_mut(uri)` with an assignment to the entry.
update_entry : (SourceEntry → SourceEntry) → Manifest → Text → Option SourceEntry → Manifest
update_entry f m uri none = m
update_entry f m uri (some e) = record { sources = insert uri (f e) m.sources }

unfoldable pub mark_compiled : Manifest → Text → Manifest
unfolding update_entry
mark_compiled m uri =
    update_entry (λ e. record e { compiled_hash = e.active_hash }) m uri (lookup uri m.sources)

is_compiled_entry : Option SourceEntry → Bool
is_compiled_entry none = false
is_compiled_entry (some e) = elim e.compiled_hash [
  | none ↦ false
  | some h ↦ opt_text_eq (some h) e.active_hash
]

unfoldable pub is_compiled_at_current_hash : Manifest → Text → Bool
unfolding is_compiled_entry
is_compiled_at_current_hash m uri = is_compiled_entry (lookup uri m.sources)

unfoldable pub record_raw_path : Manifest → Text → Text → Text → Manifest
unfolding update_entry
record_raw_path m uri raw_id raw_path =
    update_entry
      (λ e. record e {
        history =
            modify_first (λ v. text_eq v.raw_id raw_id) (λ v. record v { raw_path = some raw_path })
              e.history;
      })
      m uri (lookup uri m.sources)

path_in : Text → SourceEntry → Option Text
path_in raw_id e = elim (find (λ v. text_eq v.raw_id raw_id) e.history) [
  | none ↦ none
  | some v ↦ v.raw_path
]

unfoldable pub raw_path_for : Manifest → Text → Option Text
unfolding path_in
raw_path_for m raw_id = find_map (λ (k : Text × SourceEntry). path_in raw_id k.1) m.sources

version_in : (SourceVersion → Bool) → Text × SourceEntry → Option (Text × SourceVersion)
version_in p (uri, e) = elim (find p e.history) [ none ↦ none | some v ↦ some (uri, v) ]

unfoldable pub find_version : Manifest → Text → Option (Text × SourceVersion)
unfolding version_in
find_version m raw_id = find_map (version_in (λ v. text_eq v.raw_id raw_id)) m.sources

unfoldable pub active_entries : Manifest → List (Text × SourceVersion)
unfolding version_in
active_entries m = filter_map (version_in is_active) m.sources
