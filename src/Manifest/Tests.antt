-- ===== src/Manifest/Tests.antt =====
-- Runs of the manifest's operations, and the theorems at concrete inputs.
use okf_mcp_rs.Prelude.{
  Text, ascii, text_eq, ◌≡◌, ◌≢◌, refl, arith, text_eq_iff, some, none, List, [], ◌∷◌, err,
}
use okf_mcp_rs.Prelude.Assoc.{lookup, insert}
use okf_mcp_rs.Manifest.{
  Manifest, superseded, replaced, is_active, opt_text_eq, entry_ingest, empty, record_ingest,
  tombstone, tombstone_entry, mark_compiled, get_active_raw_id, find_version, no_source,
  no_active_version,
}
use okf_mcp_rs.Manifest.Invariant.{IsValid}
use okf_mcp_rs.Manifest.Steps.{
  Op, ingest, delete, compiled, raw_path, apply, run, reachable-IsValid,
}
use okf_mcp_rs.Manifest.History.{Evolves, history, run-Evolves}
use okf_mcp_rs.Manifest.Active.{view, spec_run, run-refines}
use okf_mcp_rs.Manifest.Lookup.{reverted, find_version-reverted}

abbrev uri : Text
uri = ascii "uri"

abbrev hash_a : Text
hash_a = ascii "sha256:aaa"

abbrev hash_b : Text
hash_b = ascii "sha256:bbb"

abbrev raw_a : Text
raw_a = ascii "raw_aaa"

abbrev raw_b : Text
raw_b = ascii "raw_bbb"

abbrev calls : List Op
calls =
    ingest uri hash_a raw_a []
    ∷ raw_path uri raw_a (ascii "raw/raw_aaa.md")
    ∷ compiled uri
    ∷ ingest uri hash_b raw_b []
    ∷ delete uri (ascii "old") []
    ∷ ingest uri hash_a raw_a []
    ∷ []

abbrev first : Manifest
first = run empty (ingest uri hash_a raw_a [] ∷ compiled uri ∷ [])

first-IsValid : IsValid first
first-IsValid = reachable-IsValid (ingest uri hash_a raw_a [] ∷ compiled uri ∷ [])

second_ingest_supersedes : (record_ingest first uri hash_b raw_b []).1 ≡ replaced raw_b raw_a
unfolding run apply record_ingest entry_ingest mark_compiled lookup insert text_eq opt_text_eq
    is_active
second_ingest_supersedes = refl

tombstone_errors :
    (tombstone empty uri [] [] ≡ err no_source)
    × (tombstone (run first (delete uri [] [] ∷ [])) uri [] [] ≡ err no_active_version)
unfolding run apply record_ingest entry_ingest mark_compiled tombstone tombstone_entry lookup insert
    text_eq opt_text_eq is_active
tombstone_errors = (refl, refl)

reachable-IsValid_example : IsValid (run empty calls)
reachable-IsValid_example = reachable-IsValid calls

run-Evolves_example : Evolves (history first uri) (history (run first calls) uri)
run-Evolves_example = run-Evolves first calls uri (omega arith)

run-refines_example : view (run first calls) uri ≡ spec_run (view first) calls uri
run-refines_example = run-refines first calls uri first-IsValid

a_not_b : hash_a ≢ hash_b
a_not_b e = ground (arith, text_eq_iff hash_a hash_b)

find_version-reverted_example :
    (get_active_raw_id (reverted uri hash_a hash_b raw_a raw_b) uri ≡ some raw_a)
    × (find_version (reverted uri hash_a hash_b raw_a raw_b) raw_a
        ≡ some (
          uri,
          record {
            raw_id = raw_a;
            hash = hash_a;
            ingested_at = [];
            raw_path = none;
            status = superseded raw_b;
          },
        ))
find_version-reverted_example = find_version-reverted uri hash_a hash_b raw_a raw_b a_not_b
