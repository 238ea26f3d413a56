-- ===== src/Manifest/Lookup.antt =====
-- The searches by raw id, after a source has gone back to an earlier content.
use okf_mcp_rs.Prelude.{Text, text_eq, text_eq_refl, text_eq_ne, ◌≡◌, ◌≢◌, sym, none, some, []}
use okf_mcp_rs.Prelude.Assoc.{lookup, insert}
use okf_mcp_rs.Manifest.{
  Manifest, superseded, empty, is_active, supersede, entry_ingest, opt_text_eq, record_ingest,
  find_version, get_active_raw_id,
}

-- The manifest of one source whose content went from the first to the second and back.
abbrev pub reverted : (uri hash hash' raw_id raw_id' : Text) → Manifest
reverted uri hash hash' raw_id raw_id' =
    let m = (record_ingest empty uri hash raw_id []).0 in
    let m' = (record_ingest m uri hash' raw_id' []).0 in (record_ingest m' uri hash raw_id []).0

module _ (uri hash hash' raw_id raw_id' : Text) (change : hash ≢ hash') where
  -- After a source has gone from one content to another and back, its active version has the first
  -- raw id, and `find_version` reports that raw id as superseded by the second.
  pub find_version-reverted :
      (get_active_raw_id (reverted uri hash hash' raw_id raw_id') uri ≡ some raw_id)
      × (find_version (reverted uri hash hash' raw_id raw_id') raw_id
          ≡ some (
            uri,
            record {
              raw_id = raw_id;
              hash = hash;
              ingested_at = [];
              raw_path = none;
              status = superseded raw_id';
            },
          ))
  unfolding record_ingest entry_ingest lookup insert opt_text_eq is_active supersede
      get_active_raw_id find_version text_eq
  find_version-reverted =
      let e = text_eq_refl uri in
      let r = text_eq_refl raw_id in
      let n = text_eq_ne hash hash' change in
      let n' = text_eq_ne hash' hash (λ q. change (sym q)) in
      (rw (e, n, e, n', e), rw (e, n, e, n', r))
