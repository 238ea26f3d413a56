-- ===== src/Manifest/Active.antt =====
-- What a client sees of the manifest: for a URI the raw id and the hash of its active version. The
-- operations refine a map from URIs to such pairs.
use okf_mcp_rs.Prelude.{
  Text, text_eq, text_eq_iff, ◌≡◌, refl, sym, ap, ◌∙◌, Bool, false, Option, none, some, List, [],
  ◌∷◌, arith, if◌then◌else◌, find, map, filter-append, modify_first, to_list, Bool-cases,
  Result-cases, inl, inr, ok, err,
}
use okf_mcp_rs.Prelude.Assoc.{lookup, insert, lookup-insert, lookup-remove}
use okf_mcp_rs.Manifest.{
  Manifest, SourceEntry, SourceVersion, IngestOutcome, no_op, fresh, replaced, is_active, supersede,
  entry_ingest, or_default, record_ingest, tombstone, tombstone_at, tombstone_entry, purge,
  mark_compiled, record_raw_path, update_entry, opt_text_eq, get_active_raw_id, active_raw_id,
  TombstoneError,
}
use okf_mcp_rs.Manifest.Invariant.{
  IsValidEntry, IsValid, actives, no_actives, supersede-off, tombstoned-off, tombstone_entry-eq-ok,
  or_default-IsValidEntry,
}
use okf_mcp_rs.Manifest.Steps.{
  Op, ingest, delete, purge_all, compiled, raw_path, or_same, apply, run, apply-IsValid,
}

abbrev pub Active : Type 0
Active = Option (Text × Text)

abbrev pub head_key : List SourceVersion → Active
head_key [] = none
head_key (v ∷ l) = some (v.raw_id, v.hash)

abbrev pub active_of : Option SourceEntry → Active
active_of none = none
active_of (some e) = head_key (actives e.history)

-- The abstract state of a manifest.
abbrev pub View : Type 0
View = Text → Active

abbrev pub view : Manifest → View
view m uri = active_of (lookup uri m.sources)

abbrev pub put : View → Text → Active → View
put v uri a j = if text_eq uri j then a else v j

abbrev pub has_hash : Active → Text → Bool
has_hash none hash = false
has_hash (some (raw_id, h)) hash = text_eq h hash

abbrev pub spec_apply : View → Op → View
spec_apply v (ingest uri hash raw_id at) =
    put v uri (if has_hash (v uri) hash then v uri else some (raw_id, hash))
spec_apply v (delete uri reason at) = put v uri none
spec_apply v (purge_all uri) = put v uri none
spec_apply v (compiled uri) = v
spec_apply v (raw_path uri raw_id path) = v

abbrev pub spec_run : View → List Op → View
spec_run v [] = v
spec_run v (op ∷ ops) = spec_run (spec_apply v op) ops

abbrev pub spec_outcome : Active → Text → Text → IngestOutcome
spec_outcome none hash raw_id = fresh raw_id
spec_outcome (some (previous, h)) hash raw_id =
    if text_eq h hash then no_op else replaced raw_id previous

has_hash_lem :
    (l : List SourceVersion) (o : Option Text) (hash : Text)
    → map (λ v. v.hash) l ≡ to_list o
    → has_hash (head_key l) hash ≡ opt_text_eq o (some hash)
unfolding opt_text_eq
has_hash_lem [] none hash h = refl
has_hash_lem [] (some x) hash h = cc
has_hash_lem (v ∷ []) none hash h = cc
has_hash_lem (v ∷ []) (some x) hash h = ground arith
has_hash_lem (v ∷ w ∷ l) none hash h = cc
has_hash_lem (v ∷ w ∷ l) (some x) hash h = cc

find-eq-head :
    (l : List SourceVersion) → find is_active l ≡ elim (actives l) [ [] ↦ none | v ∷ _ ↦ some v ]
find-eq-head [] = refl
find-eq-head (v ∷ l) = ground (arith, find-eq-head l)

module _ (hash raw_id at : Text) where
  active_of-entry_ingest :
      (e : SourceEntry)
      → IsValidEntry e
      → active_of (some (entry_ingest e hash raw_id at).0)
        ≡ (if has_hash (active_of (some e)) hash then active_of (some e) else some (raw_id, hash))
  unfolding entry_ingest is_active
  active_of-entry_ingest e h =
      rw (has_hash_lem (actives e.history) e.active_hash hash h.hashes)
        (elim (Bool-cases (opt_text_eq e.active_hash (some hash))) [
          | inl same ↦ rw same
          | inr new ↦
              rw (new, filter-append, no_actives (supersede raw_id) (supersede-off raw_id) e h)
        ])

  outcome-entry_ingest :
      (e : SourceEntry)
      → IsValidEntry e
      → (entry_ingest e hash raw_id at).1 ≡ spec_outcome (active_of (some e)) hash raw_id
  unfolding entry_ingest
  outcome-entry_ingest e h =
      ground (
        arith,
        has_hash_lem (actives e.history) e.active_hash hash h.hashes,
        find-eq-head e.history,
      )

active_of-or_default : (o : Option SourceEntry) → active_of (some (or_default o)) ≡ active_of o
active_of-or_default none = refl
active_of-or_default (some e) = refl

view-insert :
    (m : Manifest) (uri j : Text) (e : SourceEntry)
    → view (record { sources = insert uri e m.sources }) j ≡ put (view m) uri (active_of (some e)) j
view-insert m uri j e = rw lookup-insert (ground arith)

-- Recording an ingest from a valid manifest reports `NoOp` exactly when the active version of the
-- URI has the hash, else `New` when none is active and `Superseded` with the raw id of the version
-- that was active; the active version of the URI becomes the given one unless the hash was active
-- already, and that of every other URI stays.
pub record_ingest-refines :
    (m : Manifest) (uri hash raw_id at : Text)
    → IsValid m
    → ((record_ingest m uri hash raw_id at).1 ≡ spec_outcome (view m uri) hash raw_id)
      × ((j : Text)
          → view (record_ingest m uri hash raw_id at).0 j
            ≡ spec_apply (view m) (ingest uri hash raw_id at) j)
unfolding record_ingest
record_ingest-refines m uri hash raw_id at h =
    let o = lookup uri m.sources in
    let v = or_default-IsValidEntry m h uri o refl in
    (
      outcome-entry_ingest hash raw_id at (or_default o) v
          ∙ ap (λ a. spec_outcome a hash raw_id) (active_of-or_default o),
      λ j.
          view-insert m uri j (entry_ingest (or_default o) hash raw_id at).0
          ∙ ap (λ a. put (view m) uri a j)
              (active_of-entry_ingest hash raw_id at (or_default o) v
                ∙ ap (λ a. if has_hash a hash then a else some (raw_id, hash))
                    (active_of-or_default o)),
    )

no_head : (e : SourceEntry) → find is_active e.history ≡ none → active_of (some e) ≡ none
no_head e q = ground (arith, find-eq-head e.history)

tombstone_entry-err :
    (reason at : Text) (e : SourceEntry) (x : TombstoneError)
    → tombstone_entry reason at e ≡ err x
    → active_of (some e) ≡ none
unfolding tombstone_entry
tombstone_entry-err reason at e x q = ground (arith, find-eq-head e.history)

active_of-tombstone_entry :
    (reason at : Text) (e e' : SourceEntry)
    → IsValidEntry e
    → tombstone_entry reason at e ≡ ok e'
    → active_of (some e') ≡ none
active_of-tombstone_entry reason at e e' h q =
    rw (tombstone_entry-eq-ok reason at e e' q) (rw (no_actives _ (tombstoned-off reason at) e h))

put_same :
    (m : Manifest) (uri j : Text) (a : Active) → view m uri ≡ a → view m j ≡ put (view m) uri a j
put_same m uri j a h = elim (Bool-cases (text_eq uri j)) [
  | inl same ↦ rw same (ap (view m) (sym ((text_eq_iff uri j).0 same)) ∙ h)
  | inr other ↦ rw other
]

module _ (m : Manifest) (h : IsValid m) where
  view-tombstone_at :
      (uri reason at j : Text) (o : Option SourceEntry)
      → lookup uri m.sources ≡ o
      → view (or_same m (tombstone_at m uri reason at o)) j ≡ put (view m) uri none j
  unfolding tombstone_at
  view-tombstone_at uri reason at j none q = put_same m uri j none (ap active_of q)
  view-tombstone_at uri reason at j (some e) q = elim (Result-cases (tombstone_entry reason at e)) [
    | inl (e', r) ↦
        rw (r, tombstone_at)
          (view-insert m uri j e'
            ∙ ap (λ a. put (view m) uri a j)
                (active_of-tombstone_entry reason at e e' (h.entries uri e q) r))
    | inr (x, r) ↦
        rw (r, tombstone_at)
          (put_same m uri j none (ap active_of q ∙ tombstone_entry-err reason at e x r))
  ]

  view-update_entry :
      (f : SourceEntry → SourceEntry) (uri j : Text) (o : Option SourceEntry)
      → lookup uri m.sources ≡ o
      → ((e : SourceEntry) → active_of (some (f e)) ≡ active_of (some e))
      → view (update_entry f m uri o) j ≡ view m j
  unfolding update_entry
  view-update_entry f uri j none q same = refl
  view-update_entry f uri j (some e) q same =
      view-insert m uri j (f e) ∙ sym (put_same m uri j _ (ap active_of q ∙ sym (same e)))

-- A change of a version that leaves its status, raw id and hash.
head_key-modify_first :
    (p : SourceVersion → Bool) (path : Text) (l : List SourceVersion)
    → head_key (actives (modify_first p (λ v. record v { raw_path = some path }) l))
      ≡ head_key (actives l)
unfolding is_active
head_key-modify_first p path [] = refl
head_key-modify_first p path (v ∷ l) = ground (arith, head_key-modify_first p path l)

-- Each call, a failing one included, changes the active versions as the specification says.
pub apply-refines :
    (m : Manifest) (op : Op) (j : Text) → IsValid m → view (apply m op) j ≡ spec_apply (view m) op j
unfolding apply tombstone purge mark_compiled record_raw_path
apply-refines m (ingest uri hash raw_id at) j h = (record_ingest-refines m uri hash raw_id at h).1 j
apply-refines m (delete uri reason at) j h = view-tombstone_at m h uri reason at j _ refl
apply-refines m (purge_all uri) j h = rw lookup-remove (ground arith)
apply-refines m (compiled uri) j h = view-update_entry m h _ uri j _ refl (λ e. refl)
apply-refines m (raw_path uri raw_id path) j h =
    view-update_entry m h _ uri j _ refl (λ e. head_key-modify_first _ path e.history)

spec_apply-ext :
    (v w : View) (op : Op)
    → ((j : Text) → v j ≡ w j)
    → (j : Text) → spec_apply v op j ≡ spec_apply w op j
spec_apply-ext v w (ingest uri hash raw_id at) h j = cc (h uri, h j)
spec_apply-ext v w (delete uri reason at) h j = cc (h j)
spec_apply-ext v w (purge_all uri) h j = cc (h j)
spec_apply-ext v w (compiled uri) h j = h j
spec_apply-ext v w (raw_path uri raw_id path) h j = h j

spec_run-ext :
    (v w : View) (ops : List Op)
    → ((j : Text) → v j ≡ w j)
    → (j : Text) → spec_run v ops j ≡ spec_run w ops j
spec_run-ext v w [] h j = h j
spec_run-ext v w (op ∷ ops) h j =
    spec_run-ext (spec_apply v op) (spec_apply w op) ops (spec_apply-ext v w op h) j

-- After any calls from a valid manifest the active version of every URI is the one that the
-- abstract map of active versions has after the same calls.
pub run-refines :
    (m : Manifest) (ops : List Op) (j : Text)
    → IsValid m
    → view (run m ops) j ≡ spec_run (view m) ops j
unfolding run
run-refines m [] j h = refl
run-refines m (op ∷ ops) j h =
    run-refines (apply m op) ops j (apply-IsValid m op h)
    ∙ spec_run-ext _ _ ops (λ k. apply-refines m op k h) j

abbrev raw_id_of : Active → Option Text
raw_id_of none = none
raw_id_of (some (raw_id, hash)) = some raw_id

-- `get_active_raw_id` reads the abstract map.
pub get_active_raw_id-eq-view :
    (m : Manifest) (uri : Text) → get_active_raw_id m uri ≡ raw_id_of (view m uri)
unfolding get_active_raw_id
get_active_raw_id-eq-view m uri = at (lookup uri m.sources)
  where
    at : (o : Option SourceEntry) → active_raw_id o ≡ raw_id_of (active_of o)
    at none = refl
    at (some e) = ground (arith, find-eq-head e.history)
