-- ===== src/Manifest/Compiled.antt =====
-- The flag that a source is compiled at its current content.
use okf_mcp_rs.Prelude.{
  Text, text_eq, text_eq_iff, text_eq_refl, ◌≡◌, ◌≢◌, refl, sym, ap, ◌∙◌, Bool, true, false, Option,
  none, some, List, [], ◌∷◌, arith, if◌then◌else◌, to_list, map, Bool-cases, inl, inr,
}
use okf_mcp_rs.Prelude.Assoc.{lookup, lookup-insert}
use okf_mcp_rs.Manifest.{
  Manifest, SourceEntry, SourceVersion, no_op, entry_ingest, or_default, opt_text_eq,
  opt_text_eq_iff, record_ingest, mark_compiled, is_compiled_at_current_hash, is_compiled_entry,
  update_entry,
}
use okf_mcp_rs.Manifest.Invariant.{IsValidEntry, IsValid, actives}
use okf_mcp_rs.Manifest.Active.{Active, active_of, head_key, view}

abbrev pub is_some : Active → Bool
is_some none = false
is_some (some a) = true

is_some-head_key :
    (l : List SourceVersion) (o : Option Text)
    → map (λ v. v.hash) l ≡ to_list o
    → is_some (head_key l) ≡ elim o [ none ↦ false | some h ↦ true ]
is_some-head_key [] none h = refl
is_some-head_key [] (some x) h = cc
is_some-head_key (v ∷ l) none h = cc
is_some-head_key (v ∷ l) (some x) h = refl

is_compiled_marked :
    (e : SourceEntry)
    → IsValidEntry e
    → is_compiled_entry (some (record e { compiled_hash = e.active_hash }))
      ≡ is_some (active_of (some e))
unfolding is_compiled_entry
is_compiled_marked e h = ground (
  arith,
  is_some-head_key (actives e.history) e.active_hash h.hashes,
  opt_text_eq_iff e.active_hash e.active_hash,
)

-- After a valid manifest's source is marked compiled, the source counts as compiled exactly if it
-- has an active version, and every other source counts as it did.
pub is_compiled-mark_compiled :
    (m : Manifest) (uri j : Text)
    → IsValid m
    → is_compiled_at_current_hash (mark_compiled m uri) j
      ≡ (if text_eq uri j then is_some (view m uri) else is_compiled_at_current_hash m j)
unfolding is_compiled_at_current_hash mark_compiled
is_compiled-mark_compiled m uri j h = go (lookup uri m.sources) refl
  where
    missing : (o : Option SourceEntry) → o ≡ none → is_compiled_entry o ≡ false
    missing none q = refl
    missing (some e) q = cc

    go :
        (o : Option SourceEntry)
        → lookup uri m.sources ≡ o
        → is_compiled_entry (
            lookup j
              (update_entry (λ e. record e { compiled_hash = e.active_hash }) m uri o).sources)
          ≡ (if text_eq uri j
              then is_some (active_of o)
              else is_compiled_entry (lookup j m.sources))
    go none q = elim (Bool-cases (text_eq uri j)) [
      | inl same ↦
          rw same (missing _ (ap (λ k. lookup k m.sources) (sym ((text_eq_iff uri j).0 same)) ∙ q))
      | inr other ↦ rw other
    ]
    go (some e) q = elim (Bool-cases (text_eq uri j)) [
      | inl same ↦ rw (lookup-insert, same) (is_compiled_marked e (h.entries uri e q))
      | inr other ↦ rw (lookup-insert, other)
    ]

stays :
    (c a : Option Text) (hash : Text)
    → elim c [ none ↦ false | some h ↦ opt_text_eq (some h) a ] ≡ true
    → opt_text_eq a (some hash) ≡ false
    → elim c [ none ↦ false | some h ↦ opt_text_eq (some h) (some hash) ] ≡ false
stays none a hash p q = cc
stays (some h) a hash p q = rw ((opt_text_eq_iff (some h) a).0 p) q

is_compiled-entry_ingest :
    (o : Option SourceEntry) (hash raw_id at : Text)
    → is_compiled_entry o ≡ true
    → (entry_ingest (or_default o) hash raw_id at).1 ≢ no_op
    → is_compiled_entry (some (entry_ingest (or_default o) hash raw_id at).0) ≡ false
unfolding is_compiled_entry entry_ingest
is_compiled-entry_ingest none hash raw_id at c n = cc
is_compiled-entry_ingest (some e) hash raw_id at c n =
    ground
      (arith, opt_text_eq_iff e.active_hash (some hash), stays e.compiled_hash e.active_hash hash)

-- An ingest that is not a no-op, of a source that counts as compiled, makes it count as not
-- compiled.
pub record_ingest_invalidates :
    (m : Manifest) (uri hash raw_id at : Text)
    → is_compiled_at_current_hash m uri ≡ true
    → (record_ingest m uri hash raw_id at).1 ≢ no_op
    → is_compiled_at_current_hash (record_ingest m uri hash raw_id at).0 uri ≡ false
unfolding is_compiled_at_current_hash record_ingest
record_ingest_invalidates m uri hash raw_id at c n =
    rw (lookup-insert, text_eq_refl)
      (is_compiled-entry_ingest (lookup uri m.sources) hash raw_id at c n)
