-- ===== src/Manifest/History.antt =====
-- `Evolves` relates the history of a source to a later one.
use okf_mcp_rs.Prelude.{
  Text, text_eq, text_eq_iff, ◌≡◌, refl, subst, Bool, true, false, Option, none, some, List, [],
  ◌∷◌, ◌++◌, arith, All, modify_first, Bool-cases, Result-cases, inl, inr, ok, append-nil,
}
use okf_mcp_rs.Prelude.Assoc.{lookup, insert, lookup-insert, lookup-remove}
use okf_mcp_rs.Manifest.{
  Manifest, SourceEntry, SourceVersion, tombstoned, is_active, supersede, entry_ingest, or_default,
  record_ingest, tombstone, tombstone_at, tombstone_entry, purge, mark_compiled, record_raw_path,
  update_entry, opt_text_eq,
}
use okf_mcp_rs.Manifest.Invariant.{tombstone_entry-eq-ok}
use okf_mcp_rs.Manifest.Steps.{
  Op, ingest, delete, purge_all, compiled, raw_path, or_same, apply, run,
}

-- The later version has the same identity, and the same status unless it was active.
pub record Kept (v w : SourceVersion) : Type 0 where
  pub raw_id : w.raw_id ≡ v.raw_id
  pub hash : w.hash ≡ v.hash
  pub ingested_at : w.ingested_at ≡ v.ingested_at
  pub status : is_active v ≡ false → w.status ≡ v.status

-- Every version of the first history stands, kept, at its place in the second.
abbrev pub Evolves : List SourceVersion → List SourceVersion → Type 0
Evolves [] k = Unit
Evolves (v ∷ l) [] = ⊥
Evolves (v ∷ l) (w ∷ k) = Kept v w × Evolves l k

Kept-refl : (v : SourceVersion) → Kept v v
Kept-refl v = record { raw_id = refl; hash = refl; ingested_at = refl; status = λ _. refl }

Kept-trans : {u v w : SourceVersion} → Kept u v → Kept v w → Kept u w
unfolding is_active
Kept-trans h k = ground arith

Evolves-append : (l k : List SourceVersion) → Evolves l (l ++ k)
Evolves-append [] k = tt
Evolves-append (v ∷ l) k = (Kept-refl v, Evolves-append l k)

Evolves-refl : (l : List SourceVersion) → Evolves l l
Evolves-refl [] = tt
Evolves-refl (v ∷ l) = (Kept-refl v, Evolves-refl l)

pub Evolves-trans : (a b c : List SourceVersion) → Evolves a b → Evolves b c → Evolves a c
Evolves-trans [] b c h k = tt
Evolves-trans (u ∷ a) [] c h k = absurd h
Evolves-trans (u ∷ a) (v ∷ b) [] h k = absurd k
Evolves-trans (u ∷ a) (v ∷ b) (w ∷ c) h k = (Kept-trans h.0 k.0, Evolves-trans a b c h.1 k.1)

module _ (p : SourceVersion → Bool) (f : SourceVersion → SourceVersion) where
  Evolves-modify_first :
      ((v : SourceVersion) → p v ≡ true → Kept v (f v))
      → (l k : List SourceVersion) → Evolves l (modify_first p f l ++ k)
  Evolves-modify_first keep [] k = tt
  Evolves-modify_first keep (v ∷ l) k = elim (Bool-cases (p v)) [
    | inl found ↦ rw found (keep v found, Evolves-append l k)
    | inr other ↦ rw other (Kept-refl v, Evolves-modify_first keep l k)
  ]

Kept-switched_off :
    (v w : SourceVersion)
    → is_active v ≡ true
    → w.raw_id ≡ v.raw_id
    → w.hash ≡ v.hash
    → w.ingested_at ≡ v.ingested_at
    → Kept v w
Kept-switched_off v w on r h i = record {
  raw_id = r;
  hash = h;
  ingested_at = i;
  status = λ off. cc;
}

abbrev pub history_of : Option SourceEntry → List SourceVersion
history_of none = []
history_of (some e) = e.history

abbrev pub history : Manifest → Text → List SourceVersion
history m uri = history_of (lookup uri m.sources)

Evolves-entry_ingest :
    (e : SourceEntry) (hash raw_id at : Text)
    → Evolves e.history (entry_ingest e hash raw_id at).0.history
unfolding entry_ingest supersede
Evolves-entry_ingest e hash raw_id at = elim (Bool-cases (opt_text_eq e.active_hash (some hash))) [
  | inl same ↦ rw same (Evolves-refl e.history)
  | inr new ↦ rw new (
      Evolves-modify_first is_active _ (λ v on. Kept-switched_off v _ on refl refl refl) e.history
        _)
]

Evolves-or_default :
    (o : Option SourceEntry) (l : List SourceVersion)
    → Evolves (or_default o).history l
    → Evolves (history_of o) l
Evolves-or_default none l h = tt
Evolves-or_default (some e) l h = h

Evolves-insert :
    (m : Manifest) (uri j : Text) (e : SourceEntry)
    → Evolves (history m uri) e.history
    → Evolves (history m j) (history (record { sources = insert uri e m.sources }) j)
Evolves-insert m uri j e h = rw lookup-insert (elim (Bool-cases (text_eq uri j)) [
  | inl same ↦ rw same (subst (λ k. Evolves (history m k) e.history) ((text_eq_iff uri j).0 same) h)
  | inr other ↦ rw other (Evolves-refl (history m j))
])

Evolves-update_entry :
    (m : Manifest) (f : SourceEntry → SourceEntry) (uri j : Text) (o : Option SourceEntry)
    → lookup uri m.sources ≡ o
    → ((e : SourceEntry) → Evolves e.history (f e).history)
    → Evolves (history m j) (history (update_entry f m uri o) j)
unfolding update_entry
Evolves-update_entry m f uri j none q keep = Evolves-refl (history m j)
Evolves-update_entry m f uri j (some e) q keep = Evolves-insert m uri j (f e) (rw q (keep e))

Evolves-tombstone_entry :
    (reason at : Text) (e e' : SourceEntry)
    → tombstone_entry reason at e ≡ ok e'
    → Evolves e.history e'.history
Evolves-tombstone_entry reason at e e' q = rw (tombstone_entry-eq-ok reason at e e' q) (
    rw
      (← append-nil
        (modify_first is_active (λ w. record w { status = tombstoned reason at }) e.history))
      (Evolves-modify_first is_active _ (λ v on. Kept-switched_off v _ on refl refl refl) e.history
        []))

Evolves-tombstone_at :
    (m : Manifest) (uri reason at j : Text) (o : Option SourceEntry)
    → lookup uri m.sources ≡ o
    → Evolves (history m j) (history (or_same m (tombstone_at m uri reason at o)) j)
unfolding tombstone_at
Evolves-tombstone_at m uri reason at j none q = Evolves-refl (history m j)
Evolves-tombstone_at m uri reason at j (some e) q =
    elim (Result-cases (tombstone_entry reason at e)) [
      | inl (e', r) ↦
          rw (r, tombstone_at)
            (Evolves-insert m uri j e' (rw q (Evolves-tombstone_entry reason at e e' r)))
      | inr (x, r) ↦ rw (r, tombstone_at) (Evolves-refl (history m j))
    ]

Evolves-record_raw_path :
    (raw_id path : Text) (l : List SourceVersion)
    → Evolves l
        (modify_first (λ v. text_eq v.raw_id raw_id) (λ v. record v { raw_path = some path }) l)
unfolding is_active
Evolves-record_raw_path raw_id path l =
    rw
      (← append-nil (
        modify_first (λ (v : SourceVersion). text_eq v.raw_id raw_id)
          (λ v. record v { raw_path = some path }) l))
      (Evolves-modify_first _ _
        (λ v _. record { raw_id = refl; hash = refl; ingested_at = refl; status = λ _. refl }) l [])

-- The call does not purge the URI.
abbrev pub Spares : Text → Op → Type 0
Spares uri (purge_all j) = text_eq j uri ≡ false
Spares uri _ = Unit

apply-Evolves :
    (m : Manifest) (op : Op) (j : Text)
    → Spares j op
    → Evolves (history m j) (history (apply m op) j)
unfolding apply record_ingest tombstone purge mark_compiled record_raw_path
apply-Evolves m (ingest uri hash raw_id at) j s = Evolves-insert m uri j _ (
    Evolves-or_default (lookup uri m.sources) _
      (Evolves-entry_ingest (or_default (lookup uri m.sources)) hash raw_id at))
apply-Evolves m (delete uri reason at) j s = Evolves-tombstone_at m uri reason at j _ refl
apply-Evolves m (purge_all uri) j s = rw (lookup-remove, s) (Evolves-refl (history m j))
apply-Evolves m (compiled uri) j s =
    Evolves-update_entry m _ uri j _ refl (λ e. Evolves-refl e.history)
apply-Evolves m (raw_path uri raw_id path) j s =
    Evolves-update_entry m _ uri j _ refl (λ e. Evolves-record_raw_path raw_id path e.history)

-- Whatever is called on a manifest, as long as a URI is not purged, every version in its history
-- stays at its place with its raw id, hash and time, and one that was not active keeps its status:
-- no version is dropped, changed in identity or made active again.
pub run-Evolves :
    (m : Manifest) (ops : List Op) (uri : Text)
    → All (Spares uri) ops
    → Evolves (history m uri) (history (run m ops) uri)
unfolding run
run-Evolves m [] uri s = Evolves-refl (history m uri)
run-Evolves m (op ∷ ops) uri s =
    Evolves-trans (history m uri) (history (apply m op) uri) _ (apply-Evolves m op uri s.0)
      (run-Evolves (apply m op) ops uri s.1)
