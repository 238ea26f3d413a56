-- ===== src/Manifest/Invariant.antt =====
-- The invariant of the manifest.
use okf_mcp_rs.Prelude.{
  Text, text_eq, ◌≡◌, refl, ◌∙◌, subst, map, Bool, true, false, Option, none, some, List, [], ◌∷◌,
  ◌++◌, arith, filter, filter-append, modify_first, init, init-append, drop, to_list, Bool-cases,
  inl, inr, eq_of_some, ok, eq_of_ok, Result-cases,
}
use okf_mcp_rs.Prelude.Assoc.{lookup, insert, lookup-insert, lookup-remove}
use okf_mcp_rs.Manifest.{
  Manifest, SourceEntry, SourceVersion, tombstoned, is_active, supersede, entry_ingest, or_default,
  record_ingest, tombstone, tombstone_at, tombstone_entry, purge, mark_compiled, record_raw_path,
  update_entry, opt_text_eq,
}

abbrev pub actives : List SourceVersion → List SourceVersion
actives = filter is_active

-- The recorded hash is that of the one active version, which is the newest one; with no hash
-- recorded no version is active.
pub record IsValidEntry (e : SourceEntry) : Type 0 where
  pub hashes : map (λ v. v.hash) (actives e.history) ≡ to_list e.active_hash
  pub only_last : actives (init e.history) ≡ []

pub record IsValid (m : Manifest) : Type 0 where
  pub entries : (uri : Text) (e : SourceEntry) → lookup uri m.sources ≡ some e → IsValidEntry e

eq_nil_of_map {ℓ κ} : {A : Type ℓ} {B : Type κ} (f : A → B) (l : List A) → map f l ≡ [] → l ≡ []
eq_nil_of_map f [] h = refl
eq_nil_of_map f (x ∷ l) h = cc

drop-map {ℓ κ} :
    {A : Type ℓ} {B : Type κ} (f : A → B) (l : List A) (o : Option B)
    → map f l ≡ to_list o
    → drop 1 l ≡ []
drop-map f [] o h = refl
drop-map f (x ∷ []) o h = refl
drop-map f (x ∷ y ∷ l) none h = cc
drop-map f (x ∷ y ∷ l) (some b) h = cc

module _ {ℓ} {A : Type ℓ} (p : A → Bool) (f : A → A) where
  pub init-modify_first : (l : List A) → init (modify_first p f l) ≡ modify_first p f (init l)
  init-modify_first [] = refl
  init-modify_first (v ∷ []) = ground arith
  init-modify_first (v ∷ w ∷ l) = ground (arith, init-modify_first (w ∷ l))

module _ (f : SourceVersion → SourceVersion)
    (off : (v : SourceVersion) → is_active (f v) ≡ false) where
  pub actives-modify_first :
      (l : List SourceVersion) → actives (modify_first is_active f l) ≡ drop 1 (actives l)
  actives-modify_first [] = refl
  actives-modify_first (v ∷ l) = ground (arith, actives-modify_first l, off v)

  pub no_actives :
      (e : SourceEntry) → IsValidEntry e → actives (modify_first is_active f e.history) ≡ []
  no_actives e h = rw actives-modify_first (drop-map (λ (v : SourceVersion). v.hash) _ _ h.hashes)

  no_actives-init :
      (e : SourceEntry) → IsValidEntry e → actives (init (modify_first is_active f e.history)) ≡ []
  no_actives-init e h = rw (init-modify_first, actives-modify_first, h.only_last)

  -- The entry with its active version switched off.
  switched_off-IsValidEntry :
      (e : SourceEntry) (c : Option Text)
      → IsValidEntry e
      → IsValidEntry (record {
        active_hash = none;
        compiled_hash = c;
        history = modify_first is_active f e.history;
      })
  switched_off-IsValidEntry e c h = record {
    hashes = rw (no_actives e h);
    only_last = no_actives-init e h;
  }

  -- The entry with its active version switched off and a new one appended.
  appended-IsValidEntry :
      (e : SourceEntry) (v : SourceVersion) (c : Option Text)
      → is_active v ≡ true
      → IsValidEntry e
      → IsValidEntry (record {
        active_hash = some v.hash;
        compiled_hash = c;
        history = modify_first is_active f e.history ++ v ∷ [];
      })
  appended-IsValidEntry e v c on h = record {
    hashes = rw (filter-append, no_actives e h, on);
    only_last = rw (init-append, no_actives e h);
  }

-- A change of a version that leaves its status and its hash.
module _ (p : SourceVersion → Bool) (f : SourceVersion → SourceVersion)
    (status_kept : (v : SourceVersion) → is_active (f v) ≡ is_active v)
    (hash_kept : (v : SourceVersion) → (f v).hash ≡ v.hash) where
  hashes-modify_first :
      (l : List SourceVersion)
      → map (λ v. v.hash) (actives (modify_first p f l)) ≡ map (λ v. v.hash) (actives l)
  hashes-modify_first [] = refl
  hashes-modify_first (v ∷ l) = ground (arith, hashes-modify_first l, status_kept v, hash_kept v)

  touched-IsValidEntry :
      (e : SourceEntry)
      → IsValidEntry e
      → IsValidEntry (record e { history = modify_first p f e.history })
  touched-IsValidEntry e h = record {
    hashes = hashes-modify_first e.history ∙ h.hashes;
    only_last =
        rw init-modify_first
          (eq_nil_of_map (λ v. v.hash) _ (rw (hashes-modify_first, h.only_last)));
  }

pub supersede-off : (by : Text) (v : SourceVersion) → is_active (supersede by v) ≡ false
unfolding supersede is_active
supersede-off by v = refl

pub entry_ingest-IsValidEntry :
    (e : SourceEntry) (hash raw_id at : Text)
    → IsValidEntry e
    → IsValidEntry (entry_ingest e hash raw_id at).0
unfolding entry_ingest is_active
entry_ingest-IsValidEntry e hash raw_id at h =
    elim (Bool-cases (opt_text_eq e.active_hash (some hash))) [
      | inl same ↦ rw same h
      | inr new ↦
          rw new (appended-IsValidEntry (supersede raw_id) (supersede-off raw_id) e _ _ refl h)
    ]

pub tombstoned-off :
    (reason at : Text) (v : SourceVersion)
    → is_active (record v { status = tombstoned reason at }) ≡ false
unfolding is_active
tombstoned-off reason at v = refl

pub tombstone_entry-eq-ok :
    (reason at : Text) (e e' : SourceEntry)
    → tombstone_entry reason at e ≡ ok e'
    → e' ≡ record e {
      active_hash = none;
      history = modify_first is_active (λ w. record w { status = tombstoned reason at }) e.history;
    }
unfolding tombstone_entry
tombstone_entry-eq-ok reason at e e' q = ground arith

pub tombstone_entry-IsValidEntry :
    (reason at : Text) (e e' : SourceEntry)
    → IsValidEntry e
    → tombstone_entry reason at e ≡ ok e'
    → IsValidEntry e'
tombstone_entry-IsValidEntry reason at e e' v q =
    rw (tombstone_entry-eq-ok reason at e e' q)
      (switched_off-IsValidEntry _ (tombstoned-off reason at) e e.compiled_hash v)

module _ (m : Manifest) (h : IsValid m) where
  insert-IsValid :
      (uri : Text) (e : SourceEntry)
      → IsValidEntry e
      → IsValid (record { sources = insert uri e m.sources })
  insert-IsValid uri e v = record {
    entries = λ j x. rw lookup-insert (elim (Bool-cases (text_eq uri j)) [
      | inl same ↦ rw same (λ q. subst IsValidEntry (eq_of_some q) v)
      | inr other ↦ rw other (h.entries j x)
    ]);
  }

  pub or_default-IsValidEntry :
      (uri : Text) (o : Option SourceEntry) → lookup uri m.sources ≡ o → IsValidEntry (or_default o)
  or_default-IsValidEntry uri none q = record { hashes = refl; only_last = refl }
  or_default-IsValidEntry uri (some e) q = h.entries uri e q

  pub record_ingest-IsValid :
      (uri hash raw_id at : Text) → IsValid (record_ingest m uri hash raw_id at).0
  unfolding record_ingest
  record_ingest-IsValid uri hash raw_id at =
      insert-IsValid uri _
        (entry_ingest-IsValidEntry _ hash raw_id at (or_default-IsValidEntry uri _ refl))

  pub purge-IsValid : (uri : Text) → IsValid (purge m uri).0
  unfolding purge
  purge-IsValid uri = record {
    entries = λ j x q. h.entries j x (ground (arith, lookup-remove uri j m.sources));
  }

  update_entry-IsValid :
      (f : SourceEntry → SourceEntry) (uri : Text) (o : Option SourceEntry)
      → lookup uri m.sources ≡ o
      → ((e : SourceEntry) → IsValidEntry e → IsValidEntry (f e))
      → IsValid (update_entry f m uri o)
  unfolding update_entry
  update_entry-IsValid f uri none q keep = h
  update_entry-IsValid f uri (some e) q keep = insert-IsValid uri (f e) (keep e (h.entries uri e q))

  pub mark_compiled-IsValid : (uri : Text) → IsValid (mark_compiled m uri)
  unfolding mark_compiled
  mark_compiled-IsValid uri =
      update_entry-IsValid _ uri _ refl
        (λ e v. record { hashes = v.hashes; only_last = v.only_last })

  pub record_raw_path-IsValid :
      (uri raw_id path : Text) → IsValid (record_raw_path m uri raw_id path)
  unfolding record_raw_path is_active
  record_raw_path-IsValid uri raw_id path =
      update_entry-IsValid _ uri _ refl (touched-IsValidEntry _ _ (λ v. refl) (λ v. refl))

  tombstone_at-IsValid :
      (uri reason at : Text) (m' : Manifest) (o : Option SourceEntry)
      → lookup uri m.sources ≡ o
      → tombstone_at m uri reason at o ≡ ok m'
      → IsValid m'
  unfolding tombstone_at
  tombstone_at-IsValid uri reason at m' none p q = cc
  tombstone_at-IsValid uri reason at m' (some e) p q =
      elim (Result-cases (tombstone_entry reason at e)) [
        | inl (e', r) ↦ subst IsValid (eq_of_ok (rw (r, tombstone_at) at q)) (
            insert-IsValid uri e'
              (tombstone_entry-IsValidEntry reason at e e' (h.entries uri e p) r))
        | inr (x, r) ↦ ground arith
      ]

  -- A tombstone that succeeds keeps the invariant.
  pub tombstone-IsValid :
      (uri reason at : Text) (m' : Manifest) → tombstone m uri reason at ≡ ok m' → IsValid m'
  unfolding tombstone
  tombstone-IsValid uri reason at m' q =
      tombstone_at-IsValid uri reason at m' (lookup uri m.sources) refl q
