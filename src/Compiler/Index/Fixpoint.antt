-- ===== src/Compiler/Index/Fixpoint.antt =====
-- The index that a run writes is that of the vault it leaves.
use okf_mcp_rs.Prelude.{
  Option-cases, ◌≡◌, refl, sym, ◌∙◌, ap, ap₂, subst, inl, inr, Text, ascii, text_eq, text_eq_iff,
  text_eq_refl, Option, none, some, List, [], ◌∷◌, ◌++◌, filter_map, Result, ok, err, Bool-cases,
  Result-cases,
}
use okf_mcp_rs.Prelude.Assoc.{Assoc, lookup, insert, lookup-insert}
use okf_mcp_rs.Core.VaultResolver.{PathBuf, sandbox_path}
use okf_mcp_rs.Storage.FileSystem.{Fault, works, fails, writes_part, next_fault, later}
use okf_mcp_rs.Ingest.Vault.{Vault, IngestError, and_then, attempt, create_parent, write, write_as}
use okf_mcp_rs.Validator.Frontmatter.{WikiFrontmatter}
use okf_mcp_rs.Validator.Rules.{below, markdown_files_in, wiki_content_dirs}
use okf_mcp_rs.Compiler.Index.{
  index_text, sections, section, index_entries, index_path, write_page, ensure_wiki_schema,
  regenerate_index,
}

err_ok :
    {A : Type 0} {e : IngestError} {a : A} {v w : Vault}
    → ◌≡◌ {A = Result IngestError A × Vault} (err e, v) (ok a, w)
    → ⊥
err_ok h = cc

filter_map_cons :
    {A B : Type 0} (f : A → Option B) (a : A) (l m : List A)
    → filter_map f l ≡ filter_map f m
    → filter_map f (a ∷ l) ≡ filter_map f (a ∷ m)
filter_map_cons f a l m h = elim (Option-cases (f a)) [
  | inl n ↦ rw (filter_map, n) h
  | inr (b, e) ↦ rw (filter_map, e) (ap (λ x. b ∷ x) h)
]

-- A file that stands outside of a directory does not count for it.
filter_map-insert :
    {B : Type 0} (f : Text × Text → Option B) (k t : Text) (files : Assoc Text)
    → ((c : Text) → f (k, c) ≡ none)
    → filter_map f (insert k t files) ≡ filter_map f files
unfolding insert
filter_map-insert f k t [] h = rw (h t) refl
filter_map-insert f k t ((j, c) ∷ files) h = elim (Bool-cases (text_eq j k)) [
  | inl e ↦
      let out = subst (λ p. f (p, c) ≡ none) (sym ((text_eq_iff j k).0 e)) (h c) in
      rw (insert, e, h t, filter_map, out) refl
  | inr n ↦ rw (insert, n) (filter_map_cons f (j, c) _ _ (filter_map-insert f k t files h))
]

IsOutside : Text → List (Text × Text) → Type 0
IsOutside k [] = Unit
IsOutside k ((dir, kind) ∷ dirs) = ((c : Text) → below dir (k, c) ≡ none) × IsOutside k dirs

sections-insert :
    (from_yaml : Text → Option WikiFrontmatter) (k t : Text) (files : Assoc Text)
    (dirs : List (Text × Text))
    → IsOutside k dirs
    → sections from_yaml (insert k t files) dirs ≡ sections from_yaml files dirs
unfolding sections markdown_files_in IsOutside
sections-insert from_yaml k t files [] h = refl
sections-insert from_yaml k t files ((dir, kind) ∷ dirs) h =
    ap₂ (λ l s. section kind (index_entries from_yaml l) ++ s)
      (filter_map-insert (below dir) k t files h.0) (sections-insert from_yaml k t files dirs h.1)

index_text-insert :
    (from_yaml : Text → Option WikiFrontmatter) (t : Text) (files : Assoc Text)
    → index_text from_yaml (insert index_path t files) ≡ index_text from_yaml files
unfolding index_text IsOutside
index_text-insert from_yaml t files =
    ap (λ s. ascii "---\nokf_version: \"0.2\"\n---\n\n# Wiki Index\n" ++ s)
      (sections-insert from_yaml index_path t files wiki_content_dirs (
        (λ c. refl),
        ((λ c. refl), ((λ c. refl), ((λ c. refl), ((λ c. refl), ((λ c. refl), tt))))),
      ))

write_as-ok :
    (fault : Fault) (path content : Text) (v v' : Vault)
    → write_as fault path content v ≡ (ok tt, v')
    → v'.files ≡ insert path content v.files
write_as-ok works path content v v' h = sym (ap (λ r. r.1.files) h)
write_as-ok fails path content v v' h = absurd (err_ok h)
write_as-ok (writes_part n) path content v v' h = absurd (err_ok h)

write-ok :
    (path content : Text) (v v' : Vault)
    → write path content v ≡ (ok tt, v')
    → v'.files ≡ insert path content v.files
unfolding write
write-ok path content v v' h =
    write_as-ok (next_fault v.faults) path content (record v { faults = later v.faults }) v' h

and_then-write :
    (r : Result IngestError Unit × Vault) (path content : Text) (v' : Vault)
    → and_then r (λ _. write path content) ≡ (ok tt, v')
    → v'.files ≡ insert path content r.1.files
and_then-write (ok u, v) path content v' h = write-ok path content v v' h
and_then-write (err e, v) path content v' h = absurd (err_ok h)

attempt_files : (fault : Fault) (v : Vault) → (attempt fault (λ v. v) v).1.files ≡ v.files
attempt_files works v = refl
attempt_files fails v = refl
attempt_files (writes_part n) v = refl

create_parent_files : (v : Vault) → (create_parent v).1.files ≡ v.files
unfolding create_parent
create_parent_files v = attempt_files (next_fault v.faults) (record v { faults = later v.faults })

module _ (canonicalize : Text → Option PathBuf) (root : Text) where
  write_page-ok :
      (path content : Text) (v v' : Vault)
      → write_page canonicalize root path content v ≡ (ok tt, v')
      → v'.files ≡ insert path content v.files
  unfolding write_page
  write_page-ok path content v v' h = elim (Result-cases (sandbox_path canonicalize root path)) [
    | inr (e, q) ↦ absurd (err_ok (rw (write_page, q) at h))
    | inl (full_path, q) ↦
        and_then-write (create_parent v) path content v' (rw (write_page, q) at h)
        ∙ ap (insert path content) (create_parent_files v)
  ]

  after_schema :
      (from_yaml : Text → Option WikiFrontmatter) (r : Result IngestError Unit × Vault) (v' : Vault)
      → and_then r (λ _ v. write_page canonicalize root index_path (index_text from_yaml v.files) v)
        ≡ (ok tt, v')
      → lookup index_path v'.files ≡ some (index_text from_yaml v'.files)
  after_schema from_yaml (err e, v) v' h = absurd (err_ok h)
  after_schema from_yaml (ok u, v) v' h =
      let text = index_text from_yaml v.files in
      let e = write_page-ok index_path text v v' h in
      ap (lookup index_path) e
      ∙ (lookup-insert index_path index_path text v.files
          ∙ (rw (text_eq_refl index_path) refl
              ∙ ap some (
                  sym (index_text-insert from_yaml text v.files)
                  ∙ ap (index_text from_yaml) (sym e))))

  -- After `regenerate_index` has returned without an error, `wiki/index.md` holds the index of the
  -- vault as it now is: the index does not depend on itself, so running again writes the same text.
  pub regenerate_index_fixpoint :
      (schema : Text) (from_yaml : Text → Option WikiFrontmatter) (v v' : Vault)
      → regenerate_index canonicalize root schema from_yaml v ≡ (ok tt, v')
      → lookup index_path v'.files ≡ some (index_text from_yaml v'.files)
  unfolding regenerate_index
  regenerate_index_fixpoint schema from_yaml v v' h =
      after_schema from_yaml (ensure_wiki_schema canonicalize root schema v) v' h
