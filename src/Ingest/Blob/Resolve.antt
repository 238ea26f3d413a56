-- ===== src/Ingest/Blob/Resolve.antt =====
-- Where the file of a raw id is found, and what its absence says.
use okf_mcp_rs.Prelude.{
  ok, err, is_empty, split_once-none, contains→Lacks, ◌∙◌, ap, ◌≡◌, refl, sym, inl, inr, Text,
  ascii, Bool, true, false, Option, none, some, List, [], ◌∷◌, ◌++◌, text_eq, text_eq_iff,
  text_eq_refl, find, contains, strip_prefix, strip_prefix-append, Bool-cases, Option-cases,
  none_ne_some, All,
}
use okf_mcp_rs.Prelude.Assoc.{Assoc, lookup, insert}
use okf_mcp_rs.Core.VaultResolver.{PathBuf}
use okf_mcp_rs.Ingest.Slug.{slugify}
use okf_mcp_rs.Ingest.Slug.Shape.{IsSlugChar, slugify-IsSlug}
use okf_mcp_rs.Ingest.RawId.{is_url, raw_id_from_resource}
use okf_mcp_rs.Ingest.Vault.{
  Vault, IngestError, load, read_raw_dir, first_component, raw_names, in_raw,
}
use okf_mcp_rs.Storage.FileSystem.{works, next_fault, later}
use okf_mcp_rs.Manifest.{raw_path_for}
use okf_mcp_rs.Ingest.Blob.{
  Url, find_raw, scan_raw, resolve_raw_path, derive_slug, has_id, recorded, or_slug, slug_of_url,
  slug_of_host, last_non_empty, file_stem, raw_title_and_body,
}

or_slug-chars :
    (a b : Option Text)
    → ((s : Text) → a ≡ some s → All IsSlugChar s)
    → ((s : Text) → b ≡ some s → All IsSlugChar s)
    → (s : Text) → or_slug a b ≡ some s
    → All IsSlugChar s
or_slug-chars none b p q s h = q s h
or_slug-chars (some a) b p q s h = p s h

slugify-chars : (t s : Text) → slugify t ≡ some s → All IsSlugChar s
slugify-chars t s h = (slugify-IsSlug t s h).1.1

host-chars : (host : Option Text) (s : Text) → slug_of_host host ≡ some s → All IsSlugChar s
host-chars none s h = absurd (none_ne_some h)
host-chars (some host) s h = slugify-chars host s h

url-chars : (url : Option Url) (s : Text) → slug_of_url url ≡ some s → All IsSlugChar s
url-chars none s h = absurd (none_ne_some h)
url-chars (some url) s h =
    or_slug-chars (slugify (last_non_empty url.path_segments)) (slug_of_host url.host)
      (slugify-chars (last_non_empty url.path_segments)) (host-chars url.host) s h

-- Every candidate has gone through `slugify`.
pub derive_slug-chars :
    (parse_url : Text → Option Url) (source content s : Text)
    → derive_slug parse_url source content ≡ some s
    → All IsSlugChar s
unfolding derive_slug
derive_slug-chars parse_url source content s h =
    or_slug-chars (slugify (raw_title_and_body content).0) _
      (slugify-chars (raw_title_and_body content).0)
      (elim (Option-cases (strip_prefix (ascii "file://") source)) [
        | inr (path, e) ↦ rw e (slugify-chars (file_stem path))
        | inl n ↦ elim (Bool-cases (is_url source)) [
          | inl u ↦ rw (n, u) (url-chars (parse_url source))
          | inr u ↦ rw (n, u) (λ s h. absurd (none_ne_some h))
        ]
      ])
      s h

first_component-name : (name : Text) → contains 47 name ≡ false → first_component name ≡ name
unfolding first_component
first_component-name name c =
    rw (first_component, split_once-none 47 [] name (contains→Lacks 47 name c)) refl

in_raw-raw :
    (name content : Text)
    → contains 47 name ≡ false
    → in_raw (ascii "raw/" ++ name, content) ≡ some name
in_raw-raw name content c =
    rw (strip_prefix-append (ascii "raw/") name) (ap some (first_component-name name c))

abbrev pub named : Text → Text → Bool
named raw_id name = has_id raw_id (raw_id_from_resource name)

-- Where a file of `raw` has a name that the test accepts, the search of the names finds one.
listed :
    (p : Text → Bool) (files : Assoc Text) (name content : Text)
    → contains 47 name ≡ false
    → p name ≡ true
    → lookup (ascii "raw/" ++ name) files ≡ some content
    → (found : Text) × (find p (raw_names files) ≡ some found)
unfolding raw_names lookup
listed p [] name content c t h = absurd (none_ne_some h)
listed p ((path, text) ∷ files) name content c t h =
    elim (Bool-cases (text_eq path (ascii "raw/" ++ name))) [
      | inl e ↦
          rw ((text_eq_iff path (ascii "raw/" ++ name)).0 e, first_component-name name c, t)
            (name, refl)
      | inr n ↦
          let more = listed p files name content c t (rw n at h) in
          elim (Option-cases (in_raw (path, text))) [
            | inl o ↦ rw o more
            | inr (other, o) ↦ elim (Bool-cases (p other)) [
              | inl y ↦ rw (o, y) (other, refl)
              | inr z ↦ rw (o, z) more
            ]
          ]
    ]

-- A new file of `raw` whose name the test accepts is found, where no name was.
pub find-insert :
    (p : Text → Bool) (files : Assoc Text) (name content : Text)
    → contains 47 name ≡ false
    → p name ≡ true
    → find p (raw_names files) ≡ none
    → find p (raw_names (insert (ascii "raw/" ++ name) content files)) ≡ some name
unfolding raw_names insert
find-insert p [] name content c t h = rw (first_component-name name c, t) refl
find-insert p ((path, text) ∷ files) name content c t h =
    elim (Bool-cases (text_eq path (ascii "raw/" ++ name))) [
      | inl e ↦ rw (e, first_component-name name c, t) refl
      | inr n ↦ elim (Option-cases (in_raw (path, text))) [
        | inl o ↦ rw (n, o) (find-insert p files name content c t (rw o at h))
        | inr (other, o) ↦ elim (Bool-cases (p other)) [
          | inl y ↦ absurd (none_ne_some (sym (rw (o, y) at h)))
          | inr z ↦ rw (n, o, z) (find-insert p files name content c t (rw (o, z) at h))
        ]
      ]
    ]

pub found-not_empty :
    (p : Text → Bool) (names : List Text) (found : Text)
    → find p names ≡ some found
    → is_empty names ≡ false
found-not_empty p [] found h = absurd (none_ne_some h)
found-not_empty p (n ∷ names) found h = refl

-- The next two calls do not fail: they are those of a lookup.
abbrev pub ReadsWork : Vault → Type 0
ReadsWork v = (next_fault v.faults ≡ works) × (next_fault (later v.faults) ≡ works)

module _ (canonicalize : Text → Option PathBuf) (root : Text) where
  -- What a lookup does once the manifest is loaded.
  pub resolve-loaded :
      (v : Vault) (raw_id : Text)
      → next_fault v.faults ≡ works
      → resolve_raw_path canonicalize root raw_id v
        ≡ find_raw canonicalize root raw_id v.manifest (record v { faults = later v.faults })
  unfolding resolve_raw_path load
  resolve-loaded v raw_id w = rw (resolve_raw_path, load, w) refl

  pub find_raw-file :
      (v : Vault) (found raw_id : Text)
      → next_fault v.faults ≡ works
      → find (named raw_id) (raw_names v.files) ≡ some found
      → (path : Text) × ((find_raw canonicalize root raw_id v.manifest v).0 ≡ ok path)
  unfolding find_raw scan_raw read_raw_dir
  find_raw-file v found raw_id w e =
      elim (Option-cases (recorded canonicalize root v.files (raw_path_for v.manifest raw_id))) [
        | inr (path, o) ↦ (path, rw (find_raw, o) refl)
        | inl n ↦ (
          ascii "raw/" ++ found,
          rw (find_raw, n, scan_raw, found-not_empty (named raw_id) _ found e, read_raw_dir, w, e)
              refl,
        )
      ]

  -- A file of `raw` whose name carries the raw id makes the raw id resolve.
  resolve-file :
      (v : Vault) (name content raw_id : Text)
      → ReadsWork v
      → contains 47 name ≡ false
      → raw_id_from_resource name ≡ some raw_id
      → lookup (ascii "raw/" ++ name) v.files ≡ some content
      → (path : Text) × ((resolve_raw_path canonicalize root raw_id v).0 ≡ ok path)
  resolve-file v name content raw_id w c r h =
      let (found, e) =
        listed (named raw_id) v.files name content c (rw (r, text_eq_refl raw_id) refl) h in
      let loaded = record v { faults = later v.faults } in
      let (path, f) = find_raw-file loaded found raw_id w.1 e in
      (path, ap (λ r. r.0) (resolve-loaded v raw_id w.0) ∙ f)

  -- Where a raw id does not resolve although the reads work, no file has the name that its blob would
  -- get.
  pub resolve_err :
      (v : Vault) (name raw_id : Text) (x : IngestError)
      → ReadsWork v
      → contains 47 name ≡ false
      → raw_id_from_resource name ≡ some raw_id
      → (resolve_raw_path canonicalize root raw_id v).0 ≡ err x
      → lookup (ascii "raw/" ++ name) v.files ≡ none
  resolve_err v name raw_id x w c r n =
      elim (Option-cases (lookup (ascii "raw/" ++ name) v.files)) [
        | inl e ↦ e
        | inr (content, e) ↦
            let y = resolve-file v name content raw_id w c r e in absurd (ok_err (sym y.1 ∙ n))
      ]
    where
      ok_err : {path : Text} → ok path ≡ err x → ⊥
      ok_err e = cc
