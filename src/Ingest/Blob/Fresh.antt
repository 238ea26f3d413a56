-- ===== src/Ingest/Blob/Fresh.antt =====
-- What a new file of `raw` does to the lookup of its raw id.
use okf_mcp_rs.Prelude.{
  ◌≡◌, refl, sym, ◌∙◌, ap, inl, inr, ◌⊎◌, Text, ascii, false, Option, none, some, ◌++◌, text_eq,
  text_eq_iff, text_eq_refl, find, contains, ok, err, Bool-cases, Option-cases, Result-cases,
}
use okf_mcp_rs.Prelude.Assoc.{Assoc, insert, lookup-insert}
use okf_mcp_rs.Core.VaultResolver.{PathBuf, sandbox_path}
use okf_mcp_rs.Storage.FileSystem.{later}
use okf_mcp_rs.Manifest.{raw_path_for}
use okf_mcp_rs.Ingest.RawId.{raw_id_from_resource}
use okf_mcp_rs.Ingest.Vault.{Vault, IngestError, read_raw_dir, raw_names}
use okf_mcp_rs.Ingest.Blob.{recorded, find_raw, scan_raw, resolve_raw_path}
use okf_mcp_rs.Ingest.Blob.Resolve.{
  ReadsWork, named, find-insert, found-not_empty, find_raw-file, resolve-loaded,
}

module _ (canonicalize : Text → Option PathBuf) (root : Text) where
  -- The manifest records no file for the raw id, and no name of `raw` has it.
  abbrev pub IsAbsent : Text → Vault → Type 0
  IsAbsent raw_id v =
      (recorded canonicalize root v.files (raw_path_for v.manifest raw_id) ≡ none)
      × (find (named raw_id) (raw_names v.files) ≡ none)

  pub resolve_err-IsAbsent :
      (v : Vault) (raw_id : Text) (x : IngestError)
      → ReadsWork v
      → (resolve_raw_path canonicalize root raw_id v).0 ≡ err x
      → IsAbsent raw_id v
  unfolding find_raw
  resolve_err-IsAbsent v raw_id x w h =
      let loaded = ap (λ r. r.0) (resolve-loaded canonicalize root v raw_id w.0) in
      (
        elim (Option-cases (recorded canonicalize root v.files (raw_path_for v.manifest raw_id))) [
          | inl n ↦ n
          | inr (path, o) ↦ absurd (ok_err {path = path} (sym (loaded ∙ rw (find_raw, o) refl) ∙ h))
        ],
        elim (Option-cases (find (named raw_id) (raw_names v.files))) [
          | inl n ↦ n
          | inr (found, e) ↦
              let y =
                find_raw-file canonicalize root (record v { faults = later v.faults }) found raw_id
                  w.1 e in
              absurd (ok_err (sym (loaded ∙ y.1) ∙ h))
        ],
      )
    where
      ok_err : {path : Text} → ok path ≡ err x → ⊥
      ok_err e = cc

  -- A new file is recorded already, or makes no difference to what is recorded.
  recorded-insert :
      (files : Assoc Text) (path text : Text) (p : Option Text)
      → recorded canonicalize root files p ≡ none
      → (recorded canonicalize root (insert path text files) p ≡ none)
        ⊎ (recorded canonicalize root (insert path text files) p ≡ some path)
  recorded-insert files path text none h = inl refl
  recorded-insert files path text (some q) h =
      elim (Result-cases (sandbox_path canonicalize root q)) [
        | inr (x, e) ↦ inl (rw e refl)
        | inl (full, e) ↦ elim (Bool-cases (text_eq path q)) [
          | inl t ↦ inr (
              rw (e, lookup-insert path q text files, t) (ap some (sym ((text_eq_iff path q).0 t))))
          | inr f ↦ inl (rw (e, lookup-insert path q text files, f) (rw e at h))
        ]
      ]

  -- An absent raw id resolves to the new file that has it.
  pub resolve-insert :
      (v : Vault) (name content raw_id : Text)
      → ReadsWork v
      → contains 47 name ≡ false
      → raw_id_from_resource name ≡ some raw_id
      → IsAbsent raw_id v
      → (resolve_raw_path canonicalize root raw_id
          (record v { files = insert (ascii "raw/" ++ name) content v.files })).0
        ≡ ok (ascii "raw/" ++ name)
  unfolding find_raw scan_raw read_raw_dir
  resolve-insert v name content raw_id w c r a =
      let path = ascii "raw/" ++ name in
      let found =
        find-insert (named raw_id) v.files name content c (rw (r, text_eq_refl raw_id) refl) a.1 in
      ap (λ r. r.0)
        (resolve-loaded canonicalize root (record v { files = insert path content v.files }) raw_id
          w.0)
      ∙ elim (recorded-insert v.files path content (raw_path_for v.manifest raw_id) a.0) [
        | inr o ↦ rw (find_raw, o) refl
        | inl n ↦
            rw
              (
                find_raw,
                n,
                scan_raw,
                found-not_empty (named raw_id) _ name found,
                read_raw_dir,
                w.1,
                found,
              )
              refl
      ]
