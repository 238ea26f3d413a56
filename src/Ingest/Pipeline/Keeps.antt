-- ===== src/Ingest/Pipeline/Keeps.antt =====
-- What an ingest leaves of the files that are there.
use okf_mcp_rs.Manifest.Outcome.{HasRawId, record_ingest-HasRawId}
use okf_mcp_rs.Prelude.{
  ◌⊎◌, ℕ, ◌==◌, ◌≡◌, refl, inl, inr, Text, ascii, false, Option, some, List, [], ◌∷◌, ◌++◌, text_eq,
  ok, err, Result-cases, contains, Lacks→contains, Lacks, All, arith, is_empty,
}
use okf_mcp_rs.Core.VaultResolver.{sandbox_path}
use okf_mcp_rs.Storage.FileSystem.{next_fault, later}
use okf_mcp_rs.Manifest.{Manifest, IngestOutcome, no_op, fresh, replaced}
use okf_mcp_rs.Ingest.RawId.{is_separator, raw_id_for, raw_id_from_resource, blob_name}
use okf_mcp_rs.Ingest.RawId.FileName.{
  IsHex, IsNameChar, raw_id_from_resource-blob_name, raw_id_for-IsIdChar, blob_name-IsNameChar,
}
use okf_mcp_rs.Ingest.Vault.{load, Vault, IngestError, Action, and_then, save, write, create_parent}
use okf_mcp_rs.Ingest.Blob.{derive_slug, resolve_raw_path, write_new, write_raw_blob}
use okf_mcp_rs.Ingest.Blob.Resolve.{derive_slug-chars, resolve_err, ReadsWork}
use okf_mcp_rs.Ingest.Pipeline.{
  ingest_outcome, Calls, IngestReport, read_source, ingest_blob, ingest_content, process_ingest,
}
use okf_mcp_rs.Ingest.Pipeline.Files.{
  Holds, and_then-keeps, save-Holds, create_parent-keeps, write-Holds, other_path, load_as-keeps,
  resolve-keeps,
}

-- The hash of a content: `sha256:` and hexadecimal digits.
abbrev pub IsHash : Text → Type 0
IsHash hash = (hex : Text) × (hash ≡ ascii "sha256:" ++ hex) × All IsHex hex

IsNameChar→Lacks : (t : Text) → All IsNameChar t → Lacks 47 t
IsNameChar→Lacks [] h = tt
IsNameChar→Lacks (c ∷ t) h = (no_slash c h.0.1, IsNameChar→Lacks t h.1)
  where
    no_slash : (c : ℕ) → is_separator c ≡ false → (47 == c) ≡ false
    no_slash c h = ground arith

not_empty : (hex : Text) → is_empty (raw_id_for (ascii "sha256:" ++ hex)) ≡ false
unfolding raw_id_for
not_empty hex = refl

module _ (calls : Calls) (root : Text) where
  abbrev pub slug_of : Text → Text → Option Text
  slug_of uri content = derive_slug calls.parse_url uri content

  -- The raw id of a hash, and the name that its blob gets.
  pub blob_name_lem :
      (hash uri content : Text)
      → IsHash hash
      → (let name = blob_name (raw_id_for hash) (slug_of uri content) in
          (contains 47 name ≡ false) × (raw_id_from_resource name ≡ some (raw_id_for hash)))
  blob_name_lem hash uri content (hex, e, h) = rw e (
    Lacks→contains 47 _ (
        IsNameChar→Lacks _ (
          blob_name-IsNameChar _ _ (raw_id_for-IsIdChar hex h)
            (derive_slug-chars calls.parse_url uri content))),
    raw_id_from_resource-blob_name _ _ (not_empty hex) (raw_id_for-IsIdChar hex h)
        (derive_slug-chars calls.parse_url uri content),
  )

  -- The path that a new blob gets.
  abbrev pub blob_path : Text → Text → Text → Text
  blob_path hash uri content = ascii "raw/" ++ blob_name (raw_id_for hash) (slug_of uri content)

  abbrev pub write_blob : Text → Text → Text → List Text → Text → Action Text
  write_blob hash uri content tags now =
      write_raw_blob calls.canonicalize root calls.to_yaml calls.parse_url (raw_id_for hash) uri
        tags hash now content

  -- The next lookup does not fail, or the blob gets another path.
  abbrev pub IsSpared : Text → Text → Vault → Type 0
  IsSpared path new v = ReadsWork v ⊎ (text_eq new path ≡ false)

  write_new-Holds :
      (path text hash uri content now : Text) (tags : List Text) (v : Vault)
      → text_eq (blob_path hash uri content) path ≡ false
      → Holds path text v
      → Holds path text
          (write_new calls.canonicalize root calls.to_yaml calls.parse_url
            (raw_id_for hash)
            uri
            tags
            hash
            now
            content
            v).1
  unfolding write_new
  write_new-Holds path text hash uri content now tags v d h =
      let new = blob_path hash uri content in
      elim (Result-cases (sandbox_path calls.canonicalize root new)) [
        | inr (x, e) ↦ rw (write_new, e) h
        | inl (full_path, e) ↦
            rw (write_new, e)
              (and_then-keeps (Holds path text) (Holds path text) (create_parent v) _
                (create_parent-keeps (Holds path text) v (λ v faults p. p) h) (λ v p. p)
                (λ a v p.
                  and_then-keeps (Holds path text) (Holds path text) (write new _ v) _
                    (write-Holds path text new _ v d p) (λ v q. q) (λ b v q. q)))
      ]

  -- Where the lookup has failed, the blob gets another path than the file that is there.
  spared_path :
      (path text hash uri content : Text) (x : IngestError) (v : Vault)
      → IsHash hash
      → IsSpared path (blob_path hash uri content) v
      → Holds path text v
      → (resolve_raw_path calls.canonicalize root (raw_id_for hash) v).0 ≡ err x
      → text_eq (blob_path hash uri content) path ≡ false
  spared_path path text hash uri content x v k (inr d) h n = d
  spared_path path text hash uri content x v k (inl w) h n =
      let b = blob_name_lem hash uri content k in
      other_path path text (blob_path hash uri content) v h
        (resolve_err calls.canonicalize root v _ (raw_id_for hash) x w b.0 b.1 n)

  write_raw_blob-Holds :
      (path text hash uri content now : Text) (tags : List Text) (v : Vault)
      → IsHash hash
      → IsSpared path (blob_path hash uri content) v
      → Holds path text v
      → Holds path text (write_blob hash uri content tags now v).1
  unfolding write_raw_blob
  write_raw_blob-Holds path text hash uri content now tags v k s h =
      let same =
        resolve-keeps calls.canonicalize root (raw_id_for hash) (Holds path text) v
          (λ v faults p. p) h in
      elim (Result-cases (resolve_raw_path calls.canonicalize root (raw_id_for hash) v).0) [
        | inl (existing, e) ↦ rw (write_raw_blob, e) same
        | inr (x, e) ↦
            rw (write_raw_blob, e)
              (write_new-Holds path text hash uri content now tags _
                (spared_path path text hash uri content x v k s h e) same)
      ]

  save_then-Holds :
      (path text : Text) (m : Manifest) (report : IngestReport) (v : Vault)
      → Holds path text v
      → Holds path text (and_then (save m v) (λ _ v. (ok report, v))).1
  save_then-Holds path text m report v h =
      and_then-keeps (Holds path text) (Holds path text) (save m v) _ (save-Holds path text m v h)
        (λ v p. p) (λ a v p. p)

  ingest_blob-Holds :
      (path text hash uri content now : Text) (tags : List Text) (m : Manifest)
      (outcome : IngestOutcome) (v : Vault)
      → IsHash hash
      → IsSpared path (blob_path hash uri content) v
      → Holds path text v
      → Holds path text
          (ingest_blob calls root (raw_id_for hash) uri content tags hash now m outcome v).1
  unfolding ingest_blob
  ingest_blob-Holds path text hash uri content now tags m outcome v k s h =
      and_then-keeps (Holds path text) (Holds path text) (write_blob hash uri content tags now v) _
        (write_raw_blob-Holds path text hash uri content now tags v k s h) (λ v p. p)
        (λ a v p. save_then-Holds path text _ _ v p)

  ingest_with-Holds :
      (path text hash uri content now : Text) (tags : List Text) (m : Manifest) (v : Vault)
      (o : IngestOutcome)
      → HasRawId (raw_id_for hash) o
      → IsHash hash
      → IsSpared path (blob_path hash uri content) v
      → Holds path text v
      → Holds path text (ingest_outcome calls root uri content tags hash now m o v).1
  ingest_with-Holds path text hash uri content now tags m v no_op r k s h =
      save_then-Holds path text m _ v h
  ingest_with-Holds path text hash uri content now tags m v (fresh new) r k s h =
      rw r
        (ingest_blob-Holds path text hash uri content now tags m (fresh (raw_id_for hash)) v k s h)
  ingest_with-Holds path text hash uri content now tags m v (replaced new previous) r k s h = rw r (
      ingest_blob-Holds path text hash uri content now tags m (replaced (raw_id_for hash) previous)
        v k s h)

  ingest_content-Holds :
      (path text uri content now : Text) (tags : List Text) (v : Vault)
      → IsHash (calls.hash_content content)
      → IsSpared path
          (blob_path (calls.hash_content content) uri content)
          (record v { faults = later v.faults })
      → Holds path text v
      → Holds path text (ingest_content calls root uri content tags now v).1
  unfolding ingest_content load
  ingest_content-Holds path text uri content now tags v k s h =
      let hash = calls.hash_content content in
      let P : Vault → Type 0 =
        λ v. IsSpared path (blob_path hash uri content) v × Holds path text v in
      and_then-keeps P (Holds path text) (load v) _
        (load_as-keeps P (next_fault v.faults) (record v { faults = later v.faults }) (s, h))
        (λ v p. p.1)
        (λ before v p.
          ingest_with-Holds path text hash uri content now tags _ v _
            (record_ingest-HasRawId before uri hash (raw_id_for hash) now) k p.0 p.1)

  -- When the hash function gives `sha256:` and hexadecimal digits, `process_ingest` changes no file
  -- that is there, whichever call fails, if the second and the third call work, which are those that
  -- look for the blob, or if the file does not have the path of the source's blob.
  pub process_ingest_keeps :
      (path text source now : Text) (tags : List Text) (v : Vault)
      → ((content : Text) → IsHash (calls.hash_content content))
      → ReadsWork (record v { faults = later v.faults })
        ⊎ ((uri content : Text)
            → read_source calls root source ≡ ok (uri, content)
            → text_eq (blob_path (calls.hash_content content) uri content) path ≡ false)
      → Holds path text v
      → Holds path text (process_ingest calls root source tags now v).1
  unfolding process_ingest
  process_ingest_keeps path text source now tags v k s h =
      elim (Result-cases (read_source calls root source)) [
        | inr (x, e) ↦ rw (process_ingest, e) h
        | inl ((uri, content), e) ↦
            rw (process_ingest, e)
              (ingest_content-Holds path text uri content now tags v (k content)
                (elim s [ inl w ↦ inl w | inr d ↦ inr (d uri content e) ]) h)
      ]
