-- ===== src/Ingest/RawId/FileName.antt =====
-- The raw id that the name of a blob's file carries.
use okf_mcp_rs.Prelude.{
  ℕ, zero, suc, if◌then◌else◌, ◌≡◌, refl, sym, false, Text, ascii, Option, none, some, [], ◌∷◌,
  ◌++◌, ◌==◌, is_empty, take, Lacks, split_once, split_once-append, split_once-none, All,
  All-append, append_assoc, arith, ◌⊎◌, ◌≤◌,
}
use okf_mcp_rs.Prelude.Pieces.{
  is_whitespace, trim, trim_keeps, last_piece_none, strip_suffix-append,
}
use okf_mcp_rs.Ingest.Slug.{slugify}
use okf_mcp_rs.Ingest.Slug.Shape.{IsSlugChar, slugify-IsSlug}
use okf_mcp_rs.Ingest.RawId.{
  is_separator, before_dashes, raw_id_for, raw_id_from_resource, blob_name,
}

-- A character that `trim` keeps and that is no separator of a path.
abbrev pub IsNameChar : ℕ → Type 0
IsNameChar c = (is_whitespace c ≡ false) × (is_separator c ≡ false)

-- A raw id: `raw_` and characters of a name other than dashes.
abbrev pub IsIdChar : ℕ → Type 0
IsIdChar c = IsNameChar c × ((45 == c) ≡ false)

slug_char : (c : ℕ) → IsSlugChar c → IsNameChar c
slug_char c h = ground arith

-- A lower-case hexadecimal digit.
abbrev pub IsHex : ℕ → Type 0
IsHex c = ((48 ≤ c) × (c ≤ 57)) ⊎ ((97 ≤ c) × (c ≤ 102))

hex_char : (c : ℕ) → IsHex c → IsIdChar c
hex_char c h = ground arith

All-names : (t : Text) → All IsIdChar t → All IsNameChar t
All-names [] h = tt
All-names (c ∷ t) h = (h.0.0, All-names t h.1)

All-Lacks : (t : Text) → All IsIdChar t → Lacks 45 t
All-Lacks [] h = tt
All-Lacks (c ∷ t) h = (h.0.1, All-Lacks t h.1)

All-slug : (t : Text) → All IsSlugChar t → All IsNameChar t
All-slug [] h = tt
All-slug (c ∷ t) h = (slug_char c h.0, All-slug t h.1)

All-spaces : (t : Text) → All IsNameChar t → All (λ c. is_whitespace c ≡ false) t
All-spaces [] h = tt
All-spaces (c ∷ t) h = (h.0.0, All-spaces t h.1)

All-separators : (t : Text) → All IsNameChar t → All (λ c. is_separator c ≡ false) t
All-separators [] h = tt
All-separators (c ∷ t) h = (h.0.1, All-separators t h.1)

-- The name of a file has no directory, and its extension is taken off.
raw_id_from_resource-stem :
    (stem : Text)
    → All IsNameChar stem
    → raw_id_from_resource (stem ++ ascii ".md") ≡ (
        let candidate = trim (before_dashes stem (split_once (ascii "--") stem)) in
        if is_empty candidate then none else some candidate)
unfolding raw_id_from_resource
raw_id_from_resource-stem stem h =
    let name = stem ++ ascii ".md" in
    let n =
      All-append IsNameChar stem (ascii ".md") h
        ((refl, refl), ((refl, refl), ((refl, refl), tt))) in
    rw
      (
        trim_keeps name (All-spaces name n),
        last_piece_none is_separator name name (All-separators name n),
        strip_suffix-append stem (ascii ".md"),
      )
      refl

-- The raw id is found again in the name of a blob's file, with a slug and without.
pub raw_id_from_resource-blob_name :
    (raw_id : Text) (slug : Option Text)
    → is_empty raw_id ≡ false
    → All IsIdChar raw_id
    → ((s : Text) → slug ≡ some s → All IsSlugChar s)
    → raw_id_from_resource (blob_name raw_id slug) ≡ some raw_id
unfolding blob_name
raw_id_from_resource-blob_name raw_id none e h s =
    rw
      (
        raw_id_from_resource-stem raw_id (All-names raw_id h),
        split_once-none 45 (45 ∷ []) raw_id (All-Lacks raw_id h),
        trim_keeps raw_id (All-spaces raw_id (All-names raw_id h)),
        e,
      )
      refl
raw_id_from_resource-blob_name raw_id (some slug) e h s =
    let n = All-names raw_id h in
    let stem = raw_id ++ (ascii "--" ++ slug) in
    let stem_names =
      All-append IsNameChar raw_id (ascii "--" ++ slug) n
        ((refl, refl), ((refl, refl), All-slug slug (s slug refl))) in
    rw
      (
        sym (append_assoc raw_id (ascii "--" ++ slug) (ascii ".md")),
        raw_id_from_resource-stem stem stem_names,
        split_once-append 45 (45 ∷ []) raw_id slug (All-Lacks raw_id h),
        trim_keeps raw_id (All-spaces raw_id n),
        e,
      )
      refl

All-take : (n : ℕ) (t : Text) → All IsHex t → All IsIdChar (take n t)
All-take zero t h = tt
All-take (suc n) [] h = tt
All-take (suc n) (c ∷ t) h = (hex_char c h.0, All-take n t h.1)

pub raw_id_for-IsIdChar :
    (hex : Text) → All IsHex hex → All IsIdChar (raw_id_for (ascii "sha256:" ++ hex))
unfolding raw_id_for
raw_id_for-IsIdChar hex h = (
  ((refl, refl), refl),
  (((refl, refl), refl), (((refl, refl), refl), (((refl, refl), refl), All-take 10 hex h))),
)

-- For the hash of any content, and any title that the slug comes from, the raw id of the hash is what
-- the name of its blob's file gives back.
pub raw_id_from_resource-raw_id_for :
    (hex title : Text)
    → All IsHex hex
    → raw_id_from_resource (blob_name (raw_id_for (ascii "sha256:" ++ hex)) (slugify title))
      ≡ some (raw_id_for (ascii "sha256:" ++ hex))
unfolding raw_id_for
raw_id_from_resource-raw_id_for hex title h =
    raw_id_from_resource-blob_name (raw_id_for (ascii "sha256:" ++ hex)) (slugify title) refl
      (raw_id_for-IsIdChar hex h) (λ s e. (slugify-IsSlug title s e).1.1)

-- The name of a blob's file has no separator.
pub blob_name-IsNameChar :
    (raw_id : Text) (slug : Option Text)
    → All IsIdChar raw_id
    → ((s : Text) → slug ≡ some s → All IsSlugChar s)
    → All IsNameChar (blob_name raw_id slug)
unfolding blob_name
blob_name-IsNameChar raw_id none h s = All-append IsNameChar raw_id _ (All-names raw_id h) md
  where
    md : All IsNameChar (ascii ".md")
    md = ((refl, refl), ((refl, refl), ((refl, refl), tt)))
blob_name-IsNameChar raw_id (some slug) h s = All-append IsNameChar raw_id _ (All-names raw_id h) (
  (refl, refl),
  (
    (refl, refl),
    All-append IsNameChar slug (ascii ".md") (All-slug slug (s slug refl))
        ((refl, refl), ((refl, refl), ((refl, refl), tt))),
  ),
)
