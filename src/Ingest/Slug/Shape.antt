-- ===== src/Ingest/Slug/Shape.antt =====
-- The shape of a slug.
use okf_mcp_rs.Prelude.{
  ap, ℕ, ◌+◌, ◌≤◌, ◌<◌, ◌≡◌, refl, Bool, true, false, ◌&&◌, Text, Option, none, some, [], ◌∷◌, ◌++◌,
  ◌==◌, leb, length, is_empty, if◌then◌else◌, All, All-append, length-append, ◌⊎◌, inl, inr, arith,
  Bool-cases, leb_false→lt, subst, eq_of_some, ◌∙◌,
}
use okf_mcp_rs.Ingest.Slug.{
  max_slug_len, is_ascii_alphanumeric, to_ascii_lowercase, push_char, scan, trim_end, slugify,
}

-- A lower-case letter, a digit or a dash.
abbrev pub IsSlugChar : ℕ → Type 0
IsSlugChar c = (c ≡ 45) ⊎ ((48 ≤ c) × (c ≤ 57)) ⊎ ((97 ≤ c) × (c ≤ 122))

-- Whether the last character was a dash, after the characters of a text; `none` after two dashes in
-- a row.
unfoldable pub dash_after : Bool → Text → Option Bool
dash_after dash [] = some dash
dash_after dash (c ∷ s) =
    if c == 45 then (if dash then none else dash_after true s) else dash_after false s

-- At most 60 characters from the alphabet; no dash at the start, at the end or next to another.
abbrev pub IsSlug : Text → Type 0
IsSlug s = (length s ≤ max_slug_len) × All IsSlugChar s × (dash_after true s ≡ some false)

lowercase-IsSlugChar : (c : ℕ) → is_ascii_alphanumeric c ≡ true → IsSlugChar (to_ascii_lowercase c)
unfolding is_ascii_alphanumeric to_ascii_lowercase
lowercase-IsSlugChar c h = ground arith

lowercase_no_dash : (c : ℕ) → is_ascii_alphanumeric c ≡ true → (to_ascii_lowercase c == 45) ≡ false
unfolding is_ascii_alphanumeric to_ascii_lowercase
lowercase_no_dash c h = ground arith

dash_after-append :
    (p d : Bool) (s : Text) (c : ℕ)
    → dash_after p s ≡ some d
    → dash_after p (s ++ c ∷ []) ≡ dash_after d (c ∷ [])
unfolding dash_after
dash_after-append p d [] c h = ground (arith, eq_of_some h)
dash_after-append p d (x ∷ s) c h = elim (Bool-cases (x == 45)) [
  | inr n ↦ rw n (dash_after-append false d s c (rw n at h))
  | inl e ↦ elim (Bool-cases p) [
    | inr q ↦ rw (e, q) (dash_after-append true d s c (rw (e, q) at h))
    | inl q ↦ absurd (never (rw (e, q) at h))
  ]
]
  where
    never : {d : Bool} → ◌≡◌ {A = Option Bool} none (some d) → ⊥
    never e = cc

dash_after-lowercase :
    (d : Bool) (c : ℕ)
    → is_ascii_alphanumeric c ≡ true
    → dash_after d (to_ascii_lowercase c ∷ []) ≡ some false
unfolding dash_after
dash_after-lowercase d c a = rw (lowercase_no_dash c a) refl

dash_after-dash : dash_after false (45 ∷ []) ≡ some true
unfolding dash_after
dash_after-dash = refl

-- The state of the loop.
record IsScanned (slug : Text) (dash : Bool) : Type 0 where
  chars : All IsSlugChar slug
  last : dash_after true slug ≡ some dash

push_char-IsScanned :
    (slug : Text) (dash : Bool) (c : ℕ)
    → IsScanned slug dash
    → (let (slug', dash') = push_char slug dash c in
        IsScanned slug' dash' × (length slug' ≤ length slug + 1))
unfolding push_char
push_char-IsScanned slug dash c h = elim (Bool-cases (is_ascii_alphanumeric c)) [
  | inl a ↦ rw a (
    record {
      chars = All-append IsSlugChar slug _ h.chars (lowercase-IsSlugChar c a, tt);
      last = dash_after-append true dash slug _ h.last ∙ dash_after-lowercase dash c a;
    },
    omega (arith, length-append slug (to_ascii_lowercase c ∷ [])),
  )
  | inr n ↦ elim (Bool-cases dash) [
    | inl d ↦ rw (n, d) (record { chars = h.chars; last = rw d at h.last }, omega arith)
    | inr d ↦
        rw (n, d)
          (
            record {
              chars = All-append IsSlugChar slug _ h.chars (inl refl, tt);
              last = dash_after-append true false slug 45 (rw d at h.last) ∙ dash_after-dash;
            },
            omega (arith, length-append slug (45 ∷ [])),
          )
  ]
]

scan-IsScanned :
    (slug : Text) (dash : Bool) (text : Text)
    → IsScanned slug dash
    → length slug < max_slug_len
    → (d : Bool) × IsScanned (scan slug dash text) d × (length (scan slug dash text) ≤ max_slug_len)
unfolding scan
scan-IsScanned slug dash [] h l = (dash, h, omega arith)
scan-IsScanned slug dash (c ∷ text) h l =
    let r = push_char-IsScanned slug dash c h in
    elim (Bool-cases (leb max_slug_len (length (push_char slug dash c).0))) [
      | inl full ↦ rw full ((push_char slug dash c).1, r.0, omega (arith, r.1))
      | inr room ↦ rw room (
          scan-IsScanned (push_char slug dash c).0 (push_char slug dash c).1 text r.0
            (leb_false→lt _ _ room))
    ]

trim_end-length : (s : Text) → length (trim_end s) ≤ length s
unfolding trim_end
trim_end-length [] = omega arith
trim_end-length (c ∷ s) = elim (Bool-cases (is_empty (trim_end s) && (c == 45))) [
  | inl e ↦ rw e (omega arith)
  | inr n ↦ rw n (omega (arith, trim_end-length s))
]

trim_end-chars : (s : Text) → All IsSlugChar s → All IsSlugChar (trim_end s)
unfolding trim_end
trim_end-chars [] h = tt
trim_end-chars (c ∷ s) h = elim (Bool-cases (is_empty (trim_end s) && (c == 45))) [
  | inl e ↦ rw e tt
  | inr n ↦ rw n (h.0, trim_end-chars s h.1)
]

-- Putting a character other than a dash before what is left of the rest, or a dash.
keep_other :
    (p : Bool) (c : ℕ) (t : Text)
    → (c == 45) ≡ false
    → (t ≡ []) ⊎ (dash_after false t ≡ some false)
    → dash_after p (if is_empty t && (c == 45) then [] else c ∷ t) ≡ some false
unfolding dash_after
keep_other p c [] n h = rw n (rw n refl)
keep_other p c (x ∷ t) n (inl e) = absurd (nil_cons e)
  where
    nil_cons : {x : ℕ} {t : Text} → x ∷ t ≡ [] → ⊥
    nil_cons e = cc
keep_other p c (x ∷ t) n (inr q) = rw n q

keep_dash :
    (c : ℕ) (t : Text)
    → (c == 45) ≡ true
    → (t ≡ []) ⊎ (dash_after true t ≡ some false)
    → (let kept = if is_empty t && (c == 45) then [] else c ∷ t in
        (kept ≡ []) ⊎ (dash_after false kept ≡ some false))
unfolding dash_after
keep_dash c [] e h = rw e (inl refl)
keep_dash c (x ∷ t) e (inl z) = absurd (nil_cons z)
  where
    nil_cons : {x : ℕ} {t : Text} → x ∷ t ≡ [] → ⊥
    nil_cons e = cc
keep_dash c (x ∷ t) e (inr q) = inr (rw e q)

tail_other :
    (p d : Bool) (c : ℕ) (s : Text)
    → (c == 45) ≡ false
    → dash_after p (c ∷ s) ≡ some d
    → dash_after false s ≡ some d
unfolding dash_after
tail_other p d c s n h = rw n at h

tail_dash :
    (p d : Bool) (c : ℕ) (s : Text)
    → (c == 45) ≡ true
    → dash_after p (c ∷ s) ≡ some d
    → (p ≡ false) × (dash_after true s ≡ some d)
unfolding dash_after
tail_dash true d c s e h = absurd (never (rw e at h))
  where
    never : {d : Bool} → ◌≡◌ {A = Option Bool} none (some d) → ⊥
    never e = cc
tail_dash false d c s e h = (refl, rw e at h)

-- With its last dashes removed a text ends in no dash, if anything is left.
trim_end-last :
    (p d : Bool) (s : Text)
    → dash_after p s ≡ some d
    → (trim_end s ≡ []) ⊎ (dash_after p (trim_end s) ≡ some false)
unfolding trim_end
trim_end-last p d [] h = inl refl
trim_end-last p d (c ∷ s) h = elim (Bool-cases (c == 45)) [
  | inr n ↦ inr (keep_other p c (trim_end s) n (trim_end-last false d s (tail_other p d c s n h)))
  | inl e ↦
      let t = tail_dash p d c s e h in
      rw t.0 (keep_dash c (trim_end s) e (trim_end-last true d s t.1))
]

trimmed-IsSlug :
    (text : Text)
    → is_empty (trim_end (scan [] true text)) ≡ false
    → IsSlug (trim_end (scan [] true text))
trimmed-IsSlug text ne =
    let scanned = scan [] true text in
    let (d, r, l) =
      scan-IsScanned [] true text (record { chars = tt; last = unfold dash_after in refl })
        (omega arith) in
    (
      omega (arith, l, trim_end-length scanned),
      trim_end-chars scanned r.chars,
      elim (trim_end-last true d scanned r.last) [
        | inl e ↦ absurd (cc (ap is_empty e))
        | inr q ↦ q
      ],
    )

-- Whatever the title, a slug has from 1 to 60 characters, all of them lower-case ASCII letters,
-- digits and dashes, with no dash at the start, at the end or next to another dash.
pub slugify-IsSlug :
    (text slug : Text) → slugify text ≡ some slug → (is_empty slug ≡ false) × IsSlug slug
unfolding slugify
slugify-IsSlug text slug h = elim (Bool-cases (is_empty (trim_end (scan [] true text)))) [
  | inl e ↦ absurd (never (rw e at h))
  | inr ne ↦
      subst (λ s. (is_empty s ≡ false) × IsSlug s) (eq_of_some (rw ne at h))
        (ne, trimmed-IsSlug text ne)
]
  where
    never : {s : Text} → ◌≡◌ {A = Option Text} none (some s) → ⊥
    never e = cc
