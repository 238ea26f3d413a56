-- ===== src/Ingest/Slug.antt =====
-- src/ingest/frontmatter.rs: `slugify`, which names raw files after their titles. The slug is ASCII
-- only, so its length in bytes is its number of characters.
pub mod Shape
mod Tests
use okf_mcp_rs.Prelude.{
  ℕ, ◌+◌, Bool, true, false, ◌&&◌, ◌||◌, Text, Option, none, some, [], ◌∷◌, ◌++◌, ◌==◌, leb, length,
  is_empty, if◌then◌else◌,
}

abbrev pub max_slug_len : ℕ
max_slug_len = 60

abbrev pub is_between : ℕ → ℕ → ℕ → Bool
is_between a b c = leb a c && leb c b

-- `is_ascii_alphanumeric`: 0 to 9, A to Z, a to z.
unfoldable pub is_ascii_alphanumeric : ℕ → Bool
is_ascii_alphanumeric c = is_between 48 57 c || (is_between 65 90 c || is_between 97 122 c)

unfoldable pub to_ascii_lowercase : ℕ → ℕ
to_ascii_lowercase c = if is_between 65 90 c then c + 32 else c

-- One round of the loop: the slug and `last_was_dash`.
unfoldable pub push_char : Text → Bool → ℕ → Text × Bool
push_char slug last_was_dash ch =
    if is_ascii_alphanumeric ch
    then (slug ++ to_ascii_lowercase ch ∷ [], false)
    else if last_was_dash
    then (slug, true)
    else (slug ++ 45 ∷ [], true)

unfoldable pub scan : Text → Bool → Text → Text
scan slug last_was_dash [] = slug
scan slug last_was_dash (ch ∷ chars) =
    let (slug', dash') = push_char slug last_was_dash ch in
    let rest = scan slug' dash' chars in if leb max_slug_len (length slug') then slug' else rest

-- `while slug.ends_with('-') { slug.pop(); }`
unfoldable pub trim_end : Text → Text
trim_end [] = []
trim_end (c ∷ s) = let t = trim_end s in if is_empty t && (c == 45) then [] else c ∷ t

unfoldable pub slugify : Text → Option Text
slugify text = let slug = trim_end (scan [] true text) in if is_empty slug then none else some slug
