-- ===== src/Ingest/Slug/Tests.antt =====
-- The slug of a title.
use okf_mcp_rs.Prelude.{◌≡◌, refl, false, ascii, some, none, is_empty}
use okf_mcp_rs.Ingest.Slug.{
  is_ascii_alphanumeric, to_ascii_lowercase, push_char, scan, trim_end, slugify,
}
use okf_mcp_rs.Ingest.Slug.Shape.{IsSlug, slugify-IsSlug}

slug_of_title : slugify (ascii "-- Rust: 2024 -- Notes! ") ≡ some (ascii "rust-2024-notes")
unfolding slugify scan push_char is_ascii_alphanumeric to_ascii_lowercase trim_end
slug_of_title = refl

slug_of_nothing : slugify (ascii "?! -") ≡ none
unfolding slugify scan push_char is_ascii_alphanumeric to_ascii_lowercase trim_end
slug_of_nothing = refl

slugify-IsSlug_example :
    (is_empty (ascii "rust-2024-notes") ≡ false) × IsSlug (ascii "rust-2024-notes")
slugify-IsSlug_example =
    slugify-IsSlug (ascii "-- Rust: 2024 -- Notes! ") (ascii "rust-2024-notes") slug_of_title
