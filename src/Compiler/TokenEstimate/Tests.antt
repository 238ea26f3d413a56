-- ===== src/Compiler/TokenEstimate/Tests.antt =====
-- The trimming of a prompt of three pages, and the truncation of two blobs.
use okf_mcp_rs.Prelude.{
  ◌+◌, ◌≤◌, ◌<◌, ◌≡◌, refl, ascii, some, List, [], ◌∷◌, length, take, ◌⊎◌, arith,
}
use okf_mcp_rs.Compiler.TokenEstimate.{
  RawBlob, WikiPageRef, estimate_tokens, estimate_prompt_tokens, superseded_tokens, trim, digits,
  marker, to_decimal, related_tokens, trim_related_pages, truncate_to_budget,
  truncate_raw_blobs_to_shared_budget,
}
use okf_mcp_rs.Compiler.TokenEstimate.Budget.{trim_related_pages_fits, trim_related_pages_longest}
use okf_mcp_rs.Compiler.TokenEstimate.Truncate.{truncate_raw_blobs_within_budget}

abbrev active : RawBlob
active = record { id = ascii "raw_a"; content = ascii "0123456789" }

abbrev old : RawBlob
old = record { id = ascii "raw_b"; content = ascii "01234567" }

abbrev pages : List WikiPageRef
pages =
    record { path = ascii "a.md"; content = ascii "0123" }
    ∷ record { path = ascii "b.md"; content = ascii "01234" }
    ∷ []

trimmed_pages : length (trim_related_pages pages active (some old) 7) ≡ 1
unfolding trim_related_pages trim estimate_tokens related_tokens
trimmed_pages = refl

truncated :
    truncate_to_budget (ascii "0123456789") 1
    ≡ ascii "0123\n\n[... truncated 6 chars over budget ...]"
unfolding truncate_to_budget marker to_decimal digits
truncated = refl

trim_related_pages_fits_example :
    let trimmed = trim_related_pages pages active (some old) 7 in
    (trimmed ≡ take (length trimmed) pages)
    × ((trimmed ≡ []) ⊎ (estimate_prompt_tokens active (some old) trimmed ≤ 7))
trim_related_pages_fits_example = trim_related_pages_fits active (some old) pages 7

trim_related_pages_longest_example : 7 < estimate_prompt_tokens active (some old) (take 2 pages)
trim_related_pages_longest_example =
    trim_related_pages_longest active (some old) pages 7 2 (omega (arith, trimmed_pages))
      (omega arith)

truncate_raw_blobs_within_budget_example :
    let truncated = truncate_raw_blobs_to_shared_budget active (some old) 3 in
    estimate_tokens truncated.0.content + superseded_tokens truncated.1 ≤ 3 + 30
truncate_raw_blobs_within_budget_example =
    truncate_raw_blobs_within_budget active old 3 (omega arith) (omega arith)

five_tokens : estimate_tokens active.content + estimate_tokens old.content ≤ 6
unfolding estimate_tokens
five_tokens = omega arith
