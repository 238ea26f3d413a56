-- ===== src/Compiler/TokenEstimate.antt =====
-- src/compiler/token_estimate.rs, with the two records of src/compiler/prompts.rs that it trims. A
-- text is a list of characters. `usize` arithmetic is unbounded: the sums are of lengths of texts in
-- memory, and the one product is of the caller's budget and 4.
pub mod Budget
pub mod Truncate
mod Tests
use okf_mcp_rs.Prelude.{
  ℕ, zero, suc, ◌+◌, ◌-◌, ◌*◌, ◌/◌, ◌%◌, Text, ascii, Option, none, some, List, [], ◌∷◌, ◌++◌,
  length, take, init, ltb, leb, if◌then◌else◌,
}

pub record RawBlob : Type 0 where
  pub id : Text
  pub content : Text

pub record WikiPageRef : Type 0 where
  pub path : Text
  pub content : Text

abbrev pub chars_per_token : ℕ
chars_per_token = 4

abbrev pub default_prompt_token_budget : ℕ
default_prompt_token_budget = 100000

-- `div_ceil`
unfoldable pub estimate_tokens : Text → ℕ
estimate_tokens text = (length text + (chars_per_token - 1)) / chars_per_token

unfoldable pub related_tokens : List WikiPageRef → ℕ
related_tokens [] = 0
related_tokens (page ∷ pages) = estimate_tokens page.content + related_tokens pages

abbrev pub superseded_tokens : Option RawBlob → ℕ
superseded_tokens none = 0
superseded_tokens (some old) = estimate_tokens old.content

unfoldable pub estimate_prompt_tokens : RawBlob → Option RawBlob → List WikiPageRef → ℕ
estimate_prompt_tokens active_raw superseded_raw related =
    estimate_tokens active_raw.content + superseded_tokens superseded_raw + related_tokens related

-- The `while` loop that pops pages, on fuel that the number of pages gives.
unfoldable pub trim : ℕ → ℕ → ℕ → List WikiPageRef → List WikiPageRef
trim fuel base budget [] = []
trim zero base budget (page ∷ pages) = page ∷ pages
trim (suc fuel) base budget (page ∷ pages) =
    let popped = trim fuel base budget (init (page ∷ pages)) in
    if leb (base + related_tokens (page ∷ pages)) budget then page ∷ pages else popped

unfoldable pub trim_related_pages :
    List WikiPageRef → RawBlob → Option RawBlob → ℕ → List WikiPageRef
trim_related_pages related active_raw superseded_raw budget_tokens =
    trim (length related) (estimate_tokens active_raw.content + superseded_tokens superseded_raw)
      budget_tokens related

-- The decimal digits of a number, as `format!` writes it; the fuel is at least the number of digits.
unfoldable pub digits : ℕ → ℕ → Text → Text
digits zero n out = out
digits (suc fuel) n out =
    let more = digits fuel (n / 10) ((48 + n % 10) ∷ out) in
    if ltb n 10 then (48 + n) ∷ out else more

unfoldable pub to_decimal : ℕ → Text
to_decimal n = digits (suc n) n []

unfoldable pub marker : ℕ → Text
marker over_by =
    10 ∷ 10 ∷ ascii "[... truncated " ++ (to_decimal over_by ++ ascii " chars over budget ...]")

unfoldable pub truncate_to_budget : Text → ℕ → Text
truncate_to_budget content budget_tokens =
    let budget_chars = budget_tokens * chars_per_token in
    let total_chars = length content in
    if leb total_chars budget_chars
    then content
    else take budget_chars content ++ marker (total_chars - budget_chars)

-- How the budget is split: (active, superseded).
unfoldable pub shared_budget : ℕ → ℕ → ℕ → ℕ × ℕ
shared_budget active_tokens old_tokens budget_tokens =
    let half = budget_tokens / 2 in
    if leb (active_tokens + old_tokens) budget_tokens
    then (active_tokens, old_tokens)
    else if leb active_tokens half
    then (active_tokens, budget_tokens - active_tokens)
    else if leb old_tokens half
    then (budget_tokens - old_tokens, old_tokens)
    else (half, budget_tokens - half)

unfoldable pub truncate_raw_blobs_to_shared_budget :
    RawBlob → Option RawBlob → ℕ → RawBlob × Option RawBlob
truncate_raw_blobs_to_shared_budget active none budget_tokens =
    (record active { content = truncate_to_budget active.content budget_tokens }, none)
truncate_raw_blobs_to_shared_budget active (some superseded) budget_tokens =
    let (active_budget, old_budget) =
      shared_budget (estimate_tokens active.content) (estimate_tokens superseded.content)
        budget_tokens in
    (
      record active { content = truncate_to_budget active.content active_budget },
      some (record superseded { content = truncate_to_budget superseded.content old_budget }),
    )
