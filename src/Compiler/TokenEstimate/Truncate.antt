-- ===== src/Compiler/TokenEstimate/Truncate.antt =====
-- The sizes of truncated blobs.
use okf_mcp_rs.Prelude.{
  ℕ, zero, suc, ◌+◌, ◌-◌, ◌*◌, ◌/◌, ◌%◌, ◌^◌, ◌≤◌, ◌<◌, ◌≡◌, refl, Text, ascii, some, [], ◌∷◌,
  length, length-append, length-take, take, leb, leb→le, ltb, lt→ltb, arith, Bool-cases, inl, inr,
}
use okf_mcp_rs.Compiler.TokenEstimate.{
  RawBlob, estimate_tokens, digits, to_decimal, marker, truncate_to_budget, shared_budget,
  truncate_raw_blobs_to_shared_budget, superseded_tokens,
}

-- A number below 10 ^ k is written with at most k digits.
length-digits :
    (fuel k n : ℕ) (out : Text) → n < 10 ^ suc k → length (digits fuel n out) ≤ suc k + length out
unfolding digits
length-digits zero k n out h = omega arith
length-digits (suc fuel) zero n out h = rw (lt→ltb n 10 (omega arith)) (omega arith)
length-digits (suc fuel) (suc k) n out h = elim (Bool-cases (ltb n 10)) [
  | inl one ↦ rw one (omega arith)
  | inr more ↦
      rw more (omega (arith, length-digits fuel k (n / 10) ((48 + n % 10) ∷ out) (omega arith)))
]

length-marker : (n : ℕ) → n < 2 ^ 64 → length (marker n) ≤ 60
unfolding marker to_decimal
length-marker n h = omega (
  arith,
  length-digits (suc n) 19 n [] (omega arith),
  length-append (digits (suc n) n []) (ascii " chars over budget ...]"),
)

length-truncate :
    (content : Text) (budget : ℕ)
    → length content < 2 ^ 64
    → length (truncate_to_budget content budget) ≤ budget * 4 + 60
unfolding truncate_to_budget
length-truncate content budget h = elim (Bool-cases (leb (length content) (budget * 4))) [
  | inl fit ↦ rw fit (omega (arith, leb→le _ _ fit))
  | inr over ↦ rw over (
      omega (
        arith,
        length-append (take (budget * 4) content) (marker (length content - budget * 4)),
        length-take (budget * 4) content,
        length-marker (length content - budget * 4) (omega arith),
      ))
]

estimate-truncate :
    (content : Text) (budget : ℕ)
    → length content < 2 ^ 64
    → estimate_tokens (truncate_to_budget content budget) ≤ budget + 15
unfolding estimate_tokens
estimate-truncate content budget h = omega (arith, length-truncate content budget h)

truncate_fitting :
    (content : Text) (budget : ℕ)
    → estimate_tokens content ≤ budget
    → truncate_to_budget content budget ≡ content
unfolding estimate_tokens truncate_to_budget
truncate_fitting content budget h = ground arith

shared_budget_sum :
    (a o budget : ℕ) → (shared_budget a o budget).0 + (shared_budget a o budget).1 ≤ budget
unfolding shared_budget
shared_budget_sum a o budget = ground arith

shared_budget_fitting : (a o budget : ℕ) → a + o ≤ budget → shared_budget a o budget ≡ (a, o)
unfolding shared_budget
shared_budget_fitting a o budget h = ground arith

-- For contents shorter than 2 ^ 64 characters the estimates of the two truncated blobs add up to at
-- most the budget and 15 tokens for the marker of each.
pub truncate_raw_blobs_within_budget :
    (active superseded : RawBlob) (budget : ℕ)
    → length active.content < 2 ^ 64
    → length superseded.content < 2 ^ 64
    → (let truncated = truncate_raw_blobs_to_shared_budget active (some superseded) budget in
        estimate_tokens truncated.0.content + superseded_tokens truncated.1 ≤ budget + 30)
unfolding truncate_raw_blobs_to_shared_budget
truncate_raw_blobs_within_budget active superseded budget ha ho =
    let a = estimate_tokens active.content in
    let o = estimate_tokens superseded.content in
    omega (
      arith,
      shared_budget_sum a o budget,
      estimate-truncate active.content (shared_budget a o budget).0 ha,
      estimate-truncate superseded.content (shared_budget a o budget).1 ho,
    )

-- Two blobs whose estimates add up to at most the budget are returned unchanged.
pub truncate_raw_blobs_fitting :
    (active superseded : RawBlob) (budget : ℕ)
    → estimate_tokens active.content + estimate_tokens superseded.content ≤ budget
    → truncate_raw_blobs_to_shared_budget active (some superseded) budget
      ≡ (active, some superseded)
unfolding truncate_raw_blobs_to_shared_budget
truncate_raw_blobs_fitting active superseded budget fit =
    let a = estimate_tokens active.content in
    let o = estimate_tokens superseded.content in
    rw
      (
        shared_budget_fitting a o budget fit,
        truncate_fitting active.content a (omega arith),
        truncate_fitting superseded.content o (omega arith),
      )
      refl
