-- ===== src/Compiler/TokenEstimate/Budget.antt =====
-- The pages that are kept in a prompt.
use okf_mcp_rs.Prelude.{
  ℕ, zero, suc, ◌+◌, ◌≤◌, ◌<◌, ◌≡◌, refl, sym, ap, ◌∙◌, Option, List, [], ◌∷◌, length, length-take,
  take, init, subst, leb, leb→le, leb_false→lt, arith, Bool-cases, inl, inr, ◌⊎◌,
}
use okf_mcp_rs.Compiler.TokenEstimate.{
  RawBlob, WikiPageRef, related_tokens, estimate_prompt_tokens, trim, trim_related_pages,
}

-- What `trim` returns is a prefix of the pages; it fits, or is empty; and no longer prefix fits.
pub record Trims (base budget : ℕ) (related trimmed : List WikiPageRef) : Type 0 where
  pub kept : trimmed ≡ take (length trimmed) related
  pub fits : (trimmed ≡ []) ⊎ (base + related_tokens trimmed ≤ budget)
  pub longest :
      (n : ℕ)
      → length trimmed < n
      → n ≤ length related
      → budget < base + related_tokens (take n related)

module _ {ℓ} {A : Type ℓ} where
  length-init : (x : A) (xs : List A) → length (init (x ∷ xs)) ≡ length xs
  length-init x [] = refl
  length-init x (y ∷ ys) = ap suc (length-init y ys)

  take-init :
      (n : ℕ) (x : A) (xs : List A) → n ≤ length xs → take n (init (x ∷ xs)) ≡ take n (x ∷ xs)
  take-init zero x xs h = refl
  take-init (suc n) x [] h = absurd (omega arith)
  take-init (suc n) x (y ∷ ys) h = ap (λ l. x ∷ l) (take-init n y ys (omega arith))

  take_all : (n : ℕ) (xs : List A) → length xs ≤ n → take n xs ≡ xs
  take_all zero [] h = refl
  take_all (suc n) [] h = refl
  take_all zero (x ∷ xs) h = absurd (omega arith)
  take_all (suc n) (x ∷ xs) h = ap (λ l. x ∷ l) (take_all n xs (omega arith))

Trims-whole :
    (base budget : ℕ) (related : List WikiPageRef)
    → base + related_tokens related ≤ budget
    → Trims base budget related related
Trims-whole base budget related h = record {
  kept = sym (take_all (length related) related (omega arith));
  fits = inr h;
  longest = λ n h₁ h₂. absurd (omega arith);
}

Trims-short :
    (base budget : ℕ) (p : WikiPageRef) (ps trimmed : List WikiPageRef)
    → Trims base budget (init (p ∷ ps)) trimmed
    → length trimmed ≤ length ps
Trims-short base budget p ps trimmed t =
    omega (arith, ap length t.kept, length-take (length trimmed) (init (p ∷ ps)), length-init p ps)

Trims-popped :
    (base budget : ℕ) (p : WikiPageRef) (ps trimmed : List WikiPageRef)
    → budget < base + related_tokens (p ∷ ps)
    → Trims base budget (init (p ∷ ps)) trimmed
    → Trims base budget (p ∷ ps) trimmed
Trims-popped base budget p ps trimmed over t = record {
  kept = t.kept ∙ take-init (length trimmed) p ps (Trims-short base budget p ps trimmed t);
  fits = t.fits;
  longest = λ n h₁ h₂. elim (Bool-cases (leb n (length ps))) [
    | inl le ↦
        subst (λ l. budget < base + related_tokens l) (take-init n p ps (leb→le _ _ le))
          (t.longest n h₁ (rw (length-init p ps) (leb→le _ _ le)))
    | inr gt ↦
        subst (λ l. budget < base + related_tokens l)
          (sym (take_all n (p ∷ ps) (leb_false→lt _ _ gt))) over
  ];
}

trim-Trims :
    (fuel base budget : ℕ) (related : List WikiPageRef)
    → length related ≤ fuel
    → Trims base budget related (trim fuel base budget related)
unfolding trim
trim-Trims fuel base budget [] h = record {
  kept = refl;
  fits = inl refl;
  longest = λ n h₁ h₂. absurd (omega arith);
}
trim-Trims zero base budget (p ∷ ps) h = absurd (omega arith)
trim-Trims (suc fuel) base budget (p ∷ ps) h =
    elim (Bool-cases (leb (base + related_tokens (p ∷ ps)) budget)) [
      | inl fit ↦ rw fit (Trims-whole base budget (p ∷ ps) (leb→le _ _ fit))
      | inr over ↦ rw over (
          Trims-popped base budget p ps _ (leb_false→lt _ _ over)
            (trim-Trims fuel base budget (init (p ∷ ps)) (rw (length-init p ps) (omega arith))))
    ]

-- The pages that are kept are a prefix of the ranked ones, and the estimate of the prompt with them
-- is within the budget, unless no page is kept.
pub trim_related_pages_fits :
    (active : RawBlob) (superseded : Option RawBlob) (related : List WikiPageRef) (budget : ℕ)
    → (let trimmed = trim_related_pages related active superseded budget in
        (trimmed ≡ take (length trimmed) related)
        × ((trimmed ≡ []) ⊎ (estimate_prompt_tokens active superseded trimmed ≤ budget)))
unfolding trim_related_pages estimate_prompt_tokens
trim_related_pages_fits active superseded related budget =
    let t = trim-Trims (length related) _ budget related (omega arith) in (t.kept, t.fits)

-- No page is dropped in vain: with any longer prefix of the ranked pages than the one that is kept,
-- the estimate of the prompt is over the budget.
pub trim_related_pages_longest :
    (active : RawBlob) (superseded : Option RawBlob) (related : List WikiPageRef) (budget n : ℕ)
    → length (trim_related_pages related active superseded budget) < n
    → n ≤ length related
    → budget < estimate_prompt_tokens active superseded (take n related)
unfolding trim_related_pages estimate_prompt_tokens
trim_related_pages_longest active superseded related budget n h₁ h₂ =
    (trim-Trims (length related) _ budget related (omega arith)).longest n h₁ h₂
