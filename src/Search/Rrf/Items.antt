-- ===== src/Search/Rrf/Items.antt =====
-- The items of a merged ranking.
use okf_mcp_rs.Prelude.{
  ◌≡◌, arith, ℕ, ◌+◌, Text, text_eq, text_eq_iff, Bool-cases, inl, inr, List, [], ◌∷◌, ◌↔◌, ◌⊎◌,
  Exists,
}
use okf_mcp_rs.Prelude.Assoc.{Assoc, lookup, insert}
use okf_mcp_rs.Prelude.Sort.{Has, Exists-sort}
use okf_mcp_rs.Search.Rrf.{Floats, or_zero, add_shares, scores_of, merged_leb, rrf_merge}

-- The map has the key.
abbrev pub HasKey : {V : Type 0} → Text → Assoc V → Type 0
HasKey k m = Exists (λ e. e.0 ≡ k) m

HasKey-insert :
    {V : Type 0} (k j : Text) (v : V) (m : Assoc V)
    → HasKey k (insert j v m) ↔ ((j ≡ k) ⊎ HasKey k m)
unfolding insert
HasKey-insert k j v [] = (λ h. h, λ h. h)
HasKey-insert k j v ((i, w) ∷ m) =
    let r = HasKey-insert k j v m in
    let same = text_eq_iff i j in
    elim (Bool-cases (text_eq i j)) [
      | inl t ↦ rw t (ground (arith, same.0 t))
      | inr f ↦ rw f (ground (arith, r))
    ]

HasKey-add_shares :
    (n : Floats) (k : Text) (rank : ℕ) (items : List Text) (scores : Assoc n.F64)
    → HasKey k (add_shares n rank items scores) ↔ (Has k items ⊎ HasKey k scores)
unfolding add_shares
HasKey-add_shares n k rank [] scores = ground arith
HasKey-add_shares n k rank (item ∷ items) scores =
    let score = n.plus (or_zero n (lookup item scores)) (n.share (rank + 1)) in
    let r = HasKey-add_shares n k (rank + 1) items (insert item score scores) in
    let i = HasKey-insert k item score scores in ground (arith, r, i)

-- The merged ranking has just the items of the two lists.
pub rrf_merge_items :
    (n : Floats) (k : Text) (bm25 vector : List Text)
    → HasKey k (rrf_merge n bm25 vector) ↔ (Has k bm25 ⊎ Has k vector)
unfolding rrf_merge scores_of
rrf_merge_items n k bm25 vector =
    let first = add_shares n 0 bm25 [] in
    let s =
      Exists-sort (λ (e : Text × n.F64). e.0 ≡ k) (merged_leb n) (add_shares n 0 vector first) in
    let r = HasKey-add_shares n k 0 vector first in
    let l = HasKey-add_shares n k 0 bm25 [] in ground (arith, s, r, l)
