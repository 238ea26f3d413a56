-- ===== src/Search/Rrf.antt =====
-- src/search/rrf.rs: `rrf_merge`, on the paths that src/search/query.rs gives it. The numbers are those
-- of the processor: zero, the sum of two, the share `1.0 / (k + rank)` of a rank, and the comparison.
-- A `HashMap` gives its entries in some order; here it is that of the first occurrence.
pub mod Items
mod Tests
use Prim.Native.Nat.{Ordering}
use okf_mcp_rs.Prelude.{
  ℕ, ◌+◌, Text, Bool, true, false, Option, none, some, List, [], ◌∷◌, if◌then◌else◌,
}
use okf_mcp_rs.Prelude.Assoc.{Assoc, lookup, insert}
use okf_mcp_rs.Prelude.Sort.{text_leb, sort}

pub record Floats : Type 1 where
  pub F64 : Type 0
  pub zero : F64
  pub plus : F64 → F64 → F64
  pub share : ℕ → F64
  pub partial_cmp : F64 → F64 → Option Ordering

module _ (n : Floats) where
  abbrev pub or_zero : Option n.F64 → n.F64
  or_zero none = n.zero
  or_zero (some score) = score

  -- One of the two loops, from a rank on.
  unfoldable pub add_shares : ℕ → List Text → Assoc n.F64 → Assoc n.F64
  add_shares rank [] scores = scores
  add_shares rank (item ∷ items) scores =
      add_shares (rank + 1) items
        (insert item (n.plus (or_zero (lookup item scores)) (n.share (rank + 1))) scores)

  unfoldable pub scores_of : List Text → List Text → Assoc n.F64
  scores_of bm25 vector = add_shares 0 vector (add_shares 0 bm25 [])

  -- `none` is for the numbers that do not compare.
  abbrev pub item_order : Option Ordering → Text → Text → Bool
  item_order (some Ordering.lt) a b = true
  item_order (some Ordering.gt) a b = false
  item_order (some Ordering.eq) a b = text_leb a b
  item_order none a b = text_leb a b

  unfoldable pub merged_leb : Text × n.F64 → Text × n.F64 → Bool
  merged_leb (a, x) (b, y) = item_order (n.partial_cmp y x) a b

  unfoldable pub rrf_merge : List Text → List Text → List (Text × n.F64)
  rrf_merge bm25 vector = sort merged_leb (scores_of bm25 vector)
