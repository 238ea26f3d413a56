-- ===== src/Search/Rrf/Tests.antt =====
-- Rankings merged with numbers that are multiples of a small one.
use Prim.Native.Nat.{compare}
use okf_mcp_rs.Prelude.{◌≡◌, refl, ◌+◌, ◌-◌, ℕ, ascii, some, [], ◌∷◌, text_eq}
use okf_mcp_rs.Prelude.Assoc.{lookup, insert}
use okf_mcp_rs.Prelude.Sort.{sort, insert_sorted, text_leb}
use okf_mcp_rs.Search.Rrf.{Floats, add_shares, scores_of, merged_leb, rrf_merge}

abbrev tens : Floats
tens = record {
  F64 = ℕ;
  zero = 0;
  plus = λ a b. a + b;
  share = λ rank. 10 - rank;
  partial_cmp = λ a b. some (compare a b);
}

first_in_both_wins :
    rrf_merge tens (ascii "b" ∷ ascii "a" ∷ []) (ascii "b" ∷ ascii "c" ∷ [])
    ≡ ((ascii "b", 18) ∷ (ascii "a", 8) ∷ (ascii "c", 8) ∷ [])
unfolding rrf_merge scores_of add_shares merged_leb lookup insert text_eq sort insert_sorted
    text_leb
first_in_both_wins = refl
