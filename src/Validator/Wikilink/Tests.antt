-- ===== src/Validator/Wikilink/Tests.antt =====
-- Links of small bodies.
use okf_mcp_rs.Prelude.{◌≡◌, refl, All, arith, ascii, none, some, List, [], ◌∷◌, split_once}
use okf_mcp_rs.Validator.Wikilink.{
  local, cross_vault, parse_link, is_link_text, scan, extract_wikilinks,
}
use okf_mcp_rs.Validator.Wikilink.RoundTrip.{Segment, IsClean, doc_text, extract_wikilinks-doc_text}

aliases_and_vaults :
    extract_wikilinks (ascii "a [[x|X]] [[]] [[v::c|d]] [[b")
    ≡ local (ascii "x") ∷ cross_vault (ascii "v") (ascii "c") ∷ []
unfolding extract_wikilinks scan is_link_text parse_link split_once
aliases_and_vaults = refl

abbrev two_links : List Segment
two_links =
    record { before = ascii "See "; link = local (ascii "rust"); display = some (ascii "Rust") }
    ∷ record {
      before = ascii ", ";
      link = cross_vault (ascii "work") (ascii "a::b");
      display = none;
    }
    ∷ []

two_links-IsClean : All IsClean two_links
two_links-IsClean = ground arith

extract_wikilinks-doc_text_example :
    extract_wikilinks (doc_text two_links (ascii "."))
    ≡ local (ascii "rust") ∷ cross_vault (ascii "work") (ascii "a::b") ∷ []
extract_wikilinks-doc_text_example =
    extract_wikilinks-doc_text two_links (ascii ".") two_links-IsClean (refl, tt)
