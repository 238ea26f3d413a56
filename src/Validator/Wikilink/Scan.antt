-- ===== src/Validator/Wikilink/Scan.antt =====
-- What the scanner of links finds, without fuel.
use okf_mcp_rs.Prelude.{
  ℕ, zero, suc, ◌<◌, ◌≡◌, ap, inl, inr, true, false, Text, ascii, none, some, List, [], ◌∷◌, ◌++◌,
  length, length-append, split_once, split_once-some, Option-cases, Bool-cases, arith,
}
use okf_mcp_rs.Validator.Wikilink.{WikiLink, parse_link, is_link_text, scan, extract_wikilinks}

-- The links of a text: the brackets that close are those next after the brackets that open, and
-- what follows them is searched again.
pub data Links : Text → List WikiLink → Type 0 where
  no_open : {body : Text} → split_once (ascii "[[") body ≡ none → Links body []
  no_close :
      {body before opened : Text}
      → split_once (ascii "[[") body ≡ some (before, opened)
      → split_once (ascii "]]") opened ≡ none
      → Links body []
  link :
      {body before opened inner rest : Text} {links : List WikiLink}
      → split_once (ascii "[[") body ≡ some (before, opened)
      → split_once (ascii "]]") opened ≡ some (inner, rest)
      → is_link_text inner ≡ true
      → Links rest links
      → Links body (parse_link inner ∷ links)
  skipped :
      {body before opened inner rest : Text} {links : List WikiLink}
      → split_once (ascii "[[") body ≡ some (before, opened)
      → split_once (ascii "]]") opened ≡ some (inner, rest)
      → is_link_text inner ≡ false
      → Links rest links
      → Links body links

-- What follows the brackets that close is shorter.
rest_shorter :
    (body before opened inner rest : Text)
    → split_once (ascii "[[") body ≡ some (before, opened)
    → split_once (ascii "]]") opened ≡ some (inner, rest)
    → length rest < length body
rest_shorter body before opened inner rest e f =
    let e' = ap length (split_once-some (ascii "[[") body before opened e) in
    let f' = ap length (split_once-some (ascii "]]") opened inner rest f) in
    omega
      (arith, length-append before (ascii "[[" ++ opened), length-append inner (ascii "]]" ++ rest))

pub scan-Links : (fuel : ℕ) (body : Text) → length body < fuel → Links body (scan fuel body)
unfolding scan
scan-Links zero body h = absurd (omega arith)
scan-Links (suc fuel) body h = elim (Option-cases (split_once (ascii "[[") body)) [
  | inl n ↦ rw (scan, n) (no_open n)
  | inr ((before, opened), e) ↦ elim (Option-cases (split_once (ascii "]]") opened)) [
    | inl n ↦ rw (scan, e, n) (no_close e n)
    | inr ((inner, rest), f) ↦
        let more =
          scan-Links fuel rest (omega (arith, rest_shorter body before opened inner rest e f)) in
        elim (Bool-cases (is_link_text inner)) [
          | inl t ↦ rw (scan, e, f, t) (link e f t more)
          | inr t ↦ rw (scan, e, f, t) (skipped e f t more)
        ]
  ]
]

-- `extract_wikilinks` finds the links of any text: its loop ends by itself, when no brackets open or
-- none close, and never for lack of fuel.
pub extract_wikilinks-Links : (body : Text) → Links body (extract_wikilinks body)
unfolding extract_wikilinks
extract_wikilinks-Links body = scan-Links (suc (length body)) body (omega arith)
