-- ===== src/Validator/Wikilink/RoundTrip.antt =====
-- The links of a document that is printed.
use okf_mcp_rs.Prelude.{
  ℕ, zero, suc, ◌≤◌, ◌<◌, ◌≡◌, refl, true, false, Text, ascii, Option, none, some, List, [], ◌∷◌,
  ◌++◌, ◌==◌, map, is_empty, length, length-append, Lacks, Lacks→contains, split_once-append,
  split_once-none, All, All-append, arith,
}
use okf_mcp_rs.Validator.Wikilink.{
  WikiLink, local, cross_vault, parse_link, is_link_text, scan, extract_wikilinks,
}

-- A link as an author writes it, after a plain text, with or without a text to display.
pub record Segment : Type 0 where
  pub before : Text
  pub link : WikiLink
  pub display : Option Text

abbrev pub target : WikiLink → Text
target (local slug) = slug
target (cross_vault vault concept) = vault ++ (ascii "::" ++ concept)

abbrev pub inner : WikiLink → Option Text → Text
inner link none = target link
inner link (some display) = target link ++ (ascii "|" ++ display)

abbrev pub doc_text : List Segment → Text → Text
doc_text [] tail = tail
doc_text (s ∷ segments) tail =
    s.before ++ (ascii "[[" ++ (inner s.link s.display ++ (ascii "]]" ++ doc_text segments tail)))

-- A text of one line without closing brackets.
abbrev pub IsLine : Text → Type 0
IsLine t = Lacks 93 t × Lacks 10 t

-- A name for a page or a vault in a link.
abbrev pub IsName : Text → Type 0
IsName t = IsLine t × Lacks 124 t

abbrev pub IsCleanLink : WikiLink → Type 0
IsCleanLink (local slug) = (is_empty slug ≡ false) × IsName slug × Lacks 58 slug
IsCleanLink (cross_vault vault concept) = IsName vault × Lacks 58 vault × IsName concept

abbrev pub IsCleanDisplay : Option Text → Type 0
IsCleanDisplay none = Unit
IsCleanDisplay (some display) = IsLine display

abbrev pub IsClean : Segment → Type 0
IsClean s = Lacks 91 s.before × IsCleanLink s.link × IsCleanDisplay s.display

target-IsName : (link : WikiLink) → IsCleanLink link → IsName (target link)
target-IsName (local slug) h = h.1
target-IsName (cross_vault vault concept) h =
    let v = h.0 in
    let c = h.2 in
    (
      (
        All-append (λ x. (93 == x) ≡ false) vault (ascii "::" ++ concept) v.0.0
            (refl, (refl, c.0.0)),
        All-append (λ x. (10 == x) ≡ false) vault (ascii "::" ++ concept) v.0.1
            (refl, (refl, c.0.1)),
      ),
      All-append (λ x. (124 == x) ≡ false) vault (ascii "::" ++ concept) v.1 (refl, (refl, c.1)),
    )

target_not_empty : (link : WikiLink) → IsCleanLink link → is_empty (target link) ≡ false
target_not_empty (local slug) h = h.0
target_not_empty (cross_vault [] concept) h = refl
target_not_empty (cross_vault (c ∷ vault) concept) h = refl

append_not_empty : (s t : Text) → is_empty s ≡ false → is_empty (s ++ t) ≡ false
append_not_empty [] t h = cc
append_not_empty (c ∷ s) t h = refl

parse_plain : (link : WikiLink) → IsCleanLink link → parse_link (target link) ≡ link
unfolding parse_link
parse_plain (local slug) h =
    rw (split_once-none 124 [] slug h.1.1, split_once-none 58 (58 ∷ []) slug h.2) refl
parse_plain (cross_vault vault concept) h =
    let n = target-IsName (cross_vault vault concept) h in
    rw
      (
        split_once-none 124 [] (target (cross_vault vault concept)) n.1,
        split_once-append 58 (58 ∷ []) vault concept h.1,
      )
      refl

parse_displayed :
    (t display : Text) → Lacks 124 t → parse_link (t ++ (ascii "|" ++ display)) ≡ parse_link t
unfolding parse_link
parse_displayed t display h =
    rw (split_once-append 124 [] t display h, split_once-none 124 [] t h) refl

-- The text to display is not a part of the link.
parse_link-inner :
    (link : WikiLink) (display : Option Text)
    → IsCleanLink link
    → parse_link (inner link display) ≡ link
parse_link-inner link none h = parse_plain link h
parse_link-inner link (some display) h =
    rw (parse_displayed (target link) display (target-IsName link h).1) (parse_plain link h)

inner-IsLine :
    (link : WikiLink) (display : Option Text)
    → IsCleanLink link
    → IsCleanDisplay display
    → IsLine (inner link display)
inner-IsLine link none h d = (target-IsName link h).0
inner-IsLine link (some display) h d =
    let n = target-IsName link h in
    (
      All-append (λ x. (93 == x) ≡ false) (target link) (ascii "|" ++ display) n.0.0 (refl, d.0),
      All-append (λ x. (10 == x) ≡ false) (target link) (ascii "|" ++ display) n.0.1 (refl, d.1),
    )

inner_not_empty :
    (link : WikiLink) (display : Option Text)
    → IsCleanLink link
    → is_empty (inner link display) ≡ false
inner_not_empty link none h = target_not_empty link h
inner_not_empty link (some display) h =
    append_not_empty (target link) (ascii "|" ++ display) (target_not_empty link h)

is_link_text-inner :
    (link : WikiLink) (display : Option Text)
    → IsCleanLink link
    → IsCleanDisplay display
    → is_link_text (inner link display) ≡ true
unfolding is_link_text
is_link_text-inner link display h d =
    let l = inner-IsLine link display h d in
    rw (inner_not_empty link display h, Lacks→contains 10 (inner link display) l.1) refl

scan-doc_text :
    (fuel : ℕ) (segments : List Segment) (tail : Text)
    → length segments < fuel
    → All IsClean segments
    → Lacks 91 tail
    → scan fuel (doc_text segments tail) ≡ map (λ s. s.link) segments
unfolding scan
scan-doc_text zero segments tail f h t = absurd (omega arith)
scan-doc_text (suc fuel) [] tail f h t = rw (scan, split_once-none 91 (91 ∷ []) tail t) refl
scan-doc_text (suc fuel) (s ∷ segments) tail f h t =
    let more = doc_text segments tail in
    let text = inner s.link s.display in
    let c = h.0 in
    rw
      (
        scan,
        split_once-append 91 (91 ∷ []) s.before (text ++ (ascii "]]" ++ more)) c.0,
        split_once-append 93 (93 ∷ []) text more (inner-IsLine s.link s.display c.1 c.2).0,
        is_link_text-inner s.link s.display c.1 c.2,
        parse_link-inner s.link s.display c.1,
        scan-doc_text fuel segments tail (omega arith) h.1 t,
      )
      refl

length-doc_text :
    (segments : List Segment) (tail : Text) → length segments ≤ length (doc_text segments tail)
length-doc_text [] tail = omega arith
length-doc_text (s ∷ segments) tail =
    let more = doc_text segments tail in
    let text = inner s.link s.display in
    omega (
      arith,
      length-append s.before (ascii "[[" ++ (text ++ (ascii "]]" ++ more))),
      length-append text (ascii "]]" ++ more),
      length-doc_text segments tail,
    )

-- In a document of plain texts without `[` and links, each with or without a text to display,
-- `extract_wikilinks` finds the links that were written, in their order. The slugs and the names of
-- vaults lack `]`, `|`, `:` and line breaks, the concepts and the displayed texts may have colons,
-- and a slug is not empty.
pub extract_wikilinks-doc_text :
    (segments : List Segment) (tail : Text)
    → All IsClean segments
    → Lacks 91 tail
    → extract_wikilinks (doc_text segments tail) ≡ map (λ s. s.link) segments
unfolding extract_wikilinks
extract_wikilinks-doc_text segments tail h t =
    scan-doc_text (suc (length (doc_text segments tail))) segments tail
      (omega (arith, length-doc_text segments tail)) h t
