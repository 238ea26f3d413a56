-- ===== src/Validator/Wikilink.antt =====
-- src/validator/wikilink.rs: the links in the body of a page.
pub mod Scan
pub mod RoundTrip
mod Tests
use okf_mcp_rs.Prelude.{
  ℕ, zero, suc, Bool, not, ◌&&◌, Text, ascii, Option, none, some, List, [], ◌∷◌, if◌then◌else◌,
  is_empty, length, contains, split_once,
}

pub data WikiLink : Type 0 where
  local : Text → WikiLink
  cross_vault : Text → Text → WikiLink

-- `split_once('|').map_or(inner, |(target, _)| target)`
abbrev before_or : Text → Option (Text × Text) → Text
before_or inner none = inner
before_or inner (some (target, display)) = target

abbrev local_or_cross : Text → Option (Text × Text) → WikiLink
local_or_cross target none = local target
local_or_cross target (some (vault, concept)) = cross_vault vault concept

unfoldable pub parse_link : Text → WikiLink
parse_link inner =
    let target = before_or inner (split_once (ascii "|") inner) in
    local_or_cross target (split_once (ascii "::") target)

-- Whether the text between the brackets is taken for a link.
unfoldable pub is_link_text : Text → Bool
is_link_text inner = not (is_empty inner) && not (contains 10 inner)

-- The loop; `body` is the text from `search_from` on. Each round takes four characters or more, so
-- the length of the body is enough fuel.
unfoldable pub scan : ℕ → Text → List WikiLink
scan zero body = []
scan (suc fuel) body = elim (split_once (ascii "[[") body) [
  | none ↦ []
  | some (before, opened) ↦ elim (split_once (ascii "]]") opened) [
    | none ↦ []
    | some (inner, rest) ↦
        let links = scan fuel rest in if is_link_text inner then parse_link inner ∷ links else links
  ]
]

unfoldable pub extract_wikilinks : Text → List WikiLink
extract_wikilinks body = scan (suc (length body)) body
