-- ===== src/Compiler/LinkFix.antt =====
-- src/compiler/link_fix.rs: the missing pages that broken links ask for, and the report of their
-- synthesis.
pub mod Groups
mod Tests
use okf_mcp_rs.Prelude.{
  Text, ascii, text_eq, Bool, true, false, Option, none, some, List, [], ◌∷◌, ◌++◌, filter_map, map,
  is_empty, length, if◌then◌else◌,
}
use okf_mcp_rs.Prelude.Assoc.{Assoc}
use okf_mcp_rs.Prelude.Pieces.{join}
use okf_mcp_rs.Prelude.Sort.{text_leb}
use okf_mcp_rs.Compiler.TokenEstimate.{to_decimal}
use okf_mcp_rs.Validator.Rules.{LintReport}

pub data LinkFixStatus : Type 0 where
  synthesized : LinkFixStatus
  skipped_no_source_context : LinkFixStatus
  failed : Text → LinkFixStatus

pub record LinkFixOutcome : Type 0 where
  pub slug : Text
  pub status : LinkFixStatus

pub record LinkFixReport : Type 0 where
  pub outcomes : List LinkFixOutcome
  pub touched_paths : List Text

abbrev is_synthesized : LinkFixOutcome → Option Text
is_synthesized o = elim o.status [
  | synthesized ↦ some o.slug
  | skipped_no_source_context ↦ none
  | failed e ↦ none
]

abbrev is_skipped : LinkFixOutcome → Option Text
is_skipped o = elim o.status [
  | synthesized ↦ none
  | skipped_no_source_context ↦ some o.slug
  | failed e ↦ none
]

abbrev failure_line : LinkFixOutcome → Option Text
failure_line o = elim o.status [
  | synthesized ↦ none
  | skipped_no_source_context ↦ none
  | failed e ↦ some (ascii "Failed to synthesize [[" ++ (o.slug ++ (ascii "]]: " ++ e)))
]

unfoldable pub synthesized_slugs : LinkFixReport → List Text
synthesized_slugs r = filter_map is_synthesized r.outcomes

abbrev bracketed : List Text → Text
bracketed slugs = join (ascii ", ") (map (λ slug. ascii "[[" ++ (slug ++ ascii "]]")) slugs)

abbrev counted : Text → Text → List Text → List Text
counted before after [] = []
counted before after (s ∷ slugs) =
    (before ++ (to_decimal (length (s ∷ slugs)) ++ (after ++ bracketed (s ∷ slugs)))) ∷ []

unfoldable pub summary_line : LinkFixReport → Text
summary_line r =
    if is_empty r.outcomes
    then ascii "No broken links to synthesize."
    else join (ascii "\n") (
        counted (ascii "Synthesized ") (ascii " concept page(s) via LLM: ") (synthesized_slugs r)
        ++ (counted (ascii "Skipped ") (ascii " (no raw-source context available): ")
              (filter_map is_skipped r.outcomes)
            ++ filter_map failure_line r.outcomes))

-- `entry(slug).or_default().push(page)` in a map that is sorted by its keys
unfoldable pub push_page : Text → Text → Assoc (List Text) → Assoc (List Text)
push_page slug page [] = (slug, page ∷ []) ∷ []
push_page slug page ((s, pages) ∷ m) =
    let rest = push_page slug page m in
    if text_eq s slug
    then (s, pages ++ page ∷ []) ∷ m
    else if text_leb slug s
    then (slug, page ∷ []) ∷ (s, pages) ∷ m
    else (s, pages) ∷ rest

unfoldable pub group_links : Assoc (List Text) → List (Text × Text) → Assoc (List Text)
group_links m [] = m
group_links m ((page, slug) ∷ links) = group_links (push_page slug page m) links

unfoldable pub group_broken_links_by_slug : LintReport → Assoc (List Text)
group_broken_links_by_slug lint = group_links [] lint.broken_links
