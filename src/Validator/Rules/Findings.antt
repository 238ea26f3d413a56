-- ===== src/Validator/Rules/Findings.antt =====
-- What the findings of a lint say of the pages.
use okf_mcp_rs.Prelude.Existence.{
  Gives, Exists-filter_map, Exists-map, Exists-iff, any_iff, iff_trans, not_iff, not_empty_iff,
  or_iff, pair_iff, Exists-const,
}
use okf_mcp_rs.Prelude.{
  ◌≡◌, sym, ap, subst, ◌↔◌, ◌⊎◌, inl, inr, Text, text_eq_iff, Bool, true, false, not, ◌&&◌, List,
  filter, filter_map, Exists, Bool-cases, arith,
}
use okf_mcp_rs.Prelude.Sort.{Has, text_leb, pair_leb, Exists-sort, Exists-flat_map, Exists-filter}
use okf_mcp_rs.Validator.Wikilink.{WikiLink, local, cross_vault}
use okf_mcp_rs.Validator.Rules.{
  has_errors, ParsedConceptPage, exempt_from_orphan_check, is_existing, broken_link, missing_source,
  is_linked, links_to, is_orphan, lint_pages,
}

-- No page has the slug.
abbrev pub IsMissing : List ParsedConceptPage → Text → Type 0
IsMissing pages slug = Exists (λ page. page.slug ≡ slug) pages → ⊥

-- A link to a page that is not there; links to other vaults never are.
abbrev pub IsBroken : List ParsedConceptPage → WikiLink → Type 0
IsBroken pages (local slug) = IsMissing pages slug
IsBroken pages (cross_vault vault concept) = ⊥

is_existing_iff :
    (pages : List ParsedConceptPage) (slug : Text)
    → (is_existing pages slug ≡ false) ↔ IsMissing pages slug
is_existing_iff pages slug =
    not_iff _ _ (any_iff (λ page. page.slug ≡ slug) _ pages (λ page. text_eq_iff page.slug slug))

abbrev BrokenAt : (Text × Text → Type 0) → List ParsedConceptPage → Text → WikiLink → Type 0
BrokenAt P pages path (local slug) = IsMissing pages slug × P (path, slug)
BrokenAt P pages path (cross_vault vault concept) = ⊥

broken_link_iff :
    (P : Text × Text → Type 0) (pages : List ParsedConceptPage) (path : Text) (link : WikiLink)
    → Gives P (broken_link pages path link) ↔ BrokenAt P pages path link
broken_link_iff P pages path (local slug) =
    let i = is_existing_iff pages slug in
    elim (Bool-cases (is_existing pages slug)) [
      | inl t ↦ rw t (ground (arith, i, t))
      | inr f ↦ rw f (ground (arith, i, f))
    ]
broken_link_iff P pages path (cross_vault vault concept) = (λ h. h, λ h. h)

broken_links_iff :
    (P : Text × Text → Type 0) (pending : List Text) (resolves : Text → Bool)
    (pages : List ParsedConceptPage)
    → Exists P (lint_pages pending resolves pages).broken_links
      ↔ Exists (λ page. Exists (BrokenAt P pages page.relative_path) page.links) pages
unfolding lint_pages
broken_links_iff P pending resolves pages = iff_trans (Exists-sort P pair_leb _) (
    iff_trans
      (Exists-flat_map P (λ page. filter_map (broken_link pages page.relative_path) page.links)
        pages)
      (Exists-iff _ _ pages (λ page.
        iff_trans (Exists-filter_map P (broken_link pages page.relative_path) page.links)
          (Exists-iff _ _ page.links (broken_link_iff P pages page.relative_path)))))

missing_source_iff :
    (P : Text × Text → Type 0) (resolves : Text → Bool) (path source : Text)
    → Gives P (missing_source resolves path source) ↔ ((resolves source ≡ false) × P (path, source))
missing_source_iff P resolves path source = elim (Bool-cases (resolves source)) [
  | inl t ↦ rw t (ground arith)
  | inr f ↦ rw f (ground arith)
]

missing_sources_iff :
    (P : Text × Text → Type 0) (pending : List Text) (resolves : Text → Bool)
    (pages : List ParsedConceptPage)
    → Exists P (lint_pages pending resolves pages).missing_sources
      ↔ Exists
          (λ page.
            Exists
              (λ source. (resolves source ≡ false) × P (page.relative_path, source))
              page.sources)
          pages
unfolding lint_pages
missing_sources_iff P pending resolves pages = iff_trans (Exists-sort P pair_leb _) (
    iff_trans
      (Exists-flat_map P
        (λ page. filter_map (missing_source resolves page.relative_path) page.sources) pages)
      (Exists-iff _ _ pages (λ page.
        iff_trans (Exists-filter_map P (missing_source resolves page.relative_path) page.sources)
          (Exists-iff _ _ page.sources (missing_source_iff P resolves page.relative_path)))))

IsBroken-iff :
    (pages : List ParsedConceptPage) (path : Text) (link : WikiLink)
    → BrokenAt (λ x. Unit) pages path link ↔ IsBroken pages link
IsBroken-iff pages path (local slug) = ground arith
IsBroken-iff pages path (cross_vault vault concept) = ground arith

-- `has_errors` holds of the report of a lint exactly when some page has a link within the vault whose
-- slug no page has, or a source that does not resolve: orphans, links to other vaults and pending
-- sources never fail it.
pub has_errors_iff :
    (pending : List Text) (resolves : Text → Bool) (pages : List ParsedConceptPage)
    → (has_errors (lint_pages pending resolves pages) ≡ true) ↔ (
        Exists (λ page. Exists (IsBroken pages) page.links) pages
        ⊎ Exists (λ page. Exists (λ source. resolves source ≡ false) page.sources) pages)
unfolding has_errors
has_errors_iff pending resolves pages =
    or_iff _ _ _ _
      (iff_trans (not_empty_iff _) (
        iff_trans (broken_links_iff (λ x. Unit) pending resolves pages) (
          Exists-iff _ _ pages
            (λ page. Exists-iff _ _ page.links (IsBroken-iff pages page.relative_path)))))
      (iff_trans (not_empty_iff _) (
        iff_trans (missing_sources_iff (λ x. Unit) pending resolves pages)
          (Exists-iff _ _ pages (λ page. Exists-iff _ _ page.sources (λ source. ground arith)))))

target_iff : (slug s : Text) → (local slug ≡ local s) ↔ (slug ≡ s)
target_iff slug s = (λ e. cc, λ e. ap local e)

not_local : (vault concept s : Text) → cross_vault vault concept ≡ local s → ⊥
not_local vault concept s e = cc

BrokenAt-iff :
    (pages : List ParsedConceptPage) (path p s : Text) (link : WikiLink)
    → BrokenAt (λ x. x ≡ (p, s)) pages path link
      ↔ ((path ≡ p) × (link ≡ local s) × IsMissing pages s)
BrokenAt-iff pages path p s (local slug) =
    let i = pair_iff path slug p s in
    let j = target_iff slug s in
    (
      λ (m, e). ((i.0 e).0, j.1 (i.0 e).1, subst (IsMissing pages) (i.0 e).1 m),
      λ (e, l, m). (subst (IsMissing pages) (sym (j.0 l)) m, i.1 (e, j.0 l)),
    )
BrokenAt-iff pages path p s (cross_vault vault concept) =
    (λ x. elim x [ ], λ (e, l, m). not_local vault concept s l)

-- The broken links of a lint are the pairs of a page's path and a slug for which the page has a link
-- to the slug within the vault and no page has the slug.
pub broken_links_exact :
    (pending : List Text) (resolves : Text → Bool) (pages : List ParsedConceptPage)
    (path slug : Text)
    → Has (path, slug) (lint_pages pending resolves pages).broken_links
      ↔ Exists
          (λ page. (page.relative_path ≡ path) × Has (local slug) page.links × IsMissing pages slug)
          pages
broken_links_exact pending resolves pages path slug =
    iff_trans (broken_links_iff (λ x. x ≡ (path, slug)) pending resolves pages) (
      Exists-iff _ _ pages (λ page.
        iff_trans (Exists-iff _ _ page.links (BrokenAt-iff pages page.relative_path path slug)) (
          Exists-const (page.relative_path ≡ path) (IsMissing pages slug)
            (λ link. link ≡ local slug) page.links)))

-- Some page links to the slug.
abbrev pub IsLinked : List ParsedConceptPage → Text → Type 0
IsLinked pages slug = Exists (λ page. Has (local slug) page.links) pages

links_to_iff : (slug : Text) (link : WikiLink) → (links_to slug link ≡ true) ↔ (link ≡ local slug)
links_to_iff slug (local target) =
    let i = text_eq_iff target slug in let j = target_iff target slug in ground (arith, i, j)
links_to_iff slug (cross_vault vault concept) =
    (λ e. absurd (false_true e), λ e. absurd (not_local vault concept slug e))
  where
    false_true : false ≡ true → ⊥
    false_true e = cc

is_orphan_iff :
    (a b : Bool) (P : Type 0) → (a ≡ true) ↔ P → ((not a && not b) ≡ true) ↔ ((P → ⊥) × (b ≡ false))
is_orphan_iff a b P h = ground (arith, h)

-- The orphans of a lint are the paths of the pages whose slug no page links to, within the vault, and
-- whose kind is neither `question` nor `decision`. A page that links to itself is no orphan.
pub orphan_pages_exact :
    (pending : List Text) (resolves : Text → Bool) (pages : List ParsedConceptPage) (path : Text)
    → Has path (lint_pages pending resolves pages).orphan_pages
      ↔ Exists
          (λ page.
            (page.relative_path ≡ path)
            × (IsLinked pages page.slug → ⊥)
            × (exempt_from_orphan_check page.kind ≡ false))
          pages
unfolding lint_pages
orphan_pages_exact pending resolves pages path =
    iff_trans (Exists-sort (λ x. x ≡ path) text_leb _) (
      iff_trans
        (Exists-map (λ x. x ≡ path) (λ page. page.relative_path) (filter (is_orphan pages) pages))
        (iff_trans (Exists-filter (λ page. page.relative_path ≡ path) (is_orphan pages) pages) (
          Exists-iff _ _ pages (λ page.
            let i =
              is_orphan_iff (is_linked pages page.slug) (exempt_from_orphan_check page.kind)
                (IsLinked pages page.slug)
                (any_iff _ _ pages (λ other. any_iff _ _ other.links (links_to_iff page.slug))) in
            (λ (e, o). (e, (i.0 o).0, (i.0 o).1), λ (e, l, x). (e, i.1 (l, x)))))))
