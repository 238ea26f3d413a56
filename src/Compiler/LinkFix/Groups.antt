-- ===== src/Compiler/LinkFix/Groups.antt =====
-- What the groups of broken links hold.
use okf_mcp_rs.Prelude.{
  sym, ◌↔◌, ◌⊎◌, inl, inr, Text, text_eq, text_eq_iff, List, [], ◌∷◌, Exists, Bool-cases, arith,
}
use okf_mcp_rs.Prelude.Assoc.{Assoc}
use okf_mcp_rs.Prelude.Sort.{text_leb, Exists-append}
use okf_mcp_rs.Validator.Rules.{LintReport}
use okf_mcp_rs.Compiler.LinkFix.{push_page, group_links, group_broken_links_by_slug}

-- Some page of some group, with the group's slug.
abbrev pub InGroups : (Text × Text → Type 0) → Assoc (List Text) → Type 0
InGroups P m = Exists (λ group. Exists (λ page. P (page, group.0)) group.1) m

push_page-InGroups :
    (P : Text × Text → Type 0) (slug page : Text) (m : Assoc (List Text))
    → InGroups P (push_page slug page m) ↔ (P (page, slug) ⊎ InGroups P m)
unfolding push_page
push_page-InGroups P slug page [] = ground arith
push_page-InGroups P slug page ((s, pages) ∷ m) =
    let i = push_page-InGroups P slug page m in
    elim (Bool-cases (text_eq s slug)) [
      | inl t ↦
          let a = Exists-append (λ p. P (p, s)) pages (page ∷ []) in
          rw (push_page, t, sym ((text_eq_iff s slug).0 t)) (ground (arith, a))
      | inr f ↦ elim (Bool-cases (text_leb slug s)) [
        | inl t ↦ rw (push_page, f, t) (ground arith)
        | inr n ↦ rw (push_page, f, n) (ground (arith, i))
      ]
    ]

group_links-InGroups :
    (P : Text × Text → Type 0) (m : Assoc (List Text)) (links : List (Text × Text))
    → InGroups P (group_links m links) ↔ (InGroups P m ⊎ Exists P links)
unfolding group_links
group_links-InGroups P m [] = ground arith
group_links-InGroups P m ((page, slug) ∷ links) =
    let i = group_links-InGroups P (push_page slug page m) links in
    let j = push_page-InGroups P slug page m in ground (arith, i, j)

-- The groups have the broken links of the lint and no others: any property holds of some page with
-- the slug of its group exactly when it holds of some broken link.
pub group_broken_links_exact :
    (P : Text × Text → Type 0) (lint : LintReport)
    → InGroups P (group_broken_links_by_slug lint) ↔ Exists P lint.broken_links
unfolding group_broken_links_by_slug
group_broken_links_exact P lint =
    let i = group_links-InGroups P [] lint.broken_links in ground (arith, i)
