-- ===== src/Validator/Fix/Repairs.antt =====
-- What a repair does to a page.
use okf_mcp_rs.Prelude.{
  refl, [], ◌∷◌, List, Bool, ◌⊎◌, any, find, is_prefix, drop, length, arith, split_once, ◌≡◌, sym,
  ◌∙◌, ap, subst, inl, inr, Text, ascii, true, false, Option, some, ◌++◌, Bool-cases, Option-cases,
  eq_of_some, none_ne_some, split_once-some, strip_prefix, strip_prefix-some,
}
use okf_mcp_rs.Prelude.Pieces.{lines}
use okf_mcp_rs.Prelude.Sort.{Has}
use okf_mcp_rs.Validator.Frontmatter.{WikiFrontmatter, split_page}
use okf_mcp_rs.Validator.Fix.{replace_first, fix_yaml, page_text, parses, if_parses, fix_page}

split_page-some :
    (content yaml body : Text)
    → split_page content ≡ some (yaml, body)
    → content ≡ page_text yaml body
split_page-some content yaml body h = elim (Option-cases (strip_prefix (ascii "---\n") content)) [
  | inl n ↦ absurd (none_ne_some (rw n at h))
  | inr (opened, e) ↦
      strip_prefix-some (ascii "---\n") content opened e
      ∙ ap (λ t. ascii "---\n" ++ t)
          (split_once-some (ascii "\n---\n") opened yaml body (rw e at h))
]

if_parses-some :
    (from_yaml : Text → Option WikiFrontmatter) (content new : Text)
    → if_parses from_yaml content ≡ some new
    → (content ≡ new) × (parses from_yaml content ≡ true)
if_parses-some from_yaml content new h = elim (Bool-cases (parses from_yaml content)) [
  | inl t ↦ (eq_of_some (rw t at h), t)
  | inr f ↦ absurd (none_ne_some (rw f at h))
]

is_prefix-drop :
    (prefix t : Text) → is_prefix prefix t ≡ true → t ≡ prefix ++ drop (length prefix) t
is_prefix-drop [] t h = refl
is_prefix-drop (a ∷ prefix) [] h = cc
is_prefix-drop (a ∷ prefix) (b ∷ t) h = ground (arith, is_prefix-drop prefix t)

find-line :
    (p : Text → Bool) (l : List Text) (line : Text)
    → find p l ≡ some line
    → (p line ≡ true) × Has line l
find-line p [] line h = absurd (none_ne_some h)
find-line p (x ∷ l) line h = elim (Bool-cases (p x)) [
  | inl t ↦ let e = eq_of_some (rw t at h) in (subst (λ y. p y ≡ true) e t, inl e)
  | inr f ↦ let (q, m) = find-line p l line (rw f at h) in (q, inr m)
]

-- In a frontmatter with a line `tid:` and none that begins with `id:`, the text of the line loses
-- its `t` at the first place where it stands.
pub record IsRenaming (yaml fixed : Text) : Type 0 where
  pub before : Text
  pub rest : Text
  pub after : Text
  pub was : yaml ≡ before ++ ((ascii "tid:" ++ rest) ++ after)
  pub becomes : fixed ≡ before ++ ((ascii "id:" ++ rest) ++ after)
  pub first : split_once (ascii "tid:" ++ rest) yaml ≡ some (before, after)
  pub line : Has (ascii "tid:" ++ rest) (lines yaml)
  pub no_id : any (is_prefix (ascii "id:")) (lines yaml) ≡ false

-- The frontmatter is as it was only where its `tid:` line is not found in it as a text.
fix_yaml-IsRenaming :
    (yaml fixed : Text) → fix_yaml yaml ≡ some fixed → IsRenaming yaml fixed ⊎ (yaml ≡ fixed)
unfolding fix_yaml
fix_yaml-IsRenaming yaml fixed h = elim (Bool-cases (any (is_prefix (ascii "id:")) (lines yaml))) [
  | inl t ↦ absurd (none_ne_some (rw (fix_yaml, t) at h))
  | inr f ↦ elim (Option-cases (find (is_prefix (ascii "tid:")) (lines yaml))) [
    | inl n ↦ absurd (none_ne_some (rw (fix_yaml, f, n) at h))
    | inr (tid_line, e) ↦
        let (p, m) = find-line (is_prefix (ascii "tid:")) (lines yaml) tid_line e in
        renamed f tid_line (is_prefix-drop (ascii "tid:") tid_line p) m
          (eq_of_some (rw (fix_yaml, f, e) at h))
  ]
]
  where
    renamed :
        any (is_prefix (ascii "id:")) (lines yaml) ≡ false
        → (tid_line : Text) → tid_line ≡ ascii "tid:" ++ drop 4 tid_line
        → Has tid_line (lines yaml)
        → replace_first tid_line (ascii "id:" ++ drop 4 tid_line) yaml ≡ fixed
        → IsRenaming yaml fixed ⊎ (yaml ≡ fixed)
    renamed f tid_line q m h = elim (Option-cases (split_once tid_line yaml)) [
      | inl n ↦ inr (rw (replace_first, n) at h)
      | inr ((before, after), s) ↦
          let tid = ascii "tid:" ++ drop 4 tid_line in
          let found = subst (λ l. split_once l yaml ≡ some (before, after)) q s in
          inl (record {
            before = before;
            rest = drop 4 tid_line;
            after = after;
            was = split_once-some tid yaml before after found;
            becomes = sym (rw (replace_first, s) at h);
            first = found;
            line = subst (λ l. Has l (lines yaml)) q m;
            no_id = f;
          })
    ]

-- What a page that is rewritten was, and what it becomes.
pub record IsRepair (from_yaml : Text → Option WikiFrontmatter) (content new : Text) : Type 0 where
  pub yaml : Text
  pub fixed : Text
  pub body : Text
  pub was : content ≡ page_text yaml body
  pub becomes : new ≡ page_text fixed body
  pub renamed : IsRenaming yaml fixed
  pub broken : parses from_yaml content ≡ false
  pub repaired : parses from_yaml new ≡ true

-- A page is rewritten only if it did not parse; the new text parses, and differs from the old one at
-- one place of the frontmatter: the frontmatter has a line `tid:` and none that begins with `id:`,
-- and the text of the line loses its `t` where it first stands in the frontmatter, which may be
-- within an earlier line. The body after the delimiter is the same.
pub fix_page-IsRepair :
    (from_yaml : Text → Option WikiFrontmatter) (content new : Text)
    → fix_page from_yaml content ≡ some new
    → IsRepair from_yaml content new
unfolding fix_page
fix_page-IsRepair from_yaml content new h = elim (Bool-cases (parses from_yaml content)) [
  | inl t ↦ absurd (none_ne_some (rw (fix_page, t) at h))
  | inr f ↦ elim (Option-cases (split_page content)) [
    | inl n ↦ absurd (none_ne_some (rw (fix_page, f, n) at h))
    | inr ((yaml, body), e) ↦ elim (Option-cases (fix_yaml yaml)) [
      | inl n ↦ absurd (none_ne_some (rw (fix_page, f, e, n) at h))
      | inr (fixed, r) ↦
          let q =
            if_parses-some from_yaml (page_text fixed body) new (rw (fix_page, f, e, r) at h) in
          let was = split_page-some content yaml body e in
          let repaired = subst (λ t. parses from_yaml t ≡ true) q.0 q.1 in
          elim (fix_yaml-IsRenaming yaml fixed r) [
            | inl renamed ↦ record {
              yaml = yaml;
              fixed = fixed;
              body = body;
              was = was;
              becomes = sym q.0;
              renamed = renamed;
              broken = f;
              repaired = repaired;
            }
            | inr same ↦ absurd (
                true_false (
                  sym repaired
                  ∙ (ap (parses from_yaml) (sym (was ∙ (ap (λ y. page_text y body) same ∙ q.0)))
                      ∙ f)))
          ]
    ]
  ]
]
  where
    true_false : true ≡ false → ⊥
    true_false e = cc
