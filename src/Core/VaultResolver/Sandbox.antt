-- ===== src/Core/VaultResolver/Sandbox.antt =====
-- Which paths the sandbox accepts, and where they lead.
use okf_mcp_rs.Prelude.{
  ℕ, zero, suc, ◌+◌, ◌≤◌, ◌<◌, ◌≡◌, refl, sym, ap, ◌∙◌, Bool, true, false, Text, text_eq_iff,
  text_eq_refl, Option, some, List, [], ◌∷◌, ◌++◌, length, take, ◌↔◌, inl, inr, ok, err, arith,
  Bool-cases, Result-cases, All, eq_of_ok, subst,
}
use okf_mcp_rs.Core.VaultResolver.Names.{IsName, IsNamed, components-IsNamed}
use okf_mcp_rs.Core.VaultResolver.{
  PathBuf, Component, normal, cur_dir, parent_dir, root_dir, prefix, components, path_eq,
  starts_with, escapes, absolute, check_inside, resolve_component, resolve_components, sandbox_path,
}

eq_of_path_eq : (p q : PathBuf) → path_eq p q ≡ true → p ≡ q
unfolding path_eq
eq_of_path_eq [] [] h = refl
eq_of_path_eq [] (b ∷ q) h = cc
eq_of_path_eq (a ∷ p) [] h = cc
eq_of_path_eq (a ∷ p) (b ∷ q) h = ground (arith, text_eq_iff a b, eq_of_path_eq p q)

pub path_eq_refl : (p : PathBuf) → path_eq p p ≡ true
unfolding path_eq
path_eq_refl [] = refl
path_eq_refl (a ∷ p) = ground (arith, text_eq_refl a, path_eq_refl p)

pub path_eq_iff : (p q : PathBuf) → (path_eq p q ≡ true) ↔ (p ≡ q)
path_eq_iff p q = (eq_of_path_eq p q, λ e. subst (λ u. path_eq p u ≡ true) e (path_eq_refl p))

-- A path is inside a root when it consists of the root and names of files below it.
abbrev pub IsInside : PathBuf → PathBuf → Type 0
IsInside root p = (below : PathBuf) × (p ≡ below ++ root) × All IsName below

starts_with-below : (below root : PathBuf) → starts_with (below ++ root) root ≡ true
unfolding starts_with
starts_with-below [] [] = path_eq_refl []
starts_with-below [] (a ∷ root) = ground (arith, path_eq_refl (a ∷ root))
starts_with-below (a ∷ below) root = ground (arith, starts_with-below below root)

starts_with_short : (p root : PathBuf) → length p < length root → starts_with p root ≡ false
unfolding starts_with
starts_with_short [] [] h = absurd (omega arith)
starts_with_short [] (b ∷ root) h = unfold path_eq in refl
starts_with_short (a ∷ p) root h = elim (Bool-cases (path_eq (a ∷ p) root)) [
  | inl same ↦ absurd (omega (arith, ap length (eq_of_path_eq (a ∷ p) root same)))
  | inr other ↦ rw other (starts_with_short p root (omega arith))
]

-- How many components go up, and how many go down.
abbrev pub ups : List Component → ℕ
ups [] = 0
ups (parent_dir ∷ cs) = suc (ups cs)
ups (_ ∷ cs) = ups cs

abbrev pub downs : List Component → ℕ
downs [] = 0
downs (normal part ∷ cs) = suc (downs cs)
downs (_ ∷ cs) = downs cs

abbrev pub has_root : List Component → Bool
has_root [] = false
has_root (root_dir ∷ cs) = true
has_root (prefix p ∷ cs) = true
has_root (_ ∷ cs) = has_root cs

-- From `depth` names below the root, no part of the way climbs above it.
abbrev pub StaysBelow : ℕ → List Component → Type 0
StaysBelow depth cs = (n : ℕ) → n ≤ length cs → ups (take n cs) ≤ depth + downs (take n cs)

-- The loop, one component at a time.
module _ (root : PathBuf) where
  go_end : (r : PathBuf) → resolve_components root r [] ≡ ok r
  unfolding resolve_components
  go_end r = refl

  go_normal :
      (r : PathBuf) (part : Text) (cs : List Component)
      → resolve_components root r (normal part ∷ cs) ≡ resolve_components root (part ∷ r) cs
  unfolding resolve_components resolve_component
  go_normal r part cs = refl

  go_cur_dir :
      (r : PathBuf) (cs : List Component)
      → resolve_components root r (cur_dir ∷ cs) ≡ resolve_components root r cs
  unfolding resolve_components resolve_component
  go_cur_dir r cs = refl

  go_absolute :
      (r : PathBuf) (c : Component) (cs : List Component)
      → has_root (c ∷ []) ≡ true
      → resolve_components root r (c ∷ cs) ≡ err absolute
  unfolding resolve_components resolve_component
  go_absolute r (normal part) cs h = absurd cc
  go_absolute r cur_dir cs h = absurd cc
  go_absolute r parent_dir cs h = absurd cc
  go_absolute r root_dir cs h = refl
  go_absolute r (prefix p) cs h = refl

  go_up :
      (below : PathBuf) (a : Text) (cs : List Component)
      → resolve_components root (a ∷ below ++ root) (parent_dir ∷ cs)
        ≡ resolve_components root (below ++ root) cs
  unfolding resolve_components resolve_component
  go_up below a cs = rw (starts_with-below below root) refl

go_climb :
    (root : PathBuf) (cs : List Component)
    → resolve_components root root (parent_dir ∷ cs) ≡ err escapes
unfolding resolve_components resolve_component
go_climb [] cs = refl
go_climb (a ∷ root) cs = rw (starts_with_short root (a ∷ root) (omega arith)) refl

accepted :
    (root below : PathBuf) (cs : List Component)
    → has_root cs ≡ false
    → StaysBelow (length below) cs
    → (p : PathBuf) × (resolve_components root (below ++ root) cs ≡ ok p)
accepted root below [] r h = (below ++ root, go_end root (below ++ root))
accepted root below (normal part ∷ cs) r h =
    rw (go_normal root (below ++ root) part cs)
      (accepted root (part ∷ below) cs r (λ n le. omega (arith, h (suc n) (omega arith))))
accepted root below (cur_dir ∷ cs) r h =
    rw (go_cur_dir root (below ++ root) cs)
      (accepted root below cs r (λ n le. omega (arith, h (suc n) (omega arith))))
accepted root below (root_dir ∷ cs) r h = absurd cc
accepted root below (prefix p ∷ cs) r h = absurd cc
accepted root [] (parent_dir ∷ cs) r h = absurd (omega (arith, h 1 (omega arith)))
accepted root (a ∷ below) (parent_dir ∷ cs) r h =
    rw (go_up root below a cs)
      (accepted root below cs r (λ n le. omega (arith, h (suc n) (omega arith))))

stays_end : (d : ℕ) → StaysBelow d []
stays_end d zero le = omega arith
stays_end d (suc n) le = omega arith

StaysBelow-normal :
    (d : ℕ) (part : Text) (cs : List Component)
    → StaysBelow (suc d) cs
    → StaysBelow d (normal part ∷ cs)
StaysBelow-normal d part cs h zero le = omega arith
StaysBelow-normal d part cs h (suc n) le = omega (arith, h n (omega arith))

StaysBelow-cur_dir : (d : ℕ) (cs : List Component) → StaysBelow d cs → StaysBelow d (cur_dir ∷ cs)
StaysBelow-cur_dir d cs h zero le = omega arith
StaysBelow-cur_dir d cs h (suc n) le = omega (arith, h n (omega arith))

StaysBelow-parent_dir :
    (d : ℕ) (cs : List Component) → StaysBelow d cs → StaysBelow (suc d) (parent_dir ∷ cs)
StaysBelow-parent_dir d cs h zero le = omega arith
StaysBelow-parent_dir d cs h (suc n) le = omega (arith, h n (omega arith))

-- What an accepted path says of the components from `depth` names below the root.
record Accepts (below : PathBuf) (cs : List Component) (root p : PathBuf) : Type 0 where
  relative : has_root cs ≡ false
  stays : StaysBelow (length below) cs
  inside : IsInside root p

accepts :
    (root below p : PathBuf) (cs : List Component)
    → All IsName below
    → All IsNamed cs
    → resolve_components root (below ++ root) cs ≡ ok p
    → Accepts below cs root p
accepts root below p [] hb hc h = record {
  relative = refl;
  stays = stays_end (length below);
  inside = (below, eq_of_ok (sym h ∙ go_end root (below ++ root)), hb);
}
accepts root below p (normal part ∷ cs) hb hc h =
    let r =
      accepts root (part ∷ below) p cs (hc.0, hb) hc.1
        (sym (go_normal root (below ++ root) part cs) ∙ h) in
    record {
      relative = r.relative;
      stays = StaysBelow-normal (length below) part cs r.stays;
      inside = r.inside;
    }
accepts root below p (cur_dir ∷ cs) hb hc h =
    let r = accepts root below p cs hb hc.1 (sym (go_cur_dir root (below ++ root) cs) ∙ h) in
    record {
      relative = r.relative;
      stays = StaysBelow-cur_dir (length below) cs r.stays;
      inside = r.inside;
    }
accepts root below p (root_dir ∷ cs) hb hc h =
    absurd (cc (go_absolute root (below ++ root) root_dir cs refl))
accepts root below p (prefix q ∷ cs) hb hc h =
    absurd (cc (go_absolute root (below ++ root) (prefix q) cs refl))
accepts root [] p (parent_dir ∷ cs) hb hc h = absurd (cc (go_climb root cs))
accepts root (a ∷ below) p (parent_dir ∷ cs) hb hc h =
    let r = accepts root below p cs hb.1 hc.1 (sym (go_up root below a cs) ∙ h) in
    record {
      relative = r.relative;
      stays = StaysBelow-parent_dir (length below) cs r.stays;
      inside = r.inside;
    }

pub check_inside-below : (root p : PathBuf) → IsInside root p → check_inside root p ≡ ok p
check_inside-below root p i = rw i.1 (rw (starts_with-below i.0 root) refl)

-- The test after the loop never fails.
sandbox-resolve :
    (canonicalize : Text → Option PathBuf) (vault_root relative : Text) (root : PathBuf)
    → canonicalize vault_root ≡ some root
    → sandbox_path canonicalize vault_root relative
      ≡ resolve_components root root (components relative)
unfolding sandbox_path
sandbox-resolve canonicalize vault_root relative root c =
    elim (Result-cases (resolve_components root root (components relative))) [
      | inl (p, e) ↦
          rw (sandbox_path, c, e)
            (check_inside-below root p
              (accepts root [] p (components relative) tt (components-IsNamed relative) e).inside)
      | inr (x, e) ↦ rw (sandbox_path, c, e) refl
    ]

-- A path that `sandbox_path` accepts leads to the canonical root with names below it that are not
-- empty, not `.` or `..`, and have no slash.
pub sandbox_path-IsInside :
    (canonicalize : Text → Option PathBuf) (vault_root relative : Text) (root p : PathBuf)
    → canonicalize vault_root ≡ some root
    → sandbox_path canonicalize vault_root relative ≡ ok p
    → IsInside root p
sandbox_path-IsInside canonicalize vault_root relative root p c h =
    let e = sandbox-resolve canonicalize vault_root relative root c in
    (accepts root [] p (components relative) tt (components-IsNamed relative) (sym e ∙ h)).inside

-- With a root that the file system resolves, `sandbox_path` accepts a relative path exactly when it
-- is not absolute and, read from the left, never has more parent components than names; every other
-- path is refused.
pub sandbox_path_accepts_iff :
    (canonicalize : Text → Option PathBuf) (vault_root relative : Text) (root : PathBuf)
    → canonicalize vault_root ≡ some root
    → ((p : PathBuf) × (sandbox_path canonicalize vault_root relative ≡ ok p))
      ↔ ((has_root (components relative) ≡ false) × StaysBelow 0 (components relative))
sandbox_path_accepts_iff canonicalize vault_root relative root c =
    let e = sandbox-resolve canonicalize vault_root relative root c in
    (
      λ (p, h).
          let r =
            accepts root [] p (components relative) tt (components-IsNamed relative) (sym e ∙ h) in
          (r.relative, r.stays),
      λ (r, s). let (p, q) = accepted root [] (components relative) r s in (p, e ∙ q),
    )
