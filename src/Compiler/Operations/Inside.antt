-- ===== src/Compiler/Operations/Inside.antt =====
-- Where the operations may change the disk.
use okf_mcp_rs.Prelude.{
  ◌≡◌, refl, sym, subst, ◌∙◌, Text, ascii, Option, some, List, [], ◌∷◌, ◌++◌, ◌⊎◌, inl, inr, arith,
}
use okf_mcp_rs.Core.VaultResolver.{PathBuf}
use okf_mcp_rs.Core.VaultResolver.Sandbox.{sandbox_path-IsInside}
use okf_mcp_rs.Storage.FileSystem.{Node, dir, Disk, World}
use okf_mcp_rs.Storage.FileSystem.Calls.{IsAbove, and_then-cases}
use okf_mcp_rs.Compiler.Operations.{CompileOperation, tmp_path, apply_operation, apply_operations}
use okf_mcp_rs.Compiler.Operations.Edits.{
  Edit, same, made_dir, temporary, replaced, removed, wanted, path_of, apply_operation-Edits,
}

-- Two directories above the same path: one is above the other.
IsAbove-both : (q root b₁ b₂ : PathBuf) → b₁ ++ q ≡ b₂ ++ root → IsAbove root q ⊎ IsAbove q root
IsAbove-both q root [] b₂ e = inl (b₂, e)
IsAbove-both q root (x ∷ b₁) [] e = inr (x ∷ b₁, sym e)
IsAbove-both q root (x ∷ b₁) (y ∷ b₂) e = IsAbove-both q root b₁ b₂ cc

-- Everything on the way to the root is a directory.
abbrev pub IsRooted : PathBuf → Disk → Type 0
IsRooted root d = (q : PathBuf) → IsAbove q root → d q ≡ some dir

-- A change stays in the vault, but for one file beside its root.
abbrev pub StaysIn : PathBuf → Disk → Disk → Type 0
StaysIn root d d' = (p : PathBuf) → (d' p ≡ d p) ⊎ IsAbove root p ⊎ (p ≡ tmp_path root)

tmp_path-below :
    (root below : PathBuf)
    → IsAbove root (tmp_path (below ++ root)) ⊎ (tmp_path (below ++ root) ≡ tmp_path root)
tmp_path-below root [] = inr refl
tmp_path-below root (name ∷ below) = inl ((name ++ ascii ".tmp") ∷ below, refl)

Edit-StaysIn :
    (root below : PathBuf) (o : Option Text) (d : Disk) (p : PathBuf) (y : Option Node)
    → IsRooted root d
    → Edit (below ++ root) o p (d p) y
    → (y ≡ d p) ⊎ IsAbove root p ⊎ (p ≡ tmp_path root)
Edit-StaysIn root below o d p y r (same e) = inl e
Edit-StaysIn root below o d p y r (made_dir n e (b, i)) =
    elim (IsAbove-both p root b below (sym i)) [
      | inl under ↦ inr (inl under)
      | inr over ↦ absurd (cc (r p over))
    ]
Edit-StaysIn root below o d p y r (temporary e nd) = elim (tmp_path-below root below) [
  | inl under ↦ inr (inl (subst (λ q. IsAbove root q) e under))
  | inr t ↦ inr (inr (sym e ∙ t))
]
Edit-StaysIn root below o d p y r (replaced c w e nd f) = inr (inl (below, sym e))
Edit-StaysIn root below o d p y r (removed w e f n) = inr (inl (below, sym e))

Edit-dir :
    (full_path p : PathBuf) (o : Option Text) (x y : Option Node)
    → Edit full_path o p x y
    → x ≡ some dir
    → y ≡ some dir
Edit-dir full_path p o x y (same e) h = e ∙ h
Edit-dir full_path p o x y (made_dir n e i) h = e
Edit-dir full_path p o x y (temporary e nd) h = absurd (ground (arith, h))
Edit-dir full_path p o x y (replaced c w e nd f) h = absurd (ground (arith, h))
Edit-dir full_path p o x y (removed w e f n) h = absurd (ground (arith, h))

module _ (canonicalize : Text → Option PathBuf) (vault_root : Text) (root : PathBuf)
    (resolves : canonicalize vault_root ≡ some root) where
  apply_operation-StaysIn :
      (op : CompileOperation) (w : World)
      → IsRooted root w.disk
      → (let d = (apply_operation canonicalize vault_root op w).1.disk in
          StaysIn root w.disk d × IsRooted root d)
  apply_operation-StaysIn op w h = elim (apply_operation-Edits canonicalize vault_root op w) [
    | inl e ↦ subst (λ d. StaysIn root w.disk d × IsRooted root d) (sym e) ((λ p. inl refl), h)
    | inr (full_path, s, edits) ↦
        let i =
          sandbox_path-IsInside canonicalize vault_root (path_of op) root full_path resolves s in
        (
          λ p. Edit-StaysIn root i.0 (wanted op) w.disk p _ h (
              subst
                (λ f.
                  Edit f (wanted op) p (w.disk p)
                    ((apply_operation canonicalize vault_root op w).1.disk p))
                i.1 (edits p)),
          λ q a. Edit-dir full_path q (wanted op) _ _ (edits q) (h q a),
        )
  ]

  StaysIn-trans : (d d' d'' : Disk) → StaysIn root d d' → StaysIn root d' d'' → StaysIn root d d''
  StaysIn-trans d d' d'' h₁ h₂ p = elim (h₂ p) [
    | inr out ↦ inr out
    | inl e ↦ elim (h₁ p) [ inl e' ↦ inl (e ∙ e') | inr out ↦ inr out ]
  ]

  -- When the vault's root and all above it are directories, operations with any paths, applied in
  -- whole or in part, change nothing outside the vault, except that they may leave a file beside
  -- its root, the temporary file of the root itself; and those directories remain.
  pub apply_operations_inside :
      (ops : List CompileOperation) (w : World)
      → IsRooted root w.disk
      → (let d = (apply_operations canonicalize vault_root ops w).1.disk in
          StaysIn root w.disk d × IsRooted root d)
  unfolding apply_operations
  apply_operations_inside [] w h = ((λ p. inl refl), h)
  apply_operations_inside (op ∷ ops) w h =
      let r = apply_operation canonicalize vault_root op w in
      let first = apply_operation-StaysIn op w h in
      let rest = apply_operations_inside ops r.1 first.1 in
      let d = (apply_operations canonicalize vault_root ops r.1).1.disk in
      let both : StaysIn root w.disk d × IsRooted root d =
        (StaysIn-trans w.disk r.1.disk d first.0 rest.0, rest.1) in
      and_then-cases (λ q. StaysIn root w.disk q.1.disk × IsRooted root q.1.disk) r _
        (λ full_path _.
          and_then-cases (λ q. StaysIn root w.disk q.1.disk × IsRooted root q.1.disk)
            (apply_operations canonicalize vault_root ops r.1) _ (λ _ _. both) (λ _ _. both))
        (λ _ _. first)
