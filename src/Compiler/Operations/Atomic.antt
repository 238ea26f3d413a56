-- ===== src/Compiler/Operations/Atomic.antt =====
-- What stands at a path after some operations, when a call may fail at any point.
use okf_mcp_rs.Prelude.{
  ◌≡◌, ◌≢◌, refl, sym, subst, ap, ◌∙◌, true, Text, Option, none, some, List, [], ◌∷◌, ◌⊎◌, inl, inr,
  arith, ok, All, Exists,
}
use okf_mcp_rs.Core.VaultResolver.{PathBuf, sandbox_path}
use okf_mcp_rs.Storage.FileSystem.{Node, file, World, is_file_node}
use okf_mcp_rs.Storage.FileSystem.Calls.{and_then-cases}
use okf_mcp_rs.Compiler.Operations.{CompileOperation, tmp_path, apply_operation, apply_operations}
use okf_mcp_rs.Compiler.Operations.Edits.{
  Edit, same, made_dir, temporary, replaced, removed, wanted, path_of, apply_operation-Edits,
}

file_text :
    {o : Option Text} {c content : Text}
    → ◌≡◌ {A = Option Node} (some (file c)) (some (file content))
    → o ≡ some c
    → o ≡ some content
file_text h w = cc

module _ (canonicalize : Text → Option PathBuf) (vault_root : Text) (p : PathBuf) where
  -- `p` is the path that the operation is on.
  abbrev pub IsOn : CompileOperation → Type 0
  IsOn op = sandbox_path canonicalize vault_root (path_of op) ≡ ok p

  -- `p` is not the temporary file of the operation.
  abbrev pub IsKept : CompileOperation → Type 0
  IsKept op =
      (full_path : PathBuf)
      → sandbox_path canonicalize vault_root (path_of op) ≡ ok full_path
      → tmp_path full_path ≢ p

  abbrev pub Writes : Text → CompileOperation → Type 0
  Writes content op = IsOn op × (wanted op ≡ some content)

  abbrev pub Deletes : CompileOperation → Type 0
  Deletes op = IsOn op × (wanted op ≡ none)

  -- What stands at `p` after some operations is whole: it was there, or one of them wrote it; and
  -- a file is gone only if one of them deletes it.
  abbrev pub IsWhole : List CompileOperation → Option Node → Option Node → Type 0
  IsWhole ops x y =
      ((content : Text)
        → y ≡ some (file content)
        → (x ≡ some (file content)) ⊎ Exists (Writes content) ops)
      × (is_file_node x ≡ true → (is_file_node y ≡ true) ⊎ Exists Deletes ops)

  Edit-IsWhole :
      (op : CompileOperation) (full_path : PathBuf) (x y : Option Node)
      → sandbox_path canonicalize vault_root (path_of op) ≡ ok full_path
      → IsKept op
      → Edit full_path (wanted op) p x y
      → IsWhole (op ∷ []) x y
  Edit-IsWhole op full_path x y s k (same e) =
      (λ content f. inl (sym e ∙ f), λ f. inl (subst (λ n. is_file_node n ≡ true) (sym e) f))
  Edit-IsWhole op full_path x y s k (made_dir n e i) =
      (λ content f. absurd cc, λ f. absurd (ground (arith, n)))
  Edit-IsWhole op full_path x y s k (temporary e nd) = absurd (k full_path s e)
  Edit-IsWhole op full_path x y s k (replaced c w e nd f) =
      (λ content g. inr (inl (s ∙ ap (λ q. ok q) e, file_text (sym f ∙ g) w)), λ g. inl (rw f refl))
  Edit-IsWhole op full_path x y s k (removed w e f n) =
      (λ content g. absurd cc, λ g. inr (inl (s ∙ ap (λ q. ok q) e, w)))

  IsWhole-none : (ops : List CompileOperation) (x : Option Node) → IsWhole ops x x
  IsWhole-none ops x = (λ content f. inl f, λ f. inl f)

  IsWhole-trans :
      (op : CompileOperation) (ops : List CompileOperation) (x y z : Option Node)
      → IsWhole (op ∷ []) x y
      → IsWhole ops y z
      → IsWhole (op ∷ ops) x z
  IsWhole-trans op ops x y z h₁ h₂ = (
    λ content f. elim (h₂.0 content f) [
      | inr later ↦ inr (inr later)
      | inl g ↦ elim (h₁.0 content g) [
        | inl e ↦ inl e
        | inr (inl now) ↦ inr (inl now)
        | inr (inr no_more) ↦ absurd no_more
      ]
    ],
    λ f. elim (h₁.1 f) [
      | inr (inl now) ↦ inr (inl now)
      | inr (inr no_more) ↦ absurd no_more
      | inl g ↦ elim (h₂.1 g) [ inl k ↦ inl k | inr later ↦ inr (inr later) ]
    ],
  )

  IsWhole-later :
      (op : CompileOperation) (ops : List CompileOperation) (x y : Option Node)
      → IsWhole (op ∷ []) x y
      → IsWhole (op ∷ ops) x y
  IsWhole-later op ops x y h = IsWhole-trans op ops x y y h (IsWhole-none ops y)

  apply_operation-IsWhole :
      (op : CompileOperation) (w : World)
      → IsKept op
      → IsWhole (op ∷ []) (w.disk p) ((apply_operation canonicalize vault_root op w).1.disk p)
  apply_operation-IsWhole op w k = elim (apply_operation-Edits canonicalize vault_root op w) [
    | inl e ↦ rw e (IsWhole-none (op ∷ []) (w.disk p))
    | inr (full_path, s, edits) ↦ Edit-IsWhole op full_path (w.disk p) _ s k (edits p)
  ]

  apply_operations-IsWhole :
      (ops : List CompileOperation) (w : World)
      → All IsKept ops
      → IsWhole ops (w.disk p) ((apply_operations canonicalize vault_root ops w).1.disk p)
  unfolding apply_operations
  apply_operations-IsWhole [] w k = IsWhole-none [] (w.disk p)
  apply_operations-IsWhole (op ∷ ops) w k =
      let r = apply_operation canonicalize vault_root op w in
      let first = apply_operation-IsWhole op w k.0 in
      let rest = apply_operations-IsWhole ops r.1 k.1 in
      let both = IsWhole-trans op ops (w.disk p) _ _ first rest in
      and_then-cases (λ q. IsWhole (op ∷ ops) (w.disk p) (q.1.disk p)) r _
        (λ full_path _.
          and_then-cases (λ q. IsWhole (op ∷ ops) (w.disk p) (q.1.disk p))
            (apply_operations canonicalize vault_root ops r.1) _ (λ _ _. both) (λ _ _. both))
        (λ _ _. IsWhole-later op ops (w.disk p) _ first)

  -- Whatever calls of the file system fail, and wherever the run stops: a file that afterwards
  -- stands at a path which is the temporary file of none of the operations was there before with
  -- this content, or an operation on the path has this content in whole.
  pub apply_operations_atomic :
      (ops : List CompileOperation) (w : World) (content : Text)
      → All IsKept ops
      → (apply_operations canonicalize vault_root ops w).1.disk p ≡ some (file content)
      → (w.disk p ≡ some (file content)) ⊎ Exists (Writes content) ops
  apply_operations_atomic ops w content k h = (apply_operations-IsWhole ops w k).0 content h

  -- Whatever calls of the file system fail, and wherever the run stops: a path that is the temporary
  -- file of none of the operations and had a file still has one, or an operation deletes it.
  pub apply_operations_keeps :
      (ops : List CompileOperation) (w : World)
      → All IsKept ops
      → is_file_node (w.disk p) ≡ true
      → (is_file_node ((apply_operations canonicalize vault_root ops w).1.disk p) ≡ true)
        ⊎ Exists Deletes ops
  apply_operations_keeps ops w k h = (apply_operations-IsWhole ops w k).1 h
