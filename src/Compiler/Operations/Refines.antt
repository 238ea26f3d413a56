-- ===== src/Compiler/Operations/Refines.antt =====
-- Operations that all succeed, beside a map of texts.
use okf_mcp_rs.Prelude.{
  ◌≡◌, ◌≢◌, refl, sym, subst, ap, ap₂, ◌∙◌, Bool, true, false, Text, Option, none, some, List, [],
  ◌∷◌, inl, inr, arith, Result, ok, err, All, map, if◌then◌else◌, Bool-cases, Result-cases,
  eq_of_ok,
}
use okf_mcp_rs.Core.VaultResolver.{PathBuf, sandbox_path, path_eq, SandboxError}
use okf_mcp_rs.Core.VaultResolver.Sandbox.{path_eq_iff}
use okf_mcp_rs.Storage.FileSystem.{
  Node, file, dir, World, is_file_node, is_file, and_then, write, rename, remove_file,
}
use okf_mcp_rs.Storage.FileSystem.Calls.{
  and_then-ok, rename-cases, remove_file-cases, put_same, write-content,
}
use okf_mcp_rs.Storage.FsOps.{create_parent}
use okf_mcp_rs.Compiler.Operations.{
  CompileOperation, create_or_update, delete, tmp_path, create_file, delete_file, apply_operation,
  apply_operations,
}
use okf_mcp_rs.Compiler.Operations.Edits.{
  Edit, same, made_dir, temporary, replaced, removed, wanted, path_of, apply_operation-Edits,
}
use okf_mcp_rs.Compiler.Operations.Atomic.{IsKept}

-- The text of a file.
abbrev pub text_of : Option Node → Option Text
text_of none = none
text_of (some dir) = none
text_of (some (file content)) = some content

create_file-text :
    (full_path q : PathBuf) (content : Text) (w : World)
    → (create_file full_path content w).0 ≡ ok q
    → (q ≡ full_path)
      × (text_of ((create_file full_path content w).1.disk full_path) ≡ some content)
unfolding create_file
create_file-text full_path q content w h =
    let w₁ = (create_parent full_path w).1 in
    let w₂ = (write (tmp_path full_path) content w₁).1 in
    let (_, _, e₁, h₁) = and_then-ok (create_parent full_path w) _ q h in
    let (_, o, e₂, h₂) = and_then-ok (write (tmp_path full_path) content w₁) _ q h₁ in
    let (_, o₃, e₃, h₃) = and_then-ok (rename (tmp_path full_path) full_path w₂) _ q h₂ in
    (
      eq_of_ok (sym h₃),
      ap (λ r. text_of (r.1.disk full_path)) (e₁ ∙ e₂ ∙ e₃)
          ∙ renamed full_path content w₂ (write-content (tmp_path full_path) content w₁ o) o₃,
    )
  where
    renamed :
        (full_path : PathBuf) (content : Text) (w : World)
        → w.disk (tmp_path full_path) ≡ some (file content)
        → (rename (tmp_path full_path) full_path w).0 ≡ ok tt
        → text_of ((rename (tmp_path full_path) full_path w).1.disk full_path) ≡ some content
    renamed full_path content w t h =
        elim (rename-cases (tmp_path full_path) full_path content w t) [
          | inl (_, _, e) ↦ ap (λ d. text_of (d full_path)) e ∙ ap text_of (put_same full_path _ _)
          | inr (x, e, _) ↦ absurd cc
        ]

no_text : (n : Option Node) → is_file_node n ≡ false → text_of n ≡ none
no_text none h = refl
no_text (some dir) h = refl
no_text (some (file content)) h = absurd cc

delete_file-text :
    (full_path q : PathBuf) (w : World)
    → (delete_file full_path w).0 ≡ ok q
    → (q ≡ full_path) × (text_of ((delete_file full_path w).1.disk full_path) ≡ none)
unfolding delete_file
delete_file-text full_path q w h = elim (Bool-cases (is_file w.disk full_path)) [
  | inl f ↦
      let h' : (and_then (remove_file full_path w) (λ _ w. (ok full_path, w))).0 ≡ ok q =
        rw f at h in
      let (_, o, e, h₁) = and_then-ok (remove_file full_path w) _ q h' in
      (eq_of_ok (sym h₁), rw f (ap (λ r. text_of (r.1.disk full_path)) e ∙ gone full_path w o))
  | inr n ↦ (eq_of_ok (sym (rw n at h)), rw n (no_text (w.disk full_path) n))
]
  where
    gone :
        (full_path : PathBuf) (w : World)
        → (remove_file full_path w).0 ≡ ok tt
        → text_of ((remove_file full_path w).1.disk full_path) ≡ none
    gone full_path w h = elim (remove_file-cases full_path w) [
      | inl (_, _, e) ↦
          ap (λ d. text_of (d full_path)) e ∙ ap text_of (put_same full_path none w.disk)
      | inr (x, e, _) ↦ absurd cc
    ]

true-false : {b : Bool} → b ≡ true → b ≡ false → ⊥
true-false t f = cc

Edit-text :
    (full_path p : PathBuf) (o : Option Text) (x y : Option Node)
    → full_path ≢ p
    → tmp_path full_path ≢ p
    → Edit full_path o p x y
    → text_of y ≡ text_of x
Edit-text full_path p o x y f t (same e) = ap text_of e
Edit-text full_path p o x y f t (made_dir n e i) = rw (n, e) refl
Edit-text full_path p o x y f t (temporary e nd) = absurd (t e)
Edit-text full_path p o x y f t (replaced c w e nd g) = absurd (f e)
Edit-text full_path p o x y f t (removed w e g n) = absurd (f e)

module _ (canonicalize : Text → Option PathBuf) (vault_root : Text) where
  unfoldable pub target : CompileOperation → Result SandboxError PathBuf
  target op = sandbox_path canonicalize vault_root (path_of op)

  -- The text at `p` after an operation, given the text before, as a map of texts would have it.
  unfoldable pub effect : PathBuf → CompileOperation → Option Text → Option Text
  effect p op before = elim (target op) [
    | ok full_path ↦ if path_eq full_path p then wanted op else before
    | err e ↦ before
  ]

  unfoldable pub effects : PathBuf → List CompileOperation → Option Text → Option Text
  effects p [] before = before
  effects p (op ∷ ops) before = effects p ops (effect p op before)

  apply_operation-target :
      (op : CompileOperation) (w : World) (q : PathBuf)
      → (apply_operation canonicalize vault_root op w).0 ≡ ok q
      → (target op ≡ ok q)
        × (text_of ((apply_operation canonicalize vault_root op w).1.disk q) ≡ wanted op)
  unfolding apply_operation target
  apply_operation-target (create_or_update path content) w q h =
      elim (Result-cases (sandbox_path canonicalize vault_root path)) [
        | inl (full_path, e) ↦
            let r = create_file-text full_path q content w (rw e at h) in rw (e, r.0) (refl, r.1)
        | inr (x, e) ↦ absurd (ground (arith, rw e at h))
      ]
  apply_operation-target (delete path reason) w q h =
      elim (Result-cases (sandbox_path canonicalize vault_root path)) [
        | inl (full_path, e) ↦
            let r = delete_file-text full_path q w (rw e at h) in rw (e, r.0) (refl, r.1)
        | inr (x, e) ↦ absurd (ground (arith, rw e at h))
      ]

  apply_operation-effect :
      (p : PathBuf) (op : CompileOperation) (w : World) (q : PathBuf)
      → IsKept canonicalize vault_root p op
      → (apply_operation canonicalize vault_root op w).0 ≡ ok q
      → text_of ((apply_operation canonicalize vault_root op w).1.disk p)
        ≡ effect p op (text_of (w.disk p))
  unfolding effect target
  apply_operation-effect p op w q k h =
      let t = apply_operation-target op w q h in
      elim (Bool-cases (path_eq q p)) [
        | inl e ↦
            rw (effect, t.0, e)
              (subst
                (λ r. text_of ((apply_operation canonicalize vault_root op w).1.disk r) ≡ wanted op)
                ((path_eq_iff q p).0 e) t.1)
        | inr ne ↦
            rw (effect, t.0, ne)
              (elim (apply_operation-Edits canonicalize vault_root op w) [
                | inl e ↦ ap (λ d. text_of (d p)) e
                | inr (full_path, s, edits) ↦
                    let f : full_path ≡ q = eq_of_ok (sym s ∙ t.0) in
                    Edit-text full_path p (wanted op) (w.disk p) _
                      (λ g. true-false ((path_eq_iff q p).1 (sym f ∙ g)) ne) (k full_path s)
                      (edits p)
              ])
      ]

  -- When every operation succeeds, the paths that are returned are the sandboxed paths of the
  -- operations, in order; and the text of a path that is the temporary file of none of them is what
  -- a map of texts has after the same insertions and removals, in order.
  pub apply_operations-refines :
      (ops : List CompileOperation) (w : World) (touched : List PathBuf) (p : PathBuf)
      → All (IsKept canonicalize vault_root p) ops
      → (apply_operations canonicalize vault_root ops w).0 ≡ ok touched
      → (map target ops ≡ map (λ q. ok q) touched)
        × (text_of ((apply_operations canonicalize vault_root ops w).1.disk p)
            ≡ effects p ops (text_of (w.disk p)))
  unfolding apply_operations effects
  apply_operations-refines [] w touched p k h = (ap (λ l. map (λ q. ok q) l) (eq_of_ok h), refl)
  apply_operations-refines (op ∷ ops) w touched p k h =
      let r = apply_operation canonicalize vault_root op w in
      let (q, o, e, h₁) = and_then-ok r _ touched h in
      let (qs, o₁, e₁, h₂) =
        and_then-ok (apply_operations canonicalize vault_root ops r.1) _ touched h₁ in
      let rest = apply_operations-refines ops r.1 qs p k.1 o₁ in
      let first = apply_operation-target op w q o in
      (
        ap₂ (λ x xs. x ∷ xs) first.0 rest.0 ∙ ap (λ l. map (λ q. ok q) l) (eq_of_ok h₂),
        ap (λ r. text_of (r.1.disk p)) (e ∙ e₁)
            ∙ rest.1
            ∙ ap (effects p ops) (apply_operation-effect p op w q k.0 o),
      )
