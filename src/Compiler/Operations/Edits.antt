-- ===== src/Compiler/Operations/Edits.antt =====
-- What one operation, failing or not, does to each path of the disk.
use okf_mcp_rs.Prelude.{
  ◌≡◌, refl, sym, subst, ap, true, false, Text, Option, none, some, [], ◌∷◌, ◌⊎◌, inl, inr, Result,
  ok, Bool-cases, Result-cases,
}
use okf_mcp_rs.Core.VaultResolver.{PathBuf, sandbox_path}
use okf_mcp_rs.Storage.FileSystem.{
  Node, file, dir, Disk, World, Failure, put, is_dir_node, is_file_node, write, rename, remove_file,
  is_file,
}
use okf_mcp_rs.Storage.FileSystem.Calls.{
  IsAbove, put-cases, and_then-cases, create_dir_all-Made, write-Written, write-content,
  rename-cases, remove_file-cases,
}
use okf_mcp_rs.Storage.FsOps.{create_parent}
use okf_mcp_rs.Compiler.Operations.{
  CompileOperation, create_or_update, delete, tmp_path, create_file, delete_file, apply_operation,
}

-- What may stand at `p` after an operation on `full_path`, given what stood there.
pub data Edit (full_path : PathBuf) (wanted : Option Text) (p : PathBuf) (x y : Option Node)
    : Type 0 where
  same : y ≡ x → Edit full_path wanted p x y
  made_dir : x ≡ none → y ≡ some dir → IsAbove p full_path → Edit full_path wanted p x y
  temporary : tmp_path full_path ≡ p → is_dir_node x ≡ false → Edit full_path wanted p x y
  replaced :
      (content : Text)
      → wanted ≡ some content
      → full_path ≡ p
      → is_dir_node x ≡ false
      → y ≡ some (file content)
      → Edit full_path wanted p x y
  removed :
      wanted ≡ none → full_path ≡ p → is_file_node x ≡ true → y ≡ none → Edit full_path wanted p x y

abbrev pub Edits : PathBuf → Option Text → Disk → Disk → Type 0
Edits full_path wanted d d' = (p : PathBuf) → Edit full_path wanted p (d p) (d' p)

create_parent-Edits :
    (full_path : PathBuf) (o : Option Text) (w : World)
    → Edits full_path o w.disk (create_parent full_path w).1.disk
create_parent-Edits [] o w p = same refl
create_parent-Edits (a ∷ parent) o w p = elim (create_dir_all-Made parent w p) [
  | inl e ↦ same e
  | inr (n, e, (below, i)) ↦ made_dir n e (a ∷ below, ap (λ l. a ∷ l) i)
]

-- A path that is no directory afterwards was none before.
Edit-not_dir :
    (full_path p : PathBuf) (o : Option Text) (x y : Option Node)
    → Edit full_path o p x y
    → is_dir_node y ≡ false
    → is_dir_node x ≡ false
Edit-not_dir full_path p o x y (same e) h = subst (λ n. is_dir_node n ≡ false) e h
Edit-not_dir full_path p o x y (made_dir n e i) h = rw n refl
Edit-not_dir full_path p o x y (temporary e nd) h = nd
Edit-not_dir full_path p o x y (replaced c w e nd f) h = nd
Edit-not_dir full_path p o none y (removed w e f n) h = refl
Edit-not_dir full_path p o (some (file c)) y (removed w e f n) h = refl
Edit-not_dir full_path p o (some dir) y (removed w e f n) h = absurd cc

put_tmp-Edits :
    (full_path : PathBuf) (o : Option Text) (n : Option Node) (d d' : Disk)
    → is_dir_node (d' (tmp_path full_path)) ≡ false
    → Edits full_path o d d'
    → Edits full_path o d (put (tmp_path full_path) n d')
put_tmp-Edits full_path o n d d' nd h p = elim (put-cases (tmp_path full_path) p n d') [
  | inl (e, _) ↦
      temporary e (
        Edit-not_dir full_path p o (d p) (d' p) (h p)
          (subst (λ q. is_dir_node (d' q) ≡ false) e nd))
  | inr e ↦ rw e (h p)
]

write_tmp-Edits :
    (full_path : PathBuf) (o : Option Text) (content : Text) (d : Disk) (w : World)
    → Edits full_path o d w.disk
    → Edits full_path o d (write (tmp_path full_path) content w).1.disk
write_tmp-Edits full_path o content d w h = elim (write-Written (tmp_path full_path) content w) [
  | inl (_, nd, e) ↦
      subst (λ d'. Edits full_path o d d') (sym e) (put_tmp-Edits full_path o _ d w.disk nd h)
  | inr (_, _, inl e) ↦ subst (λ d'. Edits full_path o d d') (sym e) h
  | inr (_, _, inr (nd, (part, e))) ↦
      subst (λ d'. Edits full_path o d d') (sym e) (put_tmp-Edits full_path o _ d w.disk nd h)
]

replace-Edits :
    (full_path : PathBuf) (content : Text) (d d' : Disk)
    → is_dir_node (d' full_path) ≡ false
    → is_dir_node (d' (tmp_path full_path)) ≡ false
    → Edits full_path (some content) d d'
    → Edits full_path
        (some content)
        d
        (put full_path (some (file content)) (put (tmp_path full_path) none d'))
replace-Edits full_path content d d' nd nt h p =
    elim (put-cases full_path p (some (file content)) (put (tmp_path full_path) none d')) [
      | inl (e, f) ↦
          replaced content refl e
            (Edit-not_dir full_path p (some content) (d p) (d' p) (h p)
              (subst (λ q. is_dir_node (d' q) ≡ false) e nd))
            f
      | inr e ↦ rw e (put_tmp-Edits full_path (some content) none d d' nt h p)
    ]

rename_tmp-Edits :
    (full_path : PathBuf) (content : Text) (d : Disk) (w : World)
    → w.disk (tmp_path full_path) ≡ some (file content)
    → Edits full_path (some content) d w.disk
    → Edits full_path (some content) d (rename (tmp_path full_path) full_path w).1.disk
rename_tmp-Edits full_path content d w t h =
    elim (rename-cases (tmp_path full_path) full_path content w t) [
      | inl (_, nd, e) ↦
          subst (λ d'. Edits full_path (some content) d d') (sym e)
            (replace-Edits full_path content d w.disk nd (rw t refl) h)
      | inr (_, _, e) ↦ subst (λ d'. Edits full_path (some content) d d') (sym e) h
    ]

create_file-Edits :
    (full_path : PathBuf) (content : Text) (w : World)
    → Edits full_path (some content) w.disk (create_file full_path content w).1.disk
unfolding create_file
create_file-Edits full_path content w =
    let P : Result Failure PathBuf × World → Type 0 =
      λ r. Edits full_path (some content) w.disk r.1.disk in
    let made = create_parent-Edits full_path (some content) w in
    let w₁ = (create_parent full_path w).1 in
    let wrote = write_tmp-Edits full_path (some content) content w.disk w₁ made in
    let w₂ = (write (tmp_path full_path) content w₁).1 in
    and_then-cases P (create_parent full_path w) _
      (λ _ _.
        and_then-cases P (write (tmp_path full_path) content w₁) _
          (λ _ e.
            let renamed =
              rename_tmp-Edits full_path content w.disk w₂
                (write-content (tmp_path full_path) content w₁ e) wrote in
            and_then-cases P (rename (tmp_path full_path) full_path w₂) _ (λ _ _. renamed)
              (λ _ _. renamed))
          (λ _ _. wrote))
      (λ _ _. made)

put-none-Edits :
    (full_path : PathBuf) (d : Disk)
    → is_file_node (d full_path) ≡ true
    → Edits full_path none d (put full_path none d)
put-none-Edits full_path d f p = elim (put-cases full_path p none d) [
  | inl (e, n) ↦ removed refl e (subst (λ q. is_file_node (d q) ≡ true) e f) n
  | inr e ↦ same e
]

remove_file-Edits :
    (full_path : PathBuf) (w : World) → Edits full_path none w.disk (remove_file full_path w).1.disk
remove_file-Edits full_path w = elim (remove_file-cases full_path w) [
  | inl (_, f, e) ↦
      subst (λ d. Edits full_path none w.disk d) (sym e) (put-none-Edits full_path w.disk f)
  | inr (_, _, e) ↦ subst (λ d. Edits full_path none w.disk d) (sym e) (λ p. same refl)
]

delete_file-Edits :
    (full_path : PathBuf) (w : World) → Edits full_path none w.disk (delete_file full_path w).1.disk
unfolding delete_file
delete_file-Edits full_path w = elim (Bool-cases (is_file w.disk full_path)) [
  | inl f ↦ rw f (
      and_then-cases (λ r. Edits full_path none w.disk r.1.disk) (remove_file full_path w) _
        (λ _ _. remove_file-Edits full_path w) (λ _ _. remove_file-Edits full_path w))
  | inr n ↦ rw n (λ p. same refl)
]

-- What an operation wants to stand at its path, and that path.
abbrev pub wanted : CompileOperation → Option Text
wanted (create_or_update path content) = some content
wanted (delete path reason) = none

abbrev pub path_of : CompileOperation → Text
path_of (create_or_update path content) = path
path_of (delete path reason) = path

module _ (canonicalize : Text → Option PathBuf) (vault_root : Text) where
  -- An operation on a refused path changes nothing, any other edits the disk for its path.
  pub apply_operation-Edits :
      (op : CompileOperation) (w : World)
      → (let after = (apply_operation canonicalize vault_root op w).1.disk in
          (after ≡ w.disk)
          ⊎ ((full_path : PathBuf) × (sandbox_path canonicalize vault_root (path_of op)
                ≡ ok full_path)
              × Edits full_path (wanted op) w.disk after))
  unfolding apply_operation
  apply_operation-Edits (create_or_update path content) w =
      elim (Result-cases (sandbox_path canonicalize vault_root path)) [
        | inl (full_path, e) ↦ rw e (inr (full_path, refl, create_file-Edits full_path content w))
        | inr (x, e) ↦ rw e (inl refl)
      ]
  apply_operation-Edits (delete path reason) w =
      elim (Result-cases (sandbox_path canonicalize vault_root path)) [
        | inl (full_path, e) ↦ rw e (inr (full_path, refl, delete_file-Edits full_path w))
        | inr (x, e) ↦ rw e (inl refl)
      ]
