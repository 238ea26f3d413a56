-- ===== src/Storage/FsOps/RoundTrip.antt =====
-- Reading after a write, and what a removal leaves.
use okf_mcp_rs.Prelude.{
  ◌≡◌, refl, ap, ◌∙◌, true, false, Text, Option, none, some, inl, inr, arith, ok, err, Result-cases,
  Bool-cases, if◌then◌else◌,
}
use okf_mcp_rs.Core.VaultResolver.{PathBuf, SandboxError, sandbox_path}
use okf_mcp_rs.Storage.FileSystem.{
  Node, file, dir, World, Failure, and_then, is_file, is_file_node, put,
}
use okf_mcp_rs.Storage.FileSystem
use okf_mcp_rs.Storage.FileSystem.Calls.{and_then-ok, write-content, remove_file-cases, put_same}
use okf_mcp_rs.Storage.FsOps.{create_parent, read_to_string, write, remove_file, exists}

read_back :
    (p : PathBuf) (contents : Text) (w : World)
    → w.disk p ≡ some (file contents)
    → (FileSystem.read_to_string p w).0 ≡ ok contents
unfolding FileSystem.read_to_string
read_back p contents w h = rw (FileSystem.read_to_string, h) refl

module _ (canonicalize : Text → Option PathBuf) (vault_root relative : Text) where
  written :
      (contents : Text) (w : World) (path p : PathBuf)
      → sandbox_path canonicalize vault_root relative ≡ ok p
      → (write canonicalize vault_root relative contents w).0 ≡ ok path
      → (write canonicalize vault_root relative contents w).1.disk p ≡ some (file contents)
  unfolding write
  written contents w path p e h =
      let w₁ = (create_parent p w).1 in
      let (_, _, e₁, h₁) = and_then-ok (create_parent p w) _ path (rw e at h) in
      let (_, o, e₂, _) = and_then-ok (FileSystem.write p contents w₁) _ path h₁ in
      rw e (ap (λ r. r.1.disk p) (e₁ ∙ e₂) ∙ write-content p contents w₁ o)

  never :
      (contents : Text) (w : World) (path : PathBuf) (x : SandboxError)
      → sandbox_path canonicalize vault_root relative ≡ err x
      → (write canonicalize vault_root relative contents w).0 ≡ ok path
      → ⊥
  unfolding write
  never contents w path x e h = ground (arith, rw e at h)

  -- After a write that succeeds, reading the same path gives the contents, and the path exists.
  pub read_to_string-write :
      (contents : Text) (w : World) (path : PathBuf)
      → (write canonicalize vault_root relative contents w).0 ≡ ok path
      → (let after = (write canonicalize vault_root relative contents w).1 in
          ((read_to_string canonicalize vault_root relative after).0 ≡ ok contents)
          × (exists canonicalize vault_root relative after ≡ true))
  unfolding read_to_string exists
  read_to_string-write contents w path h =
      elim (Result-cases (sandbox_path canonicalize vault_root relative)) [
        | inr (x, e) ↦ absurd (never contents w path x e h)
        | inl (p, e) ↦
            let d = written contents w path p e h in
            (rw e (read_back p contents _ d), rw (exists, e, d) refl)
      ]

  -- After a removal that succeeds, whether there was a file or not, there is no file at the path.
  pub remove_file_leaves_none :
      (w : World) (path : PathBuf)
      → sandbox_path canonicalize vault_root relative ≡ ok path
      → (remove_file canonicalize vault_root relative w).0 ≡ ok tt
      → is_file (remove_file canonicalize vault_root relative w).1.disk path ≡ false
  unfolding remove_file
  remove_file_leaves_none w path e h = rw e (removed w path (rw e at h))
    where
      removed :
          (w : World) (p : PathBuf)
          → (if is_file w.disk p then FileSystem.remove_file p w else (ok tt, w)).0 ≡ ok tt
          → is_file (if is_file w.disk p then FileSystem.remove_file p w else (ok tt, w)).1.disk p
            ≡ false
      removed w p h = elim (Bool-cases (is_file w.disk p)) [
        | inr n ↦ rw n n
        | inl f ↦ elim (remove_file-cases p w) [
          | inl (_, _, d) ↦
              rw f (ap (λ k. is_file k p) d ∙ ap is_file_node (put_same p none w.disk))
          | inr (x, bad, _) ↦ absurd (ground (arith, rw f at h))
        ]
      ]
