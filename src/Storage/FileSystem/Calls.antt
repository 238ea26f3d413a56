-- ===== src/Storage/FileSystem/Calls.antt =====
-- What each call does to the disk, failures included.
use okf_mcp_rs.Prelude.{
  ◌≡◌, ◌≢◌, refl, sym, subst, ap, ◌∙◌, true, false, Text, Option, none, some, [], ◌∷◌, ◌++◌, ◌⊎◌,
  inl, inr, arith, Result, ok, err, take, Bool-cases,
}
use okf_mcp_rs.Core.VaultResolver.{PathBuf}
use okf_mcp_rs.Core.VaultResolver.Sandbox.{path_eq_iff, path_eq_refl}
use okf_mcp_rs.Storage.FileSystem.{
  Node, file, dir, Disk, Fault, works, fails, writes_part, World, Failure, refused, has_parent,
  interrupted, Io, and_then, put, is_dir_node, is_file_node, change, create_dir_all, write, rename,
  remove_file, next_fault,
}

-- `q` is `p` or one of the directories above it.
abbrev pub IsAbove : PathBuf → PathBuf → Type 0
IsAbove q p = (below : PathBuf) × (p ≡ below ++ q)

pub Node-cases :
    (n : Option Node) → (n ≡ none) ⊎ (n ≡ some dir) ⊎ ((content : Text) × (n ≡ some (file content)))
Node-cases none = inl refl
Node-cases (some dir) = inr (inl refl)
Node-cases (some (file content)) = inr (inr (content, refl))

pub put_same : (p : PathBuf) (n : Option Node) (d : Disk) → put p n d p ≡ n
unfolding put
put_same p n d = rw (path_eq_refl p) refl

pub put_other : (p q : PathBuf) (n : Option Node) (d : Disk) → p ≢ q → put p n d q ≡ d q
unfolding put
put_other p q n d h = ground (arith, path_eq_iff p q)

-- Either the path is the one that is put, or it keeps its node.
pub put-cases :
    (p q : PathBuf) (n : Option Node) (d : Disk)
    → ((p ≡ q) × (put p n d q ≡ n)) ⊎ (put p n d q ≡ d q)
unfolding put
put-cases p q n d = ground (arith, path_eq_iff p q)

-- What a chain of two calls comes to: the second runs where the first left off, or not at all.
pub and_then-cases :
    {A B : Type 0} (Q : Result Failure B × World → Type 0) (m : Result Failure A × World)
    (k : A → Io B)
    → ((a : A) → m.0 ≡ ok a → Q (k a m.1))
    → ((e : Failure) → m.0 ≡ err e → Q (err e, m.1))
    → Q (and_then m k)
and_then-cases Q (ok a, w) k h₁ h₂ = h₁ a refl
and_then-cases Q (err e, w) k h₁ h₂ = h₂ e refl

-- A chain that returns has returned from both.
pub and_then-ok :
    {A B : Type 0} (m : Result Failure A × World) (k : A → Io B) (b : B)
    → (and_then m k).0 ≡ ok b
    → (a : A) × (m.0 ≡ ok a) × (and_then m k ≡ k a m.1) × ((k a m.1).0 ≡ ok b)
and_then-ok (ok a, w) k b h = (a, refl, refl, h)
and_then-ok (err e, w) k b h = absurd cc

-- A change is made, or the call fails and nothing is.
pub change-cases :
    (f : Disk → Disk) (w : World)
    → (((change f w).0 ≡ ok tt) × ((change f w).1.disk ≡ f w.disk))
      ⊎ (((change f w).0 ≡ err interrupted) × ((change f w).1.disk ≡ w.disk))
unfolding change
change-cases f w = by_fault (next_fault w.faults) refl
  where
    by_fault :
        (x : Fault)
        → next_fault w.faults ≡ x
        → (((change f w).0 ≡ ok tt) × ((change f w).1.disk ≡ f w.disk))
          ⊎ (((change f w).0 ≡ err interrupted) × ((change f w).1.disk ≡ w.disk))
    by_fault works e = inl (rw (change, e) refl, rw (change, e) refl)
    by_fault fails e = inr (rw (change, e) refl, rw (change, e) refl)
    by_fault (writes_part n) e = inr (rw (change, e) refl, rw (change, e) refl)

pub change-Keeps :
    (P : Disk → Type 0) (f : Disk → Disk) (w : World)
    → P (f w.disk)
    → P w.disk
    → P (change f w).1.disk
change-Keeps P f w made kept = elim (change-cases f w) [
  | inl (_, e) ↦ subst P (sym e) made
  | inr (_, e) ↦ subst P (sym e) kept
]

-- Directories are made where nothing was, at the path and above it.
abbrev pub Made : PathBuf → Disk → Disk → Type 0
Made p d d' = (q : PathBuf) → (d' q ≡ d q) ⊎ ((d q ≡ none) × (d' q ≡ some dir) × IsAbove q p)

Made-put : (p : PathBuf) (d d' : Disk) → d p ≡ none → Made p d d' → Made p d (put p (some dir) d')
Made-put p d d' h m q = elim (put-cases p q (some dir) d') [
  | inl (e, n) ↦ inr (subst (λ r. d r ≡ none) e h, n, ([], e))
  | inr same ↦ rw same (m q)
]

Made-above : (a : Text) (p : PathBuf) (d d' : Disk) → Made p d d' → Made (a ∷ p) d d'
Made-above a p d d' m q = elim (m q) [
  | inl same ↦ inl same
  | inr (n, e, (below, i)) ↦ inr (n, e, (a ∷ below, ap (λ l. a ∷ l) i))
]

pub create_dir_all-Made : (p : PathBuf) (w : World) → Made p w.disk (create_dir_all p w).1.disk
unfolding create_dir_all
create_dir_all-Made [] w = elim (Bool-cases (is_dir_node (w.disk []))) [
  | inl d ↦ rw d (λ q. inl refl)
  | inr n ↦ rw n (λ q. inl refl)
]
create_dir_all-Made (a ∷ p) w =
    let above = create_dir_all-Made p w in
    elim (Node-cases (w.disk (a ∷ p))) [
      | inl n ↦
          rw (create_dir_all, n)
            (and_then-cases (λ r. Made (a ∷ p) w.disk r.1.disk) (create_dir_all p w)
              (λ _. change (put (a ∷ p) (some dir)))
              (λ _ _.
                change-Keeps (λ d'. Made (a ∷ p) w.disk d') (put (a ∷ p) (some dir))
                  (create_dir_all p w).1
                  (Made-put (a ∷ p) w.disk _ n (Made-above a p w.disk _ above))
                  (Made-above a p w.disk _ above))
              (λ _ _. Made-above a p w.disk _ above))
      | inr (inl d) ↦ rw (create_dir_all, d) (λ q. inl refl)
      | inr (inr (c, f)) ↦ rw (create_dir_all, f) (λ q. inl refl)
    ]

-- A write gives the path its text; where it fails, the path may have a part of a text.
abbrev pub Written : PathBuf → Text → Disk → Result Failure Unit × World → Type 0
Written p content d r =
    ((r.0 ≡ ok tt) × (is_dir_node (d p) ≡ false) × (r.1.disk ≡ put p (some (file content)) d))
    ⊎ ((e : Failure) × (r.0 ≡ err e)
        × ((r.1.disk ≡ d)
            ⊎ ((is_dir_node (d p) ≡ false)
                × ((part : Text) × (r.1.disk ≡ put p (some (file part)) d)))))

pub write-Written :
    (p : PathBuf) (content : Text) (w : World) → Written p content w.disk (write p content w)
unfolding write
write-Written p content w = elim (Bool-cases (is_dir_node (w.disk p))) [
  | inl d ↦ rw d (inr (_, refl, inl refl))
  | inr nd ↦ elim (Bool-cases (has_parent w.disk p)) [
    | inl h ↦ by_fault nd h (next_fault w.faults) refl
    | inr n ↦ rw (nd, n) (inr (_, refl, inl refl))
  ]
]
  where
    by_fault :
        is_dir_node (w.disk p) ≡ false
        → has_parent w.disk p ≡ true
        → (x : Fault) → next_fault w.faults ≡ x
        → Written p content w.disk (write p content w)
    by_fault nd h works e = rw (write, nd, h, e) (inl (refl, refl, refl))
    by_fault nd h fails e = rw (write, nd, h, e) (inr (_, refl, inl refl))
    by_fault nd h (writes_part n) e =
        rw (write, nd, h, e) (inr (_, refl, inr (refl, (take n content, refl))))

-- A write that returns has left its text.
pub write-content :
    (p : PathBuf) (content : Text) (w : World)
    → (write p content w).0 ≡ ok tt
    → (write p content w).1.disk p ≡ some (file content)
write-content p content w h = elim (write-Written p content w) [
  | inl (_, _, e) ↦ ap (λ d. d p) e ∙ put_same p (some (file content)) w.disk
  | inr (x, e, _) ↦ absurd cc
]

-- A rename of a file moves it at once, or does nothing.
pub rename-cases :
    (from to : PathBuf) (content : Text) (w : World)
    → w.disk from ≡ some (file content)
    → (let r = rename from to w in
        ((r.0 ≡ ok tt)
          × (is_dir_node (w.disk to) ≡ false)
          × (r.1.disk ≡ put to (some (file content)) (put from none w.disk)))
        ⊎ ((e : Failure) × (r.0 ≡ err e) × (r.1.disk ≡ w.disk)))
unfolding rename put
rename-cases from to content w h = elim (Bool-cases (is_dir_node (w.disk to))) [
  | inl d ↦ rw (rename, h, d) (inr (refused, refl, refl))
  | inr nd ↦
      rw (rename, h, nd)
        (elim (change-cases (λ disk. put to (some (file content)) (put from none disk)) w) [
          | inl (o, e) ↦ inl (o, refl, e)
          | inr (o, e) ↦ inr (interrupted, o, e)
        ])
]

pub remove_file-cases :
    (p : PathBuf) (w : World)
    → (let r = remove_file p w in
        ((r.0 ≡ ok tt) × (is_file_node (w.disk p) ≡ true) × (r.1.disk ≡ put p none w.disk))
        ⊎ ((e : Failure) × (r.0 ≡ err e) × (r.1.disk ≡ w.disk)))
unfolding remove_file change
remove_file-cases p w = elim (Bool-cases (is_file_node (w.disk p))) [
  | inl f ↦
      rw (remove_file, f)
        (elim (change-cases (put p none) w) [
          | inl (o, e) ↦ inl (o, refl, e)
          | inr (o, e) ↦ inr (interrupted, o, e)
        ])
  | inr n ↦ rw (remove_file, n) (inr (refused, refl, refl))
]
