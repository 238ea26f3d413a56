-- ===== src/Core/VaultLookup/Nearest.antt =====
-- Which vault is found when none is named.
use okf_mcp_rs.Prelude.{
  ℕ, zero, suc, ◌≤◌, ◌<◌, ◌≡◌, refl, Bool, true, false, none, some, [], ◌∷◌, length, drop, arith,
  ok,
}
use okf_mcp_rs.Core.VaultResolver.{PathBuf}
use okf_mcp_rs.Core.VaultRegistry.{VaultRegistry, default_path}
use okf_mcp_rs.Core.VaultLookup.{vault_marker_dir, to_text, walk_up, resolve_vault_with}

module _ (is_dir : PathBuf → Bool) where
  -- The directory so many levels up has the marker.
  abbrev pub is_marked : PathBuf → ℕ → Bool
  is_marked start_dir k = is_dir (vault_marker_dir ∷ drop k start_dir)

  walk_up_near :
      (start_dir : PathBuf) (k : ℕ)
      → k ≤ length start_dir
      → is_marked start_dir k ≡ true
      → ((j : ℕ) → j < k → is_marked start_dir j ≡ false)
      → walk_up is_dir start_dir ≡ some (drop k start_dir)
  unfolding walk_up
  walk_up_near [] zero le m n = rw m refl
  walk_up_near [] (suc k) le m n = absurd (omega arith)
  walk_up_near (name ∷ parent) zero le m n = rw m refl
  walk_up_near (name ∷ parent) (suc k) le m n =
      rw (n 0 (omega arith))
        (walk_up_near parent k (omega arith) m (λ j lt. n (suc j) (omega arith)))

  walk_up-none :
      (start_dir : PathBuf)
      → ((k : ℕ) → k ≤ length start_dir → is_marked start_dir k ≡ false)
      → walk_up is_dir start_dir ≡ none
  unfolding walk_up
  walk_up-none [] n = rw (n 0 (omega arith)) refl
  walk_up-none (name ∷ parent) n =
      rw (n 0 (omega arith)) (walk_up-none parent (λ k le. n (suc k) (omega arith)))

  -- With no vault named, the vault found is the nearest directory with the marker, among the
  -- current directory and those above it up to the root, whatever the registry holds.
  pub resolve_vault_nearest :
      (start_dir : PathBuf) (registry : VaultRegistry) (k : ℕ)
      → k ≤ length start_dir
      → is_marked start_dir k ≡ true
      → ((j : ℕ) → j < k → is_marked start_dir j ≡ false)
      → resolve_vault_with is_dir none start_dir registry ≡ ok (to_text (drop k start_dir))
  unfolding resolve_vault_with
  resolve_vault_nearest start_dir registry k le m n =
      rw (resolve_vault_with, walk_up_near start_dir k le m n) refl

  -- With no vault named, and no marker in the current directory or above it, the registry's default
  -- decides.
  pub resolve_vault_unmarked :
      (start_dir : PathBuf) (registry : VaultRegistry)
      → ((k : ℕ) → k ≤ length start_dir → is_marked start_dir k ≡ false)
      → resolve_vault_with is_dir none start_dir registry ≡ default_path registry
  unfolding resolve_vault_with
  resolve_vault_unmarked start_dir registry n =
      rw (resolve_vault_with, walk_up-none start_dir n) refl
