-- ===== src/Storage/Bundle/Sources.antt =====
-- The raw sources that a bundle lists.
use okf_mcp_rs.Prelude.{◌≡◌, arith, Text, Option, List, [], ◌∷◌, map, ◌↔◌, Exists}
use okf_mcp_rs.Prelude.Sort.{Has, Exists-sort}
use okf_mcp_rs.Core.VaultResolver.{PathBuf}
use okf_mcp_rs.Manifest.{active_entries}
use okf_mcp_rs.Ingest.Vault.{Vault}
use okf_mcp_rs.Validator.Frontmatter.{WikiFrontmatter}
use okf_mcp_rs.Storage.Bundle.{BundleRawSource, bundle_raw_source, build_bundle}

Exists-map :
    {A B : Type 0} (P : B → Type 0) (f : A → B) (l : List A)
    → Exists P (map f l) ↔ Exists (λ a. P (f a)) l
Exists-map P f [] = (λ h. h, λ h. h)
Exists-map P f (a ∷ l) = let i = Exists-map P f l in ground (arith, i)

-- The bundle lists a raw source just when it is that of an active version of the manifest: sorting
-- loses none and adds none.
pub raw_sources_exact :
    (canonicalize : Text → Option PathBuf) (root : Text) (from_yaml : Text → Option WikiFrontmatter)
    → (v : Vault) (r : BundleRawSource)
    → Has r (build_bundle canonicalize root from_yaml v).raw_sources
      ↔ Exists (λ e. bundle_raw_source canonicalize root v e ≡ r) (active_entries v.manifest)
unfolding build_bundle
raw_sources_exact canonicalize root from_yaml v r =
    let sorted =
      Exists-sort (λ x. x ≡ r) _
        (map (bundle_raw_source canonicalize root v) (active_entries v.manifest)) in
    let mapped =
      Exists-map (λ x. x ≡ r) (bundle_raw_source canonicalize root v) (active_entries v.manifest) in
    (λ h. mapped.0 (sorted.0 h), λ h. sorted.1 (mapped.1 h))
