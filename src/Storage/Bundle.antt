-- ===== src/Storage/Bundle.antt =====
-- src/storage/bundle.rs: `build_bundle` and `write_bundle`, over the vault of src/ingest/Vault.
-- `print` is `to_string_pretty` of the library serde_json.
pub mod Sources
mod Tests
use okf_mcp_rs.Prelude.{
  Text, ascii, Option, none, some, List, map, filter_map, ◌++◌, Result, ok, err,
}
use okf_mcp_rs.Prelude.Sort.{text_leb, sort}
use okf_mcp_rs.Core.VaultResolver.{PathBuf, sandbox_path}
use okf_mcp_rs.Manifest.{SourceVersion, active_entries}
use okf_mcp_rs.Ingest.Vault.{Vault, sandbox, Action, and_then, write}
use okf_mcp_rs.Ingest.Blob.{resolve_raw_path, found_path, name_stem}
use okf_mcp_rs.Validator.Frontmatter.{WikiFrontmatter, ParsedPage, parse_wiki_page}
use okf_mcp_rs.Validator.Rules.{content_paths, to_slashes, name_of}

pub record BundleConcept : Type 0 where
  pub id : Text
  pub path : Text
  pub title : Text
  pub sources : List Text

pub record BundleRawSource : Type 0 where
  pub uri : Text
  pub raw_id : Text
  pub hash : Text
  pub path : Text

pub record Bundle : Type 0 where
  pub okf_version : Text
  pub concepts : List BundleConcept
  pub raw_sources : List BundleRawSource

-- Where the blob is, or would be under a name without a slug.
abbrev pub raw_path : Text → Option Text → Text
raw_path raw_id (some path) = to_slashes path
raw_path raw_id none = ascii "raw/" ++ (raw_id ++ ascii ".md")

abbrev id_or_stem : Option Text → Text → Text
id_or_stem (some id) path = id
id_or_stem none path = name_stem (name_of path)

-- A page that does not parse is left out.
abbrev concept_of : Text → Option ParsedPage → Option BundleConcept
concept_of path none = none
concept_of path (some parsed) = some (record {
  id = id_or_stem parsed.frontmatter.id path;
  path = to_slashes path;
  title = parsed.frontmatter.title;
  sources = sort text_leb (map (λ source. source.resource) parsed.frontmatter.sources);
})

unfoldable pub bundle_concepts :
    (Text → Option WikiFrontmatter) → List (Text × Text × Text) → List BundleConcept
bundle_concepts from_yaml pages =
    filter_map (λ (page : Text × Text × Text). concept_of page.1 (parse_wiki_page from_yaml page.2))
      pages

module _ (canonicalize : Text → Option PathBuf) (root : Text) where
  -- Each lookup begins with the vault's faults.
  abbrev pub bundle_raw_source : Vault → Text × SourceVersion → BundleRawSource
  bundle_raw_source v (uri, version) = record {
    uri = uri;
    raw_id = version.raw_id;
    hash = version.hash;
    path =
        raw_path version.raw_id
          (found_path (resolve_raw_path canonicalize root version.raw_id v).0);
  }

  module _ (from_yaml : Text → Option WikiFrontmatter) where
    unfoldable pub build_bundle : Vault → Bundle
    build_bundle v = record {
      okf_version = ascii "0.2";
      concepts =
          sort (λ a b. text_leb a.path b.path) (bundle_concepts from_yaml (content_paths v.files));
      raw_sources =
          sort (λ a b. text_leb a.uri b.uri)
            (map (bundle_raw_source v) (active_entries v.manifest));
    }

    -- It returns the path of the file.
    unfoldable pub write_bundle : (Bundle → Text) → Action PathBuf
    write_bundle print v = elim (sandbox_path canonicalize root (ascii "okf.json")) [
      | err e ↦ (err (sandbox e), v)
      | ok full_path ↦
          and_then (write (ascii "okf.json") (print (build_bundle v)) v) (λ _ v. (ok full_path, v))
    ]
