-- ===== src/Compiler/Selection.antt =====
-- src/compiler/driver.rs: which sources are compiled, and what a source's prompt is made of; with
-- `raw_ids_cited_by` of src/compiler/link_fix.rs. `from_yaml` reads the frontmatter of a page, and
-- `search` gives the paths that the search index finds for a text, so many at most.
mod Tests
use okf_mcp_rs.Prelude.{
  ℕ, ◌-◌, Text, ascii, text_eq, Bool, true, false, not, ◌&&◌, Option, none, some, List, [], ◌∷◌,
  ◌++◌, any, filter, filter_map, map, get_elem?, length, ltb, take, if◌then◌else◌, Result, ok, err,
}
use okf_mcp_rs.Prelude.Assoc.{lookup}
use okf_mcp_rs.Prelude.Sort.{flat_map}
use okf_mcp_rs.Core.VaultResolver.{PathBuf, components, sandbox_path}
use okf_mcp_rs.Manifest.{
  Manifest, SourceEntry, SourceVersion, active_entries, is_compiled_at_current_hash,
}
use okf_mcp_rs.Ingest.Vault.{Vault}
use okf_mcp_rs.Ingest.Blob.{
  last_name, name_stem, is_ok, found_path, resolve_raw_path, raw_title_and_body,
}
use okf_mcp_rs.Validator.Frontmatter.{WikiFrontmatter, ParsedPage, parse_wiki_page}
use okf_mcp_rs.Validator.Rules.{content_paths}
use okf_mcp_rs.Compiler.TokenEstimate.{
  RawBlob, WikiPageRef, default_prompt_token_budget, truncate_raw_blobs_to_shared_budget,
  trim_related_pages,
}
use okf_mcp_rs.Compiler.Prompts.{build_compile_user_prompt}

-- What the code calls outside of the repository.
pub record Outside : Type 0 where
  pub canonicalize : Text → Option PathBuf
  pub root : Text
  pub from_yaml : Text → Option WikiFrontmatter
  pub search : Text → ℕ → List Text

abbrev stem_name : Option Text → Option Text
stem_name none = none
stem_name (some name) = some (name_stem name)

-- `Path::new(resource).file_stem()`
abbrev resource_stem : Text → Option Text
resource_stem resource = stem_name (last_name (components resource))

abbrev page_ids : Option ParsedPage → List Text
page_ids none = []
page_ids (some page) = filter_map (λ source. resource_stem source.resource) page.frontmatter.sources

-- What a set holds of a list: each element once, in some order.
unfoldable pub to_set : List Text → List Text
to_set [] = []
to_set (x ∷ l) = let rest = to_set l in x ∷ filter (λ y. not (text_eq x y)) rest

unfoldable pub raw_ids_cited_by : Outside → List WikiPageRef → List Text
raw_ids_cited_by o pages =
    to_set (flat_map (λ page. page_ids (parse_wiki_page o.from_yaml page.content)) pages)

unfoldable pub referenced_raw_ids : Outside → Vault → List Text
referenced_raw_ids o v =
    flat_map (λ (file : Text × Text × Text). page_ids (parse_wiki_page o.from_yaml file.2))
      (content_paths v.files)

abbrev uri_and_id : Text × SourceVersion → Text × Text
uri_and_id (uri, version) = (uri, version.raw_id)

abbrev is_wanted : List Text → Manifest → Text × Text → Bool
is_wanted referenced m (uri, raw_id) =
    not (any (text_eq raw_id) referenced) && not (is_compiled_at_current_hash m uri)

unfoldable pub select_sources : Outside → Vault → Bool → List (Text × Text)
select_sources o v diff_only =
    let active = map uri_and_id (active_entries v.manifest) in
    if diff_only then filter (is_wanted (referenced_raw_ids o v) v.manifest) active else active

abbrev read_at : Vault → Option Text → Option Text
read_at v none = none
read_at v (some path) = lookup path v.files

abbrev body_of : Option Text → Option Text
body_of none = none
body_of (some content) = some (raw_title_and_body content).1

-- Its errors are `none`. The prompts do not change the vault: each lookup begins with the vault's faults.
unfoldable pub read_raw_body : Outside → Vault → Text → Option Text
read_raw_body o v raw_id =
    body_of (read_at v (found_path (resolve_raw_path o.canonicalize o.root raw_id v).0))

abbrev before_last : List SourceVersion → Option Text
before_last history = elim (get_elem? history (length history - 2)) [
  | none ↦ none
  | some v ↦ some v.raw_id
]

abbrev superseded_in : Option SourceEntry → Option Text
superseded_in none = none
superseded_in (some e) = if ltb (length e.history) 2 then none else before_last e.history

unfoldable pub superseded_raw_id : Manifest → Text → Option Text
superseded_raw_id m uri = superseded_in (lookup uri m.sources)

-- `fs_ops::read_to_string`: only inside the vault.
unfoldable pub read_page : Outside → Vault → Text → Option WikiPageRef
read_page o v path =
    if is_ok (sandbox_path o.canonicalize o.root path)
    then elim (lookup path v.files) [
      | none ↦ none
      | some content ↦ some (record { path = path; content = content })
    ]
    else none

unfoldable pub related_wiki_pages : Outside → Vault → Text → List WikiPageRef
related_wiki_pages o v raw_content = filter_map (read_page o v) (o.search (take 500 raw_content) 5)

abbrev pub blob_of : Outside → Vault → Text → Option RawBlob
blob_of o v raw_id = elim (read_raw_body o v raw_id) [
  | none ↦ none
  | some content ↦ some (record { id = raw_id; content = content })
]

abbrev old_blob : Outside → Vault → Option Text → Option RawBlob
old_blob o v none = none
old_blob o v (some raw_id) = blob_of o v raw_id

-- The prompt of a source, cut to its budget; `none` when its raw file cannot be read.
unfoldable pub build_compile_prompt : Outside → Vault → Option Text → Text → Option Text
build_compile_prompt o v superseded_id raw_id = elim (blob_of o v raw_id) [
  | none ↦ none
  | some active_full ↦
      let related_full = related_wiki_pages o v active_full.content in
      let (active_raw, superseded) =
        truncate_raw_blobs_to_shared_budget active_full (old_blob o v superseded_id)
          default_prompt_token_budget in
      let related =
        trim_related_pages related_full active_raw superseded default_prompt_token_budget in
      some (build_compile_user_prompt active_raw superseded related)
]
