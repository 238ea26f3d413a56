-- ===== src/Compiler/Synthesize.antt =====
-- src/compiler/synthesize.rs: `next_batch`, which hands out the work of a synthesis to a client. Job
-- ids come from a counter, `id_of` writes them. The time a job is made is left out.
pub mod Jobs
pub mod Batch
mod Tests
use okf_mcp_rs.Prelude.{
  ℕ, suc, ◌-◌, min, max, Text, ascii, text_eq, Bool, Option, none, some, List, [], ◌∷◌, ◌++◌, any,
  filter_map, is_empty, length, take, if◌then◌else◌, Result, ok, err,
}
use okf_mcp_rs.Prelude.Assoc.{Assoc}
use okf_mcp_rs.Ingest.Vault.{Vault}
use okf_mcp_rs.Validator.Rules.{LintReport, lint_bundle}
use okf_mcp_rs.Compiler.TokenEstimate.{RawBlob, WikiPageRef}
use okf_mcp_rs.Compiler.Prompts.{build_link_fix_user_prompt}
use okf_mcp_rs.Compiler.Selection.{
  Outside, select_sources, superseded_raw_id, build_compile_prompt, read_page, raw_ids_cited_by,
  blob_of,
}
use okf_mcp_rs.Compiler.LinkFix.{group_broken_links_by_slug}

-- `JobKind` and `StoredJobKind`: what the job is, with what its result is applied to.
pub data StoredJobKind : Type 0 where
  compile : Text → StoredJobKind
  fix : Text → StoredJobKind

pub record SynthesizeJob : Type 0 where
  pub job_id : Text
  pub prompt : Text
  pub kind : StoredJobKind

pub data Phase : Type 0 where
  compile_phase fix_phase done_phase : Phase

pub record NextBatch : Type 0 where
  pub phase : Phase
  pub jobs : List SynthesizeJob
  pub skipped : List Text
  pub remaining_estimate : ℕ

-- A raw file that cannot be read, or a page that does not parse.
pub data BatchError : Type 0 where
  unreadable : Text → BatchError
  lint_failed : Text → BatchError

pub record Fixes : Type 0 where
  pub fix_jobs : List SynthesizeJob
  pub skipped_slugs : List Text

module _ (o : Outside) (id_of : ℕ → Text) (v : Vault) where
  abbrev pub with_compile_job :
      ℕ
      → Text
      → Text
      → Option Text
      → Result BatchError (List SynthesizeJob)
      → Result BatchError (List SynthesizeJob)
  with_compile_job counter uri raw_id none rest = err (unreadable raw_id)
  with_compile_job counter uri raw_id (some prompt) (err e) = err e
  with_compile_job counter uri raw_id (some prompt) (ok jobs) =
      ok (record { job_id = id_of counter; prompt = prompt; kind = compile uri } ∷ jobs)

  -- The loop over the sources of the batch.
  unfoldable pub compile_jobs : ℕ → List (Text × Text) → Result BatchError (List SynthesizeJob)
  compile_jobs counter [] = ok []
  compile_jobs counter ((uri, raw_id) ∷ sources) =
      with_compile_job counter uri raw_id
        (build_compile_prompt o v (superseded_raw_id v.manifest uri) raw_id)
        (compile_jobs (suc counter) sources)

  abbrev fix_job : ℕ → Text → List WikiPageRef → SynthesizeJob
  fix_job counter slug pages = record {
    job_id = id_of counter;
    prompt =
        build_link_fix_user_prompt slug pages (filter_map (blob_of o v) (raw_ids_cited_by o pages));
    kind = fix slug;
  }

  -- The loop over the slugs of the batch: no job is made for a slug whose pages cite no source.
  unfoldable pub fix_jobs : ℕ → Assoc (List Text) → Fixes
  fix_jobs counter [] = record { fix_jobs = []; skipped_slugs = [] }
  fix_jobs counter ((slug, paths) ∷ slugs) =
      let pages = filter_map (read_page o v) paths in
      let after_job = fix_jobs (suc counter) slugs in
      let after_skip = fix_jobs counter slugs in
      if is_empty (raw_ids_cited_by o pages)
      then record {
        fix_jobs = after_skip.fix_jobs;
        skipped_slugs = slug ∷ after_skip.skipped_slugs;
      }
      else record {
        fix_jobs = fix_job counter slug pages ∷ after_job.fix_jobs;
        skipped_slugs = after_job.skipped_slugs;
      }

  abbrev batch_of : List SynthesizeJob → ℕ → Result BatchError NextBatch
  batch_of jobs remaining =
      ok (record {
        phase = compile_phase;
        jobs = jobs;
        skipped = [];
        remaining_estimate = remaining;
      })

  abbrev pub compile_batch :
      Result BatchError (List SynthesizeJob) → ℕ → Result BatchError NextBatch
  compile_batch (err e) remaining = err e
  compile_batch (ok jobs) remaining = batch_of jobs remaining

  unfoldable pub fix_batch : ℕ → ℕ → Assoc (List Text) → NextBatch
  fix_batch batch_size counter by_slug =
      let count = min (length by_slug) (max batch_size 1) in
      let fixes = fix_jobs counter (take count by_slug) in
      if is_empty by_slug
      then record { phase = done_phase; jobs = []; skipped = []; remaining_estimate = 0 }
      else record {
        phase = fix_phase;
        jobs = fixes.fix_jobs;
        skipped = fixes.skipped_slugs;
        remaining_estimate = length by_slug - count;
      }

  abbrev pub after_lint : ℕ → ℕ → Result Text LintReport → Result BatchError NextBatch
  after_lint batch_size counter (err path) = err (lint_failed path)
  after_lint batch_size counter (ok lint) =
      ok (fix_batch batch_size counter (group_broken_links_by_slug lint))

  unfoldable pub next_batch : ℕ → Bool → ℕ → Result BatchError NextBatch
  next_batch batch_size diff_only counter =
      let pending = select_sources o v diff_only in
      let count = min (length pending) (max batch_size 1) in
      if is_empty pending
      then after_lint batch_size counter (lint_bundle o.canonicalize o.root o.from_yaml v)
      else compile_batch (compile_jobs counter (take count pending)) (length pending - count)
