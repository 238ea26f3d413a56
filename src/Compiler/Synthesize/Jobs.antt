-- ===== src/Compiler/Synthesize/Jobs.antt =====
-- What the jobs of a batch are for.
use okf_mcp_rs.Prelude.{
  map, filter, not, ◌≡◌, refl, sym, ap, inl, inr, ℕ, suc, Text, Bool, Option, none, some, List, [],
  ◌∷◌, is_empty, length, Result, ok, err, Bool-cases, eq_of_ok, filter_map,
}
use okf_mcp_rs.Prelude.Assoc.{Assoc}
use okf_mcp_rs.Ingest.Vault.{Vault}
use okf_mcp_rs.Compiler.Selection.{
  Outside, read_page, raw_ids_cited_by, superseded_raw_id, build_compile_prompt, blob_of,
}
use okf_mcp_rs.Compiler.Prompts.{build_link_fix_user_prompt}
use okf_mcp_rs.Compiler.Synthesize.{
  StoredJobKind, compile, fix, BatchError, SynthesizeJob, compile_jobs, with_compile_job, fix_jobs,
}

pub err_ok :
    {A : Type 0} {e : BatchError} {a : A} → ◌≡◌ {A = Result BatchError A} (err e) (ok a) → ⊥
err_ok h = cc

module _ (o : Outside) (id_of : ℕ → Text) (v : Vault) where
  with_compile_job-length :
      (counter : ℕ) (uri raw_id : Text) (prompt : Option Text)
      (rest : Result BatchError (List SynthesizeJob)) (n : ℕ) (jobs : List SynthesizeJob)
      → ((js : List SynthesizeJob) → rest ≡ ok js → length js ≡ n)
      → with_compile_job o id_of v counter uri raw_id prompt rest ≡ ok jobs
      → length jobs ≡ suc n
  with_compile_job-length counter uri raw_id none rest n jobs h e = absurd (err_ok e)
  with_compile_job-length counter uri raw_id (some prompt) (err x) n jobs h e = absurd (err_ok e)
  with_compile_job-length counter uri raw_id (some prompt) (ok js) n jobs h e =
      rw (sym (eq_of_ok e)) (ap suc (h js refl))

  -- What the job of a source is: for its URI, with its prompt.
  abbrev pub job_of_source : Text × Text → StoredJobKind × Option Text
  job_of_source (uri, raw_id) =
      (compile uri, build_compile_prompt o v (superseded_raw_id v.manifest uri) raw_id)

  abbrev pub kind_and_prompt : SynthesizeJob → StoredJobKind × Option Text
  kind_and_prompt job = (job.kind, some job.prompt)

  with_compile_job-jobs :
      (counter : ℕ) (uri raw_id : Text) (prompt : Option Text)
      (rest : Result BatchError (List SynthesizeJob)) (l : List (StoredJobKind × Option Text))
      (jobs : List SynthesizeJob)
      → ((js : List SynthesizeJob) → rest ≡ ok js → map kind_and_prompt js ≡ l)
      → with_compile_job o id_of v counter uri raw_id prompt rest ≡ ok jobs
      → map kind_and_prompt jobs ≡ (compile uri, prompt) ∷ l
  with_compile_job-jobs counter uri raw_id none rest l jobs h e = absurd (err_ok e)
  with_compile_job-jobs counter uri raw_id (some prompt) (err x) l jobs h e = absurd (err_ok e)
  with_compile_job-jobs counter uri raw_id (some prompt) (ok js) l jobs h e =
      rw (sym (eq_of_ok e)) (ap (λ k. (compile uri, some prompt) ∷ k) (h js refl))

  -- A job for each source, in order.
  pub compile_jobs-jobs :
      (counter : ℕ) (sources : List (Text × Text)) (jobs : List SynthesizeJob)
      → compile_jobs o id_of v counter sources ≡ ok jobs
      → map kind_and_prompt jobs ≡ map job_of_source sources
  unfolding compile_jobs
  compile_jobs-jobs counter [] jobs e = sym (ap (map kind_and_prompt) (eq_of_ok e))
  compile_jobs-jobs counter ((uri, raw_id) ∷ sources) jobs e =
      with_compile_job-jobs counter uri raw_id _ (compile_jobs o id_of v (suc counter) sources)
        (map job_of_source sources) jobs (compile_jobs-jobs (suc counter) sources) e

  -- The pages that link to a slug cite a source.
  abbrev pub is_cited : Text × List Text → Bool
  is_cited (slug, paths) = not (is_empty (raw_ids_cited_by o (filter_map (read_page o v) paths)))

  abbrev pub fix_of : Text × List Text → StoredJobKind × Text
  fix_of (slug, paths) =
      let pages = filter_map (read_page o v) paths in
      (
        fix slug,
        build_link_fix_user_prompt slug pages (filter_map (blob_of o v) (raw_ids_cited_by o pages)),
      )

  -- A job for each slug that is cited, and a skip for each of the others, in order.
  abbrev pub IsFixes : Assoc (List Text) → List SynthesizeJob → List Text → Type 0
  IsFixes slugs jobs skipped =
      (map (λ job. (job.kind, job.prompt)) jobs ≡ map fix_of (filter is_cited slugs))
      × (skipped ≡ map (λ s. s.0) (filter (λ s. not (is_cited s)) slugs))

  pub fix_jobs-IsFixes :
      (counter : ℕ) (slugs : Assoc (List Text))
      → IsFixes slugs
          (fix_jobs o id_of v counter slugs).fix_jobs
          (fix_jobs o id_of v counter slugs).skipped_slugs
  unfolding fix_jobs
  fix_jobs-IsFixes counter [] = (refl, refl)
  fix_jobs-IsFixes counter ((slug, paths) ∷ slugs) =
      elim (Bool-cases (is_empty (raw_ids_cited_by o (filter_map (read_page o v) paths)))) [
        | inl t ↦
            let (j, s) = fix_jobs-IsFixes counter slugs in
            rw (fix_jobs, t) (j, ap (λ l. slug ∷ l) s)
        | inr f ↦
            let (j, s) = fix_jobs-IsFixes (suc counter) slugs in
            rw (fix_jobs, f) (ap (λ l. fix_of (slug, paths) ∷ l) j, s)
      ]
