-- ===== src/Compiler/Synthesize/Batch.antt =====
-- The size of a batch, and what is left after it.
use okf_mcp_rs.Prelude.{
  map, ◌≡◌, refl, sym, ◌∙◌, ap, subst, inl, inr, ◌≤◌, ◌+◌, ◌-◌, ℕ, suc, min, max, Text, Bool, true,
  false, Option, none, some, List, [], ◌∷◌, is_empty, length, length-take, take, Result, ok, err,
  Bool-cases, eq_of_ok, filter_map, arith,
}
use okf_mcp_rs.Prelude.Assoc.{Assoc}
use okf_mcp_rs.Ingest.Vault.{Vault}
use okf_mcp_rs.Validator.Rules.{LintReport, lint_bundle}
use okf_mcp_rs.Compiler.Selection.{Outside, select_sources, read_page, raw_ids_cited_by}
use okf_mcp_rs.Compiler.LinkFix.{group_broken_links_by_slug}
use okf_mcp_rs.Compiler.Synthesize.{
  BatchError, NextBatch, SynthesizeJob, compile_phase, fix_phase, done_phase, compile_jobs,
  with_compile_job, fix_jobs, compile_batch, fix_batch, next_batch, after_lint,
}
use okf_mcp_rs.Compiler.Synthesize.Jobs.{
  err_ok, job_of_source, kind_and_prompt, compile_jobs-jobs, IsFixes, fix_jobs-IsFixes,
}

module _ (o : Outside) (id_of : ℕ → Text) (v : Vault) where
  with_compile_job-length :
      (counter : ℕ) (uri raw_id : Text) (prompt : Option Text)
      (rest : Result BatchError (List SynthesizeJob)) (n : ℕ) (jobs : List SynthesizeJob)
      → ((js : List SynthesizeJob) → rest ≡ ok js → length js ≡ n)
      → with_compile_job o id_of v counter uri raw_id prompt rest ≡ ok jobs
      → length jobs ≡ suc n
  with_compile_job-length counter uri raw_id none rest n jobs h e = absurd (err_ok e)
  with_compile_job-length counter uri raw_id (some prompt) (err x) n jobs h e = absurd (err_ok e)
  with_compile_job-length counter uri raw_id (some prompt) (ok js) n jobs h e =
      rw (sym (eq_of_ok e)) (ap suc (h js refl))

  -- One job for each source.
  length-compile_jobs :
      (counter : ℕ) (sources : List (Text × Text)) (jobs : List SynthesizeJob)
      → compile_jobs o id_of v counter sources ≡ ok jobs
      → length jobs ≡ length sources
  unfolding compile_jobs
  length-compile_jobs counter [] jobs e = sym (ap length (eq_of_ok e))
  length-compile_jobs counter ((uri, raw_id) ∷ sources) jobs e =
      with_compile_job-length counter uri raw_id _ (compile_jobs o id_of v (suc counter) sources)
        (length sources) jobs (length-compile_jobs (suc counter) sources) e

  -- Each slug is a job or is skipped.
  length-fix_jobs :
      (counter : ℕ) (slugs : Assoc (List Text))
      → length (fix_jobs o id_of v counter slugs).fix_jobs
          + length (fix_jobs o id_of v counter slugs).skipped_slugs
        ≡ length slugs
  unfolding fix_jobs
  length-fix_jobs counter [] = omega arith
  length-fix_jobs counter ((slug, paths) ∷ slugs) =
      elim (Bool-cases (is_empty (raw_ids_cited_by o (filter_map (read_page o v) paths)))) [
        | inl t ↦ rw (fix_jobs, t) (omega (arith, length-fix_jobs counter slugs))
        | inr f ↦ rw (fix_jobs, f) (omega (arith, length-fix_jobs (suc counter) slugs))
      ]

  -- What a batch does with so many units of work: it takes one at least and as many as the size of
  -- the batch at most, and counts the rest.
  abbrev pub IsShare : ℕ → ℕ → NextBatch → Type 0
  IsShare batch_size work b =
      (let taken = length b.jobs + length b.skipped in
        (taken + b.remaining_estimate ≡ work) × (1 ≤ taken) × (taken ≤ max batch_size 1))

  share :
      (batch_size work jobs skipped : ℕ)
      → 1 ≤ work
      → jobs + skipped ≡ min work (max batch_size 1)
      → (jobs + skipped + (work - min work (max batch_size 1)) ≡ work)
        × (1 ≤ jobs + skipped)
        × (jobs + skipped ≤ max batch_size 1)
  share batch_size work jobs skipped h e = (omega arith, omega arith, omega arith)

  not_empty : {A : Type 0} (l : List A) → is_empty l ≡ false → 1 ≤ length l
  not_empty [] h = cc
  not_empty (x ∷ l) h = omega arith

  length_taken :
      {A : Type 0} (n : ℕ) (l : List A) → length (take (min (length l) n) l) ≡ min (length l) n
  length_taken n l = omega (arith, length-take (min (length l) n) l)

  -- So many of the units of work are taken.
  abbrev pub taken : {A : Type 0} → ℕ → List A → List A
  taken batch_size l = take (min (length l) (max batch_size 1)) l

  fix_batch-IsFixes :
      (batch_size counter : ℕ) (by_slug : Assoc (List Text))
      → is_empty by_slug ≡ false
      → (let b = fix_batch o id_of v batch_size counter by_slug in
          IsFixes o id_of v (taken batch_size by_slug) b.jobs b.skipped)
  unfolding fix_batch
  fix_batch-IsFixes batch_size counter by_slug f =
      rw (fix_batch, f) (fix_jobs-IsFixes o id_of v counter (taken batch_size by_slug))

  fix_batch-IsShare :
      (batch_size counter : ℕ) (by_slug : Assoc (List Text))
      → is_empty by_slug ≡ false
      → ((fix_batch o id_of v batch_size counter by_slug).phase ≡ fix_phase)
        × IsShare batch_size (length by_slug) (fix_batch o id_of v batch_size counter by_slug)
  unfolding fix_batch
  fix_batch-IsShare batch_size counter by_slug f =
      let n = max batch_size 1 in
      rw (fix_batch, f)
        (
          refl,
          share batch_size (length by_slug) _ _ (not_empty by_slug f) (
              length-fix_jobs counter (take (min (length by_slug) n) by_slug)
              ∙ length_taken n by_slug),
        )

  -- The sources still to be compiled, and the broken links by slug.
  abbrev pub pending : Bool → List (Text × Text)
  pending diff_only = select_sources o v diff_only

  -- What the three kinds of batch say.
  pub data IsBatch (batch_size : ℕ) (diff_only : Bool) (b : NextBatch) : Type 0 where
    compiles :
        b.phase ≡ compile_phase
        → b.skipped ≡ []
        → map (kind_and_prompt o id_of v) b.jobs
          ≡ map (job_of_source o id_of v) (taken batch_size (pending diff_only))
        → IsShare batch_size (length (pending diff_only)) b
        → IsBatch batch_size diff_only b
    fixes :
        {lint : LintReport}
        → b.phase ≡ fix_phase
        → is_empty (pending diff_only) ≡ true
        → lint_bundle o.canonicalize o.root o.from_yaml v ≡ ok lint
        → IsFixes o id_of v (taken batch_size (group_broken_links_by_slug lint)) b.jobs b.skipped
        → IsShare batch_size (length (group_broken_links_by_slug lint)) b
        → IsBatch batch_size diff_only b
    done :
        {lint : LintReport}
        → b.phase ≡ done_phase
        → is_empty (pending diff_only) ≡ true
        → lint_bundle o.canonicalize o.root o.from_yaml v ≡ ok lint
        → is_empty (group_broken_links_by_slug lint) ≡ true
        → b.jobs ≡ []
        → IsBatch batch_size diff_only b

  compile_batch-IsBatch :
      (batch_size counter : ℕ) (diff_only : Bool) (b : NextBatch)
      (r : Result BatchError (List SynthesizeJob))
      → is_empty (pending diff_only) ≡ false
      → compile_jobs o id_of v counter
          (take (min (length (pending diff_only)) (max batch_size 1)) (pending diff_only))
        ≡ r
      → compile_batch o id_of v r
          (length (pending diff_only) - min (length (pending diff_only)) (max batch_size 1))
        ≡ ok b
      → IsBatch batch_size diff_only b
  compile_batch-IsBatch batch_size counter diff_only b (err x) f e h = absurd (err_ok h)
  compile_batch-IsBatch batch_size counter diff_only b (ok jobs) f e h =
      let n = max batch_size 1 in
      let l = length-compile_jobs counter _ jobs e ∙ length_taken n (pending diff_only) in
      subst (IsBatch batch_size diff_only) (eq_of_ok h) (
        compiles refl refl (compile_jobs-jobs o id_of v counter _ jobs e) (
          share batch_size (length (pending diff_only)) (length jobs) 0
            (not_empty (pending diff_only) f) (omega (arith, l))))

  after_lint-IsBatch :
      (batch_size counter : ℕ) (diff_only : Bool) (b : NextBatch) (r : Result Text LintReport)
      → is_empty (pending diff_only) ≡ true
      → lint_bundle o.canonicalize o.root o.from_yaml v ≡ r
      → after_lint o id_of v batch_size counter r ≡ ok b
      → IsBatch batch_size diff_only b
  unfolding fix_batch
  after_lint-IsBatch batch_size counter diff_only b (err x) t e h = absurd (err_ok h)
  after_lint-IsBatch batch_size counter diff_only b (ok lint) t e h =
      let by_slug = group_broken_links_by_slug lint in
      subst (IsBatch batch_size diff_only) (eq_of_ok h) (elim (Bool-cases (is_empty by_slug)) [
        | inl n ↦ done (rw (fix_batch, n) refl) t e n (rw (fix_batch, n) refl)
        | inr f ↦
            let s = fix_batch-IsShare batch_size counter by_slug f in
            fixes s.0 t e (fix_batch-IsFixes batch_size counter by_slug f) s.1
      ])

  -- A batch that is handed out is of one of three kinds. While sources are pending it compiles: it has
  -- a job for each of the first so many of them, in order, with the source's URI and its prompt. Only
  -- when none is pending it fixes: of the first so many of the slugs of broken links, it has a job for
  -- each whose pages cite a source, with the slug and its prompt, and skips each of the others. Only when the lint finds no broken link either, it is done and
  -- has no job. A share is one unit of work at least and the size of the batch at most, at least one,
  -- and the estimate is what is left.
  pub next_batch-IsBatch :
      (batch_size counter : ℕ) (diff_only : Bool) (b : NextBatch)
      → next_batch o id_of v batch_size diff_only counter ≡ ok b
      → IsBatch batch_size diff_only b
  unfolding next_batch
  next_batch-IsBatch batch_size counter diff_only b h =
      elim (Bool-cases (is_empty (pending diff_only))) [
        | inl t ↦
            after_lint-IsBatch batch_size counter diff_only b _ t refl (rw (next_batch, t) at h)
        | inr f ↦
            compile_batch-IsBatch batch_size counter diff_only b _ f refl (rw (next_batch, f) at h)
      ]
