-- ===== src/Facade/Lookup.antt =====
-- A job that was submitted is found again (BulkActionService.ts, getJobStatus).
use nestjs_playground.Prelude.{
  ℕ, ◌==◌, String, some, List, [], ◌∷◌, ◌++◌, ◌≡◌, ◌≢◌, refl, ◌∙◌, inl, inr, Bool-cases, arith,
}
use nestjs_playground.Model.{num, str, pending, job_status, to_number}
use nestjs_playground.Keys.{
  Field, group_meta, job, id, group_id, processor_type, payload, status, retry_count, created_at,
  total_jobs,
}
use nestjs_playground.Redis.{
  Redis, Db, same_text, hget, store_laws, hget-zadd, hget-hset, hget-sadd,
}
use nestjs_playground.Lock.{returns}
use nestjs_playground.FairQueue.{
  BulkActionRequest, Job, store_job, start_group, enqueue, read_job, parse_job,
}
use nestjs_playground.WorkerPool.Worker.{load_job}
use nestjs_playground.Facade.Submission.{grown}
use nestjs_playground.Facade.{
  BulkJob, SubmitBulkJobsRequest, request_for, enqueue_all, submit_job, submit_bulk_jobs,
  get_job_status,
}

-- The job that a request asks for.
abbrev pub job_of : BulkActionRequest → ℕ → Job
job_of q now = record {
  id = q.job_id;
  group_id = q.job_group_id;
  processor_type = q.job_processor_type;
  payload = q.payload;
  status = pending;
  retry_count = 0;
  created_at = now;
}

module _ ⦃r : Redis⦄ where
  -- The seven fields of a stored job.
  record Stored (q : BulkActionRequest) (now : ℕ) (d : Db) : Type 0 where
    pub f_id : hget (job q.job_id) id d ≡ some (str q.job_id)
    pub f_group : hget (job q.job_id) group_id d ≡ some (str q.job_group_id)
    pub f_type : hget (job q.job_id) processor_type d ≡ some (str q.job_processor_type)
    pub f_payload : hget (job q.job_id) payload d ≡ some (str q.payload)
    pub f_status : hget (job q.job_id) status d ≡ some (job_status pending)
    pub f_retries : hget (job q.job_id) retry_count d ≡ some (num 0)
    pub f_created : hget (job q.job_id) created_at d ≡ some (num now)

  Stored-store_job : (q : BulkActionRequest) (now : ℕ) (d : Db) → Stored q now (store_job q now d)
  unfolding store_job
  Stored-store_job q now d = record {
    f_id = simp hget-hset (ground arith);
    f_group = simp hget-hset (ground arith);
    f_type = simp hget-hset (ground arith);
    f_payload = simp hget-hset (ground arith);
    f_status = simp hget-hset (ground arith);
    f_retries = simp hget-hset (ground arith);
    f_created = simp hget-hset (ground arith);
  }

  -- Whatever leaves the hash of the job alone keeps it stored.
  Stored-kept :
      (q : BulkActionRequest) (now : ℕ) (d e : Db)
      → ((f : Field) → hget (job q.job_id) f e ≡ hget (job q.job_id) f d)
      → Stored q now d
      → Stored q now e
  Stored-kept q now d e same s = record {
    f_id = same id ∙ s.f_id;
    f_group = same group_id ∙ s.f_group;
    f_type = same processor_type ∙ s.f_type;
    f_payload = same payload ∙ s.f_payload;
    f_status = same status ∙ s.f_status;
    f_retries = same retry_count ∙ s.f_retries;
    f_created = same created_at ∙ s.f_created;
  }

  job-start_group :
      (now : ℕ) (q : BulkActionRequest) (j : String) (f : Field) (d : Db)
      → hget (job j) f (start_group q now d) ≡ hget (job j) f d
  unfolding start_group
  job-start_group now q j f d = simp store_laws (ground arith)

  job-grown :
      (now : ℕ) (q : BulkActionRequest) (j : String) (f : Field) (d : Db)
      → hget (job j) f (grown q now d) ≡ hget (job j) f (store_job q now d)
  job-grown now q j f d = simp store_laws (ground arith)

  after_store_job :
      (alpha now : ℕ) (q : BulkActionRequest) (j : String) (f : Field) (d : Db)
      → hget (job j) f (enqueue alpha q now d) ≡ hget (job j) f (store_job q now d)
  unfolding enqueue
  after_store_job alpha now q j f d =
      elim (Bool-cases
        (to_number (hget (group_meta q.job_group_id) total_jobs (grown q now d)) == 1)) [
          | inl b ↦
              rw (b, enqueue)
                (hget-zadd _ _ _ _ _ _ ∙ (job-start_group now q j f _ ∙ job-grown now q j f d))
          | inr b ↦ rw (b, enqueue) (hget-zadd _ _ _ _ _ _ ∙ job-grown now q j f d)
        ]

  Stored-found :
      (q : BulkActionRequest) (now : ℕ) (d : Db)
      → q.job_id ≢ ""
      → Stored q now d
      → load_job q.job_id d ≡ some (returns (job_of q now))
  unfolding load_job read_job parse_job
  Stored-found q now d named s = elim (Bool-cases (same_text q.job_id "")) [
    | inl e ↦ absurd (ground (arith, named))
    | inr e ↦ rw (
      load_job, s.f_id, s.f_group, s.f_type, s.f_payload, s.f_status, s.f_retries, s.f_created, e,
    )
  ]

  Stored-enqueue :
      (alpha now : ℕ) (q : BulkActionRequest) (d : Db) → Stored q now (enqueue alpha q now d)
  Stored-enqueue alpha now q d =
      Stored-kept q now (store_job q now d) (enqueue alpha q now d)
        (λ f. after_store_job alpha now q q.job_id f d) (Stored-store_job q now d)

  other-enqueue :
      (alpha now : ℕ) (q : BulkActionRequest) (j : String) (f : Field) (d : Db)
      → q.job_id ≢ j
      → hget (job j) f (enqueue alpha q now d) ≡ hget (job j) f d
  unfolding store_job
  other-enqueue alpha now q j f d h =
      after_store_job alpha now q j f d ∙ simp hget-hset (ground arith)

  -- None of the jobs has the id.
  abbrev pub Without : String → List BulkJob → Type 0
  Without j [] = Unit {0}
  Without j (x ∷ xs) = (x.job_id ≢ j) × Without j xs

  other-enqueue_all :
      (alpha : ℕ) (q : SubmitBulkJobsRequest) (js : List BulkJob) (now : ℕ) (j : String) (f : Field)
      (d : Db)
      → Without j js
      → hget (job j) f (enqueue_all alpha q js now d) ≡ hget (job j) f d
  unfolding enqueue_all request_for
  other-enqueue_all alpha q [] now j f d h = refl
  other-enqueue_all alpha q (x ∷ xs) now j f d (h, rest) =
      other-enqueue_all alpha q xs now j f _ rest
      ∙ other-enqueue alpha now (request_for q x) j f d h

  enqueue_all-append :
      (alpha : ℕ) (q : SubmitBulkJobsRequest) (xs ys : List BulkJob) (now : ℕ) (d : Db)
      → enqueue_all alpha q (xs ++ ys) now d
        ≡ enqueue_all alpha q ys now (enqueue_all alpha q xs now d)
  unfolding enqueue_all
  enqueue_all-append alpha q [] ys now d = refl
  enqueue_all-append alpha q (x ∷ xs) ys now d = enqueue_all-append alpha q xs ys now _

  Stored-enqueue_all :
      (alpha : ℕ) (q : SubmitBulkJobsRequest) (xs ys : List BulkJob) (x : BulkJob) (now : ℕ)
      (d : Db)
      → Without x.job_id ys
      → Stored (request_for q x) now (enqueue_all alpha q (xs ++ x ∷ ys) now d)
  unfolding enqueue_all request_for
  Stored-enqueue_all alpha q xs ys x now d h =
      let e = enqueue_all alpha q xs now d in
      rw enqueue_all-append (
        Stored-kept (request_for q x) now (enqueue alpha (request_for q x) now e) _
          (λ f. other-enqueue_all alpha q ys now x.job_id f _ h)
          (Stored-enqueue alpha now (request_for q x) e))

  -- A job of a bulk submission, whose id is not empty and is the id of no job after it, is what `getJobStatus`
  -- of its id gives back: with its group, processor type and payload, PENDING, never retried, created
  -- at the time of the submission.
  pub submit_bulk_jobs-get_job_status :
      (alpha group_timeout_ms now : ℕ) (q : SubmitBulkJobsRequest) (xs ys : List BulkJob)
      (x : BulkJob) (d : Db)
      → q.jobs ≡ xs ++ x ∷ ys
      → x.job_id ≢ ""
      → Without x.job_id ys
      → get_job_status x.job_id (submit_bulk_jobs alpha group_timeout_ms q now d).1
        ≡ some (returns (job_of (request_for q x) now))
  unfolding get_job_status submit_bulk_jobs request_for
  submit_bulk_jobs-get_job_status alpha group_timeout_ms now q xs ys x d e named h =
      Stored-found (request_for q x) now _ named (
        Stored-kept (request_for q x) now (enqueue_all alpha q (xs ++ x ∷ ys) now d) _
          (λ f. rw e (simp store_laws (ground arith))) (Stored-enqueue_all alpha q xs ys x now d h))

  -- A job that `submitJob` was given, with an id that is not empty, is what `getJobStatus` of its id gives back.
  pub submit_job-get_job_status :
      (alpha now : ℕ) (q : BulkActionRequest) (d : Db)
      → q.job_id ≢ ""
      → get_job_status q.job_id (submit_job alpha q now d) ≡ some (returns (job_of q now))
  unfolding get_job_status submit_job
  submit_job-get_job_status alpha now q d named = Stored-found q now _ named (
      Stored-kept q now (enqueue alpha q now d) _ (λ f. hget-sadd _ _ _ _ _)
        (Stored-enqueue alpha now q d))
