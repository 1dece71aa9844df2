-- ===== src/Facade/Submission.antt =====
-- What `enqueue` and `submitBulkJobs` leave in the metadata and the jobs of a group (FairQueueService.ts,
-- BulkActionService.ts).
use nestjs_playground.Prelude.{
  ℕ, suc, ◌+◌, ◌<◌, ◌==◌, String, Option, none, some, List, [], ◌∷◌, ◌++◌, map, length, ◌≡◌, ◌≢◌,
  refl, ap, sym, subst, ◌∙◌, inl, inr, Bool-cases, append_assoc, append-nil, arith,
}
use nestjs_playground.Watcher.StateMachine.{created}
use nestjs_playground.Model.{
  Value, num, str, group_status, to_number, increment, IsCount, IsCount-increment,
  to_number-increment,
}
use nestjs_playground.Keys.{
  Key, Field, group_meta, group_jobs, watcher_active_groups, status, total_jobs, done_jobs,
  registered_jobs, timeout_at,
}
use nestjs_playground.Redis.{
  Redis, Db, hincr, rpush, hget-zadd, lrange-zadd, add_text, hget, lrange, smembers, store_laws,
}
use nestjs_playground.FairQueue.{BulkActionRequest, store_job, start_group, enqueue}
use nestjs_playground.Facade.{
  BulkJob, SubmitBulkJobsRequest, request_for, enqueue_all, submit_bulk_jobs,
}

module _ ⦃r : Redis⦄ where
  -- A group with `n` jobs, of which none is done, and the ids that wait.
  pub record Filled (g : String) (n : ℕ) (ids : List Value) (d : Db) : Type 0 where
    pub count : IsCount (hget (group_meta g) total_jobs d)
    pub total : to_number (hget (group_meta g) total_jobs d) ≡ n
    pub finished : to_number (hget (group_meta g) done_jobs d) ≡ 0
    pub jobs : lrange (group_jobs g) d ≡ ids
    pub begun : 0 < n → hget (group_meta g) status d ≡ some (group_status created)

  -- The store of `enqueue` before the metadata of a new group.
  abbrev pub grown : BulkActionRequest → ℕ → Db → Db
  grown q now d =
      hincr (group_meta q.job_group_id) total_jobs
        (rpush (group_jobs q.job_group_id) (str q.job_id) (store_job q now d))

  total-grown :
      (q : BulkActionRequest) (now : ℕ) (d : Db)
      → hget (group_meta q.job_group_id) total_jobs (grown q now d)
        ≡ some (increment (hget (group_meta q.job_group_id) total_jobs d))
  unfolding store_job
  total-grown q now d = simp store_laws (ground arith)

  meta-grown :
      (q : BulkActionRequest) (now : ℕ) (d : Db) (f : Field)
      → total_jobs ≢ f
      → hget (group_meta q.job_group_id) f (grown q now d) ≡ hget (group_meta q.job_group_id) f d
  unfolding store_job
  meta-grown q now d f h = simp store_laws (ground arith)

  jobs-grown :
      (q : BulkActionRequest) (now : ℕ) (d : Db)
      → lrange (group_jobs q.job_group_id) (grown q now d)
        ≡ lrange (group_jobs q.job_group_id) d ++ str q.job_id ∷ []
  unfolding store_job
  jobs-grown q now d = simp store_laws (ground arith)

  start_group_lem :
      (q : BulkActionRequest) (now : ℕ) (d : Db)
      → let meta = group_meta q.job_group_id in
        let e = start_group q now d in
        (hget meta total_jobs e ≡ hget meta total_jobs d)
        × (hget meta done_jobs e ≡ some (num 0))
        × (hget meta status e ≡ some (group_status created))
        × (lrange (group_jobs q.job_group_id) e ≡ lrange (group_jobs q.job_group_id) d)
  unfolding start_group
  start_group_lem q now d = (
    simp store_laws (ground arith),
    simp store_laws (ground arith),
    simp store_laws (ground arith),
    simp store_laws,
  )

  Filled-enqueue :
      (alpha now n : ℕ) (q : BulkActionRequest) (ids : List Value) (d : Db)
      → Filled q.job_group_id n ids d
      → Filled q.job_group_id (suc n) (ids ++ str q.job_id ∷ []) (enqueue alpha q now d)
  unfolding enqueue
  Filled-enqueue alpha now n q ids d h =
      let g = q.job_group_id in
      let e = grown q now d in
      let t = total-grown q now d in
      let size : to_number (hget (group_meta g) total_jobs e) ≡ suc n =
        ap to_number t
        ∙ (to_number-increment (hget (group_meta g) total_jobs d) h.count ∙ ap suc h.total) in
      let counts : IsCount (hget (group_meta g) total_jobs e) =
        subst IsCount (sym t) (IsCount-increment (hget (group_meta g) total_jobs d) h.count) in
      let jobs = jobs-grown q now d ∙ ap (λ vs. vs ++ str q.job_id ∷ []) h.jobs in
      elim (Bool-cases (to_number (hget (group_meta g) total_jobs e) == 1)) [
        | inl b ↦
            let (kept, none_done, begins, listed) = start_group_lem q now e in
            rw (b, enqueue)
              (record {
                count = subst IsCount (sym (hget-zadd _ _ _ _ _ _ ∙ kept)) counts;
                total = ap to_number (hget-zadd _ _ _ _ _ _ ∙ kept) ∙ size;
                finished = ap to_number (hget-zadd _ _ _ _ _ _ ∙ none_done);
                jobs = lrange-zadd _ _ _ _ _ ∙ (listed ∙ jobs);
                begun = λ p. hget-zadd _ _ _ _ _ _ ∙ begins;
              })
        | inr b ↦
            rw (b, enqueue)
              (record {
                count = subst IsCount (sym (hget-zadd _ _ _ _ _ _)) counts;
                total = ap to_number (hget-zadd _ _ _ _ _ _) ∙ size;
                finished =
                    ap to_number (hget-zadd _ _ _ _ _ _ ∙ meta-grown q now d done_jobs (λ p. cc))
                    ∙ h.finished;
                jobs = lrange-zadd _ _ _ _ _ ∙ jobs;
                begun = λ p.
                    hget-zadd _ _ _ _ _ _
                    ∙ (meta-grown q now d status (λ p. cc) ∙ h.begun (ground (arith, size)));
              })
      ]

  -- The ids of jobs, as they are queued.
  abbrev pub ids_of : List BulkJob → List Value
  ids_of = map (λ j. str j.job_id)

  Filled-enqueue_all :
      (alpha : ℕ) (q : SubmitBulkJobsRequest) (js : List BulkJob) (now n : ℕ) (ids : List Value)
      (d : Db)
      → Filled q.group_id n ids d
      → Filled q.group_id (n + length js) (ids ++ ids_of js) (enqueue_all alpha q js now d)
  unfolding enqueue_all request_for
  Filled-enqueue_all alpha q [] now n ids d h =
      subst (λ vs. Filled q.group_id (n + 0) vs d) (sym (append-nil ids))
        (subst (λ m. Filled q.group_id m ids d) (omega arith) h)
  Filled-enqueue_all alpha q (j ∷ js) now n ids d h =
      let first = Filled-enqueue alpha now n (request_for q j) ids d h in
      let rest =
        Filled-enqueue_all alpha q js now (suc n) (ids ++ str j.job_id ∷ [])
          (enqueue alpha (request_for q j) now d) first in
      let e = enqueue_all alpha q js now (enqueue alpha (request_for q j) now d) in
      subst (λ vs. Filled q.group_id (n + suc (length js)) vs e)
        (append_assoc ids (str j.job_id ∷ []) (ids_of js))
        (subst (λ m. Filled q.group_id m ((ids ++ str j.job_id ∷ []) ++ ids_of js) e) (omega arith)
          rest)

  -- The watched groups, which no `enqueue` changes.
  smembers-enqueue :
      (alpha now : ℕ) (q : BulkActionRequest) (k : Key) (d : Db)
      → smembers k (enqueue alpha q now d) ≡ smembers k d
  unfolding enqueue store_job start_group
  smembers-enqueue alpha now q k d =
      elim (Bool-cases
        (to_number (hget (group_meta q.job_group_id) total_jobs (grown q now d)) == 1)) [
          | inl b ↦ rw (b, enqueue) (simp store_laws)
          | inr b ↦ rw (b, enqueue) (simp store_laws)
        ]

  smembers-enqueue_all :
      (alpha : ℕ) (q : SubmitBulkJobsRequest) (js : List BulkJob) (now : ℕ) (k : Key) (d : Db)
      → smembers k (enqueue_all alpha q js now d) ≡ smembers k d
  unfolding enqueue_all
  smembers-enqueue_all alpha q [] now k d = refl
  smembers-enqueue_all alpha q (j ∷ js) now k d =
      smembers-enqueue_all alpha q js now k _ ∙ smembers-enqueue alpha now (request_for q j) k d

  -- A group that nothing is stored of.
  pub record IsNew (g : String) (d : Db) : Type 0 where
    pub total : hget (group_meta g) total_jobs d ≡ none
    pub finished : hget (group_meta g) done_jobs d ≡ none
    pub jobs : lrange (group_jobs g) d ≡ []

  Filled-IsNew : (g : String) (d : Db) → IsNew g d → Filled g 0 [] d
  Filled-IsNew g d h = record {
    count = rw h.total tt;
    total = rw h.total;
    finished = rw h.finished;
    jobs = h.jobs;
    begun = λ p. absurd (omega (arith, p));
  }

  -- `submitBulkJobs` for a group that nothing is stored of: the answer, the number of jobs of the group and the
  -- number of registered ones are the number of jobs submitted, none counts as done, the jobs wait in the order
  -- in which they were given, the group is CREATED if there is a job, it is watched and every other
  -- group that was watched still is, and it times out after the configured time.
  pub submit_bulk_jobs_lem :
      (alpha group_timeout_ms now : ℕ) (q : SubmitBulkJobsRequest) (d : Db)
      → IsNew q.group_id d
      → let (n, d') = submit_bulk_jobs alpha group_timeout_ms q now d in
        let at : Field → Option Value = λ f. hget (group_meta q.group_id) f d' in
        (n ≡ length q.jobs)
        × (to_number (at total_jobs) ≡ n)
        × (at registered_jobs ≡ some (num n))
        × (to_number (at done_jobs) ≡ 0)
        × (lrange (group_jobs q.group_id) d' ≡ ids_of q.jobs)
        × (0 < n → at status ≡ some (group_status created))
        × (smembers watcher_active_groups d'
            ≡ add_text q.group_id (smembers watcher_active_groups d))
        × (at timeout_at ≡ some (num (now + group_timeout_ms)))
  unfolding submit_bulk_jobs
  submit_bulk_jobs_lem alpha group_timeout_ms now q d h =
      let f = Filled-enqueue_all alpha q q.jobs now 0 [] d (Filled-IsNew q.group_id d h) in
      (
        refl,
        simp store_laws (ground (arith, f.total)),
        simp store_laws (ground arith),
        simp store_laws (ground (arith, f.finished)),
        simp store_laws f.jobs,
        λ p. simp store_laws (ground (arith, f.begun)),
        simp store_laws
            (ground (arith, smembers-enqueue_all alpha q q.jobs now watcher_active_groups d)),
        simp store_laws (ground arith),
      )
