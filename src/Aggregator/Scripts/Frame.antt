-- ===== src/Aggregator/Scripts/Frame.antt =====
-- What ack.lua and record-job-result.lua leave alone.
use nestjs_playground.Prelude.{ℕ, leb, String, ◌≡◌, ◌≢◌, inl, inr, Bool-cases, arith}
use nestjs_playground.Model.{JobProcessorResponse}
use nestjs_playground.Keys.{
  Key, Field, group_job_results, status, total_jobs, done_jobs, success_count, failed_count,
  first_job_started_at, last_updated_at,
}
use nestjs_playground.Redis.{Redis, Db, hget, get, lrange, zrange, store_laws}
use nestjs_playground.Aggregator.Scripts.{
  counter, ack_writes, ack, record_writes, record_job_result,
}

module _ ⦃r : Redis⦄ where
  -- Everything but the two fields that an acknowledgement writes.
  pub record Acked (before after : Db) : Type 0 where
    pub hashes :
        (k : Key) (f : Field) → status ≢ f → done_jobs ≢ f → hget k f after ≡ hget k f before
    pub lists : (k : Key) → lrange k after ≡ lrange k before
    pub sorted_sets : (k : Key) → zrange k after ≡ zrange k before
    pub strings : (k : Key) → get k after ≡ get k before

  pub ack-Acked : (j g : String) (d : Db) → Acked d (ack j g d).1
  unfolding ack ack_writes
  ack-Acked j g d =
      let d' = ack_writes j g d in
      elim (Bool-cases (leb (counter g total_jobs d') (counter g done_jobs d'))) [
        | inl e ↦
            rw (e, ack)
              (record {
                hashes = λ k f h i. simp store_laws (ground arith);
                lists = λ k. simp store_laws;
                sorted_sets = λ k. simp store_laws;
                strings = λ k. simp store_laws;
              })
        | inr e ↦
            rw (e, ack)
              (record {
                hashes = λ k f h i. simp store_laws (ground arith);
                lists = λ k. simp store_laws;
                sorted_sets = λ k. simp store_laws;
                strings = λ k. simp store_laws;
              })
      ]

  -- Everything but what the recording of a result writes.
  pub record Kept (x : JobProcessorResponse) (before after : Db) : Type 0 where
    pub hashes :
        (k : Key) (f : Field)
        → success_count ≢ f
        → failed_count ≢ f
        → first_job_started_at ≢ f
        → last_updated_at ≢ f
        → hget k f after ≡ hget k f before
    pub lists : (k : Key) → group_job_results x.group_id ≢ k → lrange k after ≡ lrange k before
    pub sorted_sets : (k : Key) → zrange k after ≡ zrange k before
    pub strings : (k : Key) → get k after ≡ get k before

  pub record_job_result-Kept :
      (x : JobProcessorResponse) (now : ℕ) (d : Db) → Kept x d (record_job_result x now d).1
  unfolding record_job_result record_writes
  record_job_result-Kept x now d = elim (Bool-cases x.success) [
    | inl e ↦
        rw (e, record_job_result)
          (record {
            hashes = λ k f h i l m. simp store_laws (ground arith);
            lists = λ k h. simp store_laws (ground arith);
            sorted_sets = λ k. simp store_laws;
            strings = λ k. simp store_laws;
          })
    | inr e ↦
        rw (e, record_job_result)
          (record {
            hashes = λ k f h i l m. simp store_laws (ground arith);
            lists = λ k h. simp store_laws (ground arith);
            sorted_sets = λ k. simp store_laws;
            strings = λ k. simp store_laws;
          })
  ]
