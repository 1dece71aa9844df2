-- ===== src/WorkerPool/Worker.antt =====
-- libs/bulk-action/src/worker-pool/Worker.ts: what a worker does with one job. The callbacks that the pool
-- hands to a worker are arguments, the reliable queue's operations are its own. `others` is what other
-- clients do between the look at the ready queue and the pop, and `Meanwhile` is what they do between the
-- claim and the reading of the job and during the processing, and when things happen in it; nobody acts between
-- the acknowledgement or the release and the callback. The texts of the worker's own errors are shortened.
pub mod Tick
pub mod Ending
pub mod States
pub mod Aside
use nestjs_playground.Prelude.{
  ℕ, zero, suc, ◌+◌, ◌*◌, ◌/◌, min, Bool, true, false, ltb, if◌then◌else◌, String, Option, none,
  some, List, [], ◌∷◌,
}
use nestjs_playground.Model.{JobProcessorResponse, JobError, to_text, String-discrete}
use nestjs_playground.Keys.{job, id}
use nestjs_playground.Redis.{Redis, Db, hget, same_text}
use nestjs_playground.Lock.{Outcome, returns, throws}
use nestjs_playground.FairQueue.{Job, read_job}
use nestjs_playground.ReliableQueue.InFlight.{
  Claim, DequeueResult, dequeue, reliable_ack, nack, extend_deadline,
}

-- What `process` comes to, and after how many milliseconds.
pub record Processing : Type 0 where
  pub outcome : Outcome JobProcessorResponse
  pub elapsed_ms : ℕ

pub record JobProcessor : Type 0 where
  pub type : String
  pub process : Job → Processing

-- `Map.get` after the constructor's `Map.set`s: the last processor of a type wins.
unfoldable pub processor_for : List JobProcessor → String → Option JobProcessor
processor_for [] t = none
processor_for (p ∷ rest) t = elim (processor_for rest t) [
  | some q ↦ some q
  | none ↦ if same_text p.type t then some p else none
]

-- The race with the time-out.
unfoldable pub execute_with_timeout : ℕ → JobProcessor → Job → Processing
execute_with_timeout job_timeout_ms p x =
    let run = p.process x in
    if ltb run.elapsed_ms job_timeout_ms
    then run
    else record { outcome = throws "timed out"; elapsed_ms = job_timeout_ms }

-- `Math.floor(jobTimeoutMs * 0.6)`; an interval of 0 is one of 1 ms.
unfoldable pub heartbeat_interval : ℕ → ℕ
heartbeat_interval job_timeout_ms =
    let interval = job_timeout_ms * 6 / 10 in if ltb interval 1 then 1 else interval

-- `result.error?.retryable`
unfoldable pub is_retryable : Option JobError → Bool
is_retryable none = false
is_retryable (some e) = e.retryable

unfoldable pub message_of : Option JobError → String
message_of none = ""
message_of (some e) = e.message

-- The time-out, the extension of a heartbeat, and what the worker claims a job with.
pub record WorkerOptions : Type 0 where
  pub job_timeout_ms : ℕ
  pub claim : Claim

module _ ⦃r : Redis⦄ where
  -- `none` is the `null` of a job that is missing or has an empty id; `new Job` may throw.
  unfoldable pub load_job : String → Db → Option (Outcome Job)
  unfolding String-discrete
  load_job j d = if same_text (to_text (hget (job j) id d)) "" then none else some (read_job j d)

  -- The surroundings of a processing: what others do between the claim and the reading of the job, and between the heartbeats `n` and `n + 1`, the milliseconds from
  -- the claim to the start of the processing (the reply, and the loading of the job), by how many
  -- milliseconds the timer is late with a heartbeat, and how many heartbeats take effect before the end.
  pub record Meanwhile : Type 0 where
    pub before_load : Db → Db
    pub acts : ℕ → Db → Db
    pub loading_ms : ℕ
    pub late_ms : ℕ → ℕ
    pub beats : ℕ

  -- The processing that began at `start` up to the heartbeat `n`, with what others do before and after each.
  unfoldable pub heartbeats : Meanwhile → ℕ → ℕ → String → ℕ → ℕ → Db → Db
  heartbeats meanwhile zero interval j extension start d = meanwhile.acts zero d
  heartbeats meanwhile (suc n) interval j extension start d =
      meanwhile.acts (suc n)
        (extend_deadline j extension (start + suc n * interval + meanwhile.late_ms (suc n))
          (heartbeats meanwhile n interval j extension start d)).1

-- The error of a job whose type no processor is registered for.
abbrev pub unregistered : Processing
unregistered = record { outcome = throws "No processor registered"; elapsed_ms = 0 }

module _ ⦃r : Redis⦄ (on_job_complete : JobProcessorResponse → ℕ → Db → Db)
    (on_job_failed : Job → String → ℕ → Db → Db) where
  -- The end of `tick`: what becomes of the job `x`, taken as `j`, whose processing took `elapsed` ms.
  unfoldable pub settle : String → Job → Processing → ℕ → Db → Db
  unfolding is_retryable message_of
  settle j x run start d =
      let end = start + run.elapsed_ms in
      elim run.outcome [
        | throws e ↦ on_job_failed x e end (nack j d)
        | returns out ↦
            let response : JobProcessorResponse = record out {
              duration_ms = run.elapsed_ms;
              processor_type = x.processor_type;
            } in
            if response.success
            then on_job_complete response end (reliable_ack j d).1
            else if is_retryable response.error
            then on_job_failed x (message_of response.error) end (nack j d)
            else on_job_complete response end (reliable_ack j d).1
      ]

  -- The `try` of `tick`.
  unfoldable pub execute :
      List JobProcessor → WorkerOptions → Meanwhile → String → Job → ℕ → Db → Db
  unfolding settle heartbeats execute_with_timeout heartbeat_interval processor_for
  execute processors o meanwhile j x start d = elim (processor_for processors x.processor_type) [
    | none ↦ settle j x unregistered start d
    | some p ↦
        let run = execute_with_timeout o.job_timeout_ms p x in
        let interval = heartbeat_interval o.job_timeout_ms in
        settle j x run start
          (heartbeats meanwhile meanwhile.beats interval j o.claim.ack_timeout_ms start d)
  ]

  -- The error that `tick` throws, if it does, and the store. The wait of an empty poll is left out.
  unfoldable pub tick :
      List JobProcessor → WorkerOptions → (Db → Db) → Meanwhile → ℕ → Db → Option String × Db
  unfolding execute load_job
  tick processors o others meanwhile now d =
      let (taken, d') = dequeue o.claim others now d in
      elim taken [
        | none ↦ (none, d')
        | some t ↦
            let d'' = meanwhile.before_load d' in
            elim (load_job t.job_id d'') [
              | none ↦ (none, (reliable_ack t.job_id d'').1)
              | some (throws e) ↦ (some e, d'')
              | some (returns x) ↦
                  (none, execute processors o meanwhile t.job_id x (now + meanwhile.loading_ms) d'')
            ]
      ]
