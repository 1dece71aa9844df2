-- ===== src/WorkerPool/Worker/Ending.antt =====
-- How a tick ends, and with which handler (Worker.ts).
use nestjs_playground.Prelude.{
  ℕ, ◌+◌, true, false, String, none, some, List, ◌≡◌, ◌⊎◌, ◌∙◌, refl, ap, inl, inr, Bool-cases,
  Option-cases,
}
use nestjs_playground.Model.{JobProcessorResponse}
use nestjs_playground.Redis.{Redis, Db}
use nestjs_playground.Lock.{Outcome, returns, throws, Outcome-cases}
use nestjs_playground.FairQueue.{Job}
use nestjs_playground.ReliableQueue.InFlight.{DequeueResult, dequeue, reliable_ack, nack}
use nestjs_playground.WorkerPool.Worker.{
  Meanwhile, Processing, JobProcessor, WorkerOptions, heartbeats, settle, execute, tick, load_job,
  is_retryable, processor_for, unregistered, execute_with_timeout, heartbeat_interval, message_of,
}

-- The processing of a job, as the worker sees it.
abbrev pub run_of : List JobProcessor → ℕ → Job → Processing
run_of processors timeout x = elim (processor_for processors x.processor_type) [
  | none ↦ unregistered
  | some p ↦ execute_with_timeout timeout p x
]

-- An error, or a result that asks for another attempt.
abbrev pub Fails : Outcome JobProcessorResponse → Type 0
Fails (throws e) = Unit {0}
Fails (returns out) = (out.success ≡ false) × (is_retryable out.error ≡ true)

-- The message of the error.
abbrev pub error_of : Outcome JobProcessorResponse → String
error_of (throws e) = e
error_of (returns out) = message_of out.error

pub run_of-some :
    (processors : List JobProcessor) (timeout : ℕ) (x : Job) (p : JobProcessor)
    → processor_for processors x.processor_type ≡ some p
    → (run_of processors timeout x).outcome ≡ (execute_with_timeout timeout p x).outcome
run_of-some processors timeout x p e = rw (run_of, e)

module _ ⦃r : Redis⦄ (on_job_complete : JobProcessorResponse → ℕ → Db → Db)
    (on_job_failed : Job → String → ℕ → Db → Db) (processors : List JobProcessor)
    (o : WorkerOptions) (meanwhile : Meanwhile) where
  -- The store at the end of the processing of a job that began at `start`.
  abbrev pub worked : String → Job → ℕ → Db → Db
  worked j x start d = elim (processor_for processors x.processor_type) [
    | none ↦ d
    | some p ↦
        heartbeats meanwhile meanwhile.beats (heartbeat_interval o.job_timeout_ms) j
          o.claim.ack_timeout_ms start d
  ]

  -- How a tick ends that took the job `j`, from the store at the reading of it to the store at the end: the job is missing
  -- and acknowledged, or the completed job is acknowledged and handed to `onJobComplete`, or the failed one
  -- is released and handed to `onJobFailed`.
  pub data Ended (j : String) (start : ℕ) (taken after : Db) : Type 0 where
    missing : load_job j taken ≡ none → after ≡ (reliable_ack j taken).1 → Ended j start taken after
    completed :
        (x : Job) (out : JobProcessorResponse)
        → load_job j taken ≡ some (returns x)
        → (run_of processors o.job_timeout_ms x).outcome ≡ returns out
        → (out.success ≡ true) ⊎ (is_retryable out.error ≡ false)
        → after
          ≡ on_job_complete
              (record out {
                duration_ms = (run_of processors o.job_timeout_ms x).elapsed_ms;
                processor_type = x.processor_type;
              })
              (start + (run_of processors o.job_timeout_ms x).elapsed_ms)
              (reliable_ack j (worked j x start taken)).1
        → Ended j start taken after
    failed :
        (x : Job)
        → load_job j taken ≡ some (returns x)
        → Fails (run_of processors o.job_timeout_ms x).outcome
        → after
          ≡ on_job_failed x
              (error_of (run_of processors o.job_timeout_ms x).outcome)
              (start + (run_of processors o.job_timeout_ms x).elapsed_ms)
              (nack j (worked j x start taken))
        → Ended j start taken after

  execute-worked :
      (j : String) (x : Job) (start : ℕ) (d : Db)
      → execute on_job_complete on_job_failed processors o meanwhile j x start d
        ≡ settle on_job_complete on_job_failed j x
            (run_of processors o.job_timeout_ms x)
            start
            (worked j x start d)
  unfolding execute
  execute-worked j x start d = elim (Option-cases (processor_for processors x.processor_type)) [
    | inl e ↦ rw (e, execute, run_of, worked)
    | inr (p, e) ↦ rw (e, execute, run_of, worked)
  ]

  settle-Ended :
      (j : String) (x : Job) (start : ℕ) (taken : Db)
      → load_job j taken ≡ some (returns x)
      → Ended j start taken (
          settle on_job_complete on_job_failed j x
            (run_of processors o.job_timeout_ms x)
            start
            (worked j x start taken))
  unfolding settle
  settle-Ended j x start taken h =
      let run = run_of processors o.job_timeout_ms x in
      elim (Outcome-cases run.outcome) [
        | inr (e, p) ↦ failed x h (rw p tt) (rw (p, settle))
        | inl (out, p) ↦ elim (Bool-cases out.success) [
          | inl q ↦ completed x out h p (inl q) (rw (p, q, settle))
          | inr q ↦ elim (Bool-cases (is_retryable out.error)) [
            | inl t ↦ failed x h (rw p (q, t)) (rw (p, q, t, settle))
            | inr t ↦ completed x out h p (inr t) (rw (p, q, t, settle))
          ]
        ]
      ]

  pub tick_ends :
      (others : Db → Db) (now : ℕ) (d : Db) (t : DequeueResult)
      → (dequeue o.claim others now d).0 ≡ some t
      → (tick on_job_complete on_job_failed processors o others meanwhile now d).0 ≡ none
      → Ended t.job_id
          (now + meanwhile.loading_ms)
          (meanwhile.before_load (dequeue o.claim others now d).1)
          (tick on_job_complete on_job_failed processors o others meanwhile now d).1
  unfolding tick
  tick_ends others now d t h =
      let taken = meanwhile.before_load (dequeue o.claim others now d).1 in
      let start = now + meanwhile.loading_ms in
      elim (Option-cases (load_job t.job_id taken)) [
        | inl e ↦ rw (h, tick, e) (λ _. missing e refl)
        | inr (out, e) ↦ elim (Outcome-cases out) [
          | inr (message, p) ↦ rw (h, tick, e, p) (λ q. cc)
          | inl (x, p) ↦
              rw (h, tick, e, p, execute-worked)
                (λ _. settle-Ended t.job_id x start taken (e ∙ ap some p))
        ]
      ]
