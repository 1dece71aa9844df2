-- ===== src/WorkerPool/Worker/Tick.antt =====
-- The in-flight entry of a job while it is processed, and after its tick (Worker.ts).
use nestjs_playground.Prelude.{
  ℕ, zero, suc, ◌+◌, ◌*◌, ◌≤◌, ◌<◌, true, false, String, none, some, List, [], ◌∷◌, ◌≡◌, ◌∙◌, refl,
  inl, inr, Bool-cases, Option-cases, arith,
}
use nestjs_playground.Model.{JobProcessorResponse, String-discrete}
use nestjs_playground.Keys.{in_flight_queue}
use nestjs_playground.Redis.{Redis, Db, Score, Member, millis, zrange, score_in, has_member}
use nestjs_playground.Lock.{Outcome-cases}
use nestjs_playground.FairQueue.{Job}
use nestjs_playground.ReliableQueue.InFlight.{DequeueResult, dequeue, reliable_ack, nack}
use nestjs_playground.ReliableQueue.InFlight.Metadata.{extend_deadline_lem, reliable_ack_once}
use nestjs_playground.WorkerPool.Worker.{
  Meanwhile, Processing, JobProcessor, WorkerOptions, heartbeats, settle, execute, tick, load_job,
  is_retryable, processor_for, unregistered, execute_with_timeout, heartbeat_interval,
}

has_member-score_in :
    (j : String) (xs : List Member) (s : Score) → score_in j xs ≡ some s → has_member j xs ≡ true
unfolding String-discrete
has_member-score_in j [] s h = cc
has_member-score_in j (x ∷ xs) s h = ground (arith, has_member-score_in j xs s)

score_in-has_member :
    (j : String) (xs : List Member) → has_member j xs ≡ false → score_in j xs ≡ none
unfolding String-discrete
score_in-has_member j [] h = refl
score_in-has_member j (x ∷ xs) h = ground (arith, score_in-has_member j xs)

module _ ⦃r : Redis⦄ where
  -- The deadline after `n` heartbeats of a job that was claimed at `claimed`.
  abbrev due_after : Meanwhile → ℕ → ℕ → ℕ → ℕ → ℕ → ℕ
  due_after meanwhile zero interval extension claimed start = claimed + extension
  due_after meanwhile (suc n) interval extension claimed start =
      start + suc n * interval + meanwhile.late_ms (suc n) + extension

  heartbeats-score :
      (meanwhile : Meanwhile) (n interval : ℕ) (j : String) (extension claimed start : ℕ) (d : Db)
      → ((k : ℕ) (e : Db)
          → score_in j (zrange in_flight_queue (meanwhile.acts k e))
            ≡ score_in j (zrange in_flight_queue e))
      → score_in j (zrange in_flight_queue d) ≡ some (millis (claimed + extension))
      → score_in j (zrange in_flight_queue (heartbeats meanwhile n interval j extension start d))
        ≡ some (millis (due_after meanwhile n interval extension claimed start))
  unfolding heartbeats
  heartbeats-score meanwhile zero interval j extension claimed start d keeps h = keeps zero d ∙ h
  heartbeats-score meanwhile (suc n) interval j extension claimed start d keeps h =
      let e = heartbeats meanwhile n interval j extension start d in
      let earlier = heartbeats-score meanwhile n interval j extension claimed start d keeps h in
      let time = start + suc n * interval + meanwhile.late_ms (suc n) in
      let (said, moved, left) = extend_deadline_lem j extension time e in
      keeps (suc n) _
      ∙ (moved (said ∙ has_member-score_in j (zrange in_flight_queue e) _ earlier)).0

  ahead :
      (meanwhile : Meanwhile) (n elapsed interval extension claimed start gap slack : ℕ)
      → start ≤ claimed + gap
      → elapsed < suc n * interval + slack
      → interval + slack + gap ≤ extension
      → start + elapsed < due_after meanwhile n interval extension claimed start
  ahead meanwhile zero elapsed interval extension claimed start gap slack p q r =
      omega (arith, p, q, r)
  ahead meanwhile (suc n) elapsed interval extension claimed start gap slack p q r =
      omega (arith, q, r)

  -- A job that was claimed at `claimed`, whose entry no other client changes, and whose processing began at most `gap`
  -- milliseconds later: if `n` heartbeats have taken effect after `elapsed` milliseconds of it, each later one
  -- being late by less than `slack`, and an extension is at least an interval, `slack` and `gap` together,
  -- then the job is in flight with a deadline that is still ahead.
  pub heartbeats_ahead :
      (meanwhile : Meanwhile) (n elapsed interval : ℕ) (j : String)
      (extension claimed start gap slack : ℕ) (d : Db)
      → ((k : ℕ) (e : Db)
          → score_in j (zrange in_flight_queue (meanwhile.acts k e))
            ≡ score_in j (zrange in_flight_queue e))
      → score_in j (zrange in_flight_queue d) ≡ some (millis (claimed + extension))
      → start ≤ claimed + gap
      → elapsed < suc n * interval + slack
      → interval + slack + gap ≤ extension
      → let d' = heartbeats meanwhile n interval j extension start d in
        (due : ℕ) × (score_in j (zrange in_flight_queue d') ≡ some (millis due))
        × (start + elapsed < due)
  heartbeats_ahead meanwhile n elapsed interval j extension claimed start gap slack d keeps h p q
        t =
      (
        due_after meanwhile n interval extension claimed start,
        heartbeats-score meanwhile n interval j extension claimed start d keeps h,
        ahead meanwhile n elapsed interval extension claimed start gap slack p q t,
      )

  pub acked :
      (j : String) (d : Db) → score_in j (zrange in_flight_queue (reliable_ack j d).1) ≡ none
  acked j d =
      let (said, gone, fields, late, ready) = reliable_ack_once j d in
      score_in-has_member j (zrange in_flight_queue (reliable_ack j d).1) gone

  -- Callbacks that leave the queue of jobs in flight alone.
  pub record Leaves (on_job_complete : JobProcessorResponse → ℕ → Db → Db)
      (on_job_failed : Job → String → ℕ → Db → Db) : Type 0 where
    pub complete :
        (x : JobProcessorResponse) (now : ℕ) (d : Db)
        → zrange in_flight_queue (on_job_complete x now d) ≡ zrange in_flight_queue d
    pub failed :
        (x : Job) (message : String) (now : ℕ) (d : Db)
        → zrange in_flight_queue (on_job_failed x message now d) ≡ zrange in_flight_queue d

module _ ⦃r : Redis⦄ (on_job_complete : JobProcessorResponse → ℕ → Db → Db)
    (on_job_failed : Job → String → ℕ → Db → Db)
    (leaves : Leaves on_job_complete on_job_failed) where
  completes :
      (j : String) (y : JobProcessorResponse) (now : ℕ) (d : Db)
      → score_in j (zrange in_flight_queue (on_job_complete y now (reliable_ack j d).1)) ≡ none
  completes j y now d = rw (leaves.complete y now (reliable_ack j d).1) (acked j d)

  fails :
      (j : String) (x : Job) (message : String) (now : ℕ) (d : Db)
      → score_in j (zrange in_flight_queue (on_job_failed x message now (reliable_ack j d).1))
        ≡ none
  fails j x message now d = rw (leaves.failed x message now (reliable_ack j d).1) (acked j d)

  settle-released :
      (j : String) (x : Job) (run : Processing) (start : ℕ) (d : Db)
      → score_in j (zrange in_flight_queue (settle on_job_complete on_job_failed j x run start d))
        ≡ none
  unfolding settle nack
  settle-released j x run start d = elim (Outcome-cases run.outcome) [
    | inr (e, p) ↦ rw (p, settle) (fails j x e _ d)
    | inl (out, p) ↦
        let end = start + run.elapsed_ms in
        elim (Bool-cases out.success) [
          | inl q ↦ rw (p, q, settle) (completes j _ end d)
          | inr q ↦ elim (Bool-cases (is_retryable out.error)) [
            | inl t ↦ rw (p, q, t, settle) ((fails j x _ end d))
            | inr t ↦ rw (p, q, t, settle) (completes j _ end d)
          ]
        ]
  ]

  execute-released :
      (processors : List JobProcessor) (o : WorkerOptions) (meanwhile : Meanwhile) (j : String)
      (x : Job) (start : ℕ) (d : Db)
      → score_in j (
          zrange in_flight_queue
            (execute on_job_complete on_job_failed processors o meanwhile j x start d))
        ≡ none
  unfolding execute
  execute-released processors o meanwhile j x start d =
      elim (Option-cases (processor_for processors x.processor_type)) [
        | inl e ↦ rw (e, execute) (settle-released j x unregistered start d)
        | inr (p, e) ↦
            let run = execute_with_timeout o.job_timeout_ms p x in
            let interval = heartbeat_interval o.job_timeout_ms in
            rw (e, execute)
              (settle-released j x run start
                (heartbeats meanwhile meanwhile.beats interval j o.claim.ack_timeout_ms start d))
      ]

  -- For callbacks that leave the queue of jobs in flight alone, whatever other clients do before and during the
  -- processing: a tick that took a job and ends without an error leaves that job out of flight,
  -- whether it was missing, had no processor, timed out, failed, or succeeded.
  pub tick_releases :
      (processors : List JobProcessor) (o : WorkerOptions) (others : Db → Db)
      (meanwhile : Meanwhile) (now : ℕ) (d : Db) (t : DequeueResult)
      → (dequeue o.claim others now d).0 ≡ some t
      → (tick on_job_complete on_job_failed processors o others meanwhile now d).0 ≡ none
      → score_in t.job_id (
          zrange in_flight_queue
            (tick on_job_complete on_job_failed processors o others meanwhile now d).1)
        ≡ none
  unfolding tick
  tick_releases processors o others meanwhile now d t h =
      let taken = meanwhile.before_load (dequeue o.claim others now d).1 in
      elim (Option-cases (load_job t.job_id taken)) [
        | inl e ↦ rw (h, tick, e) (λ _. acked t.job_id taken)
        | inr (out, e) ↦ elim (Outcome-cases out) [
          | inr (message, p) ↦ rw (h, tick, e, p) (λ q. cc)
          | inl (x, p) ↦
              rw (h, tick, e, p)
                (λ _.
                  execute-released processors o meanwhile t.job_id x (now + meanwhile.loading_ms)
                    taken)
        ]
      ]
