-- ===== src/WorkerPool/Fetcher/Alone.antt =====
-- A fetch cycle while nobody else acts: it rejects no job (FetcherService.ts).
use nestjs_playground.Prelude.{
  ℕ, zero, suc, ◌+◌, ◌≤◌, ◌<◌, Bool, true, none, some, ◌≡◌, refl, ap, ◌∙◌, inl, inr, Bool-cases,
  Option-cases, String, length, arith,
}
use nestjs_playground.Keys.{ready_queue}
use nestjs_playground.Redis.{Redis, Db, lrange}
use nestjs_playground.Lock.{Outcome-cases}
use nestjs_playground.FairQueue.{dequeue_job}
use nestjs_playground.FairQueue.Dequeue.{dequeue_job_lem}
use nestjs_playground.Backpressure.ReadyQueue.{has_capacity, ready_size}
use nestjs_playground.Backpressure.Admission.{BackpressureConfig, BackpressureResponse, admit}
use nestjs_playground.Backpressure.Admission.Outcomes.{admit_alone, admit-Placed, same_size}
use nestjs_playground.WorkerPool.Fetcher.{FetcherStats, fetch_one, fetch_loop, fetch_cycle}
use nestjs_playground.WorkerPool.Fetcher.Cycle.{
  Consistent, admit-Consistent, fetch_one-counts, Counted, fetch_cycle_counts,
}

-- A cycle in which nobody else acts.
module _ ⦃r : Redis⦄ (c : BackpressureConfig) (fails : Bool) (alpha now : ℕ) where
  abbrev unchanged : Db → Db
  unchanged d = d

  abbrev nobody : ℕ → Db → Db
  nobody n d = d

  lrange-dequeue_job :
      (d : Db) → lrange ready_queue (dequeue_job alpha now d).1 ≡ lrange ready_queue d
  lrange-dequeue_job d = elim (dequeue_job_lem alpha now d) [
    | inl (_, _, kept) ↦ kept ready_queue
    | inr (j, _, served) ↦ served.others ready_queue (λ p. cc)
  ]

  size-dequeue_job : (d : Db) → ready_size (dequeue_job alpha now d).1 ≡ ready_size d
  size-dequeue_job d = ap length (lrange-dequeue_job d)

  accepts :
      (j g : String) (d : Db)
      → ready_size d < c.ready_queue_max_size
      → (admit c fails now unchanged unchanged j g d).0.accepted ≡ true
  unfolding Consistent
  accepts j g d room = elim (admit-Consistent c fails now unchanged unchanged j g d) [
    | inl (e, h) ↦ e
    | inr (e, h) ↦ absurd (ground (arith, (admit_alone c fails now j g d).0 h))
  ]

  bounded :
      (j g : String) (d : Db)
      → ready_size d < c.ready_queue_max_size
      → ready_size (admit c fails now unchanged unchanged j g d).1 ≤ c.ready_queue_max_size
  unfolding has_capacity
  bounded j g d room =
      let (placed, bound) = admit-Placed c fails now j g unchanged unchanged d (ground arith) in
      bound (omega (arith, same_size c fails now j g d))

  fetch_one-alone :
      (s : FetcherStats) (d : Db)
      → ready_size d ≤ c.ready_queue_max_size
      → let (response, s', d') = fetch_one c fails alpha now nobody s d in
        (ready_size d' ≤ c.ready_queue_max_size)
        × ((a : BackpressureResponse) → response ≡ some a → a.accepted ≡ true)
  unfolding fetch_one has_capacity
  fetch_one-alone s d h = elim (Bool-cases (has_capacity c.ready_queue_max_size d)) [
    | inr e ↦ rw (e, fetch_one) (h, λ a q. cc)
    | inl e ↦
        let d' = (dequeue_job alpha now d).1 in
        let room : ready_size d' < c.ready_queue_max_size = ground (arith, size-dequeue_job d) in
        let kept : ready_size d' ≤ c.ready_queue_max_size = omega (arith, room) in
        elim (Option-cases (dequeue_job alpha now d).0) [
          | inl f ↦ rw (e, f, fetch_one) (kept, λ a q. cc)
          | inr (none, f) ↦ rw (e, f, fetch_one) (kept, λ a q. cc)
          | inr (some out, f) ↦ elim (Outcome-cases out) [
            | inr (m, p) ↦ rw (e, f, p, fetch_one) (kept, λ a q. cc)
            | inl (x, p) ↦
                rw (e, f, p, fetch_one)
                  (bounded x.id x.group_id d' room, λ a q. cc (accepts x.id x.group_id d' room, q))
          ]
        ]
  ]

  loop_alone :
      (rounds fetched : ℕ) (s : FetcherStats) (d : Db)
      → ready_size d ≤ c.ready_queue_max_size
      → let (n, s', d') = fetch_loop c fails alpha now nobody rounds fetched s d in
        (s'.total_rejected ≡ s.total_rejected) × (ready_size d' ≤ c.ready_queue_max_size)
  unfolding fetch_loop
  loop_alone zero fetched s d h = (refl, h)
  loop_alone (suc rounds) fetched s d h =
      let (response, s', d') = fetch_one c fails alpha now nobody s d in
      let (kept, accepted) = fetch_one-alone s d h in
      elim (fetch_one-counts c fails alpha now nobody s d) [
        | inl (e, g) ↦ rw (e, fetch_loop) (omega (arith, g.refused), kept)
        | inr (a, e, inr (f, g)) ↦ absurd (cc (accepted a e, f))
        | inr (a, e, inl (f, g)) ↦
            let (same, room) = loop_alone rounds (fetched + 1) s' d' kept in
            rw (e, f, fetch_loop) (same ∙ omega (arith, g.refused), room)
      ]

  -- While nobody else acts, a fetch cycle that starts with the ready queue within its size rejects no job: it counts
  -- exactly the jobs that it fetched, each once, as admitted to the ready or the non-ready queue, and
  -- leaves the ready queue within its size.
  pub fetch_cycle_alone :
      (batch : ℕ) (s : FetcherStats) (d : Db)
      → ready_size d ≤ c.ready_queue_max_size
      → let (n, s', d') = fetch_cycle c fails alpha now nobody batch s d in
        Counted n 0 s s' × (ready_size d' ≤ c.ready_queue_max_size)
  unfolding fetch_cycle
  fetch_cycle_alone batch s d h =
      let (none_rejected, within) = loop_alone batch 0 s d h in
      let (b, at_most, one, counted) = fetch_cycle_counts c fails alpha now nobody batch s d in
      (
        record {
          placed = counted.placed;
          refused = none_rejected ∙ omega arith;
          fetched = omega (arith, counted.fetched, counted.refused, none_rejected);
        },
        within,
      )
