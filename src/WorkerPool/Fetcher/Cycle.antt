-- ===== src/WorkerPool/Fetcher/Cycle.antt =====
-- What a fetch cycle counts (FetcherService.ts).
use nestjs_playground.Prelude.{
  ℕ, zero, suc, ◌+◌, ◌≤◌, Bool, true, false, none, some, ◌≡◌, ◌≢◌, refl, subst, inl, inr, ◌⊎◌,
  Bool-cases, Option-cases, String, arith,
}
use nestjs_playground.Redis.{Redis, Db}
use nestjs_playground.Lock.{Outcome-cases}
use nestjs_playground.FairQueue.{dequeue_job}
use nestjs_playground.Backpressure.ReadyQueue.{has_capacity}
use nestjs_playground.Backpressure.Admission.{
  BackpressureConfig, BackpressureDestination, BackpressureResponse, ready, non_ready, rejected,
  place, admit,
}
use nestjs_playground.WorkerPool.Fetcher.{
  FetcherStats, count_empty, count_fetched, fetch_one, fetch_loop, fetch_cycle,
}

-- How the counters of two moments differ, when `n` jobs were accepted in between and `b` rejected.
pub record Counted (n b : ℕ) (before after : FetcherStats) : Type 0 where
  pub placed :
      after.total_admitted_ready + after.total_admitted_non_ready
      ≡ n + (before.total_admitted_ready + before.total_admitted_non_ready)
  pub refused : after.total_rejected ≡ b + before.total_rejected
  pub fetched : after.total_fetched ≡ n + b + before.total_fetched

Counted-same : (s : FetcherStats) → Counted 0 0 s s
Counted-same s = record { placed = omega arith; refused = omega arith; fetched = omega arith }

Counted-empty : (s : FetcherStats) → Counted 0 0 s (count_empty s)
unfolding count_empty
Counted-empty s = record { placed = omega arith; refused = omega arith; fetched = omega arith }

Counted-after :
    {n b : ℕ} (s s' s'' : FetcherStats)
    → Counted 1 0 s s'
    → Counted n b s' s''
    → Counted (suc n) b s s''
Counted-after s s' s'' p q = record {
  placed = omega (arith, p.placed, q.placed);
  refused = omega (arith, p.refused, q.refused);
  fetched = omega (arith, p.fetched, q.fetched);
}

-- An answer of `admit` accepts the job unless it rejects it.
unfoldable pub Consistent : BackpressureResponse → Type 0
Consistent a =
    ((a.accepted ≡ true) × (a.destination ≢ rejected))
    ⊎ ((a.accepted ≡ false) × (a.destination ≡ rejected))

one_accepted :
    (t : BackpressureDestination) (s : FetcherStats)
    → t ≢ rejected
    → Counted 1 0 s (count_fetched t s)
unfolding count_fetched
one_accepted ready s h = record {
  placed = omega arith;
  refused = omega arith;
  fetched = omega arith;
}
one_accepted non_ready s h = record {
  placed = omega arith;
  refused = omega arith;
  fetched = omega arith;
}
one_accepted rejected s h = absurd (h refl)

one_rejected : (s : FetcherStats) → Counted 0 1 s (count_fetched rejected s)
unfolding count_fetched
one_rejected s = record { placed = omega arith; refused = omega arith; fetched = omega arith }

Counted-fetched :
    (a : BackpressureResponse) (s : FetcherStats)
    → Consistent a
    → ((a.accepted ≡ true) × Counted 1 0 s (count_fetched a.destination s))
      ⊎ ((a.accepted ≡ false) × Counted 0 1 s (count_fetched a.destination s))
unfolding Consistent
Counted-fetched a s (inl (e, h)) = inl (e, one_accepted a.destination s h)
Counted-fetched a s (inr (e, h)) = inr (e, rw h (one_rejected s))

module _ ⦃r : Redis⦄ (c : BackpressureConfig) (fails : Bool) (now : ℕ) where
  pub admit-Consistent :
      (others_1 others_2 : Db → Db) (j g : String) (d : Db)
      → Consistent (admit c fails now others_1 others_2 j g d).0
  unfolding admit place Consistent
  admit-Consistent others_1 others_2 j g d = ground arith

module _ ⦃r : Redis⦄ (c : BackpressureConfig) (fails : Bool) (alpha now : ℕ)
    (others : ℕ → Db → Db) where
  -- What a round gives, by what was found.
  pub fetch_one-counts :
      (s : FetcherStats) (d : Db)
      → let (response, s', d') = fetch_one c fails alpha now others s d in
        ((response ≡ none) × Counted 0 0 s s')
        ⊎ ((a : BackpressureResponse) × (response ≡ some a)
            × (((a.accepted ≡ true) × Counted 1 0 s s')
                ⊎ ((a.accepted ≡ false) × Counted 0 1 s s')))
  unfolding fetch_one count_empty
  fetch_one-counts s d = elim (Bool-cases (has_capacity c.ready_queue_max_size d)) [
    | inr e ↦ rw (e, fetch_one) (inl (refl, Counted-same s))
    | inl e ↦ elim (Option-cases (dequeue_job alpha now (others 0 d)).0) [
      | inl f ↦ rw (e, f, fetch_one) (inl (refl, Counted-same s))
      | inr (none, f) ↦ rw (e, f, fetch_one) (inl (refl, Counted-empty s))
      | inr (some out, f) ↦ elim (Outcome-cases out) [
        | inr (m, p) ↦ rw (e, f, p, fetch_one) (inl (refl, Counted-same s))
        | inl (x, p) ↦
            let d' = others 1 (dequeue_job alpha now (others 0 d)).1 in
            let a = (admit c fails now (others 2) (others 3) x.id x.group_id d').0 in
            rw (e, f, p, fetch_one)
              (inr (
                a,
                refl,
                Counted-fetched a s
                    (admit-Consistent c fails now (others 2) (others 3) x.id x.group_id d'),
              ))
      ]
    ]
  ]

  loop_counts :
      (rounds fetched : ℕ) (s : FetcherStats) (d : Db)
      → let (n, s', d') = fetch_loop c fails alpha now others rounds fetched s d in
        (k b : ℕ) × (n ≡ fetched + k) × (k ≤ rounds) × (b ≤ 1) × Counted k b s s'
  unfolding fetch_loop
  loop_counts zero fetched s d = (0, 0, omega arith, omega arith, omega arith, Counted-same s)
  loop_counts (suc rounds) fetched s d =
      let (response, s', d') = fetch_one c fails alpha now others s d in
      elim (fetch_one-counts s d) [
        | inl (e, h) ↦ rw (e, fetch_loop) (0, 0, omega arith, omega arith, omega arith, h)
        | inr (a, e, inr (f, h)) ↦
            rw (e, f, fetch_loop) (0, 1, omega arith, omega arith, omega arith, h)
        | inr (a, e, inl (f, h)) ↦
            let (k, b, counted, le, one, g) = loop_counts rounds (fetched + 1) s' (others 4 d') in
            rw (e, f, fetch_loop)
              (suc k, b, omega (arith, counted), omega (arith, le), one, Counted-after s s' _ h g)
      ]

  -- Whatever other clients do in between, a fetch cycle fetches at most a batch, every job that it counts as
  -- fetched it counts once as admitted to the ready or the non-ready queue or as rejected, and at most one
  -- is rejected, by which the cycle ends.
  pub fetch_cycle_counts :
      (batch : ℕ) (s : FetcherStats) (d : Db)
      → let (n, s', d') = fetch_cycle c fails alpha now others batch s d in
        (b : ℕ) × (n ≤ batch) × (b ≤ 1) × Counted n b s s'
  unfolding fetch_cycle
  fetch_cycle_counts batch s d =
      let (k, b, counted, le, one, h) = loop_counts batch 0 s d in
      (
        b,
        omega (arith, counted, le),
        one,
        subst (λ m. Counted m b s (fetch_loop c fails alpha now others batch 0 s d).1)
            (omega (arith, counted)) h,
      )
