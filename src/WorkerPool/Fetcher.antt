-- ===== src/WorkerPool/Fetcher.antt =====
-- libs/bulk-action/src/worker-pool/FetcherService.ts: jobs from the fair queue through `admit`, a batch at
-- most in a cycle. `others n` is what other clients do at the n-th await of a round; all rounds of a cycle
-- run at one time. An error that a call throws is logged and ends the cycle.
pub mod Cycle
pub mod Alone
use nestjs_playground.Prelude.{ℕ, zero, suc, ◌+◌, Bool, true, false, Option, none, some}
use nestjs_playground.Redis.{Redis, Db}
use nestjs_playground.Lock.{returns, throws}
use nestjs_playground.FairQueue.{Job, dequeue_job}
use nestjs_playground.Backpressure.ReadyQueue.{has_capacity}
use nestjs_playground.Backpressure.Admission.{
  BackpressureConfig, BackpressureDestination, BackpressureResponse, ready, non_ready, rejected,
  admit,
}

pub record FetcherStats : Type 0 where
  pub total_fetched : ℕ
  pub total_admitted_ready : ℕ
  pub total_admitted_non_ready : ℕ
  pub total_rejected : ℕ
  pub total_empty_polls : ℕ

unfoldable pub count_empty : FetcherStats → FetcherStats
count_empty s = record s { total_empty_polls = s.total_empty_polls + 1 }

-- Step 4 of a round.
unfoldable pub count_fetched : BackpressureDestination → FetcherStats → FetcherStats
count_fetched ready s = record s {
  total_fetched = s.total_fetched + 1;
  total_admitted_ready = s.total_admitted_ready + 1;
}
count_fetched non_ready s = record s {
  total_fetched = s.total_fetched + 1;
  total_admitted_non_ready = s.total_admitted_non_ready + 1;
}
count_fetched rejected s = record s {
  total_fetched = s.total_fetched + 1;
  total_rejected = s.total_rejected + 1;
}

module _ ⦃r : Redis⦄ (c : BackpressureConfig) (script_fails : Bool) (alpha now : ℕ)
    (others : ℕ → Db → Db) where
  -- Steps 1 to 3 of a round: `none` when the round ends the cycle before `admit`.
  unfoldable pub fetch_one : FetcherStats → Db → Option BackpressureResponse × FetcherStats × Db
  unfolding count_empty count_fetched
  fetch_one s d = elim (has_capacity c.ready_queue_max_size d) [
    | false ↦ (none, s, d)
    | true ↦
        let (found, d') = dequeue_job alpha now (others 0 d) in
        elim found [
          | none ↦ (none, s, d')
          | some none ↦ (none, count_empty s, d')
          | some (some (throws e)) ↦ (none, s, d')
          | some (some (returns x)) ↦
              let (response, d'') =
                admit c script_fails now (others 2) (others 3) x.id x.group_id (others 1 d') in
              (some response, count_fetched response.destination s, d'')
        ]
  ]

  -- The loop: the rounds that the batch still has, the jobs fetched, the counters, and the store.
  unfoldable pub fetch_loop : ℕ → ℕ → FetcherStats → Db → ℕ × FetcherStats × Db
  unfolding fetch_one
  fetch_loop zero fetched s d = (fetched, s, d)
  fetch_loop (suc rounds) fetched s d =
      let (response, s', d') = fetch_one s d in
      let rest = fetch_loop rounds (fetched + 1) s' (others 4 d') in
      elim response [
        | none ↦ (fetched, s', d')
        | some a ↦ elim a.accepted [ true ↦ rest | false ↦ (fetched, s', d') ]
      ]

  unfoldable pub fetch_cycle : ℕ → FetcherStats → Db → ℕ × FetcherStats × Db
  unfolding fetch_loop
  fetch_cycle batch s d = fetch_loop batch 0 s d
