-- ===== src/ReliableQueue/OrphanRecovery.antt =====
-- The rest of libs/bulk-action/src/reliable-queue/OrphanRecoveryService.ts: `runOnce`, which counts what the
-- script did and hands the dead letters on to the aggregator and the fair queue. No other client acts
-- between the calls, but `sleep` is what others do during a wait for the lock.
use nestjs_playground.Prelude.{
  ℕ, ◌+◌, Bool, false, ltb, if◌then◌else◌, String, Option, none, some, List, [], ◌∷◌,
}
use nestjs_playground.Model.{JobProcessorResponse}
use nestjs_playground.Redis.{Redis, Db}
use nestjs_playground.Lock.{Outcome, returns, throws}
use nestjs_playground.Aggregator.Scripts.{record_job_result, ack}
use nestjs_playground.Aggregator.Service.{Aggregator, finalize_group}
use nestjs_playground.ReliableQueue.Orphans.{recover_orphans}

pub record OrphanRecoveryStats : Type 0 where
  pub total_cycles : ℕ
  pub total_recovered : ℕ
  pub total_dead_lettered : ℕ

-- The result that is recorded for a dead letter.
unfoldable pub orphan_result : String → String → JobProcessorResponse
orphan_result j g = record {
  job_id = j;
  group_id = g;
  success = false;
  output = "";
  error =
      some (record { message = "orphan: max retries exceeded"; code = none; retryable = false });
  duration_ms = 0;
  processor_type = "";
}

abbrev thrown : Outcome Bool → Option String
thrown (returns b) = none
thrown (throws e) = some e

module _ ⦃r : Redis⦄ {U : Type 0} (stringify : U → String) (aggregators : List (Aggregator U))
    (sleep : Db → Db) (token : String) (lock_ttl lock_retries now : ℕ) where
  -- One round of `handleDeadLetteredOrphans`: the error that it throws, if it does, and the store.
  unfoldable pub handle_one : String → String → Db → Option String × Db
  unfolding orphan_result
  handle_one j g d =
      let recorded = (record_job_result (orphan_result j g) now d).1 in
      let (complete, d') = ack j g recorded in
      if complete
      then (let (out, d'') =
            finalize_group stringify aggregators (λ e. e) sleep token g lock_ttl lock_retries now
              d' in
          (thrown out, d''))
      else (none, d')

  -- The pairs are listed last first.
  unfoldable pub handle_dead_lettered : List (String × String) → Db → Option String × Db
  unfolding handle_one
  handle_dead_lettered [] d = (none, d)
  handle_dead_lettered ((j, g) ∷ earlier) d =
      let (error, d') = handle_dead_lettered earlier d in
      elim error [ none ↦ handle_one j g d' | some e ↦ (some e, d') ]

  -- The error, the counters and the store; the two numbers that it returns are those of the recovery.
  unfoldable pub run_once :
      ℕ → ℕ → OrphanRecoveryStats → Db → Option String × (OrphanRecoveryStats × Db)
  unfolding handle_dead_lettered
  run_once batch max_retries s d =
      let (recovery, d') = recover_orphans batch max_retries now d in
      let s' : OrphanRecoveryStats = record {
        total_cycles = s.total_cycles + 1;
        total_recovered = s.total_recovered + recovery.recovered;
        total_dead_lettered = s.total_dead_lettered + recovery.dead_lettered;
      } in
      if ltb 0 recovery.dead_lettered
      then (let (error, d'') = handle_dead_lettered recovery.pairs d' in (error, (s', d'')))
      else (none, (s', d'))
