-- ===== src/ReliableQueue/Orphans.antt =====
-- libs/bulk-action/src/lua/recover-orphans.lua, which OrphanRecoveryService.runOnce of
-- libs/bulk-action/src/reliable-queue/OrphanRecoveryService.ts calls.
pub mod Rounds
pub mod Conservation
use nestjs_playground.Prelude.{
  ℕ, ◌+◌, Bool, true, false, ◌||◌, leb, if◌then◌else◌, String, Option, none, some, List, [], ◌∷◌,
  any,
}
use nestjs_playground.Model.{
  Value, num, str, dead_letter, job_status, pending, job_failed, DeadLetterEntry, to_text,
  to_number,
}
use nestjs_playground.Keys.{
  Key, Field, ready_queue, in_flight_queue, in_flight_meta, dead_letter_queue, job, job_id,
  worker_id, instance_id, deadline, dequeued_at, retry_count, group_id, status,
}
use nestjs_playground.Redis.{Redis, Db, millis, hget, zrange, hset, hincr, rpush, zrem, del, up_to}

abbrev present : Option Value → Bool
present none = false
present (some v) = true

-- The fields that the program writes into an in-flight hash.
abbrev meta_fields : List Field
meta_fields =
    job_id ∷ worker_id ∷ instance_id ∷ deadline ∷ dequeued_at ∷ retry_count ∷ group_id ∷ []

-- `{recovered, deadLettered, jobId1, groupId1, ...}`
pub record Recovery : Type 0 where
  pub recovered : ℕ
  pub dead_lettered : ℕ
  pub pairs : List (String × String)

abbrev pub nothing_recovered : Recovery
nothing_recovered = record { recovered = 0; dead_lettered = 0; pairs = [] }

abbrev pub orphan_entry : String → String → ℕ → ℕ → Value
orphan_entry j g retries now = dead_letter (record {
  job_id = j;
  group_id = g;
  retry_count = retries;
  error = "orphan: max retries exceeded";
  failed_at = now;
})

module _ ⦃r : Redis⦄ where
  -- The hash that the retry count and the group are read from: the metadata, or else the job.
  unfoldable pub source_of : String → Db → Key
  source_of j d =
      if any (λ f. present (hget (in_flight_meta j) f d)) meta_fields
      then in_flight_meta j
      else job j

  unfoldable pub bury : String → String → ℕ → ℕ → Db → Db
  bury j g retries now d =
      hset (job j) status (job_status job_failed)
        (rpush dead_letter_queue (orphan_entry j g retries now) d)

  unfoldable pub revive : String → Db → Db
  revive j d =
      rpush ready_queue (str j)
        (hset (job j) status (job_status pending) (hincr (job j) retry_count d))

  -- One round of the loop: what it adds to the result, and the store.
  unfoldable pub recover_one : ℕ → ℕ → String → Recovery → Db → Recovery × Db
  unfolding source_of bury revive
  recover_one max_retries now j so_far d =
      let d' = zrem in_flight_queue j d in
      let source = source_of j d' in
      let retries = to_number (hget source retry_count d') in
      let g = to_text (hget source group_id d') in
      let cleared = del (in_flight_meta j) d' in
      if leb max_retries retries
      then (
        record {
          recovered = so_far.recovered;
          dead_lettered = so_far.dead_lettered + 1;
          pairs = (j, g) ∷ so_far.pairs;
        },
        bury j g retries now cleared,
      )
      else (record so_far { recovered = so_far.recovered + 1 }, revive j cleared)

  -- The pairs come out last first.
  unfoldable pub recover_each : ℕ → ℕ → List String → Recovery → Db → Recovery × Db
  recover_each max_retries now [] so_far d = (so_far, d)
  recover_each max_retries now (j ∷ js) so_far d =
      let (so_far', d') = recover_one max_retries now j so_far d in
      recover_each max_retries now js so_far' d'

  unfoldable pub recover_orphans : ℕ → ℕ → ℕ → Db → Recovery × Db
  unfolding recover_each
  recover_orphans batch max_retries now d =
      recover_each max_retries now (up_to batch (millis now) (zrange in_flight_queue d))
        nothing_recovered d
