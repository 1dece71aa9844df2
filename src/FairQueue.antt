-- ===== src/FairQueue.antt =====
-- libs/bulk-action/src/fair-queue/FairQueueService.ts and PriorityCalculator.ts, with lua/enqueue.lua and
-- lua/dequeue.lua; `ack` is in Aggregator.Scripts. A script runs whole. The base priority and the
-- weight alpha are natural numbers, and a priority is an exact fraction.
pub mod Searches
pub mod Dequeue
use nestjs_playground.Prelude.{
  ℕ, zero, suc, ◌+◌, ◌-◌, ◌*◌, max, ◌==◌, if◌then◌else◌, String, Option, none, some, List, [], ◌∷◌,
  length,
}
use nestjs_playground.Watcher.StateMachine.{created}
use nestjs_playground.Model.{
  Value, num, str, group_status, job_status, level, pending, processing, JobStatus, PriorityLevel,
  high_level, normal_level, low_level, to_number, to_text,
}
use nestjs_playground.Keys.{
  Key, fair_queue, group_jobs, group_meta, job, id, group_id, processor_type, payload, status,
  retry_count, created_at, total_jobs, done_jobs, base_priority, priority_level,
}
use nestjs_playground.Redis.{
  Redis, Db, Score, hget, lrange, zrange, hset, hincr, rpush, lpop, zadd, zrem, first_of_list,
  last_member,
}
use nestjs_playground.Lock.{Outcome, returns, throws}

pub record BulkActionRequest : Type 0 where
  pub job_group_id : String
  pub job_id : String
  pub job_processor_type : String
  pub payload : String
  pub base_priority : Option ℕ
  pub priority_level : Option PriorityLevel

-- The defaults of `enqueue`.
abbrev pub base_of : Option ℕ → ℕ
base_of none = 0
base_of (some n) = n

abbrev pub level_of : Option PriorityLevel → PriorityLevel
level_of none = normal_level
level_of (some l) = l

pub record Job : Type 0 where
  pub id : String
  pub group_id : String
  pub processor_type : String
  pub payload : String
  pub status : JobStatus
  pub retry_count : ℕ
  pub created_at : ℕ

-- `-now + base + alpha * (-1 + total / remaining)`, over the denominator `remaining`.
unfoldable pub priority : ℕ → ℕ → ℕ → ℕ → ℕ → Score
priority alpha now base total finished =
    let remaining = max 1 (total - finished) in
    record {
      plus = base * remaining + alpha * total;
      minus = (now + alpha) * remaining;
      den = remaining;
    }

abbrev pub to_job_status : Option Value → JobStatus
to_job_status (some (job_status s)) = s
to_job_status _ = pending

-- `new Job(map)`: `JSON.parse` throws on a payload that is missing. A stored payload is a text that
-- `JSON.stringify` gave, which it reads back: a malformed one, on which it throws too, and the `?? {}`
-- for the text `null` are left out.
unfoldable pub parse_job :
    Option Value
    → (fields : Option Value × Option Value × Option Value) → JobStatus
    → ℕ
    → ℕ
    → Outcome Job
parse_job none fields s n t = throws "JSON.parse"
parse_job (some p) (i, g, y) s n t = returns (record {
  id = to_text i;
  group_id = to_text g;
  processor_type = to_text y;
  payload = to_text (some p);
  status = s;
  retry_count = n;
  created_at = t;
})

module _ ⦃r : Redis⦄ where
  -- Step 1 of enqueue.lua.
  unfoldable pub store_job : BulkActionRequest → ℕ → Db → Db
  store_job q now d =
      let key = job q.job_id in
      hset key created_at (num now) (
        hset key retry_count (num 0) (
          hset key status (job_status pending) (
            hset key payload (str q.payload) (
              hset key processor_type (str q.job_processor_type)
                (hset key group_id (str q.job_group_id) (hset key id (str q.job_id) d))))))

  -- The initial metadata of step 3.
  unfoldable pub start_group : BulkActionRequest → ℕ → Db → Db
  start_group q now d =
      let meta = group_meta q.job_group_id in
      hset meta status (group_status created) (
        hset meta created_at (num now) (
          hset meta done_jobs (num 0) (
            hset meta priority_level (level (level_of q.priority_level))
              (hset meta base_priority (num (base_of q.base_priority)) d))))

  unfoldable pub enqueue : ℕ → BulkActionRequest → ℕ → Db → Db
  unfolding store_job start_group priority
  enqueue alpha q now d =
      let g = q.job_group_id in
      let d' =
        hincr (group_meta g) total_jobs (rpush (group_jobs g) (str q.job_id) (store_job q now d)) in
      let total = to_number (hget (group_meta g) total_jobs d') in
      let finished = to_number (hget (group_meta g) done_jobs d') in
      let d'' = if total == 1 then start_group q now d' else d' in
      zadd (fair_queue (level_of q.priority_level))
        (priority alpha now (base_of q.base_priority) total finished) g d''

  -- Steps 3 and 4 of dequeue.lua, after the LPOP.
  unfoldable pub update_group : ℕ → ℕ → Key → String → String → Db → Db
  unfolding priority
  update_group alpha now queue g j d =
      let meta = group_meta g in
      let d' = hset (job j) status (job_status processing) d in
      let total = to_number (hget meta total_jobs d') in
      let finished = to_number (hget meta done_jobs d') in
      let base = to_number (hget meta base_priority d') in
      if length (lrange (group_jobs g) d') == 0
      then zrem queue g d'
      else zadd queue (priority alpha now base total finished) g d'

  -- The loop on one queue: `none` means that the fuel ran out, `some none` that the queue is empty.
  unfoldable pub search_queue : ℕ → ℕ → ℕ → Key → Db → Option (Option String) × Db
  unfolding update_group
  search_queue zero alpha now queue d = (none, d)
  search_queue (suc fuel) alpha now queue d = elim (last_member (zrange queue d)) [
    | none ↦ (some none, d)
    | some m ↦ elim (first_of_list (lrange (group_jobs m.member) d)) [
      | some v ↦ (
        some (some (to_text (some v))),
        update_group alpha now queue m.member (to_text (some v)) (lpop (group_jobs m.member) d),
      )
      | none ↦
          search_queue fuel alpha now queue (zrem queue m.member (lpop (group_jobs m.member) d))
    ]
  ]

  -- The queues in turn, with a round more than there are groups as fuel.
  unfoldable pub search_queues : ℕ → ℕ → List Key → Db → Option (Option String) × Db
  unfolding search_queue
  search_queues alpha now [] d = (some none, d)
  search_queues alpha now (queue ∷ queues) d =
      let (found, d') = search_queue (suc (length (zrange queue d))) alpha now queue d in
      elim found [
        | none ↦ (none, d')
        | some none ↦ search_queues alpha now queues d'
        | some (some j) ↦ (some (some j), d')
      ]

  abbrev pub level_queues : List Key
  level_queues = fair_queue high_level ∷ fair_queue normal_level ∷ fair_queue low_level ∷ []

  -- `HGETALL` of the job, and `parseJobFromRedis`.
  unfoldable pub read_job : String → Db → Outcome Job
  unfolding parse_job
  read_job j d =
      parse_job (hget (job j) payload d)
        (hget (job j) id d, hget (job j) group_id d, hget (job j) processor_type d)
        (to_job_status (hget (job j) status d)) (to_number (hget (job j) retry_count d))
        (to_number (hget (job j) created_at d))

  abbrev pub answer_of : Option (Option String) → Db → Option (Option (Outcome Job))
  answer_of none d = none
  answer_of (some none) d = some none
  answer_of (some (some j)) d = some (some (read_job j d))

  unfoldable pub dequeue_job : ℕ → ℕ → Db → Option (Option (Outcome Job)) × Db
  unfolding search_queues read_job
  dequeue_job alpha now d =
      let (found, d') = search_queues alpha now level_queues d in (answer_of found d', d')

  unfoldable pub pending_count : String → Db → ℕ
  pending_count g d = length (lrange (group_jobs g) d)
