-- ===== src/Backpressure/ReadyQueue.antt =====
-- libs/bulk-action/src/backpressure/ReadyQueueService.ts with lua/ready-queue-push.lua, and
-- NonReadyQueueService.ts, where no other client acts between the calls of a method.
pub mod Fifo
use nestjs_playground.Prelude.{
  ℕ, ◌+◌, ◌*◌, ◌^◌, min, Bool, true, false, ltb, leb, if◌then◌else◌, String, Option, length, List,
  [], ◌∷◌,
}
use nestjs_playground.Model.{Value, str}
use nestjs_playground.Keys.{ready_queue, non_ready_queue}
use nestjs_playground.Redis.{
  Redis, Db, millis, lrange, zrange, rpush, lpop, zadd, zrem, first_of_list, up_to,
}

module _ ⦃r : Redis⦄ where
  abbrev pub ready_size : Db → ℕ
  ready_size d = length (lrange ready_queue d)

  unfoldable pub push : ℕ → String → Db → Bool × Db
  push max_size j d =
      if leb max_size (ready_size d) then (false, d) else (true, rpush ready_queue (str j) d)

  unfoldable pub pop : Db → Option Value × Db
  pop d = (first_of_list (lrange ready_queue d), lpop ready_queue d)

  unfoldable pub has_capacity : ℕ → Db → Bool
  has_capacity max_size d = ltb (ready_size d) max_size

  -- The reason of a push is only logged.
  unfoldable pub non_ready_push : ℕ → String → ℕ → ℕ → Db → Db
  non_ready_push max_backoff_ms j backoff_ms now d =
      zadd non_ready_queue (millis (now + min backoff_ms max_backoff_ms)) j d

  unfoldable pub push_with_exponential_backoff : ℕ → ℕ → String → ℕ → ℕ → Db → Db
  unfolding non_ready_push
  push_with_exponential_backoff default_backoff_ms max_backoff_ms j retry_count now d =
      non_ready_push max_backoff_ms j (min (default_backoff_ms * 2 ^ retry_count) max_backoff_ms)
        now d

  unfoldable pub peek_ready : ℕ → ℕ → Db → List String
  peek_ready limit now d = up_to limit (millis now) (zrange non_ready_queue d)

  -- ZREM key member ...
  unfoldable pub remove_all : List String → Db → Db
  remove_all [] d = d
  remove_all (j ∷ js) d = remove_all js (zrem non_ready_queue j d)

  unfoldable pub pop_ready : ℕ → ℕ → Db → List String × Db
  unfolding peek_ready remove_all
  pop_ready limit now d = let jobs = peek_ready limit now d in (jobs, remove_all jobs d)

  unfoldable pub remove : String → Db → Db
  remove j d = zrem non_ready_queue j d

  unfoldable pub non_ready_size : Db → ℕ
  non_ready_size d = length (zrange non_ready_queue d)
