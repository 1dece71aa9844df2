-- ===== src/ReliableQueue/InFlight.antt =====
-- libs/bulk-action/src/reliable-queue/ReliableQueueService.ts and InFlightQueueService.ts, with
-- lua/reliable-dequeue.lua, lua/reliable-ack.lua and lua/extend-deadline.lua. Between the look at the
-- head of the ready queue and the script that pops it, other clients may act: `others` is their effect.
pub mod Metadata
use nestjs_playground.Prelude.{
  ℕ, ◌+◌, Bool, true, false, not, if◌then◌else◌, String, Option, none, some, List, [], ◌∷◌, length,
  map,
}
use nestjs_playground.Model.{Value, num, str, to_text, to_number}
use nestjs_playground.Keys.{
  ready_queue, in_flight_queue, in_flight_meta, job, job_id, worker_id, instance_id, deadline,
  dequeued_at, retry_count, group_id,
}
use nestjs_playground.Keys.{Field}
use nestjs_playground.Model.{to_number, String-discrete}
use nestjs_playground.Redis.{same_text}
use nestjs_playground.Redis.{
  Redis, Db, Member, millis, hget, lrange, zrange, hset, lpop, zadd, zrem, del, first_of_list,
  score_in, has_member, Score, score_le, keep_le,
}

pub record DequeueResult : Type 0 where
  pub job_id : String
  pub deadline : ℕ

pub record InFlightEntry : Type 0 where
  pub job_id : String
  pub worker_id : String
  pub instance_id : String
  pub deadline : ℕ
  pub dequeued_at : ℕ
  pub retry_count : ℕ
  pub group_id : String

-- The worker, the instance, and the acknowledgement time-out.
pub record Claim : Type 0 where
  pub worker_id : String
  pub instance_id : String
  pub ack_timeout_ms : ℕ

-- What the look at the head of the queue found: `retryCount ?? '0'` and `groupId ?? ''`.
pub record Peek : Type 0 where
  pub retry_count : Value
  pub group_id : Value

abbrev default_value : Value → Option Value → Value
default_value v none = v
default_value v (some w) = w

module _ ⦃r : Redis⦄ where
  -- Step 4 of reliable-dequeue.lua.
  unfoldable pub write_meta : Claim → Peek → String → ℕ → ℕ → Db → Db
  write_meta c p j now due d =
      let meta = in_flight_meta j in
      hset meta group_id p.group_id (
        hset meta retry_count p.retry_count (
          hset meta dequeued_at (num now) (
            hset meta deadline (num due) (
              hset meta instance_id (str c.instance_id)
                (hset meta worker_id (str c.worker_id) (hset meta job_id (str j) d))))))

  -- reliable-dequeue.lua
  unfoldable pub claim_head : Claim → Peek → ℕ → Option Value → Db → Option DequeueResult × Db
  unfolding write_meta
  claim_head c p now none d = (none, d)
  claim_head c p now (some v) d =
      let j = to_text (some v) in
      let due = now + c.ack_timeout_ms in
      (
        some (record { job_id = j; deadline = due }),
        write_meta c p j now due (zadd in_flight_queue (millis due) j (lpop ready_queue d)),
      )

  unfoldable pub peek : String → Db → Peek
  peek j d = record {
    retry_count = default_value (num 0) (hget (job j) retry_count d);
    group_id = default_value (str "") (hget (job j) group_id d);
  }

  unfoldable pub dequeue_after :
      Claim → Option Value → (Db → Db) → ℕ → Db → Option DequeueResult × Db
  unfolding claim_head peek
  dequeue_after c none others now d = (none, d)
  dequeue_after c (some v) others now d =
      let d' = others d in
      claim_head c (peek (to_text (some v)) d) now (first_of_list (lrange ready_queue d')) d'

  unfoldable pub dequeue : Claim → (Db → Db) → ℕ → Db → Option DequeueResult × Db
  unfolding dequeue_after
  dequeue c others now d = dequeue_after c (first_of_list (lrange ready_queue d)) others now d

  -- `removed === 1`
  unfoldable pub reliable_ack : String → Db → Bool × Db
  reliable_ack j d =
      (has_member j (zrange in_flight_queue d), del (in_flight_meta j) (zrem in_flight_queue j d))

  unfoldable pub nack : String → Db → Db
  unfolding reliable_ack
  nack j d = (reliable_ack j d).1

  unfoldable pub extend_deadline : String → ℕ → ℕ → Db → Bool × Db
  extend_deadline j extension now d =
      if has_member j (zrange in_flight_queue d)
      then (
        true,
        hset (in_flight_meta j) deadline (num (now + extension))
            (zadd in_flight_queue (millis (now + extension)) j d),
      )
      else (false, d)

  unfoldable pub in_flight_size : Db → ℕ
  in_flight_size d = length (zrange in_flight_queue d)

  unfoldable pub is_in_flight : String → Db → Bool
  is_in_flight j d = has_member j (zrange in_flight_queue d)

  -- ZCOUNT key -inf now
  unfoldable pub orphaned_count : ℕ → Db → ℕ
  orphaned_count now d = length (keep_le (millis now) (zrange in_flight_queue d))

  unfoldable pub get_all_entries : Db → List Member
  get_all_entries d = zrange in_flight_queue d

  -- A missing `jobId` is falsy, and so is an empty one.
  unfoldable pub get_entry : String → Db → Option InFlightEntry
  unfolding String-discrete
  get_entry j d =
      let text_at : Field → String = λ f. to_text (hget (in_flight_meta j) f d) in
      let number_at : Field → ℕ = λ f. to_number (hget (in_flight_meta j) f d) in
      if same_text (text_at job_id) ""
      then none
      else some (record {
        job_id = text_at job_id;
        worker_id = text_at worker_id;
        instance_id = text_at instance_id;
        deadline = number_at deadline;
        dequeued_at = number_at dequeued_at;
        retry_count = number_at retry_count;
        group_id = text_at group_id;
      })
