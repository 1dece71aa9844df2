-- ===== src/ReliableQueue/InFlight/Metadata.antt =====
-- Jobs in flight: what a dequeue, an acknowledgement and a heartbeat leave behind.
use nestjs_playground.Prelude.{
  ℕ, ◌+◌, true, false, String, Option, none, some, List, [], ◌∷◌, ◌≡◌, refl, inl, inr, Bool-cases,
  arith,
}
use nestjs_playground.Model.{Value, num, str, String-discrete}
use nestjs_playground.Keys.{
  Key, Field, ready_queue, in_flight_queue, in_flight_meta, deadline, retry_count, group_id,
}
use nestjs_playground.Redis.{
  Redis, Db, Member, millis, hget, lrange, zrange, lpop, zadd, zrem, del, score_in, has_member,
  without_member, store_laws, lrange-zadd, lrange-lpop, zrange-hset, zrange-zadd, zrange-del,
  zrange-zrem, hget-del, score_in-insert_self, score_in-without_self, hget-hset,
}
use nestjs_playground.ReliableQueue.InFlight.{
  DequeueResult, Claim, Peek, write_meta, claim_head, peek, dequeue, reliable_ack, extend_deadline,
}

module _ ⦃r : Redis⦄ where
  -- What a worker has taken: the job, its deadline, and what the metadata say of it.
  pub record Taken (j : String) (due : ℕ) (rest : List Value) (p : Peek)
      (out : Option DequeueResult × Db) : Type 0 where
    pub result : out.0 ≡ some (record { job_id = j; deadline = due })
    pub popped : lrange ready_queue out.1 ≡ rest
    pub timed : score_in j (zrange in_flight_queue out.1) ≡ some (millis due)
    pub retries : hget (in_flight_meta j) retry_count out.1 ≡ some p.retry_count
    pub group : hget (in_flight_meta j) group_id out.1 ≡ some p.group_id

  zadd_in_flight :
      (j : String) (due : ℕ) (d : Db)
      → score_in j (zrange in_flight_queue (zadd in_flight_queue (millis due) j d))
        ≡ some (millis due)
  zadd_in_flight j due d = rw zrange-zadd (
      ground (
        arith,
        score_in-insert_self r.before (record { member = j; score = millis due })
            (without_member j (zrange in_flight_queue d))
            (score_in-without_self j (zrange in_flight_queue d)),
      ))

  lrange-write_meta :
      (k : Key) (c : Claim) (p : Peek) (j : String) (now due : ℕ) (d : Db)
      → lrange k (write_meta c p j now due d) ≡ lrange k d
  unfolding write_meta
  lrange-write_meta k c p j now due d = simp store_laws

  zrange-write_meta :
      (k : Key) (c : Claim) (p : Peek) (j : String) (now due : ℕ) (d : Db)
      → zrange k (write_meta c p j now due d) ≡ zrange k d
  unfolding write_meta
  zrange-write_meta k c p j now due d = simp store_laws

  retries-write_meta :
      (c : Claim) (p : Peek) (j : String) (now due : ℕ) (d : Db)
      → hget (in_flight_meta j) retry_count (write_meta c p j now due d) ≡ some p.retry_count
  unfolding write_meta
  retries-write_meta c p j now due d = simp hget-hset (ground arith)

  group-write_meta :
      (c : Claim) (p : Peek) (j : String) (now due : ℕ) (d : Db)
      → hget (in_flight_meta j) group_id (write_meta c p j now due d) ≡ some p.group_id
  unfolding write_meta
  group-write_meta c p j now due d = simp hget-hset (ground arith)

  claim_head-Taken :
      (c : Claim) (p : Peek) (now : ℕ) (j : String) (rest : List Value) (d : Db)
      → lrange ready_queue d ≡ str j ∷ rest
      → Taken j (now + c.ack_timeout_ms) rest p (claim_head c p now (some (str j)) d)
  unfolding claim_head
  claim_head-Taken c p now j rest d e = record {
    result = refl;
    popped = rw (lrange-write_meta, lrange-zadd, lrange-lpop) (ground arith);
    timed = rw zrange-write_meta (zadd_in_flight j (now + c.ack_timeout_ms) (lpop ready_queue d));
    retries =
        retries-write_meta c p j now (now + c.ack_timeout_ms)
          (zadd in_flight_queue (millis (now + c.ack_timeout_ms)) j (lpop ready_queue d));
    group =
        group-write_meta c p j now (now + c.ack_timeout_ms)
          (zadd in_flight_queue (millis (now + c.ack_timeout_ms)) j (lpop ready_queue d));
  }

  -- Whatever others do between the look at the head of the ready queue and the pop: the worker gets the
  -- job that is the head when the script runs, in flight until its deadline, but the metadata hold the
  -- retry count and the group of the job that was the head at the look.
  pub dequeue-Taken :
      (c : Claim) (others : Db → Db) (now : ℕ) (peeked j : String) (queue rest : List Value)
      (d : Db)
      → lrange ready_queue d ≡ str peeked ∷ queue
      → lrange ready_queue (others d) ≡ str j ∷ rest
      → Taken j (now + c.ack_timeout_ms) rest (peek peeked d) (dequeue c others now d)
  unfolding dequeue
  dequeue-Taken c others now peeked j queue rest d e f =
      rw e (rw f (claim_head-Taken c (peek peeked d) now j rest (others d) f))

  has_member-without : (m : String) (xs : List Member) → has_member m (without_member m xs) ≡ false
  unfolding String-discrete
  has_member-without m [] = refl
  has_member-without m (x ∷ xs) = ground (arith, has_member-without m xs)

  hget-del_self : (k : Key) (f : Field) (d : Db) → hget k f (del k d) ≡ none
  hget-del_self k f d = rw hget-del (ground arith)

  -- An acknowledgement says whether the job was still in flight; after it the job is not in flight, its
  -- metadata are gone, and a second acknowledgement is late.
  pub reliable_ack_once :
      (j : String) (d : Db)
      → let (acked, d') = reliable_ack j d in
        (acked ≡ has_member j (zrange in_flight_queue d))
        × (has_member j (zrange in_flight_queue d') ≡ false)
        × ((f : Field) → hget (in_flight_meta j) f d' ≡ none)
        × ((reliable_ack j d').0 ≡ false)
        × (lrange ready_queue d' ≡ lrange ready_queue d)
  unfolding reliable_ack
  reliable_ack_once j d = (
    refl,
    left,
    λ f. hget-del_self (in_flight_meta j) f (zrem in_flight_queue j d),
    left,
    simp store_laws (ground arith),
  )
    where
      left : has_member j (zrange in_flight_queue (reliable_ack j d).1) ≡ false
      left =
          rw (zrange-del, zrange-zrem)
            (ground (arith, has_member-without j (zrange in_flight_queue d)))

  -- A heartbeat moves the deadline of a job that is in flight, and leaves the store alone for any other.
  pub extend_deadline_lem :
      (j : String) (extension now : ℕ) (d : Db)
      → let (extended, d') = extend_deadline j extension now d in
        (extended ≡ has_member j (zrange in_flight_queue d))
        × (extended ≡ true
            → (score_in j (zrange in_flight_queue d') ≡ some (millis (now + extension)))
              × (hget (in_flight_meta j) deadline d' ≡ some (num (now + extension))))
        × (extended ≡ false → d' ≡ d)
  unfolding extend_deadline
  extend_deadline_lem j extension now d =
      elim (Bool-cases (has_member j (zrange in_flight_queue d))) [
        | inl e ↦ rw e (
          refl,
          (λ _.
              (rw zrange-hset (zadd_in_flight j (now + extension) d), rw hget-hset (ground arith))),
          λ q. cc,
        )
        | inr e ↦ rw e (refl, (λ q. cc), λ _. refl)
      ]
