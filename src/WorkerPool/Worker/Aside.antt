-- ===== src/WorkerPool/Worker/Aside.antt =====
-- What the claim of a job, its heartbeats and its release leave alone, when nobody else acts (Worker.ts).
use nestjs_playground.Prelude.{
  ℕ, zero, suc, ◌+◌, ◌*◌, String, List, ◌∷◌, ◌≡◌, ◌≢◌, ◌∙◌, refl, inl, inr, Bool-cases, arith,
}
use nestjs_playground.Model.{Value, str}
use nestjs_playground.Keys.{Key, Field, ready_queue, in_flight_queue, in_flight_meta, job}
use nestjs_playground.Redis.{
  Redis, Db, millis, hget, lrange, zrange, has_member, store_laws, lpop, zadd,
}
use nestjs_playground.FairQueue.{read_job}
use nestjs_playground.ReliableQueue.InFlight.{
  Claim, dequeue, reliable_ack, nack, extend_deadline, write_meta, claim_head, peek,
}
use nestjs_playground.WorkerPool.Worker.{Meanwhile, heartbeats, load_job}

module _ ⦃r : Redis⦄ where
  -- Nobody else acts.
  abbrev pub alone : Db → Db
  alone d = d

  abbrev pub all_alone : ℕ → (ℕ → ℕ) → ℕ → Meanwhile
  all_alone loading late beats = record {
    before_load = λ d. d;
    acts = λ n d. d;
    loading_ms = loading;
    late_ms = late;
    beats = beats;
  }

  pub record Aside (j : String) (before after : Db) : Type 0 where
    pub hashes : (k : Key) (f : Field) → in_flight_meta j ≢ k → hget k f after ≡ hget k f before
    pub lists : (k : Key) → in_flight_meta j ≢ k → lrange k after ≡ lrange k before

  Aside-extend :
      (j : String) (extension now : ℕ) (d : Db) → Aside j d (extend_deadline j extension now d).1
  unfolding extend_deadline
  Aside-extend j extension now d = elim (Bool-cases (has_member j (zrange in_flight_queue d))) [
    | inl e ↦
        rw (e, extend_deadline)
          (record {
            hashes = λ k f h. simp store_laws (ground arith);
            lists = λ k h. simp store_laws;
          })
    | inr e ↦ rw (e, extend_deadline) (record { hashes = λ k f h. refl; lists = λ k h. refl })
  ]

  pub Aside-heartbeats :
      (loading : ℕ) (late : ℕ → ℕ) (beats n interval : ℕ) (j : String) (extension start : ℕ)
      (d : Db)
      → Aside j d (heartbeats (all_alone loading late beats) n interval j extension start d)
  unfolding heartbeats
  Aside-heartbeats loading late beats zero interval j extension start d = record {
    hashes = λ k f h. refl;
    lists = λ k h. refl;
  }
  Aside-heartbeats loading late beats (suc n) interval j extension start d =
      let earlier = Aside-heartbeats loading late beats n interval j extension start d in
      let step =
        Aside-extend j extension (start + suc n * interval + late (suc n))
          (heartbeats (all_alone loading late beats) n interval j extension start d) in
      record {
        hashes = λ k f h. step.hashes k f h ∙ earlier.hashes k f h;
        lists = λ k h. step.lists k h ∙ earlier.lists k h;
      }

  pub Aside-nack : (j : String) (d : Db) → Aside j d (nack j d)
  unfolding nack reliable_ack
  Aside-nack j d = record {
    hashes = λ k f h. simp store_laws (ground arith);
    lists = λ k h. simp store_laws (ground arith);
  }

  -- The store after the pop of the job `j` from the head of the ready queue.
  abbrev pub popped : Claim → ℕ → Db → Db
  popped c now d = (dequeue c alone now d).1

  dequeued :
      (c : Claim) (now : ℕ) (j : String) (rest : List Value) (d : Db)
      → lrange ready_queue d ≡ str j ∷ rest
      → popped c now d
        ≡ write_meta c
            (peek j d)
            j
            now
            (now + c.ack_timeout_ms)
            (zadd in_flight_queue (millis (now + c.ack_timeout_ms)) j (lpop ready_queue d))
  unfolding dequeue claim_head
  dequeued c now j rest d e = rw (popped, e, dequeue, e)

  pub hget-dequeue :
      (c : Claim) (now : ℕ) (j : String) (rest : List Value) (d : Db)
      → lrange ready_queue d ≡ str j ∷ rest
      → (i : String) (f : Field) → hget (job i) f (popped c now d) ≡ hget (job i) f d
  unfolding write_meta
  hget-dequeue c now j rest d e i f =
      rw (dequeued c now j rest d e) (simp store_laws (ground arith))

  pub lrange-dequeue :
      (c : Claim) (now : ℕ) (j : String) (rest : List Value) (d : Db)
      → lrange ready_queue d ≡ str j ∷ rest
      → (k : Key) → ready_queue ≢ k
      → lrange k (popped c now d) ≡ lrange k d
  unfolding write_meta
  lrange-dequeue c now j rest d e k h =
      rw (dequeued c now j rest d e) (simp store_laws (ground arith))

  pub load_job-dequeue :
      (c : Claim) (now : ℕ) (j : String) (rest : List Value) (d : Db)
      → lrange ready_queue d ≡ str j ∷ rest
      → load_job j (popped c now d) ≡ load_job j d
  unfolding load_job read_job
  load_job-dequeue c now j rest d e = simp (hget-dequeue c now j rest d e j)
