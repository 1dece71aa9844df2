-- ===== src/Backpressure/Admission/Outcomes.antt =====
-- What `admit` of BackpressureService.ts does with a job.
use nestjs_playground.Prelude.{
  ℕ, ◌+◌, ◌≤◌, ◌<◌, Bool, true, ltb, leb, String, [], ◌∷◌, ◌++◌, length, length-append, ◌≡◌, refl,
  ap, ◌≢◌, ◌↔◌, inl, inr, Bool-cases, arith,
}
use nestjs_playground.Model.{str}
use nestjs_playground.Keys.{Key, ready_queue, non_ready_queue}
use nestjs_playground.Redis.{
  Redis, Db, lrange, zrange, store_laws, lrange-rpush, zrange-rpush, lrange-incr, lrange-decr,
  lrange-expire, lrange-sadd, zrange-incr, zrange-decr, zrange-expire, zrange-sadd,
}
use nestjs_playground.Congestion.Control.{CongestionConfig, add_to_non_ready, write_stats}
use nestjs_playground.Congestion.Control.Schedule.{DueAt, add_to_non_ready-DueAt}
use nestjs_playground.Backpressure.RateLimiter.{RateLimitResult, check_rate_limit, current_window}
use nestjs_playground.Backpressure.RateLimiter.Frame.{view-check_rate_limit}
use nestjs_playground.Backpressure.ReadyQueue.{push, has_capacity, ready_size}
use nestjs_playground.Backpressure.Admission.{
  BackpressureDestination, ready, non_ready, rejected, BackpressureConfig, place, admit,
}

module _ ⦃r : Redis⦄ where
  lrange-add_to_non_ready :
      (c : CongestionConfig) (fails : Bool) (j g : String) (now : ℕ) (k : Key) (d : Db)
      → lrange k (add_to_non_ready c fails j g now d).1 ≡ lrange k d
  unfolding add_to_non_ready write_stats
  lrange-add_to_non_ready c fails j g now k d = elim (Bool-cases c.enabled) [
    | inr e ↦ rw (e, add_to_non_ready) (simp store_laws)
    | inl e ↦ elim (Bool-cases fails) [
      | inl f ↦ rw (e, f, add_to_non_ready) (simp store_laws)
      | inr f ↦ rw (e, f, add_to_non_ready) (simp store_laws)
    ]
  ]

  lrange-check_rate_limit :
      (g : String) (window limit ttl : ℕ) (k : Key) (d : Db)
      → lrange k (check_rate_limit g window limit ttl d).1 ≡ lrange k d
  lrange-check_rate_limit g window limit ttl k d =
      view-check_rate_limit (λ d. lrange k d) (lrange-incr k) (lrange-decr k) (lrange-expire k)
        (lrange-sadd k) g window limit ttl d

  zrange-check_rate_limit :
      (g : String) (window limit ttl : ℕ) (k : Key) (d : Db)
      → zrange k (check_rate_limit g window limit ttl d).1 ≡ zrange k d
  zrange-check_rate_limit g window limit ttl k d =
      view-check_rate_limit (λ d. zrange k d) (zrange-incr k) (zrange-decr k) (zrange-expire k)
        (zrange-sadd k) g window limit ttl d

  -- What the two queues hold after a job was placed: it is at the end of the ready queue, or it is due
  -- in the non-ready queue, or neither queue has changed.
  pub data Placed (j : String) (now : ℕ) (before after : Db)
      : BackpressureDestination → Type 0 where
    at_ready :
        lrange ready_queue after ≡ lrange ready_queue before ++ str j ∷ []
        → zrange non_ready_queue after ≡ zrange non_ready_queue before
        → Placed j now before after ready
    at_non_ready :
        (wait : ℕ)
        → DueAt j (now + wait) before after
        → lrange ready_queue after ≡ lrange ready_queue before
        → Placed j now before after non_ready
    at_neither :
        lrange ready_queue after ≡ lrange ready_queue before
        → zrange non_ready_queue after ≡ zrange non_ready_queue before
        → Placed j now before after rejected

  place-Placed :
      (c : BackpressureConfig) (fails : Bool) (now : ℕ) (j g : String) (limits : RateLimitResult)
      (d : Db)
      → Placed j now d
          (place c fails now j g limits d).1
          (place c fails now j g limits d).0.destination
  unfolding place push
  place-Placed c fails now j g limits d = elim (Bool-cases limits.allowed) [
    | inl e ↦ elim (Bool-cases (leb c.ready_queue_max_size (ready_size d))) [
      | inl f ↦ rw (e, f, place) (at_neither refl refl)
      | inr f ↦ rw (e, f, place) (at_ready (rw lrange-rpush (ground arith)) (rw zrange-rpush))
    ]
    | inr e ↦
        rw (e, place)
          (at_non_ready (add_to_non_ready c.congestion fails j g now d).0.backoff_ms
            (add_to_non_ready-DueAt c.congestion fails j g now d)
            (lrange-add_to_non_ready c.congestion fails j g now ready_queue d))
  ]

  place_bound :
      (c : BackpressureConfig) (fails : Bool) (now : ℕ) (j g : String) (limits : RateLimitResult)
      (d : Db)
      → ready_size d ≤ c.ready_queue_max_size
      → ready_size (place c fails now j g limits d).1 ≤ c.ready_queue_max_size
  unfolding place push
  place_bound c fails now j g limits d h = elim (Bool-cases limits.allowed) [
    | inl e ↦ elim (Bool-cases (leb c.ready_queue_max_size (ready_size d))) [
      | inl f ↦ rw (e, f, place) h
      | inr f ↦
          rw (e, f, place)
            (ground (
              arith,
              ap length (lrange-rpush ready_queue ready_queue (str j) d),
              length-append (lrange ready_queue d) (str j ∷ []),
            ))
    ]
    | inr e ↦
        rw (e, place) (rw (lrange-add_to_non_ready c.congestion fails j g now ready_queue d) h)
  ]

  place_not_rejected :
      (c : BackpressureConfig) (fails : Bool) (now : ℕ) (j g : String) (limits : RateLimitResult)
      (d : Db)
      → ready_size d < c.ready_queue_max_size
      → (place c fails now j g limits d).0.destination ≢ rejected
  unfolding place push
  place_not_rejected c fails now j g limits d room = ground arith

  module _ (c : BackpressureConfig) (fails : Bool) (now : ℕ) (j g : String) where
    -- The store in which `admit` places the job: `others_2` acted last.
    abbrev pub at_place : (others_1 others_2 : Db → Db) → Db → Db
    at_place others_1 others_2 d =
        others_2
          (check_rate_limit g (current_window now c.rate_limit_window_sec) c.congestion.global_rps
            c.rate_limit_key_ttl_sec (others_1 d)).1

    abbrev limits_after : (Db → Db) → Db → RateLimitResult
    limits_after others_1 d =
        (check_rate_limit g (current_window now c.rate_limit_window_sec) c.congestion.global_rps
          c.rate_limit_key_ttl_sec (others_1 d)).0

    -- Whatever other clients do between its calls: where the ready queue has room at the start, `admit`
    -- places the job as it says, and keeps the ready queue within its size if the others do.
    pub admit-Placed :
        (others_1 others_2 : Db → Db) (d : Db)
        → has_capacity c.ready_queue_max_size d ≡ true
        → let out = admit c fails now others_1 others_2 j g d in
          Placed j now (at_place others_1 others_2 d) out.1 out.0.destination
          × (ready_size (at_place others_1 others_2 d) ≤ c.ready_queue_max_size
              → ready_size out.1 ≤ c.ready_queue_max_size)
    unfolding admit
    admit-Placed others_1 others_2 d room =
        rw (room, admit)
          (
            place-Placed c fails now j g (limits_after others_1 d) (at_place others_1 others_2 d),
            place_bound c fails now j g (limits_after others_1 d) (at_place others_1 others_2 d),
          )

    abbrev alone : Db → Db
    alone = at_place (λ d. d) (λ d. d)

    pub same_size : (d : Db) → ready_size (alone d) ≡ ready_size d
    same_size d = ap length (
        lrange-check_rate_limit g (current_window now c.rate_limit_window_sec)
          c.congestion.global_rps c.rate_limit_key_ttl_sec ready_queue d)

    -- With nobody interfering, `admit` rejects a job exactly when the ready queue is full, so no job that
    -- it is given while there is room is lost.
    pub admit_alone :
        (d : Db)
        → ((admit c fails now (λ d. d) (λ d. d) j g d).0.destination ≡ rejected)
          ↔ (c.ready_queue_max_size ≤ ready_size d)
    unfolding admit has_capacity
    admit_alone d = elim (Bool-cases (ltb (ready_size d) c.ready_queue_max_size)) [
      | inr full ↦ rw (full, admit) (λ e. ground arith, λ e. refl)
      | inl room ↦
          rw (room, admit)
            (
              λ e. absurd (
                  place_not_rejected c fails now j g (limits_after (λ d. d) d) (alone d)
                    (ground (arith, same_size d)) e),
              λ e. ground arith,
            )
    ]
