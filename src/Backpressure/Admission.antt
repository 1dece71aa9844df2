-- ===== src/Backpressure/Admission.antt =====
-- libs/bulk-action/src/backpressure/BackpressureService.ts and dto/BackpressureDto.ts. Between the
-- awaited calls of `admit` other clients of the server may act: `others` are their effects.
pub mod Outcomes
use nestjs_playground.Prelude.{ℕ, Bool, true, false, if◌then◌else◌, String}
use nestjs_playground.Redis.{Redis, Db}
use nestjs_playground.Congestion.Backoff.{BackoffResponse}
use nestjs_playground.Congestion.Control.{CongestionConfig, add_to_non_ready}
use nestjs_playground.Backpressure.RateLimiter.{RateLimitResult, check_rate_limit, current_window}
use nestjs_playground.Backpressure.ReadyQueue.{push, has_capacity}

pub data BackpressureDestination : Type 0 where
  ready non_ready rejected : BackpressureDestination

-- The texts of the reasons are left out.
pub record BackpressureResponse : Type 0 where
  pub accepted : Bool
  pub destination : BackpressureDestination

abbrev pub ready_response : BackpressureResponse
ready_response = record { accepted = true; destination = ready }

abbrev pub non_ready_response : RateLimitResult → BackoffResponse → BackpressureResponse
non_ready_response limits backoff = record { accepted = true; destination = non_ready }

abbrev pub rejected_response : BackpressureResponse
rejected_response = record { accepted = false; destination = rejected }

pub record BackpressureConfig : Type 0 where
  pub ready_queue_max_size : ℕ
  pub rate_limit_window_sec : ℕ
  pub rate_limit_key_ttl_sec : ℕ
  pub congestion : CongestionConfig

module _ ⦃r : Redis⦄ (c : BackpressureConfig) (script_fails : Bool) (now : ℕ) where
  unfoldable pub requeue : String → String → Db → Db
  requeue j g d = (add_to_non_ready c.congestion script_fails j g now d).1

  -- The end of `admit`, after the rate-limit check.
  unfoldable pub place : String → String → RateLimitResult → Db → BackpressureResponse × Db
  place j g limits d =
      if limits.allowed
      then (let (pushed, d') = push c.ready_queue_max_size j d in
          (if pushed then ready_response else rejected_response, d'))
      else (let (backoff, d') = add_to_non_ready c.congestion script_fails j g now d in
          (non_ready_response limits backoff, d'))

  unfoldable pub admit :
      (others_1 others_2 : Db → Db) → String → String → Db → BackpressureResponse × Db
  unfolding place current_window
  admit others_1 others_2 j g d =
      if has_capacity c.ready_queue_max_size d
      then (let window = current_window now c.rate_limit_window_sec in
          let (limits, d') =
            check_rate_limit g window c.congestion.global_rps c.rate_limit_key_ttl_sec
              (others_1 d) in
          place j g limits (others_2 d'))
      else (rejected_response, d)
