-- ===== src/Congestion/Backoff.antt =====
-- libs/bulk-action/src/congestion/BackoffCalculator.ts and dto/BackoffDto.ts. Counts, speeds and
-- milliseconds are natural numbers; `ratio < k` is compared without the division, as
-- `backoffMs < k * baseBackoffMs`.
pub mod Bounds
pub mod Levels
use nestjs_playground.Prelude.{
  ℕ, ◌+◌, ◌-◌, ◌*◌, ◌/◌, min, max, Bool, ltb, leb, ◌==◌, ceil_div, if◌then◌else◌,
}

pub record BackoffRequest : Type 0 where
  pub non_ready_count : ℕ
  pub rate_limit_speed : ℕ
  pub base_backoff_ms : ℕ
  pub max_backoff_ms : ℕ

pub data CongestionLevel : Type 0 where
  none_level low moderate high critical : CongestionLevel

pub record BackoffResponse : Type 0 where
  pub backoff_ms : ℕ
  pub non_ready_count : ℕ
  pub rate_limit_speed : ℕ
  pub congestion_level : CongestionLevel

unfoldable pub classify : ℕ → ℕ → CongestionLevel
classify backoff_ms base_backoff_ms =
    if base_backoff_ms == 0
    then none_level
    else if leb backoff_ms base_backoff_ms
    then none_level
    else if ltb backoff_ms (3 * base_backoff_ms)
    then low
    else if ltb backoff_ms (10 * base_backoff_ms)
    then moderate
    else if ltb backoff_ms (30 * base_backoff_ms)
    then high
    else critical

unfoldable pub calculate : BackoffRequest → BackoffResponse
calculate r =
    let safe_speed = max 1 r.rate_limit_speed in
    let backoff_ms =
      min (r.base_backoff_ms + r.non_ready_count / safe_speed * 1000) r.max_backoff_ms in
    record {
      backoff_ms = backoff_ms;
      non_ready_count = r.non_ready_count;
      rate_limit_speed = safe_speed;
      congestion_level = classify backoff_ms r.base_backoff_ms;
    }

unfoldable pub fixed_backoff_response : ℕ → BackoffResponse
fixed_backoff_response base_backoff_ms = record {
  backoff_ms = base_backoff_ms;
  non_ready_count = 0;
  rate_limit_speed = 0;
  congestion_level = none_level;
}

unfoldable pub estimate_completion_time : ℕ → ℕ → ℕ
estimate_completion_time non_ready_count rate_limit_speed =
    ceil_div non_ready_count (max 1 rate_limit_speed) * 1000
