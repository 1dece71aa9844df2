-- ===== src/Congestion/Backoff/Bounds.antt =====
-- The back-off of BackoffCalculator.ts, its limits and its growth.
use nestjs_playground.Prelude.{ℕ, ◌*◌, ◌≤◌, max, ◌≡◌, arith, div-le-div, ceil_div-le_iff}
use nestjs_playground.Congestion.Backoff.{BackoffRequest, calculate, estimate_completion_time}

-- The back-off never passes the maximum, and with a base within the maximum it is at least the base.
pub calculate_bounds :
    (r : BackoffRequest)
    → r.base_backoff_ms ≤ r.max_backoff_ms
    → (r.base_backoff_ms ≤ (calculate r).backoff_ms) × ((calculate r).backoff_ms ≤ r.max_backoff_ms)
unfolding calculate
calculate_bounds r h = (omega arith, omega arith)

-- More waiting jobs at no greater speed give no shorter back-off.
pub calculate_mono :
    (r s : BackoffRequest)
    → r.base_backoff_ms ≡ s.base_backoff_ms
    → r.max_backoff_ms ≡ s.max_backoff_ms
    → r.non_ready_count ≤ s.non_ready_count
    → s.rate_limit_speed ≤ r.rate_limit_speed
    → (calculate r).backoff_ms ≤ (calculate s).backoff_ms
unfolding calculate
calculate_mono r s eb em hn hs = omega (
  arith,
  div-le-div r.non_ready_count s.non_ready_count (max 1 r.rate_limit_speed)
      (max 1 s.rate_limit_speed) hn (omega arith) (omega arith),
)

-- The estimate is the least whole number of seconds in which a speed of at least one job a second
-- drains the waiting jobs.
pub estimate_completion_time_least :
    (n v s : ℕ)
    → (n ≤ s * max 1 v → estimate_completion_time n v ≤ s * 1000)
      × (estimate_completion_time n v ≤ s * 1000 → n ≤ s * max 1 v)
unfolding estimate_completion_time
estimate_completion_time_least n v s =
    let (fewer, enough) = ceil_div-le_iff n (max 1 v) s (omega arith) in
    (λ h. omega (arith, enough h), λ h. fewer (omega arith))
