-- ===== src/Backpressure/RateLimiter.antt =====
-- libs/bulk-action/src/backpressure/RateLimiterService.ts with lua/rate-limit-check.lua. The expiry of
-- the counters with their window is a step of the environment; a check starts in a given window.
pub mod Counts
pub mod Window
pub mod Frame
use nestjs_playground.Prelude.{
  ℕ, ◌-◌, ◌*◌, ◌/◌, max, Bool, true, false, ltb, ◌==◌, if◌then◌else◌, String, length,
}
use nestjs_playground.Model.{Value, num, str, to_number}
use nestjs_playground.Keys.{Key, rate_limit, rate_limit_group, rate_limit_global, active_groups}
use nestjs_playground.Redis.{Redis, Db, get, smembers, sadd, srem, incr, decr, expire}

pub record RateLimitResult : Type 0 where
  pub allowed : Bool
  pub global_count : ℕ
  pub global_limit : ℕ
  pub group_count : ℕ
  pub per_group_limit : ℕ

pub record RateLimitStatus : Type 0 where
  pub global_count : ℕ
  pub global_limit : ℕ
  pub group_count : ℕ
  pub per_group_limit : ℕ
  pub active_group_count : ℕ

-- `Math.floor(Date.now() / (rateLimitWindowSec * 1000))`
unfoldable pub current_window : ℕ → ℕ → ℕ
current_window now window_sec = now / (window_sec * 1000)

module _ ⦃r : Redis⦄ where
  abbrev pub count_at : Key → Db → ℕ
  count_at k d = to_number (get k d)

  -- `max(1, floor(globalLimit / max(1, SCARD active-groups)))`
  unfoldable pub group_share : ℕ → Db → ℕ
  group_share limit d = max 1 (limit / max 1 (length (smembers active_groups d)))

  -- INCR, and EXPIRE at the first count.
  unfoldable pub count_up : Key → ℕ → Db → Db
  count_up k ttl d = let d' = incr k d in if count_at k d' == 1 then expire k ttl d' else d'

  -- Step 3 of the script, after the global count.
  unfoldable pub check_group : String → ℕ → ℕ → ℕ → Db → RateLimitResult × Db
  unfolding rate_limit_group rate_limit_global group_share count_up
  check_group g window limit ttl d =
      let share = group_share limit d in
      let d' = count_up (rate_limit_group g window) ttl d in
      let global_count = count_at (rate_limit_global window) d in
      let group_count = count_at (rate_limit_group g window) d' in
      if ltb share group_count
      then (
        record {
          allowed = false;
          global_count = global_count;
          global_limit = limit;
          group_count = group_count - 1;
          per_group_limit = share;
        },
        decr (rate_limit_global window) (decr (rate_limit_group g window) d'),
      )
      else (
        record {
          allowed = true;
          global_count = global_count;
          global_limit = limit;
          group_count = group_count;
          per_group_limit = share;
        },
        d',
      )

  unfoldable pub check_rate_limit : String → ℕ → ℕ → ℕ → Db → RateLimitResult × Db
  unfolding check_group rate_limit_global count_up
  check_rate_limit g window limit ttl d =
      let d' = count_up (rate_limit_global window) ttl (sadd active_groups g d) in
      let global_count = count_at (rate_limit_global window) d' in
      if ltb limit global_count
      then (
        record {
          allowed = false;
          global_count = global_count - 1;
          global_limit = limit;
          group_count = 0;
          per_group_limit = 0;
        },
        decr (rate_limit_global window) d',
      )
      else check_group g window limit ttl d'

  unfoldable pub deactivate_group : String → Db → Db
  deactivate_group g d = srem active_groups g d

  unfoldable pub get_status : String → ℕ → ℕ → Db → RateLimitStatus
  unfolding group_share rate_limit_group rate_limit_global
  get_status g window limit d = record {
    global_count = count_at (rate_limit_global window) d;
    global_limit = limit;
    group_count = count_at (rate_limit_group g window) d;
    per_group_limit = group_share limit d;
    active_group_count = length (smembers active_groups d);
  }
