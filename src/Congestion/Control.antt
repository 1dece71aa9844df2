-- ===== src/Congestion/Control.antt =====
-- libs/bulk-action/src/congestion/CongestionControlService.ts with lua/congestion-backoff.lua. A call
-- of the script that raises an error is the argument `script_fails`: it then has no effect.
-- No other client acts between the calls of a method.
pub mod Schedule
pub mod Frame
use nestjs_playground.Prelude.{
  ℕ, ◌+◌, ◌*◌, ◌/◌, max, Bool, ltb, if◌then◌else◌, String, length, List, [], ◌∷◌, map,
}
use nestjs_playground.Model.{Value, num, str, to_number}
use nestjs_playground.Keys.{
  non_ready_queue, congestion_stats, congestion_non_ready_count, active_groups,
  current_non_ready_count, last_backoff_ms, rate_limit_speed, last_updated_ms,
}
use nestjs_playground.Redis.{Redis, Db, millis, hget, get, smembers, hset, zadd, incr, del}
use nestjs_playground.Congestion.Backoff.{
  BackoffResponse, CongestionLevel, calculate, classify, fixed_backoff_response,
}

pub record CongestionConfig : Type 0 where
  pub enabled : Bool
  pub base_backoff_ms : ℕ
  pub max_backoff_ms : ℕ
  pub global_rps : ℕ

-- `{backoffMs, nonReadyCount, rateLimitSpeed}`
pub record ScriptBackoff : Type 0 where
  pub backoff_ms : ℕ
  pub non_ready_count : ℕ
  pub rate_limit_speed : ℕ

pub record GroupCongestionState : Type 0 where
  pub group_id : String
  pub non_ready_count : ℕ
  pub rate_limit_speed : ℕ
  pub last_backoff_ms : ℕ
  pub congestion_level : CongestionLevel

pub record SystemCongestionSummary : Type 0 where
  pub total_non_ready_count : ℕ
  pub active_group_count : ℕ
  pub groups : List GroupCongestionState

unfoldable pub total_waiting : List GroupCongestionState → ℕ
total_waiting [] = 0
total_waiting (s ∷ rest) = s.non_ready_count + total_waiting rest

module _ ⦃r : Redis⦄ where
  -- Steps 1 to 4 of congestion-backoff.lua, on the store after its INCR.
  unfoldable pub script_backoff : CongestionConfig → String → Db → ScriptBackoff
  script_backoff c g d =
      let count = to_number (get (congestion_non_ready_count g) d) in
      let groups = length (smembers active_groups d) in
      let speed = max 1 (c.global_rps / (if ltb groups 1 then 1 else groups)) in
      let wait = c.base_backoff_ms + count / speed * 1000 in
      record {
        backoff_ms = if ltb c.max_backoff_ms wait then c.max_backoff_ms else wait;
        non_ready_count = count;
        rate_limit_speed = speed;
      }

  -- Step 6 of congestion-backoff.lua.
  unfoldable pub write_stats : String → ScriptBackoff → ℕ → Db → Db
  write_stats g b now d = hset (congestion_stats g) last_updated_ms (num now) (
      hset (congestion_stats g) rate_limit_speed (num b.rate_limit_speed) (
        hset (congestion_stats g) last_backoff_ms (num b.backoff_ms)
          (hset (congestion_stats g) current_non_ready_count (num b.non_ready_count) d)))

  unfoldable pub congestion_backoff :
      CongestionConfig → String → String → ℕ → Db → ScriptBackoff × Db
  unfolding script_backoff write_stats
  congestion_backoff c j g now d =
      let counted = incr (congestion_non_ready_count g) d in
      let b = script_backoff c g counted in
      (b, write_stats g b now (zadd non_ready_queue (millis (now + b.backoff_ms)) j counted))

  unfoldable pub fixed_backoff : CongestionConfig → String → ℕ → Db → BackoffResponse × Db
  fixed_backoff c j now d = (
    fixed_backoff_response c.base_backoff_ms,
    zadd non_ready_queue (millis (now + c.base_backoff_ms)) j d,
  )

  -- The answer to a script that ran.
  unfoldable pub respond : CongestionConfig → ScriptBackoff → BackoffResponse
  respond c b = calculate (record {
    non_ready_count = b.non_ready_count;
    rate_limit_speed = b.rate_limit_speed;
    base_backoff_ms = c.base_backoff_ms;
    max_backoff_ms = c.max_backoff_ms;
  })

  unfoldable pub add_to_non_ready :
      CongestionConfig → Bool → String → String → ℕ → Db → BackoffResponse × Db
  unfolding congestion_backoff fixed_backoff respond
  add_to_non_ready c script_fails j g now d =
      if c.enabled
      then (if script_fails
          then fixed_backoff c j now d
          else (let (b, d') = congestion_backoff c j g now d in (respond c b, d')))
      else fixed_backoff c j now d

  unfoldable pub get_congestion_state : CongestionConfig → String → Db → GroupCongestionState
  get_congestion_state c g d =
      let last = to_number (hget (congestion_stats g) last_backoff_ms d) in
      record {
        group_id = g;
        non_ready_count = to_number (get (congestion_non_ready_count g) d);
        rate_limit_speed = max 1 (c.global_rps / max 1 (length (smembers active_groups d)));
        last_backoff_ms = last;
        congestion_level = classify last c.base_backoff_ms;
      }

  unfoldable pub get_system_congestion_summary : CongestionConfig → Db → SystemCongestionSummary
  unfolding get_congestion_state total_waiting
  get_system_congestion_summary c d =
      let group_ids = smembers active_groups d in
      let groups = map (λ g. get_congestion_state c g d) group_ids in
      record {
        total_non_ready_count = total_waiting groups;
        active_group_count = length group_ids;
        groups = groups;
      }

  unfoldable pub reset_group_stats : String → Db → Db
  reset_group_stats g d = del (congestion_stats g) (del (congestion_non_ready_count g) d)
