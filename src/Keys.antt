-- ===== src/Keys.antt =====
-- libs/bulk-action/src/key/RedisKeyBuilder.ts: one constructor for each shape of a key. The group's
-- and the global rate-limit keys share a shape, `rate-limit:<name>:<window>`.
use nestjs_playground.Prelude.{ℕ, ℕ_discrete, String}
use nestjs_playground.Model.{PriorityLevel, String-discrete}

pub data Key : Type 0 where
  fair_queue : PriorityLevel → Key
  group_jobs group_meta job : String → Key
  ready_queue non_ready_queue active_groups : Key
  rate_limit : String → ℕ → Key
  congestion_non_ready_count congestion_stats congestion_history : String → Key
  congestion_completed_count : String → Key
  dead_letter_queue : Key
  group_result group_job_results group_failed_details : String → Key
  in_flight_queue : Key
  in_flight_meta idempotency : String → Key
  group_transition_lock group_aggregation_lock : String → Key
  watcher_active_groups : Key

unfoldable pub rate_limit_group : String → ℕ → Key
rate_limit_group group_id window = rate_limit group_id window

unfoldable pub rate_limit_global : ℕ → Key
rate_limit_global window = rate_limit "global" window

unfoldable pub Key-discrete : Discrete Key
unfolding String-discrete ℕ_discrete
Key-discrete = hlevel (String-discrete, ℕ_discrete)

-- The fields of the hashes.
pub data Field : Type 0 where
  id group_id processor_type payload status retry_count created_at : Field
  total_jobs done_jobs base_priority priority_level registered_jobs timeout_at : Field
  success_count failed_count first_job_started_at last_updated_at : Field
  aggregation_start_at completed_at failed_at : Field
  job_id worker_id instance_id deadline dequeued_at : Field
  current_non_ready_count last_backoff_ms rate_limit_speed last_updated_ms : Field
  result aggregated_at : Field

unfoldable pub Field-discrete : Discrete Field
Field-discrete = hlevel
