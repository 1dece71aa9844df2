-- ===== src/Tests/Limits.antt =====
-- Jobs that are admitted, held back and dispatched.
use nestjs_playground.Prelude.{
  ◌+◌, ◌≤◌, ◌<◌, true, false, String, none, [], ◌∷◌, ◌≡◌, ◌≢◌, ◌↔◌, refl,
}
use nestjs_playground.Model.{str, str_eq-differ}
use nestjs_playground.Keys.{Key, rate_limit, active_groups, ready_queue, non_ready_queue}
use nestjs_playground.Redis.{Db, millis, get, lrange, sadd, rpush, zadd, memory, empty_store}
use nestjs_playground.Congestion.Control.{CongestionConfig, add_to_non_ready}
use nestjs_playground.Congestion.Control.Schedule.{DueAt, add_to_non_ready-DueAt}
use nestjs_playground.Backpressure.RateLimiter.{count_at, group_share, check_rate_limit}
use nestjs_playground.Backpressure.RateLimiter.Counts.{Charged, check_rate_limit_counts}
use nestjs_playground.Backpressure.RateLimiter.Window.{run_checks, run_checks_limit}
use nestjs_playground.Backpressure.ReadyQueue.{has_capacity, ready_size}
use nestjs_playground.Backpressure.Admission.{BackpressureConfig, admit}
use nestjs_playground.Backpressure.Admission.Outcomes.{Placed, at_place, admit-Placed}
use nestjs_playground.Backpressure.Dispatcher.{Dispatcher}

no_counter : (k : Key) → get k empty_store ≡ none
unfolding get
no_counter k = refl

abbrev group_1 : String
group_1 = "g1"

not_global : group_1 ≢ "global"
not_global = str_eq-differ "g1" "global" refl

check_rate_limit_counts_example :
    (((check_rate_limit "g1" 7 2 60 empty_store).0.allowed ≡ true) ↔ (
      (count_at (rate_limit "global" 7) empty_store < 2)
      × (count_at (rate_limit "g1" 7) empty_store
          < group_share 2 (sadd active_groups "g1" empty_store))))
    × Charged "g1" 7 2 60 empty_store (check_rate_limit "g1" 7 2 60 empty_store)
unfolding get
check_rate_limit_counts_example = check_rate_limit_counts "g1" 7 2 60 not_global empty_store tt tt

run_checks_limit_example :
    ((run_checks 7 2 60 ("g1" ∷ "g1" ∷ "g1" ∷ []) empty_store).0 ≤ 2)
    × (count_at (rate_limit "global" 7) (run_checks 7 2 60 ("g1" ∷ "g1" ∷ "g1" ∷ []) empty_store).1
        ≡ (run_checks 7 2 60 ("g1" ∷ "g1" ∷ "g1" ∷ []) empty_store).0)
run_checks_limit_example =
    run_checks_limit 7 2 60 ("g1" ∷ "g1" ∷ "g1" ∷ []) empty_store
      (not_global, (not_global, (not_global, tt))) (no_counter (rate_limit "global" 7))

abbrev congestion_config : CongestionConfig
congestion_config = record {
  enabled = true;
  base_backoff_ms = 1000;
  max_backoff_ms = 120000;
  global_rps = 2;
}

add_to_non_ready-DueAt_example :
    DueAt "j1"
      (9 + (add_to_non_ready congestion_config false "j1" "g1" 9 empty_store).0.backoff_ms)
      empty_store
      (add_to_non_ready congestion_config false "j1" "g1" 9 empty_store).1
add_to_non_ready-DueAt_example =
    add_to_non_ready-DueAt congestion_config false "j1" "g1" 9 empty_store

abbrev config : BackpressureConfig
config = record {
  ready_queue_max_size = 2;
  rate_limit_window_sec = 1;
  rate_limit_key_ttl_sec = 2;
  congestion = congestion_config;
}

-- While the job is checked, another client fills a place of the ready queue.
abbrev intruder : Db → Db
intruder d = rpush ready_queue (str "j9") d

abbrev quiet : Db → Db
quiet d = d

empty_has_capacity : has_capacity 2 empty_store ≡ true
unfolding has_capacity lrange
empty_has_capacity = refl

admit-Placed_example :
    let placing = at_place config false 9 "j1" "g1" quiet intruder empty_store in
    let out = admit config false 9 quiet intruder "j1" "g1" empty_store in
    Placed "j1" 9 placing out.1 out.0.destination × (ready_size placing ≤ 2 → ready_size out.1 ≤ 2)
admit-Placed_example =
    admit-Placed config false 9 "j1" "g1" quiet intruder empty_store empty_has_capacity

abbrev waiting : Db
waiting = zadd non_ready_queue (millis 20) "j2" (zadd non_ready_queue (millis 10) "j1" empty_store)

abbrev idle : Dispatcher
idle = record {
  dispatching = false;
  stats = record { total_moved = 0; total_cycles = 0; total_skipped = 0 };
}
