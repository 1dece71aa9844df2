-- ===== src/Tests/Watching.antt =====
-- A group that is timed out, under the eyes of the watcher, while other clients move it on.
use nestjs_playground.Prelude.{ℕ, String, List, []}
use nestjs_playground.Watcher.StateMachine.{dispatched, running, aggregating}
use nestjs_playground.Watcher.StateMachine.Diagram.{Edge}
use nestjs_playground.Model.{num, group_status}
use nestjs_playground.Keys.{group_meta, status, timeout_at}
use nestjs_playground.Keys.{watcher_active_groups}
use nestjs_playground.Redis.{Db, sadd, hset, memory, empty_store}
use nestjs_playground.Aggregator.Scripts.{transition}
use nestjs_playground.Aggregator.Service.{Aggregator}
use nestjs_playground.Watcher.Service.{WatcherStats, WatcherConfig, watch_cycle}
use nestjs_playground.Watcher.Service.Moves.{Moves, transition-Moves}
use nestjs_playground.Watcher.Service.LifeCycle.{watch_cycle-Moves}

abbrev show : ℕ → String
show n = "1"

abbrev no_aggregators : List (Aggregator ℕ)
no_aggregators = []

abbrev watcher_config : WatcherConfig
watcher_config = record {
  lock_ttl_ms = 30;
  lock_retry_count = 2;
  stale_group_threshold_ms = 300000;
}

-- Another client starts the group, and one that runs meanwhile ends its jobs.
abbrev start : Db → Db
start d = (transition "g1" dispatched running 8 d).1

abbrev end : Db → Db
end d = (transition "g1" running aggregating 8 d).1

start-Moves : (d : Db) → Moves "g1" d (start d)
start-Moves d = transition-Moves "g1" "g1" dispatched running 8 d Edge.run

end-Moves : (d : Db) → Moves "g1" d (end d)
end-Moves d = transition-Moves "g1" "g1" running aggregating 8 d Edge.aggregate

abbrev stats : WatcherStats
stats = record { cycle_count = 1; groups_checked = 0; transitions_triggered = 0 }

-- A group that is timed out.
abbrev late_group : Db
late_group = sadd watcher_active_groups "g1" (
    hset (group_meta "g1") timeout_at (num 5)
      (hset (group_meta "g1") status (group_status dispatched) empty_store))

watch_cycle-Moves_example :
    Moves "g1" late_group
      (watch_cycle show no_aggregators watcher_config end start "t1" "t2" 9 stats late_group).1.1
watch_cycle-Moves_example =
    watch_cycle-Moves show no_aggregators watcher_config end start "t1" "t2" 9 "g1" end-Moves
      start-Moves stats late_group
