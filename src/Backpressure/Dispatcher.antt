-- ===== src/Backpressure/Dispatcher.antt =====
-- libs/bulk-action/src/backpressure/DispatcherService.ts with lua/move-to-ready.lua. Between the look at the
-- ready queue and the script other clients act as `others`. Either call may fail; one that fails has no effect
-- on the store.
pub mod Moves
use nestjs_playground.Prelude.{
  ℕ, zero, suc, ◌+◌, Bool, true, false, ltb, if◌then◌else◌, String, Option, none, some, length,
  List, [], ◌∷◌,
}
use nestjs_playground.Model.{Value, num, neg, str, to_text, to_number}
use nestjs_playground.Keys.{
  ready_queue, non_ready_queue, job, group_id, congestion_non_ready_count, congestion_stats,
  current_non_ready_count,
}
use nestjs_playground.Redis.{
  Redis, Db, millis, hget, get, lrange, zrange, hset, rpush, zrem, set, decr, up_to,
}
use nestjs_playground.Backpressure.ReadyQueue.{has_capacity}

pub record DispatcherStats : Type 0 where
  pub total_moved : ℕ
  pub total_cycles : ℕ
  pub total_skipped : ℕ

pub record Dispatcher : Type 0 where
  pub dispatching : Bool
  pub stats : DispatcherStats

abbrev is_negative : Option Value → Bool
is_negative (some (neg n)) = true
is_negative _ = false

module _ ⦃r : Redis⦄ where
  -- The floor at 0 after the DECR; `max(0, newCount)` is what the statistics show.
  unfoldable pub release_one : String → Db → Db
  release_one g d =
      let key = congestion_non_ready_count g in
      let d' = decr key d in
      let count = to_number (get key d') in
      let d'' = if is_negative (get key d') then set key (num 0) d' else d' in
      hset (congestion_stats g) current_non_ready_count (num count) d''

  unfoldable pub release_group : Option Value → Db → Db
  unfolding release_one
  release_group none d = d
  release_group (some g) d = release_one (to_text (some g)) d

  unfoldable pub move_one : String → Db → Db
  unfolding release_group
  move_one j d =
      let moved = rpush ready_queue (str j) (zrem non_ready_queue j d) in
      release_group (hget (job j) group_id moved) moved

  unfoldable pub move_jobs : List String → Db → Db
  move_jobs [] d = d
  move_jobs (j ∷ js) d = move_jobs js (move_one j d)

  unfoldable pub move_to_ready : ℕ → ℕ → Db → ℕ × Db
  unfolding move_jobs
  move_to_ready now batch d =
      let jobs = up_to batch (millis now) (zrange non_ready_queue d) in
      (length jobs, move_jobs jobs d)

  -- `this.dispatching = true` and `totalCycles++`
  abbrev pub begun : Dispatcher → Dispatcher
  begun s = record {
    dispatching = true;
    stats = record s.stats { total_cycles = s.stats.total_cycles + 1 };
  }

  abbrev pub skipped : Dispatcher → Dispatcher
  skipped s = record s { stats = record s.stats { total_skipped = s.stats.total_skipped + 1 } }

  abbrev pub with_moved : ℕ → Dispatcher → Dispatcher
  with_moved n s = record s { stats = record s.stats { total_moved = s.stats.total_moved + n } }

  -- `moveToReady`, and the `catch` of its error.
  unfoldable pub try_move : Bool → ℕ → ℕ → Dispatcher → Db → ℕ × Dispatcher × Db
  unfolding move_to_ready
  try_move move_fails batch now s d =
      if move_fails
      then (0, s, d)
      else (let (moved, d') = move_to_ready now batch d in (moved, with_moved moved s, d'))

  -- The `try` and the `catch`.
  unfoldable pub try_dispatch :
      Bool → Bool → (Db → Db) → ℕ → ℕ → ℕ → Dispatcher → Db → ℕ × Dispatcher × Db
  unfolding try_move
  try_dispatch look_fails move_fails others max_size batch now s d =
      if look_fails
      then (0, s, d)
      else if has_capacity max_size d
      then try_move move_fails batch now s (others d)
      else (0, skipped s, d)

  -- With the `finally`.
  unfoldable pub dispatch :
      Bool → Bool → (Db → Db) → ℕ → ℕ → ℕ → Dispatcher → Db → ℕ × Dispatcher × Db
  unfolding try_dispatch
  dispatch look_fails move_fails others max_size batch now s d =
      if s.dispatching
      then (0, s, d)
      else (let (moved, s', d') =
            try_dispatch look_fails move_fails others max_size batch now (begun s) d in
          (moved, record s' { dispatching = false }, d'))
