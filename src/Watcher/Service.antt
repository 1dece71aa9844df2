-- ===== src/Watcher/Service.antt =====
-- libs/bulk-action/src/watcher/WatcherService.ts: one cycle of the watcher over its groups. Other clients act as
-- `others`, a function of the store that is the same each time, between its calls: after the list of groups was read, after a group's metadata were read, between
-- two groups, inside a lock before and after the second reading of the status, and within `finalizeGroup` as
-- Aggregator.Service says. `sleep` is their effect during a wait for a lock. An error that an operation throws ends the cycle.
pub mod Moves
pub mod LifeCycle
use nestjs_playground.Prelude.{
  ℕ, zero, suc, ◌+◌, ◌-◌, Bool, true, false, ◌&&◌, ltb, leb, ◌==◌, if◌then◌else◌, String, Option,
  none, some, List, [], ◌∷◌,
}
use nestjs_playground.Watcher.StateMachine.{
  GroupStatus, created, dispatched, running, aggregating, completed, failed, is_valid_transition,
  requires_lock, is_terminal,
}
use nestjs_playground.Model.{Value, to_number, to_status}
use nestjs_playground.Keys.{
  Field, group_meta, group_transition_lock, group_aggregation_lock, watcher_active_groups, status,
  total_jobs, registered_jobs, first_job_started_at, success_count, failed_count,
  aggregation_start_at, timeout_at,
}
use nestjs_playground.Redis.{Redis, Db, hget, smembers, srem}
use nestjs_playground.Lock.{Outcome, returns, throws, with_lock}
use nestjs_playground.Aggregator.Scripts.{transition}
use nestjs_playground.Aggregator.Service.{Aggregator, finalize_group}

pub record WatcherStats : Type 0 where
  pub cycle_count : ℕ
  pub groups_checked : ℕ
  pub transitions_triggered : ℕ

pub record WatcherConfig : Type 0 where
  pub lock_ttl_ms : ℕ
  pub lock_retry_count : ℕ
  pub stale_group_threshold_ms : ℕ

-- `transitionsTriggered++` after a transition that took place.
abbrev pub triggered : Bool → WatcherStats → WatcherStats
triggered b s = if b then record s { transitions_triggered = s.transitions_triggered + 1 } else s

-- The error that a callback threw.
abbrev pub error_of {ℓ} : {A : Type ℓ} → Option (Outcome A) → Option String
error_of none = none
error_of (some (returns a)) = none
error_of (some (throws e)) = some e

-- `if (result)` on the result of a lock's callback: `null` and false are falsy.
abbrev pub succeeded : Option (Outcome Bool) → Bool
succeeded (some (returns b)) = b
succeeded _ = false

-- The tests of a group's metadata, as they were read.
module _ ⦃r : Redis⦄ (g : String) (meta : Db) where
  abbrev field : Field → ℕ
  field f = to_number (hget (group_meta g) f meta)

  unfoldable pub all_registered : Bool
  all_registered = leb (field total_jobs) (field registered_jobs) && ltb 0 (field total_jobs)

  unfoldable pub has_started : Bool
  has_started = ltb 0 (field first_job_started_at)

  unfoldable pub all_counted : Bool
  all_counted =
      leb (field total_jobs) (field success_count + field failed_count) && ltb 0 (field total_jobs)

  unfoldable pub aggregation_is_due : ℕ → ℕ → Bool
  aggregation_is_due stale_ms now =
      if field aggregation_start_at == 0
      then true
      else ltb (field aggregation_start_at + stale_ms) now

  unfoldable pub is_timed_out : ℕ → Bool
  is_timed_out now = ltb 0 (field timeout_at) && ltb (field timeout_at) now

module _ ⦃r : Redis⦄ {U : Type 0} (stringify : U → String) (aggregators : List (Aggregator U))
    (c : WatcherConfig) (sleep others : Db → Db) (token inner_token : String) (now : ℕ) where
  abbrev pub finalize : String → Db → Outcome Bool × Db
  finalize g d =
      finalize_group stringify aggregators others sleep inner_token g c.lock_ttl_ms
        c.lock_retry_count now d

  unfoldable pub watcher_transition :
      String → GroupStatus → GroupStatus → WatcherStats → Db → WatcherStats × Db
  watcher_transition g from to s d =
      if is_valid_transition from to
      then (let (moved, d') = transition g from to now d in (triggered moved s, d'))
      else (s, d)

  -- The callback of `forceTransition`, by the status that it read.
  unfoldable pub force_from : String → GroupStatus → Option GroupStatus → Db → Outcome Bool × Db
  force_from g to none d = (returns false, d)
  force_from g to (some fresh) d =
      if is_terminal fresh
      then (returns false, d)
      else if is_valid_transition fresh to
      then (let (moved, d') = transition g fresh to now d in (returns moved, d'))
      else (returns false, d)

  unfoldable pub force_transition :
      String → GroupStatus → GroupStatus → WatcherStats → Db → WatcherStats × Db
  unfolding force_from
  force_transition g current to s d =
      if is_terminal current
      then (s, d)
      else if is_valid_transition current to
      then (if requires_lock current to
          then (let (out, d') =
                with_lock sleep (group_aggregation_lock g) token c.lock_ttl_ms c.lock_retry_count
                  (λ e.
                    let read = others e in
                    force_from g to (to_status (hget (group_meta g) status read)) (others read))
                  d in
              (triggered (succeeded out) s, d'))
          else (let (moved, d') = transition g current to now d in (triggered moved s, d')))
      else (s, d)

  -- The callback of `checkRunningToAggregating`.
  unfoldable pub finalize_running : String → Option GroupStatus → Db → Outcome Bool × Db
  finalize_running g (some running) d = finalize g d
  finalize_running g _ d = (returns false, d)

  -- The `switch` of `checkGroup`: `meta` is the store in which the metadata were read.
  unfoldable pub check_status :
      String → Db → GroupStatus → WatcherStats → Db → Option String × (WatcherStats × Db)
  unfolding watcher_transition finalize_running all_registered has_started all_counted
      aggregation_is_due
  check_status g meta created s d =
      if all_registered g meta
      then (none, watcher_transition g created dispatched s d)
      else (none, (s, d))
  check_status g meta dispatched s d =
      if has_started g meta
      then (none, watcher_transition g dispatched running s d)
      else (none, (s, d))
  check_status g meta running s d =
      if all_counted g meta
      then (let (out, d') =
            with_lock sleep (group_transition_lock g) token c.lock_ttl_ms c.lock_retry_count
              (λ e.
                let read = others e in
                finalize_running g (to_status (hget (group_meta g) status read)) (others read))
              d in
          (error_of out, (s, d')))
      else (none, (s, d))
  check_status g meta aggregating s d =
      if aggregation_is_due g meta c.stale_group_threshold_ms now
      then (let (out, d') = finalize g d in (error_of (some out), (s, d')))
      else (none, (s, d))
  check_status g meta _ s d = (none, (s, d))

  -- The rest of `checkGroup`, by the status that it read.
  unfoldable pub check_read :
      String → Db → Option GroupStatus → WatcherStats → Db → Option String × (WatcherStats × Db)
  unfolding check_status force_transition is_timed_out
  check_read g meta none s d = (none, (s, d))
  check_read g meta (some current) s d =
      if is_terminal current
      then (none, (s, srem watcher_active_groups g d))
      else if is_timed_out g meta now
      then (none, force_transition g current failed s d)
      else check_status g meta current s d

  unfoldable pub check_group : String → WatcherStats → Db → Option String × (WatcherStats × Db)
  unfolding check_read
  check_group g s d = check_read g d (to_status (hget (group_meta g) status d)) s (others d)

  unfoldable pub check_each : List String → WatcherStats → Db → Option String × (WatcherStats × Db)
  unfolding check_group
  check_each [] s d = (none, (s, d))
  check_each (g ∷ gs) s d =
      let (error, (s', d')) = check_group g s d in
      let rest = check_each gs (record s' { groups_checked = s'.groups_checked + 1 }) (others d') in
      elim error [ none ↦ rest | some e ↦ (some e, (s', d')) ]

  unfoldable pub watch_cycle : WatcherStats → Db → Option String × (WatcherStats × Db)
  unfolding check_each
  watch_cycle s d =
      let s' = record s { cycle_count = s.cycle_count + 1 } in
      check_each (smembers watcher_active_groups d) s' (others d)
