-- ===== src/Watcher/Service/LifeCycle.antt =====
-- The watcher of WatcherService.ts and the life cycle of a group.
use nestjs_playground.Prelude.{
  ℕ, ◌+◌, true, false, String, Option, none, some, List, [], ◌∷◌, Option-cases, ◌≡◌, refl, inl, inr,
  Bool-cases,
}
use nestjs_playground.Watcher.StateMachine.{
  GroupStatus, created, dispatched, running, aggregating, failed, is_valid_transition,
  requires_lock, is_terminal,
}
use nestjs_playground.Watcher.StateMachine.Diagram.{Edge_iff}
use nestjs_playground.Model.{group_status, to_status}
use nestjs_playground.Keys.{
  group_meta, group_transition_lock, group_aggregation_lock, status, watcher_active_groups,
}
use nestjs_playground.Redis.{Redis, Db, hget, srem, smembers, hget-srem}
use nestjs_playground.Aggregator.StatusWrites.{status_of, transition_iff, transition_status}
use nestjs_playground.Aggregator.Service.{Aggregator}
use nestjs_playground.Watcher.Service.{
  WatcherStats, WatcherConfig, all_registered, has_started, all_counted, aggregation_is_due,
  finalize, is_timed_out, watcher_transition, force_from, force_transition, finalize_running,
  check_status, check_read, check_group, check_each, watch_cycle,
}
use nestjs_playground.Watcher.Service.Moves.{
  stay, Moves, further, same, transition-Moves, with_lock-Moves, finalize_group-Moves,
}

module _ ⦃r : Redis⦄ {U : Type 0} (stringify : U → String) (aggregators : List (Aggregator U))
    (c : WatcherConfig) (sleep others : Db → Db) (token inner_token : String) (now : ℕ)
    (h g : String) (waits : (d : Db) → Moves h d (sleep d))
    (acts : (d : Db) → Moves h d (others d)) where
  watcher_transition-Moves :
      (from to : GroupStatus) (s : WatcherStats) (d : Db)
      → Moves h d
          (watcher_transition stringify aggregators c sleep others token inner_token now g from to s
            d).1
  unfolding watcher_transition
  watcher_transition-Moves from to s d = elim (Bool-cases (is_valid_transition from to)) [
    | inl e ↦ rw e (transition-Moves h g from to now d ((Edge_iff from to).0 e))
    | inr e ↦ rw e stay
  ]

  force_from-Moves :
      (to : GroupStatus) (read : Option GroupStatus) (d : Db)
      → Moves h d
          (force_from stringify aggregators c sleep others token inner_token now g to read d).1
  unfolding force_from
  force_from-Moves to none d = stay
  force_from-Moves to (some fresh) d = elim (Bool-cases (is_terminal fresh)) [
    | inl e ↦ rw (e, force_from) stay
    | inr e ↦ elim (Bool-cases (is_valid_transition fresh to)) [
      | inl f ↦
          rw (e, f, force_from) (transition-Moves h g fresh to now d ((Edge_iff fresh to).0 f))
      | inr f ↦ rw (e, f, force_from) stay
    ]
  ]

  -- Others act before and after the second reading of the status.
  after_reading : (d e : Db) → Moves h (others (others d)) e → Moves h d e
  after_reading d e m = further (acts d) (further (acts (others d)) m)

  force_transition-Moves :
      (current to : GroupStatus) (s : WatcherStats) (d : Db)
      → Moves h d
          (force_transition stringify aggregators c sleep others token inner_token now g current to
            s d).1
  unfolding force_transition
  force_transition-Moves current to s d = elim (Bool-cases (is_terminal current)) [
    | inl e ↦ rw (e, force_transition) stay
    | inr e ↦ elim (Bool-cases (is_valid_transition current to)) [
      | inr f ↦ rw (e, f, force_transition) stay
      | inl f ↦ elim (Bool-cases (requires_lock current to)) [
        | inl l ↦
            rw (e, f, l, force_transition)
              (with_lock-Moves h sleep (group_aggregation_lock g) token c.lock_ttl_ms
                c.lock_retry_count
                (λ x.
                  let read = others x in
                  force_from stringify aggregators c sleep others token inner_token now g to
                    (to_status (hget (group_meta g) status read)) (others read))
                d (λ p. cc) waits
                (λ x.
                  after_reading x _
                    (force_from-Moves to (to_status (status_of g (others x))) (others (others x)))))
        | inr l ↦
            rw (e, f, l, force_transition)
              (transition-Moves h g current to now d ((Edge_iff current to).0 f))
      ]
    ]
  ]

  finalize-Moves :
      (d : Db)
      → Moves h d (finalize stringify aggregators c sleep others token inner_token now g d).1
  finalize-Moves d =
      finalize_group-Moves stringify aggregators h g others acts sleep inner_token c.lock_ttl_ms
        c.lock_retry_count now d waits

  finalize_running-Moves :
      (read : Option GroupStatus) (d : Db)
      → Moves h d
          (finalize_running stringify aggregators c sleep others token inner_token now g read d).1
  unfolding finalize_running
  finalize_running-Moves (some running) d = finalize-Moves d
  finalize_running-Moves _ d = stay

  check_status-Moves :
      (meta : Db) (current : GroupStatus) (s : WatcherStats) (d : Db)
      → Moves h d
          (check_status stringify aggregators c sleep others token inner_token now g meta current s
            d).1.1
  unfolding check_status
  check_status-Moves meta created s d = elim (Bool-cases (all_registered g meta)) [
    | inl e ↦ rw e (watcher_transition-Moves created dispatched s d)
    | inr e ↦ rw e stay
  ]
  check_status-Moves meta dispatched s d = elim (Bool-cases (has_started g meta)) [
    | inl e ↦ rw e (watcher_transition-Moves dispatched running s d)
    | inr e ↦ rw e stay
  ]
  check_status-Moves meta running s d = elim (Bool-cases (all_counted g meta)) [
    | inl e ↦ rw e (
        with_lock-Moves h sleep (group_transition_lock g) token c.lock_ttl_ms c.lock_retry_count
          (λ x.
            let read = others x in
            finalize_running stringify aggregators c sleep others token inner_token now g
              (to_status (hget (group_meta g) status read)) (others read))
          d (λ p. cc) waits
          (λ x.
            after_reading x _
              (finalize_running-Moves (to_status (status_of g (others x))) (others (others x)))))
    | inr e ↦ rw e stay
  ]
  check_status-Moves meta aggregating s d =
      elim (Bool-cases (aggregation_is_due g meta c.stale_group_threshold_ms now)) [
        | inl e ↦ rw e (finalize-Moves d)
        | inr e ↦ rw e stay
      ]
  check_status-Moves meta _ s d = stay

  check_read-Moves :
      (meta : Db) (read : Option GroupStatus) (s : WatcherStats) (d : Db)
      → Moves h d
          (check_read stringify aggregators c sleep others token inner_token now g meta read s
            d).1.1
  unfolding check_read
  check_read-Moves meta none s d = stay
  check_read-Moves meta (some current) s d = elim (Bool-cases (is_terminal current)) [
    | inl e ↦
        rw (e, check_read)
          (same h d (srem watcher_active_groups g d)
            (hget-srem (group_meta h) status watcher_active_groups g d))
    | inr e ↦ elim (Bool-cases (is_timed_out g meta now)) [
      | inl f ↦
          rw (e, f, check_read)
            (rw (e, force_transition) at (force_transition-Moves current failed s d))
      | inr f ↦ rw (e, f, check_read) (check_status-Moves meta current s d)
    ]
  ]

  pub check_group-Moves :
      (s : WatcherStats) (d : Db)
      → Moves h d (check_group stringify aggregators c sleep others token inner_token now g s d).1.1
  unfolding check_group
  check_group-Moves s d =
      further (acts d) (check_read-Moves d (to_status (status_of g d)) s (others d))

module _ ⦃r : Redis⦄ {U : Type 0} (stringify : U → String) (aggregators : List (Aggregator U))
    (c : WatcherConfig) (sleep others : Db → Db) (token inner_token : String) (now : ℕ) (h : String)
    (waits : (d : Db) → Moves h d (sleep d)) (acts : (d : Db) → Moves h d (others d)) where
  check_each-Moves :
      (gs : List String) (s : WatcherStats) (d : Db)
      → Moves h d (check_each stringify aggregators c sleep others token inner_token now gs s d).1.1
  unfolding check_each
  check_each-Moves [] s d = stay
  check_each-Moves (g ∷ gs) s d =
      let out = check_group stringify aggregators c sleep others token inner_token now g s d in
      let moved =
        check_group-Moves stringify aggregators c sleep others token inner_token now h g waits acts
          s d in
      elim (Option-cases out.0) [
        | inl e ↦
            rw (e, check_each)
              (further moved (
                further (acts out.1.1) (
                  check_each-Moves gs
                    (record out.1.0 { groups_checked = out.1.0.groups_checked + 1 })
                    (others out.1.1))))
        | inr (x, e) ↦ rw (e, check_each) moved
      ]

  -- Other clients act between the calls of a cycle of the watcher: after the list of groups was read, before and
  -- after each reading of a group's metadata, also inside the locks, before and after the aggregation, and
  -- while it waits for a lock. If they move a group only along its life cycle, then the whole cycle does so too,
  -- whether it ends by an error or not: the group's status afterwards is the status before or is reached
  -- from it by edges of the life cycle.
  pub watch_cycle-Moves :
      (s : WatcherStats) (d : Db)
      → Moves h d (watch_cycle stringify aggregators c sleep others token inner_token now s d).1.1
  unfolding watch_cycle
  watch_cycle-Moves s d = further (acts d) (
      check_each-Moves (smembers watcher_active_groups d)
        (record s { cycle_count = s.cycle_count + 1 }) (others d))

-- What lets a group leave CREATED and DISPATCHED.
pub data Due ⦃r : Redis⦄ (g : String) (meta : Db) : GroupStatus → GroupStatus → Type 0 where
  registered : all_registered g meta ≡ true → Due g meta created dispatched
  started : has_started g meta ≡ true → Due g meta dispatched running

module _ ⦃r : Redis⦄ {U : Type 0} (stringify : U → String) (aggregators : List (Aggregator U))
    (c : WatcherConfig) (sleep : Db → Db) (token inner_token : String) (now : ℕ) (g : String) where
  transition_valid :
      (from to : GroupStatus) (s : WatcherStats) (d : Db)
      → is_valid_transition from to ≡ true
      → status_of g d ≡ some (group_status from)
      → let (s', d') =
          watcher_transition stringify aggregators c sleep
            (λ e. e)
            token
            inner_token
            now
            g
            from
            to
            s
            d in
        (status_of g d' ≡ some (group_status to))
        × (s'.transitions_triggered ≡ s.transitions_triggered + 1)
  unfolding watcher_transition
  transition_valid from to s d v e =
      let moved = (transition_iff g from to now d).1 e in
      rw v (transition_status g from to now d moved, rw moved refl)

  -- A group that is not timed out and that nobody else touches is moved on by one check: from CREATED to
  -- DISPATCHED once all its jobs are registered, and from DISPATCHED to RUNNING once a job has started;
  -- and the move is counted.
  pub check_group_advances :
      (from to : GroupStatus) (s : WatcherStats) (d : Db)
      → status_of g d ≡ some (group_status from)
      → is_timed_out g d now ≡ false
      → Due g d from to
      → let (error, (s', d')) =
          check_group stringify aggregators c sleep (λ e. e) token inner_token now g s d in
        (error ≡ none)
        × (status_of g d' ≡ some (group_status to))
        × (s'.transitions_triggered ≡ s.transitions_triggered + 1)
  unfolding check_group check_read check_status is_valid_transition is_terminal
  check_group_advances _ _ s d e t (registered h) =
      let (moved, counted) = transition_valid created dispatched s d refl e in
      rw (e, t, h) (refl, moved, counted)
  check_group_advances _ _ s d e t (started h) =
      let (moved, counted) = transition_valid dispatched running s d refl e in
      rw (e, t, h) (refl, moved, counted)
