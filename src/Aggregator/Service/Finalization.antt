-- ===== src/Aggregator/Service/Finalization.antt =====
-- How `aggregate` and `finalizeGroup` of AggregatorService.ts end a group.
use nestjs_playground.Prelude.{
  ℕ, zero, suc, Bool, true, String, Option, none, some, List, map, length, ◌≡◌, ◌≢◌, refl, ap, ◌∙◌,
  inl, inr, ◌⊎◌, Bool-cases, arith,
}
use nestjs_playground.Watcher.StateMachine.{
  GroupStatus, running, aggregating, completed, GroupStatus-discrete,
}
use nestjs_playground.Model.{Value, str, group_status}
use nestjs_playground.Keys.{
  Key, Field, group_meta, group_result, group_job_results, group_aggregation_lock, status,
  processor_type, result,
}
use nestjs_playground.Redis.{Redis, Db, get, hget, lrange, setnx, expire, store_laws}
use nestjs_playground.Lock.{Outcome, returns, is_held_by, acquire_lock, acquire, release, with_lock}
use nestjs_playground.Aggregator.Scripts.{transition}
use nestjs_playground.Aggregator.StatusWrites.{status_of, transition_iff, transition_status}
use nestjs_playground.Aggregator.Service.{
  Aggregator, AggregationContext, context_of, results_of, get_result, resolve_aggregator,
  load_batches, loaded, job_results, default_batch_size, aggregate, aggregate_and_complete,
  finalize_from, finalize_group,
}
use nestjs_playground.Aggregator.Service.Batches.{load_batches_all}

module _ ⦃r : Redis⦄ {U : Type 0} (stringify : U → String) (aggregators : List (Aggregator U)) where
  -- What the aggregator makes of all results of the group.
  abbrev pub reduction : Aggregator U → String → Db → U
  reduction a g d = a.reduce (map a.map_result (job_results g d)) (context_of g d)

  all_loaded :
      (a : Aggregator U) (g : String) (d : Db)
      → loaded (
          load_batches a.map_result default_batch_size
            (suc (length (job_results g d)))
            0
            (job_results g d))
        ≡ map a.map_result (job_results g d)
  all_loaded a g d = ap loaded (
      load_batches_all a.map_result default_batch_size (suc (length (job_results g d))) 0
        (job_results g d) (omega arith) (omega arith))

  -- With an aggregator for the type, `aggregate` returns that aggregator's reduction of every result of
  -- the group, and `getResult` then yields its text.
  pub aggregate_lem :
      (g : String) (processor : Option Value) (now : ℕ) (d : Db) (a : Aggregator U)
      → resolve_aggregator aggregators processor ≡ some a
      → let (out, d') = aggregate stringify aggregators g processor now d in
        (out ≡ returns (reduction a g d))
        × (get_result g d' ≡ some (str (stringify (reduction a g d))))
  unfolding aggregate get_result
  aggregate_lem g processor now d a h =
      rw (h, aggregate)
        (
          ap (λ (us : List U). returns (a.reduce us (context_of g d))) (all_loaded a g d),
          simp store_laws (
              ground (
                arith,
                ap (λ (us : List U). stringify (a.reduce us (context_of g d))) (all_loaded a g d),
              )),
        )

  abbrev text_of : Aggregator U → String → Db → Option Value
  text_of a g d = some (str (stringify (reduction a g d)))

  -- A group that is completed, with the aggregator's result stored.
  pub record Finished (a : Aggregator U) (g : String) (before : Db) (out : Outcome Bool × Db)
      : Type 0 where
    pub answer : out.0 ≡ returns true
    pub ended : status_of g out.1 ≡ some (group_status completed)
    pub stored : get_result g out.1 ≡ some (str (stringify (reduction a g before)))

  status-aggregate :
      (g : String) (processor : Option Value) (now : ℕ) (d : Db) (a : Aggregator U)
      → resolve_aggregator aggregators processor ≡ some a
      → status_of g (aggregate stringify aggregators g processor now d).1 ≡ status_of g d
  unfolding aggregate
  status-aggregate g processor now d a h = rw (h, aggregate) (simp store_laws (ground arith))

  complete-Finished :
      (g : String) (now : ℕ) (before d : Db) (a : Aggregator U)
      → status_of g d ≡ some (group_status aggregating)
      → get_result g d ≡ some (str (stringify (reduction a g before)))
      → Finished a g before (returns true, (transition g aggregating completed now d).1)
  unfolding transition get_result GroupStatus-discrete
  complete-Finished g now before d a s t =
      rw (s, transition)
        (record {
          answer = refl;
          ended = simp store_laws (ground arith);
          stored = simp store_laws (ground arith);
        })

  aggregate_and_complete-Finished :
      (g : String) (processor : Option Value) (now : ℕ) (d : Db) (a : Aggregator U)
      → resolve_aggregator aggregators processor ≡ some a
      → status_of g d ≡ some (group_status aggregating)
      → Finished a g d (aggregate_and_complete stringify aggregators (λ e. e) g processor now d)
  unfolding aggregate_and_complete
  aggregate_and_complete-Finished g processor now d a h s =
      let (out, text) = aggregate_lem g processor now d a h in
      let d' = (aggregate stringify aggregators g processor now d).1 in
      let kept = status-aggregate g processor now d a h ∙ s in
      rw (out, aggregate_and_complete)
        (rw ((transition_iff g aggregating completed now d').1 kept)
          (complete-Finished g now d d' a kept text))

  reduction-same :
      (a : Aggregator U) (g : String) (d e : Db)
      → lrange (group_job_results g) e ≡ lrange (group_job_results g) d
      → context_of g e ≡ context_of g d
      → reduction a g e ≡ reduction a g d
  reduction-same a g d e p q =
      ap (λ (c : AggregationContext). a.reduce (map a.map_result (job_results g e)) c) q
      ∙ ap (λ (vs : List Value). a.reduce (map a.map_result (results_of vs)) (context_of g d)) p

  -- A group that AGGREGATING waits for, after the transition from RUNNING.
  running_moved :
      (g : String) (now : ℕ) (d : Db) (a : Aggregator U)
      → status_of g d ≡ some (group_status running)
      → reduction a g (transition g running aggregating now d).1 ≡ reduction a g d
  unfolding transition context_of GroupStatus-discrete
  running_moved g now d a s =
      rw (s, transition) (reduction-same a g d _ (simp store_laws) (simp store_laws (ground arith)))

  finalize_from-Finished :
      (g : String) (now : ℕ) (d : Db) (a : Aggregator U) (s : GroupStatus)
      → resolve_aggregator aggregators (hget (group_meta g) processor_type d) ≡ some a
      → (s ≡ running) ⊎ (s ≡ aggregating)
      → status_of g d ≡ some (group_status s)
      → Finished a g d (
          finalize_from stringify aggregators
            (λ e. e)
            g
            (some s)
            (hget (group_meta g) processor_type d)
            now
            d)
  unfolding finalize_from
  finalize_from-Finished g now d a aggregating h side e =
      aggregate_and_complete-Finished g (hget (group_meta g) processor_type d) now d a h e
  finalize_from-Finished g now d a running h side e =
      let moved = (transition_iff g running aggregating now d).1 e in
      let d' = (transition g running aggregating now d).1 in
      let same = running_moved g now d a e in
      let done =
        aggregate_and_complete-Finished g (hget (group_meta g) processor_type d) now d' a h
          (transition_status g running aggregating now d moved) in
      rw (moved, finalize_from)
        (record {
          answer = done.answer;
          ended = done.ended;
          stored = done.stored ∙ ap (λ (u : U). some (str (stringify u))) same;
        })
  finalize_from-Finished g now d a _ h side e = ground arith

  -- The store in which the callback of a free lock runs.
  abbrev locked : String → String → ℕ → Db → Db
  locked g token ttl d =
      expire (group_aggregation_lock g) ttl (setnx (group_aggregation_lock g) (str token) d)

  acquired :
      (sleep : Db → Db) (g token : String) (ttl retries : ℕ) (d : Db)
      → get (group_aggregation_lock g) d ≡ none
      → let out = acquire sleep (group_aggregation_lock g) token ttl retries d in
        (out.0 ≡ some token) × (out.1 ≡ locked g token ttl d)
  unfolding acquire acquire_lock
  acquired sleep g token ttl zero d free = rw (free, acquire) (refl, refl)
  acquired sleep g token ttl (suc retries) d free = rw (free, acquire) (refl, refl)

  locked-meta :
      (g token : String) (ttl : ℕ) (d : Db) (k : Key) (f : Field)
      → hget k f (locked g token ttl d) ≡ hget k f d
  locked-meta g token ttl d k f = simp store_laws

  locked-reduction :
      (a : Aggregator U) (g token : String) (ttl : ℕ) (d : Db)
      → reduction a g (locked g token ttl d) ≡ reduction a g d
  unfolding context_of
  locked-reduction a g token ttl d = reduction-same a g d _ (simp store_laws) (simp store_laws)

  release-meta :
      (g token : String) (d : Db) (k : Key) (f : Field)
      → group_aggregation_lock g ≢ k
      → hget k f (release (group_aggregation_lock g) token d).1 ≡ hget k f d
  unfolding release
  release-meta g token d k f h =
      elim (Bool-cases (is_held_by (get (group_aggregation_lock g) d) token)) [
        | inl e ↦ rw (e, release) (simp store_laws (ground arith))
        | inr e ↦ rw (e, release)
      ]

  -- `finalizeGroup` of a group that is RUNNING or AGGREGATING, when the aggregation lock is free, an
  -- aggregator is found and nobody else acts: it returns true, the group is COMPLETED, and `getResult`
  -- yields the text of the aggregator's reduction of every result of the group.
  pub finalize_group_lem :
      (sleep : Db → Db) (g token : String) (ttl retries now : ℕ) (d : Db) (a : Aggregator U)
      (s : GroupStatus)
      → get (group_aggregation_lock g) d ≡ none
      → resolve_aggregator aggregators (hget (group_meta g) processor_type d) ≡ some a
      → (s ≡ running) ⊎ (s ≡ aggregating)
      → status_of g d ≡ some (group_status s)
      → let (answer, d') =
          finalize_group stringify aggregators (λ e. e) sleep token g ttl retries now d in
        (answer ≡ returns true)
        × (status_of g d' ≡ some (group_status completed))
        × (get_result g d' ≡ some (str (stringify (reduction a g d))))
  unfolding finalize_group with_lock get_result
  finalize_group_lem sleep g token ttl retries now d a s free found side e =
      let start = locked g token ttl d in
      let done =
        finalize_from-Finished g now start a s
          (ap (resolve_aggregator aggregators)
              (locked-meta g token ttl d (group_meta g) processor_type)
            ∙ found)
          side (locked-meta g token ttl d (group_meta g) status ∙ e) in
      let (taken, locks) = acquired sleep g token ttl retries d free in
      let after =
        (finalize_from stringify aggregators (λ e. e) g (some s)
          (hget (group_meta g) processor_type start) now start).1 in
      rw (taken, with_lock)
        (rw (locks, locked-meta g token ttl d (group_meta g) status, e)
          (
            done.answer,
            release-meta g token after (group_meta g) status (λ p. cc) ∙ done.ended,
            release-meta g token after (group_result g) result (λ p. cc)
                ∙ (done.stored
                    ∙ ap (λ (u : U). some (str (stringify u))) (locked-reduction a g token ttl d)),
          ))
