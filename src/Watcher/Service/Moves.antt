-- ===== src/Watcher/Service/Moves.antt =====
-- What moves a group along its life cycle: transitions, the lock, and the end of a group.
use nestjs_playground.Prelude.{
  ℕ, zero, suc, false, String, Option, some, List, ◌≡◌, ◌∙◌, refl, ap, sym, subst, ◌≢◌, ◌⊎◌, inl,
  inr, Bool-cases, Option-cases, arith,
}
use nestjs_playground.Watcher.StateMachine.{GroupStatus, running, aggregating, completed, failed}
use nestjs_playground.Watcher.StateMachine.Diagram.{Edge, aggregate, complete}
use nestjs_playground.Model.{String-discrete, Value, group_status, to_status, is_status}
use nestjs_playground.Keys.{Key, group_meta, group_aggregation_lock, status, processor_type}
use nestjs_playground.Redis.{Redis, Db, get, hget, store_laws}
use nestjs_playground.Lock.{
  Outcome, returns, throws, is_free, is_held_by, acquire_lock, acquire, release, with_lock,
}
use nestjs_playground.Aggregator.Scripts.{transition, stamp}
use nestjs_playground.Aggregator.StatusWrites.{status_of, transition_iff, transition_status}
use nestjs_playground.Aggregator.Service.{
  Aggregator, resolve_aggregator, aggregate_with, aggregate as aggregate_results,
  aggregate_and_complete, finalize_from, finalize_group,
}

-- A status that was reached from another along edges of the life cycle, each from the present status.
pub data Along (v : Option Value) : Option Value → Type 0 where
  stay : Along v v
  on :
      {s t : GroupStatus}
      → Along v (some (group_status s))
      → Edge s t
      → Along v (some (group_status t))

pub further : {u v w : Option Value} → Along u v → Along v w → Along u w
further a stay = a
further a (on b e) = on (further a b) e

module _ ⦃r : Redis⦄ (g : String) where
  -- What a store's change did to the status of the group.
  abbrev pub Moves : Db → Db → Type 0
  Moves d e = Along (status_of g d) (status_of g e)

  pub same : (d e : Db) → status_of g e ≡ status_of g d → Moves d e
  same d e p = subst (λ (v : Option Value). Along (status_of g d) v) (sym p) stay

  unmoved :
      (from to : GroupStatus) (now : ℕ) (d : Db)
      → (transition g from to now d).0 ≡ false
      → (transition g from to now d).1 ≡ d
  unfolding transition
  unmoved from to now d h = elim (Bool-cases (is_status (status_of g d) from)) [
    | inl e ↦ ground arith
    | inr e ↦ rw (e, transition)
  ]

  own-Moves :
      (from to : GroupStatus) (now : ℕ) (d : Db)
      → Edge from to
      → Moves d (transition g from to now d).1
  own-Moves from to now d e = elim (Bool-cases (transition g from to now d).0) [
    | inr h ↦ same d _ (ap (status_of g) (unmoved from to now d h))
    | inl h ↦
        subst (λ (v : Option Value). Along (status_of g d) v)
          (sym (transition_status g from to now d h))
          (on
            (subst (λ (v : Option Value). Along (status_of g d) v)
              ((transition_iff g from to now d).0 h) stay)
            e)
  ]

  module _ (sleep : Db → Db) (k : Key) (token : String) (ttl : ℕ) where
    acquire_lock-same : (d : Db) → status_of g (acquire_lock k token ttl d).1 ≡ status_of g d
    unfolding acquire_lock
    acquire_lock-same d = elim (Bool-cases (is_free (get k d))) [
      | inl e ↦ rw (e, acquire_lock) (simp store_laws)
      | inr e ↦ rw (e, acquire_lock)
    ]

    release-same : (d : Db) → k ≢ group_meta g → status_of g (release k token d).1 ≡ status_of g d
    unfolding release
    release-same d h = elim (Bool-cases (is_held_by (get k d) token)) [
      | inl e ↦ rw (e, release) (simp store_laws (ground arith))
      | inr e ↦ rw (e, release)
    ]

    acquire-Moves :
        (retries : ℕ) (d : Db)
        → ((d : Db) → Moves d (sleep d))
        → Moves d (acquire sleep k token ttl retries d).1
    unfolding acquire
    acquire-Moves zero d waits = same d _ (acquire_lock-same d)
    acquire-Moves (suc n) d waits = elim (Bool-cases (acquire_lock k token ttl d).0) [
      | inl e ↦ rw (e, acquire) (same d _ (acquire_lock-same d))
      | inr e ↦
          rw (e, acquire)
            (further (same d _ (acquire_lock-same d)) (
              further (waits (acquire_lock k token ttl d).1)
                (acquire-Moves n (sleep (acquire_lock k token ttl d).1) waits)))
    ]

    pub with_lock-Moves :
        {A : Type 0} (retries : ℕ) (callback : Db → Outcome A × Db) (d : Db)
        → k ≢ group_meta g
        → ((d : Db) → Moves d (sleep d))
        → ((d : Db) → Moves d (callback d).1)
        → Moves d (with_lock sleep k token ttl retries callback d).1
    unfolding with_lock
    with_lock-Moves retries callback d h waits runs =
        let waited = acquire-Moves retries d waits in
        let start = (acquire sleep k token ttl retries d).1 in
        elim (Option-cases (acquire sleep k token ttl retries d).0) [
          | inl e ↦ rw (e, with_lock) waited
          | inr (t, e) ↦
              rw (e, with_lock)
                (further waited (
                  further (runs start)
                    (same (callback start).1 _ (release-same (callback start).1 h))))
        ]

module _ ⦃r : Redis⦄ (h g : String) where
  stamp-others :
      (to : GroupStatus) (now : ℕ) (d : Db) → h ≢ g → status_of h (stamp g to now d) ≡ status_of h d
  unfolding stamp
  stamp-others aggregating now d n = simp store_laws (ground arith)
  stamp-others completed now d n = simp store_laws (ground arith)
  stamp-others failed now d n = simp store_laws (ground arith)
  stamp-others _ now d n = refl

  transition-others :
      (from to : GroupStatus) (now : ℕ) (d : Db)
      → h ≢ g
      → status_of h (transition g from to now d).1 ≡ status_of h d
  unfolding transition
  transition-others from to now d n = elim (Bool-cases (is_status (status_of g d) from)) [
    | inl e ↦ rw (e, transition) (stamp-others to now _ n ∙ simp store_laws (ground arith))
    | inr e ↦ rw (e, transition)
  ]

  -- A transition of any group along an edge moves the observed group along its life cycle.
  pub transition-Moves :
      (from to : GroupStatus) (now : ℕ) (d : Db)
      → Edge from to
      → Moves h d (transition g from to now d).1
  transition-Moves from to now d e = elim (String-discrete h g) [
    | yes p ↦
        subst (λ (x : String). Moves x d (transition g from to now d).1) (sym p)
          (own-Moves g from to now d e)
    | no n ↦ same h d _ (transition-others from to now d n)
  ]

Outcome-cases :
    {A : Type 0} (o : Outcome A) → ((a : A) × (o ≡ returns a)) ⊎ ((e : String) × (o ≡ throws e))
Outcome-cases (returns a) = inl (a, refl)
Outcome-cases (throws e) = inr (e, refl)

module _ ⦃r : Redis⦄ {U : Type 0} (stringify : U → String) (aggregators : List (Aggregator U))
    (h g : String) where
  aggregate-same :
      (processor : Option Value) (now : ℕ) (d : Db)
      → status_of h (aggregate_results stringify aggregators g processor now d).1 ≡ status_of h d
  unfolding aggregate_results aggregate_with
  aggregate-same processor now d = elim (Option-cases (resolve_aggregator aggregators processor)) [
    | inl e ↦ rw (e, aggregate_results)
    | inr (a, e) ↦ rw (e, aggregate_results) (simp store_laws (ground arith))
  ]

  -- Other clients move the group along its life cycle only.
  module _ (others : Db → Db) (acts : (d : Db) → Moves h d (others d)) where
    aggregate_and_complete-Moves :
        (processor : Option Value) (now : ℕ) (d : Db)
        → Moves h d (aggregate_and_complete stringify aggregators others g processor now d).1
    unfolding aggregate_and_complete
    aggregate_and_complete-Moves processor now d =
        let d' = (aggregate_results stringify aggregators g processor now d).1 in
        let kept = same h d d' (aggregate-same processor now d) in
        elim (Outcome-cases (aggregate_results stringify aggregators g processor now d).0) [
          | inr (x, e) ↦ rw (e, aggregate_and_complete) kept
          | inl (u, e) ↦
              rw (e, aggregate_and_complete)
                (further kept (
                  further (acts d')
                    (transition-Moves h g aggregating completed now (others d') complete)))
        ]

    finalize_from-Moves :
        (s : Option GroupStatus) (processor : Option Value) (now : ℕ) (d : Db)
        → Moves h d (finalize_from stringify aggregators others g s processor now d).1
    unfolding finalize_from
    finalize_from-Moves (some aggregating) processor now d =
        aggregate_and_complete-Moves processor now d
    finalize_from-Moves (some running) processor now d =
        let d' = (transition g running aggregating now d).1 in
        let moved = transition-Moves h g running aggregating now d aggregate in
        elim (Bool-cases (transition g running aggregating now d).0) [
          | inl e ↦
              rw (e, finalize_from)
                (further moved
                  (further (acts d') (aggregate_and_complete-Moves processor now (others d'))))
          | inr e ↦ rw (e, finalize_from) moved
        ]
    finalize_from-Moves _ processor now d = stay

    pub finalize_group-Moves :
        (sleep : Db → Db) (token : String) (ttl retries now : ℕ) (d : Db)
        → ((d : Db) → Moves h d (sleep d))
        → Moves h d (finalize_group stringify aggregators others sleep token g ttl retries now d).1
    unfolding finalize_group
    finalize_group-Moves sleep token ttl retries now d waits =
        with_lock-Moves h sleep (group_aggregation_lock g) token ttl retries
          (λ e.
            let read = others e in
            finalize_from stringify aggregators others g
              (to_status (hget (group_meta g) status read))
              (hget (group_meta g) processor_type read) now (others read))
          d (λ p. cc) waits
          (λ e. further (acts e) (
            further (acts (others e)) (
              finalize_from-Moves (to_status (status_of g (others e)))
                (hget (group_meta g) processor_type (others e)) now (others (others e)))))
