-- ===== src/Aggregator/Service/Frame.antt =====
-- The end of a group leaves the sorted sets alone (AggregatorService.ts, DistributedLockService.ts).
use nestjs_playground.Prelude.{
  ℕ, zero, suc, String, Option, none, some, List, ◌≡◌, ◌≢◌, ◌∙◌, refl, inl, inr, Bool-cases,
  Option-cases, arith,
}
use nestjs_playground.Watcher.StateMachine.{GroupStatus, running, aggregating, completed, failed}
use nestjs_playground.Model.{Value, is_status}
use nestjs_playground.Keys.{Key, group_meta, group_aggregation_lock, status}
use nestjs_playground.Redis.{Redis, Db, get, hget, zrange, store_laws}
use nestjs_playground.Lock.{
  Outcome-cases, is_free, is_held_by, acquire_lock, acquire, release, with_lock,
}
use nestjs_playground.Aggregator.Scripts.{transition, stamp}
use nestjs_playground.Aggregator.Service.{
  Aggregator, resolve_aggregator, aggregate, aggregate_and_complete, finalize_from, finalize_group,
}

module _ ⦃r : Redis⦄ where
  zrange-acquire_lock :
      (k key : Key) (token : String) (ttl : ℕ) (d : Db)
      → zrange k (acquire_lock key token ttl d).1 ≡ zrange k d
  unfolding acquire_lock
  zrange-acquire_lock k key token ttl d = elim (Bool-cases (is_free (get key d))) [
    | inl e ↦ rw (e, acquire_lock) (simp store_laws)
    | inr e ↦ rw (e, acquire_lock)
  ]

  zrange-release :
      (k key : Key) (token : String) (d : Db)
      → key ≢ k
      → zrange k (release key token d).1 ≡ zrange k d
  unfolding release
  zrange-release k key token d h = elim (Bool-cases (is_held_by (get key d) token)) [
    | inl e ↦ rw (e, release) (simp store_laws (ground arith))
    | inr e ↦ rw (e, release)
  ]

  zrange-stamp :
      (k : Key) (g : String) (s : GroupStatus) (now : ℕ) (d : Db)
      → zrange k (stamp g s now d) ≡ zrange k d
  unfolding stamp
  zrange-stamp k g aggregating now d = simp store_laws
  zrange-stamp k g completed now d = simp store_laws
  zrange-stamp k g failed now d = simp store_laws
  zrange-stamp k g _ now d = refl

  zrange-transition :
      (k : Key) (g : String) (from to : GroupStatus) (now : ℕ) (d : Db)
      → zrange k (transition g from to now d).1 ≡ zrange k d
  unfolding transition
  zrange-transition k g from to now d =
      elim (Bool-cases (is_status (hget (group_meta g) status d) from)) [
        | inl e ↦ rw (e, transition) (zrange-stamp k g to now _ ∙ simp store_laws)
        | inr e ↦ rw (e, transition)
      ]

  -- What others do during a wait, if it leaves one sorted set alone.
  abbrev pub Quiet : Key → (Db → Db) → Type 0
  Quiet k sleep = (e : Db) → zrange k (sleep e) ≡ zrange k e

  zrange-acquire :
      (k key : Key) (sleep : Db → Db) (token : String) (ttl retries : ℕ) (d : Db)
      → Quiet k sleep
      → zrange k (acquire sleep key token ttl retries d).1 ≡ zrange k d
  unfolding acquire
  zrange-acquire k key sleep token ttl zero d q = zrange-acquire_lock k key token ttl d
  zrange-acquire k key sleep token ttl (suc retries) d q =
      let first = zrange-acquire_lock k key token ttl d in
      elim (Bool-cases (acquire_lock key token ttl d).0) [
        | inl e ↦ rw (e, acquire) first
        | inr e ↦
            rw (e, acquire)
              (zrange-acquire k key sleep token ttl retries (sleep (acquire_lock key token ttl d).1)
                  q
                ∙ (q _ ∙ first))
      ]

module _ ⦃r : Redis⦄ {U : Type 0} (stringify : U → String) (aggregators : List (Aggregator U))
    (k : Key) where
  zrange-aggregate :
      (g : String) (processor : Option Value) (now : ℕ) (d : Db)
      → zrange k (aggregate stringify aggregators g processor now d).1 ≡ zrange k d
  unfolding aggregate
  zrange-aggregate g processor now d =
      elim (Option-cases (resolve_aggregator aggregators processor)) [
        | inl e ↦ rw (e, aggregate)
        | inr (a, e) ↦ rw (e, aggregate) (simp store_laws)
      ]

  zrange-aggregate_and_complete :
      (g : String) (processor : Option Value) (now : ℕ) (d : Db)
      → zrange k (aggregate_and_complete stringify aggregators (λ e. e) g processor now d).1
        ≡ zrange k d
  unfolding aggregate_and_complete
  zrange-aggregate_and_complete g processor now d =
      let first = zrange-aggregate g processor now d in
      elim (Outcome-cases (aggregate stringify aggregators g processor now d).0) [
        | inl (u, e) ↦
            rw (e, aggregate_and_complete)
              (zrange-transition k g aggregating completed now _ ∙ first)
        | inr (m, e) ↦ rw (e, aggregate_and_complete) first
      ]

  zrange-finalize_from :
      (g : String) (s : Option GroupStatus) (processor : Option Value) (now : ℕ) (d : Db)
      → zrange k (finalize_from stringify aggregators (λ e. e) g s processor now d).1 ≡ zrange k d
  unfolding finalize_from
  zrange-finalize_from g none processor now d = refl
  zrange-finalize_from g (some aggregating) processor now d =
      zrange-aggregate_and_complete g processor now d
  zrange-finalize_from g (some running) processor now d =
      let first = zrange-transition k g running aggregating now d in
      elim (Bool-cases (transition g running aggregating now d).0) [
        | inl e ↦ rw (e, finalize_from) (zrange-aggregate_and_complete g processor now _ ∙ first)
        | inr e ↦ rw (e, finalize_from) first
      ]
  zrange-finalize_from g (some _) processor now d = refl

  pub zrange-finalize_group :
      (sleep : Db → Db) (g token : String) (ttl retries now : ℕ) (d : Db)
      → group_aggregation_lock g ≢ k
      → Quiet k sleep
      → zrange k (finalize_group stringify aggregators (λ e. e) sleep token g ttl retries now d).1
        ≡ zrange k d
  unfolding finalize_group with_lock
  zrange-finalize_group sleep g token ttl retries now d h q =
      let key = group_aggregation_lock g in
      let out = acquire sleep key token ttl retries d in
      let first = zrange-acquire k key sleep token ttl retries d q in
      elim (Option-cases out.0) [
        | inl e ↦ rw (e, with_lock) first
        | inr (t, e) ↦
            rw (e, with_lock)
              (zrange-release k key token _ h ∙ (zrange-finalize_from g _ _ now out.1 ∙ first))
      ]
