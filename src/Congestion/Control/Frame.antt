-- ===== src/Congestion/Control/Frame.antt =====
-- What CongestionControlService.ts leaves alone when it puts a job into the non-ready queue or forgets
-- the statistics of a group.
use nestjs_playground.Prelude.{ℕ, Bool, String, ◌≡◌, ◌≢◌, inl, inr, Bool-cases, arith}
use nestjs_playground.Keys.{
  Key, Field, non_ready_queue, congestion_stats, congestion_non_ready_count,
}
use nestjs_playground.Redis.{Redis, Db, hget, get, lrange, zrange, store_laws}
use nestjs_playground.Congestion.Control.{
  CongestionConfig, add_to_non_ready, congestion_backoff, fixed_backoff, write_stats,
  reset_group_stats,
}

module _ ⦃r : Redis⦄ where
  -- The hashes but the group's statistics, the lists, and the sorted sets but the non-ready queue.
  pub record Beside (g : String) (before after : Db) : Type 0 where
    pub hashes : (k : Key) (f : Field) → congestion_stats g ≢ k → hget k f after ≡ hget k f before
    pub lists : (k : Key) → lrange k after ≡ lrange k before
    pub sorted_sets : (k : Key) → non_ready_queue ≢ k → zrange k after ≡ zrange k before
    pub strings : (k : Key) → congestion_non_ready_count g ≢ k → get k after ≡ get k before

  Beside-script :
      (c : CongestionConfig) (j g : String) (now : ℕ) (d : Db)
      → Beside g d (congestion_backoff c j g now d).1
  unfolding congestion_backoff write_stats
  Beside-script c j g now d = record {
    hashes = λ k f h. simp store_laws (ground arith);
    lists = λ k. simp store_laws;
    sorted_sets = λ k h. simp store_laws (ground arith);
    strings = λ k h. simp store_laws (ground arith);
  }

  Beside-fixed :
      (c : CongestionConfig) (j g : String) (now : ℕ) (d : Db)
      → Beside g d (fixed_backoff c j now d).1
  unfolding fixed_backoff
  Beside-fixed c j g now d = record {
    hashes = λ k f h. simp store_laws;
    lists = λ k. simp store_laws;
    sorted_sets = λ k h. simp store_laws (ground arith);
    strings = λ k h. simp store_laws;
  }

  pub Beside-add :
      (c : CongestionConfig) (fails : Bool) (j g : String) (now : ℕ) (d : Db)
      → Beside g d (add_to_non_ready c fails j g now d).1
  unfolding add_to_non_ready
  Beside-add c fails j g now d = elim (Bool-cases c.enabled) [
    | inr e ↦ rw (e, add_to_non_ready) (Beside-fixed c j g now d)
    | inl e ↦ elim (Bool-cases fails) [
      | inl f ↦ rw (e, f, add_to_non_ready) (Beside-fixed c j g now d)
      | inr f ↦ rw (e, f, add_to_non_ready) (Beside-script c j g now d)
    ]
  ]

  pub Beside-reset :
      (g : String) (d : Db)
      → (k : Key) (f : Field) → congestion_stats g ≢ k
      → congestion_non_ready_count g ≢ k
      → hget k f (reset_group_stats g d) ≡ hget k f d
  unfolding reset_group_stats
  Beside-reset g d k f h i = simp store_laws (ground arith)
