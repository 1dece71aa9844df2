-- ===== src/Congestion/Control/Schedule.antt =====
-- The time at which a job that goes to the non-ready queue is due.
use nestjs_playground.Prelude.{
  ℕ, ◌+◌, Bool, true, false, String, some, ◌≡◌, ap, sym, subst, ◌∙◌, ◌≢◌, inl, inr, Bool-cases,
  arith,
}
use nestjs_playground.Model.{num, to_number}
use nestjs_playground.Keys.{
  Key, non_ready_queue, congestion_stats, congestion_non_ready_count, last_backoff_ms,
}
use nestjs_playground.Redis.{
  Redis, Db, millis, zrange, hget, get, smembers, score_in, without_member, store_laws,
  score_in-insert_self, score_in-insert_ne, score_in-without_self, score_in-without_ne, zrange-zadd,
  get-zadd, smembers-zadd, incr, zadd,
}
use nestjs_playground.Congestion.Backoff.{calculate, classify, fixed_backoff_response}
use nestjs_playground.Congestion.Control.{
  CongestionConfig, ScriptBackoff, script_backoff, write_stats, congestion_backoff, fixed_backoff,
  respond, add_to_non_ready, get_congestion_state,
}

-- BackoffCalculator.ts, asked about the counts that the script returns, comes to the script's own
-- back-off.
pub respond-script :
    ⦃r : Redis⦄ (c : CongestionConfig) (g : String) (d : Db)
    → (respond c (script_backoff c g d)).backoff_ms ≡ (script_backoff c g d).backoff_ms
unfolding respond script_backoff calculate
respond-script c g d = ground arith

module _ ⦃r : Redis⦄ where
  zadd_due :
      (s : ℕ) (j : String) (d : Db)
      → score_in j (zrange non_ready_queue (zadd non_ready_queue (millis s) j d)) ≡ some (millis s)
  zadd_due s j d = rw zrange-zadd (
      ground (
        arith,
        score_in-insert_self r.before (record { member = j; score = millis s })
            (without_member j (zrange non_ready_queue d))
            (score_in-without_self j (zrange non_ready_queue d)),
      ))

  zadd_others :
      (s : ℕ) (i j : String) (d : Db)
      → i ≢ j
      → score_in i (zrange non_ready_queue (zadd non_ready_queue (millis s) j d))
        ≡ score_in i (zrange non_ready_queue d)
  zadd_others s i j d h = rw zrange-zadd (
      ground (
        arith,
        score_in-insert_ne r.before i (record { member = j; score = millis s })
            (without_member j (zrange non_ready_queue d)) (λ e. h (sym e)),
        score_in-without_ne i j (zrange non_ready_queue d) h,
      ))

  zrange-write_stats :
      (g : String) (b : ScriptBackoff) (now : ℕ) (d : Db)
      → zrange non_ready_queue (write_stats g b now d) ≡ zrange non_ready_queue d
  unfolding write_stats
  zrange-write_stats g b now d = simp store_laws

  get-write_stats :
      (k : Key) (g : String) (b : ScriptBackoff) (now : ℕ) (d : Db)
      → get k (write_stats g b now d) ≡ get k d
  unfolding write_stats
  get-write_stats k g b now d = simp store_laws

  smembers-write_stats :
      (k : Key) (g : String) (b : ScriptBackoff) (now : ℕ) (d : Db)
      → smembers k (write_stats g b now d) ≡ smembers k d
  unfolding write_stats
  smembers-write_stats k g b now d = simp store_laws

  hget-write_stats :
      (g : String) (b : ScriptBackoff) (now : ℕ) (d : Db)
      → hget (congestion_stats g) last_backoff_ms (write_stats g b now d) ≡ some (num b.backoff_ms)
  unfolding write_stats
  hget-write_stats g b now d = simp store_laws (ground arith)

  -- Where a job stands in the non-ready queue, and where all others stand.
  pub record DueAt (j : String) (time : ℕ) (before after : Db) : Type 0 where
    pub due : score_in j (zrange non_ready_queue after) ≡ some (millis time)
    pub others :
        (i : String)
        → i ≢ j
        → score_in i (zrange non_ready_queue after) ≡ score_in i (zrange non_ready_queue before)

  fixed-DueAt :
      (c : CongestionConfig) (j : String) (now : ℕ) (d : Db)
      → DueAt j (now + (fixed_backoff c j now d).0.backoff_ms) d (fixed_backoff c j now d).1
  unfolding fixed_backoff fixed_backoff_response
  fixed-DueAt c j now d = record {
    due = zadd_due (now + c.base_backoff_ms) j d;
    others = λ i h. zadd_others (now + c.base_backoff_ms) i j d h;
  }

  script-DueAt :
      (c : CongestionConfig) (j g : String) (now : ℕ) (d : Db)
      → DueAt j
          (now + (congestion_backoff c j g now d).0.backoff_ms)
          d
          (congestion_backoff c j g now d).1
  unfolding congestion_backoff
  script-DueAt c j g now d = record {
    due = rw zrange-write_stats (zadd_due _ j _);
    others = λ i h. rw zrange-write_stats (zadd_others _ i j _ h ∙ simp store_laws);
  }

  -- Whichever way a job goes to the non-ready queue (by the script, by the fixed back-off of a disabled
  -- congestion control, or by the fall-back of a failed script), it is due at the present time plus the
  -- back-off that the caller is told, and no other job is moved.
  pub add_to_non_ready-DueAt :
      (c : CongestionConfig) (fails : Bool) (j g : String) (now : ℕ) (d : Db)
      → DueAt j
          (now + (add_to_non_ready c fails j g now d).0.backoff_ms)
          d
          (add_to_non_ready c fails j g now d).1
  unfolding add_to_non_ready
  add_to_non_ready-DueAt c fails j g now d = elim (Bool-cases c.enabled) [
    | inr e ↦ rw (e, add_to_non_ready) (fixed-DueAt c j now d)
    | inl e ↦ elim (Bool-cases fails) [
      | inl f ↦ rw (e, f, add_to_non_ready) (fixed-DueAt c j now d)
      | inr f ↦
          rw (e, f, add_to_non_ready)
            (subst (λ t. DueAt j (now + t) d (congestion_backoff c j g now d).1)
              (sym (respond-script c g (incr (congestion_non_ready_count g) d)))
              (script-DueAt c j g now d))
    ]
  ]

  -- Where the script ran, the state that the service reports for the group afterwards is the answer that
  -- the caller got: the same count, speed, back-off and level.
  pub get_congestion_state-add :
      (c : CongestionConfig) (j g : String) (now : ℕ) (d : Db)
      → c.enabled ≡ true
      → let out = add_to_non_ready c false j g now d in
        let state = get_congestion_state c g out.1 in
        (state.non_ready_count ≡ out.0.non_ready_count)
        × (state.rate_limit_speed ≡ out.0.rate_limit_speed)
        × (state.last_backoff_ms ≡ out.0.backoff_ms)
        × (state.congestion_level ≡ out.0.congestion_level)
  unfolding add_to_non_ready get_congestion_state calculate
  get_congestion_state-add c j g now d e =
      let counted = incr (congestion_non_ready_count g) d in
      let b = script_backoff c g counted in
      let filed = zadd non_ready_queue (millis (now + b.backoff_ms)) j counted in
      let last = ap to_number (hget-write_stats g b now filed) ∙ sym (respond-script c g counted) in
      rw (e, add_to_non_ready)
        (
          rw (get-write_stats, get-zadd),
          rw (smembers-write_stats, smembers-zadd) (ground arith),
          last,
          ap (λ (t : ℕ). classify t c.base_backoff_ms) last,
        )
