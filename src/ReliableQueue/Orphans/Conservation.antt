-- ===== src/ReliableQueue/Orphans/Conservation.antt =====
-- Where recover-orphans.lua puts the jobs that it takes.
use nestjs_playground.Prelude.{
  ℕ, ◌+◌, ◌≤◌, true, false, String, List, [], ◌∷◌, ◌++◌, length, ◌≡◌, refl, ap, ap₂, sym, subst,
  ◌∙◌, append-nil, append_assoc, inl, inr, Bool-cases, arith,
}
use nestjs_playground.Model.{Value, str}
use nestjs_playground.Keys.{ready_queue, in_flight_queue, dead_letter_queue, retry_count, status}
use nestjs_playground.Redis.{Redis, Db, millis, lrange, zrange, up_to, length-up_to_le}
use nestjs_playground.Backpressure.Dispatcher.Moves.{without_all}
use nestjs_playground.ReliableQueue.Orphans.{
  Recovery, nothing_recovered, orphan_entry, bury, revive, recover_each, recover_orphans,
}
use nestjs_playground.ReliableQueue.Orphans.Rounds.{
  AllDifferent, AllUntouched, AllUntouched-one, JobsSettled, JobsSettled-same, bury_lem, cleared,
  fields-each, first-spent, first-unspent, group_of, is_spent, one-buried, one-revived, pairs_of,
  pairs_of-same, retries_of, revive_lem, to_dead, to_dead-same, to_ready, to_ready-same,
}

joined :
    {ys zs vs ws us : List Value} (xs : List Value) (v : Value)
    → ws ≡ ys ++ zs
    → ys ≡ xs ++ v ∷ []
    → zs ≡ us
    → vs ≡ v ∷ us
    → ws ≡ xs ++ vs
joined {us = us} xs v p q s t =
    p ∙ (ap₂ ◌++◌ q s ∙ (append_assoc xs (v ∷ []) us ∙ ap (λ ls. xs ++ ls) (sym t)))

module _ ⦃r : Redis⦄ (max_retries now : ℕ) where
  -- What the rounds for some jobs add to the result and to the two queues, and take from those in flight.
  pub record Recovered (js : List String) (before : Recovery × Db) (after : Recovery × Db)
      : Type 0 where
    pub revived :
        lrange ready_queue after.1
        ≡ lrange ready_queue before.1 ++ to_ready max_retries now before.1 js
    pub buried :
        lrange dead_letter_queue after.1
        ≡ lrange dead_letter_queue before.1 ++ to_dead max_retries now before.1 js
    pub left : zrange in_flight_queue after.1 ≡ without_all js (zrange in_flight_queue before.1)
    pub recovered :
        after.0.recovered ≡ before.0.recovered + length (to_ready max_retries now before.1 js)
    pub dead_lettered :
        after.0.dead_lettered
        ≡ before.0.dead_lettered + length (to_dead max_retries now before.1 js)
    pub reported : after.0.pairs ≡ pairs_of max_retries now before.1 js before.0.pairs
    pub settled : JobsSettled max_retries now js before.1 after.1

  -- A first job without retries left.
  spent_first :
      (j : String) (js : List String) (so_far : Recovery) (d : Db)
      → AllDifferent (j ∷ js)
      → is_spent max_retries now d j ≡ true
      → let so_far' : Recovery = record {
        recovered = so_far.recovered;
        dead_lettered = so_far.dead_lettered + 1;
        pairs = (j, group_of max_retries now d j) ∷ so_far.pairs;
      } in
        let d' =
          bury j
            (group_of max_retries now d j)
            (retries_of max_retries now d j)
            now
            (cleared max_retries now j d) in
        Recovered js (so_far', d') (recover_each max_retries now js so_far' d')
        → Recovered (j ∷ js) (so_far, d) (recover_each max_retries now (j ∷ js) so_far d)
  unfolding recover_each
  spent_first j js so_far d (h, hs) e rest =
      let one = one-buried max_retries now j so_far d e in
      let g = group_of max_retries now d j in
      let n = retries_of max_retries now d j in
      let so_far' : Recovery = record {
        recovered = so_far.recovered;
        dead_lettered = so_far.dead_lettered + 1;
        pairs = (j, g) ∷ so_far.pairs;
      } in
      let d' = bury j g n now (cleared max_retries now j d) in
      let after = (recover_each max_retries now js so_far' d').1 in
      let same : AllUntouched max_retries now js d d' =
        subst (λ (o : Recovery × Db). AllUntouched max_retries now js d o.1) one
          (AllUntouched-one max_retries now js j so_far d h) in
      let (ready, dead, taken, marked) = bury_lem max_retries now j d g n in
      let (r, b, p, s) = first-spent max_retries now j js so_far.pairs d after e in
      rw (recover_each, one)
        (record {
          revived =
              rest.revived ∙ ap₂ ◌++◌ ready (to_ready-same max_retries now js d d' same ∙ sym r);
          buried =
              joined (lrange dead_letter_queue d) (orphan_entry j g n now) rest.buried dead
                (to_dead-same max_retries now js d d' same) b;
          left = rest.left ∙ ap (without_all js) taken;
          recovered =
              rest.recovered
              ∙ ap (λ ls. so_far.recovered + length ls)
                  (to_ready-same max_retries now js d d' same ∙ sym r);
          dead_lettered = omega (
            arith,
            rest.dead_lettered,
            ap length (to_dead-same max_retries now js d d' same),
            ap length b,
          );
          reported =
              rest.reported ∙ (pairs_of-same max_retries now js so_far'.pairs d d' same ∙ sym p);
          settled = (
            s (fields-each max_retries now j js so_far' d' status h ∙ marked),
            JobsSettled-same max_retries now js d d' after same rest.settled,
          );
        })

  -- A first job with retries left.
  unspent_first :
      (j : String) (js : List String) (so_far : Recovery) (d : Db)
      → AllDifferent (j ∷ js)
      → is_spent max_retries now d j ≡ false
      → let so_far' : Recovery = record so_far { recovered = so_far.recovered + 1 } in
        let d' = revive j (cleared max_retries now j d) in
        Recovered js (so_far', d') (recover_each max_retries now js so_far' d')
        → Recovered (j ∷ js) (so_far, d) (recover_each max_retries now (j ∷ js) so_far d)
  unfolding recover_each
  unspent_first j js so_far d (h, hs) e rest =
      let one = one-revived max_retries now j so_far d e in
      let so_far' : Recovery = record so_far { recovered = so_far.recovered + 1 } in
      let d' = revive j (cleared max_retries now j d) in
      let after = (recover_each max_retries now js so_far' d').1 in
      let same : AllUntouched max_retries now js d d' =
        subst (λ (o : Recovery × Db). AllUntouched max_retries now js d o.1) one
          (AllUntouched-one max_retries now js j so_far d h) in
      let (ready, dead, taken, marked, counted) = revive_lem max_retries now j d in
      let (r, b, p, s) = first-unspent max_retries now j js so_far.pairs d after e in
      rw (recover_each, one)
        (record {
          revived =
              joined (lrange ready_queue d) (str j) rest.revived ready
                (to_ready-same max_retries now js d d' same) r;
          buried = rest.buried ∙ ap₂ ◌++◌ dead (to_dead-same max_retries now js d d' same ∙ sym b);
          left = rest.left ∙ ap (without_all js) taken;
          recovered = omega (
            arith,
            rest.recovered,
            ap length (to_ready-same max_retries now js d d' same),
            ap length r,
          );
          dead_lettered =
              rest.dead_lettered
              ∙ ap (λ ls. so_far.dead_lettered + length ls)
                  (to_dead-same max_retries now js d d' same ∙ sym b);
          reported =
              rest.reported ∙ (pairs_of-same max_retries now js so_far'.pairs d d' same ∙ sym p);
          settled = (
            s (
              fields-each max_retries now j js so_far' d' status h ∙ marked,
              fields-each max_retries now j js so_far' d' retry_count h ∙ counted,
            ),
            JobsSettled-same max_retries now js d d' after same rest.settled,
          );
        })

  recover_each-Recovered :
      (js : List String) (so_far : Recovery) (d : Db)
      → AllDifferent js
      → Recovered js (so_far, d) (recover_each max_retries now js so_far d)
  unfolding recover_each
  recover_each-Recovered [] so_far d h = record {
    revived = sym (append-nil (lrange ready_queue d));
    buried = sym (append-nil (lrange dead_letter_queue d));
    left = refl;
    recovered = omega arith;
    dead_lettered = omega arith;
    reported = refl;
    settled = tt;
  }
  recover_each-Recovered (j ∷ js) so_far d (h, hs) =
      elim (Bool-cases (is_spent max_retries now d j)) [
        | inl e ↦ spent_first j js so_far d (h, hs) e (recover_each-Recovered js _ _ hs)
        | inr e ↦ unspent_first j js so_far d (h, hs) e (recover_each-Recovered js _ _ hs)
      ]

  -- One run of the recovery, the members of the in-flight queue being different: of the jobs whose deadline has
  -- passed it takes at most a batch, and every one leaves the in-flight queue. By what the store said of a job
  -- before, one with retries left stands at the end of the ready queue, is PENDING and has one retry more, and
  -- any other has a dead letter at the end of the dead-letter queue and has FAILED; both queues keep the order of
  -- the deadlines. The two counts that it returns say how many went to each, and its pairs are the jobs and groups
  -- of the dead letters.
  pub recover_orphans-Recovered :
      (batch : ℕ) (d : Db)
      → AllDifferent (up_to batch (millis now) (zrange in_flight_queue d))
      → let orphans = up_to batch (millis now) (zrange in_flight_queue d) in
        Recovered orphans (nothing_recovered, d) (recover_orphans batch max_retries now d)
        × (length orphans ≤ batch)
  unfolding recover_orphans
  recover_orphans-Recovered batch d h = (
    recover_each-Recovered (up_to batch (millis now) (zrange in_flight_queue d)) nothing_recovered d
        h,
    length-up_to_le batch (millis now) (zrange in_flight_queue d),
  )
