-- ===== src/Backpressure/RateLimiter/Counts.antt =====
-- The counters of a rate-limit window.
use nestjs_playground.Prelude.{
  ℕ, suc, ◌+◌, ◌/◌, ◌<◌, max, Bool, true, ltb, ◌==◌, if◌then◌else◌, String, length, ◌≡◌, ap, sym,
  ◌∙◌, ◌≢◌, ◌↔◌, inl, inr, Bool-cases, arith, Option, some, List,
}
use nestjs_playground.Model.{
  Value, num, to_number, increment, decrement, IsCount, to_number-increment, IsCount-increment,
  decrement-increment,
}
use nestjs_playground.Keys.{Key, rate_limit, active_groups}
use nestjs_playground.Redis.{
  Redis, Db, get, smembers, sadd, incr, decr, get-incr, get-decr, get-expire, get-sadd,
  smembers-expire, smembers-incr,
}
use nestjs_playground.Backpressure.RateLimiter.{
  RateLimitResult, count_at, count_up, group_share, check_group, check_rate_limit,
}

module _ ⦃r : Redis⦄ where
  get-count_up : (j k : Key) (ttl : ℕ) (d : Db) → get j (count_up k ttl d) ≡ get j (incr k d)
  unfolding count_up
  get-count_up j k ttl d = elim (Bool-cases (count_at k (incr k d) == 1)) [
    | inl e ↦ rw e (get-expire j k ttl (incr k d))
    | inr e ↦ rw e
  ]

  smembers-count_up : (j k : Key) (ttl : ℕ) (d : Db) → smembers j (count_up k ttl d) ≡ smembers j d
  unfolding count_up
  smembers-count_up j k ttl d = elim (Bool-cases (count_at k (incr k d) == 1)) [
    | inl e ↦ rw e (smembers-expire j k ttl (incr k d) ∙ smembers-incr j k d)
    | inr e ↦ rw e (smembers-incr j k d)
  ]

  pub count_up_self :
      (k : Key) (ttl : ℕ) (d : Db) → get k (count_up k ttl d) ≡ some (increment (get k d))
  count_up_self k ttl d = rw (get-count_up k k ttl d, get-incr) (ground arith)

  count_up_ne : (j k : Key) (ttl : ℕ) (d : Db) → k ≢ j → get j (count_up k ttl d) ≡ get j d
  count_up_ne j k ttl d h = rw (get-count_up j k ttl d, get-incr) (ground arith)

  pub decr_self : (k : Key) (d : Db) → get k (decr k d) ≡ some (decrement (get k d))
  decr_self k d = rw get-decr (ground arith)

  decr_ne : (j k : Key) (d : Db) → k ≢ j → get j (decr k d) ≡ get j d
  decr_ne j k d h = rw get-decr (ground arith)

abbrev pub charge : Bool → ℕ
charge b = if b then 1 else 0

name_of : Key → String
name_of (rate_limit g w) = g
name_of _ = ""

module _ ⦃r : Redis⦄ (g : String) (window limit ttl : ℕ) where
  abbrev pub global_key : Key
  global_key = rate_limit "global" window

  abbrev pub group_key : Key
  group_key = rate_limit g window

  -- What a check does to the two counters.
  pub record Charged (d : Db) (out : RateLimitResult × Db) : Type 0 where
    pub group_charged : count_at group_key out.1 ≡ count_at group_key d + charge out.0.allowed
    pub global_charged : count_at global_key out.1 ≡ count_at global_key d + charge out.0.allowed
    pub group_counts : IsCount (get group_key out.1)
    pub global_counts : IsCount (get global_key out.1)

  module _ (other : g ≢ "global") where
    apart : group_key ≢ global_key
    unfolding name_of
    apart e = other (ap name_of e)

    apart' : global_key ≢ group_key
    apart' e = apart (sym e)

    -- The group's counter after a count, and after the count is taken back with the global one.
    group_up :
        (d : Db) → get group_key (count_up group_key ttl d) ≡ some (increment (get group_key d))
    group_up d = count_up_self group_key ttl d

    group_back :
        (d : Db)
        → IsCount (get group_key d)
        → get group_key (decr global_key (decr group_key (count_up group_key ttl d)))
          ≡ some (num (count_at group_key d))
    group_back d h =
        decr_ne group_key global_key (decr group_key (count_up group_key ttl d)) apart'
        ∙ (decr_self group_key (count_up group_key ttl d)
            ∙ ap some (ap decrement (group_up d) ∙ decrement-increment (get group_key d) h))

    global_back :
        (d : Db)
        → get global_key (decr global_key (decr group_key (count_up group_key ttl d)))
          ≡ some (decrement (get global_key d))
    global_back d =
        decr_self global_key (decr group_key (count_up group_key ttl d))
        ∙ ap (λ (v : Option Value). some (decrement v))
            (decr_ne global_key group_key (count_up group_key ttl d) apart
              ∙ count_up_ne global_key group_key ttl d apart)

    -- The outcome of the group's step on the store `d` that the global count left.
    record GroupStep (d : Db) (out : RateLimitResult × Db) : Type 0 where
      pub admits : (out.0.allowed ≡ true) ↔ (count_at group_key d < group_share limit d)
      pub charged : count_at group_key out.1 ≡ count_at group_key d + charge out.0.allowed
      pub counts : IsCount (get group_key out.1)
      pub global_left :
          get global_key out.1
          ≡ (if out.0.allowed then get global_key d else some (decrement (get global_key d)))

    pub check_group_global :
        (d : Db)
        → let out = check_group g window limit ttl d in
          get global_key out.1
          ≡ (if out.0.allowed then get global_key d else some (decrement (get global_key d)))
    unfolding check_group
    check_group_global d =
        elim (Bool-cases
          (ltb (group_share limit d) (count_at group_key (count_up group_key ttl d)))) [
            | inl e ↦ rw (e, check_group) (global_back d)
            | inr e ↦ rw (e, check_group) (count_up_ne global_key group_key ttl d apart)
          ]

    check_group_counts :
        (d : Db) → IsCount (get group_key d) → GroupStep d (check_group g window limit ttl d)
    unfolding check_group
    check_group_counts d h = elim (Bool-cases denied) [
      | inl e ↦
          rw (e, check_group)
            (record {
              admits = ground (arith, up, to_number-increment (get group_key d) h);
              charged = ground (arith, group_back d h);
              counts = rw (group_back d h) tt;
              global_left = rw (e, check_group) at (check_group_global d);
            })
      | inr e ↦
          rw (e, check_group)
            (record {
              admits = ground (arith, up, to_number-increment (get group_key d) h);
              charged = ground (arith, up, to_number-increment (get group_key d) h);
              counts = rw up (IsCount-increment (get group_key d) h);
              global_left = rw (e, check_group) at (check_group_global d);
            })
    ]
      where
        denied : Bool
        denied = ltb (group_share limit d) (count_at group_key (count_up group_key ttl d))

        up : get group_key (count_up group_key ttl d) ≡ some (increment (get group_key d))
        up = group_up d

    -- The store after step 1 and the global count of step 2.
    abbrev pub counted : Db → Db
    counted d = count_up global_key ttl (sadd active_groups g d)

    share_counted :
        (d : Db) → group_share limit (counted d) ≡ group_share limit (sadd active_groups g d)
    unfolding group_share count_up
    share_counted d =
        ap (λ (m : List String). max 1 (limit / max 1 (length m)))
          (smembers-count_up active_groups global_key ttl (sadd active_groups g d))

    -- For a group not named "global", whose key the global counter shares: a check admits a job exactly
    -- when both counters are below their limits, an admitted job adds one to both counters, and a
    -- refused one leaves both as they were.
    pub check_rate_limit_counts :
        (d : Db)
        → IsCount (get group_key d)
        → IsCount (get global_key d)
        → (((check_rate_limit g window limit ttl d).0.allowed ≡ true) ↔ (
            (count_at global_key d < limit)
            × (count_at group_key d < group_share limit (sadd active_groups g d))))
          × Charged d (check_rate_limit g window limit ttl d)
    unfolding check_rate_limit
    check_rate_limit_counts d hg hG =
        elim (Bool-cases (ltb limit (count_at global_key (counted d)))) [
          | inl e ↦
              rw (e, check_rate_limit)
                (
                  ground (arith, up, many),
                  record {
                    group_charged = ground (arith, group_kept);
                    global_charged = ground (arith, global_taken_back);
                    group_counts = rw group_kept hg;
                    global_counts = rw global_taken_back tt;
                  },
                )
          | inr e ↦
              rw (e, check_rate_limit)
                (
                  ground (arith, up, many, step.admits, share_counted d, group_same),
                  record {
                    group_charged = ground (arith, step.charged, group_same);
                    global_charged = ground (arith, step.global_left, up, many, back);
                    group_counts = step.counts;
                    global_counts = global_counted;
                  },
                )
        ]
      where
        up : get global_key (counted d) ≡ some (increment (get global_key d))
        up =
            count_up_self global_key ttl (sadd active_groups g d)
            ∙ ap (λ (v : Option Value). some (increment v)) (get-sadd global_key active_groups g d)

        many : count_at global_key (counted d) ≡ suc (count_at global_key d)
        many = ap to_number up ∙ to_number-increment (get global_key d) hG

        back : decrement (some (increment (get global_key d))) ≡ num (count_at global_key d)
        back = decrement-increment (get global_key d) hG

        group_same : get group_key (counted d) ≡ get group_key d
        group_same =
            count_up_ne group_key global_key ttl (sadd active_groups g d) apart'
            ∙ get-sadd group_key active_groups g d

        group_kept : get group_key (decr global_key (counted d)) ≡ get group_key d
        group_kept = decr_ne group_key global_key (counted d) apart' ∙ group_same

        global_taken_back :
            get global_key (decr global_key (counted d)) ≡ some (num (count_at global_key d))
        global_taken_back = decr_self global_key (counted d) ∙ ap some (ap decrement up ∙ back)

        step : GroupStep (counted d) (check_group g window limit ttl (counted d))
        step = check_group_counts (counted d) (rw group_same hg)

        global_counted : IsCount (get global_key (check_group g window limit ttl (counted d)).1)
        global_counted = elim (Bool-cases (check_group g window limit ttl (counted d)).0.allowed) [
          | inl e ↦ rw (step.global_left, e, up) (IsCount-increment (get global_key d) hG)
          | inr e ↦ rw (step.global_left, e, up, back) tt
        ]
