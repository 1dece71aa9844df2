-- ===== src/Backpressure/RateLimiter/Window.antt =====
-- A whole window of checks of libs/bulk-action/src/lua/rate-limit-check.lua, by any groups.
use nestjs_playground.Prelude.{
  ℕ, suc, ◌+◌, ◌≤◌, true, false, ltb, if◌then◌else◌, String, ◌≡◌, ap, ◌∙◌, ◌≢◌, ◌⊎◌, inl, inr,
  Bool-cases, arith, Option, none, some, List, [], ◌∷◌,
}
use nestjs_playground.Model.{
  Value, num, to_number, increment, decrement, IsCount, to_number-increment, IsCount-increment,
  decrement-increment,
}
use nestjs_playground.Keys.{Key, active_groups}
use nestjs_playground.Redis.{Redis, Db, get, sadd, decr, get-sadd}
use nestjs_playground.Backpressure.RateLimiter.{
  RateLimitResult, count_at, check_group, check_rate_limit,
}
use nestjs_playground.Backpressure.RateLimiter.Counts.{
  charge, global_key, counted, check_group_global, count_up_self, decr_self,
}

module _ ⦃r : Redis⦄ (window limit ttl : ℕ) where
  abbrev global : Key
  global = global_key "" window limit ttl

  record Admission (d : Db) (out : RateLimitResult × Db) : Type 0 where
    pub charged : count_at global out.1 ≡ count_at global d + charge out.0.allowed
    pub counts : IsCount (get global out.1)
    pub within : count_at global d ≤ limit → count_at global out.1 ≤ limit

  check-Admission :
      (g : String) (d : Db)
      → g ≢ "global"
      → IsCount (get global d)
      → Admission d (check_rate_limit g window limit ttl d)
  unfolding check_rate_limit
  check-Admission g d other h =
      elim (Bool-cases (ltb limit (count_at global (counted g window limit ttl other d)))) [
        | inl e ↦
            rw (e, check_rate_limit)
              (record {
                charged = ground (arith, taken_back);
                counts = rw taken_back tt;
                within = ground (arith, taken_back);
              })
        | inr e ↦ rw (e, check_rate_limit) (outcome e (Bool-cases inner.0.allowed))
      ]
    where
      after : Db
      after = counted g window limit ttl other d

      inner : RateLimitResult × Db
      inner = check_group g window limit ttl after

      up : get global after ≡ some (increment (get global d))
      up =
          count_up_self global ttl (sadd active_groups g d)
          ∙ ap (λ (v : Option Value). some (increment v)) (get-sadd global active_groups g d)

      many : count_at global after ≡ suc (count_at global d)
      many = ap to_number up ∙ to_number-increment (get global d) h

      back : decrement (get global after) ≡ num (count_at global d)
      back = ap decrement up ∙ decrement-increment (get global d) h

      taken_back : get global (decr global after) ≡ some (num (count_at global d))
      taken_back = decr_self global after ∙ ap some back

      left :
          get global inner.1
          ≡ (if inner.0.allowed then get global after else some (decrement (get global after)))
      left = check_group_global g window limit ttl other after

      outcome :
          ltb limit (count_at global after) ≡ false
          → (inner.0.allowed ≡ true) ⊎ (inner.0.allowed ≡ false)
          → Admission d inner
      outcome e (inl a) = record {
        charged = ground (arith, left, many);
        counts = rw (left, a, up) (IsCount-increment (get global d) h);
        within = ground (arith, left, many);
      }
      outcome e (inr a) = record {
        charged = ground (arith, left, back);
        counts = rw (left, a, back) tt;
        within = ground (arith, left, back);
      }

  -- The checks of one window, and how many jobs they admit.
  unfoldable pub run_checks : List String → Db → ℕ × Db
  run_checks [] d = (0, d)
  run_checks (g ∷ gs) d =
      let (result, d') = check_rate_limit g window limit ttl d in
      let (n, d'') = run_checks gs d' in (charge result.allowed + n, d'')

  abbrev pub NoneGlobal : List String → Type 0
  NoneGlobal [] = Unit
  NoneGlobal (g ∷ gs) = (g ≢ "global") × NoneGlobal gs

  run_checks_counts :
      (gs : List String) (d : Db)
      → NoneGlobal gs
      → IsCount (get global d)
      → count_at global d ≤ limit
      → (count_at global d + (run_checks gs d).0 ≡ count_at global (run_checks gs d).1)
        × (count_at global (run_checks gs d).1 ≤ limit)
  unfolding run_checks
  run_checks_counts [] d others h k = (omega arith, k)
  run_checks_counts (g ∷ gs) d others h k =
      let step = check-Admission g d others.0 h in
      let rest =
        run_checks_counts gs (check_rate_limit g window limit ttl d).1 others.1 step.counts
          (step.within k) in
      (omega (arith, step.charged, rest.0), rest.1)

  -- From a fresh window, the checks of any groups but one named "global" admit together no more jobs
  -- than the global limit, and the global counter holds how many they admitted.
  pub run_checks_limit :
      (gs : List String) (d : Db)
      → NoneGlobal gs
      → get global d ≡ none
      → ((run_checks gs d).0 ≤ limit) × (count_at global (run_checks gs d).1 ≡ (run_checks gs d).0)
  run_checks_limit gs d others fresh =
      let (sum, bound) = run_checks_counts gs d others (rw fresh tt) (rw fresh (omega arith)) in
      let start : count_at global d ≡ 0 = ap to_number fresh in
      (omega (arith, sum, bound, start), omega (arith, sum, start))
