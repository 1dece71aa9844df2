-- ===== src/Backpressure/RateLimiter/Frame.antt =====
-- What a rate-limit check of rate-limit-check.lua leaves alone.
use nestjs_playground.Prelude.{ℕ, String, ltb, ◌==◌, ◌≡◌, ◌∙◌, inl, inr, Bool-cases}
use nestjs_playground.Keys.{Key, rate_limit, active_groups}
use nestjs_playground.Redis.{Redis, Db, incr, decr, expire, sadd}
use nestjs_playground.Backpressure.RateLimiter.{
  count_at, count_up, group_share, check_group, check_rate_limit,
}

-- A reading of the store that the four commands leave alone.
module _ ⦃r : Redis⦄ {A : Type 0} (view : Db → A)
    (view-incr : (k : Key) (d : Db) → view (incr k d) ≡ view d)
    (view-decr : (k : Key) (d : Db) → view (decr k d) ≡ view d)
    (view-expire : (k : Key) (ttl : ℕ) (d : Db) → view (expire k ttl d) ≡ view d)
    (view-sadd : (k : Key) (m : String) (d : Db) → view (sadd k m d) ≡ view d) where
  view-count_up : (k : Key) (ttl : ℕ) (d : Db) → view (count_up k ttl d) ≡ view d
  unfolding count_up
  view-count_up k ttl d = elim (Bool-cases (count_at k (incr k d) == 1)) [
    | inl e ↦ rw e (view-expire k ttl (incr k d) ∙ view-incr k d)
    | inr e ↦ rw e (view-incr k d)
  ]

  view-check_group :
      (g : String) (window limit ttl : ℕ) (d : Db)
      → view (check_group g window limit ttl d).1 ≡ view d
  unfolding check_group
  view-check_group g window limit ttl d =
      let d' = count_up (rate_limit g window) ttl d in
      elim (Bool-cases (ltb (group_share limit d) (count_at (rate_limit g window) d'))) [
        | inl e ↦
            rw (e, check_group)
              (view-decr (rate_limit "global" window) (decr (rate_limit g window) d')
                ∙ (view-decr (rate_limit g window) d' ∙ view-count_up (rate_limit g window) ttl d))
        | inr e ↦ rw (e, check_group) (view-count_up (rate_limit g window) ttl d)
      ]

  pub view-check_rate_limit :
      (g : String) (window limit ttl : ℕ) (d : Db)
      → view (check_rate_limit g window limit ttl d).1 ≡ view d
  unfolding check_rate_limit
  view-check_rate_limit g window limit ttl d =
      let d' = count_up (rate_limit "global" window) ttl (sadd active_groups g d) in
      let kept =
        view-count_up (rate_limit "global" window) ttl (sadd active_groups g d)
        ∙ view-sadd active_groups g d in
      elim (Bool-cases (ltb limit (count_at (rate_limit "global" window) d'))) [
        | inl e ↦ rw (e, check_rate_limit) (view-decr (rate_limit "global" window) d' ∙ kept)
        | inr e ↦ rw (e, check_rate_limit) (view-check_group g window limit ttl d' ∙ kept)
      ]
