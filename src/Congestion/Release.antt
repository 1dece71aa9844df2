-- ===== src/Congestion/Release.antt =====
-- `releaseFromNonReady` of libs/bulk-action/src/congestion/CongestionControlService.ts with
-- lua/congestion-release.lua. DECRBY is the DECRs it amounts to; a call that raises an error has no
-- effect and answers 0.
use nestjs_playground.Prelude.{
  ℕ, zero, suc, ◌-◌, ◌≤◌, ◌<◌, ◌⊎◌, Bool, true, false, if◌then◌else◌, String, Option, some, ◌≡◌,
  refl, ap, ◌∙◌, inl, inr, arith,
}
use nestjs_playground.Model.{Value, num, neg, to_number, decrement}
use nestjs_playground.Keys.{
  congestion_non_ready_count, congestion_stats, current_non_ready_count, Key,
}
use nestjs_playground.Redis.{Redis, Db, get, hget, set, decr, hset, get-decr, store_laws}

abbrev pub is_below_zero : Option Value → Bool
is_below_zero (some (neg n)) = true
is_below_zero _ = false

module _ ⦃r : Redis⦄ where
  -- DECRBY key n
  unfoldable pub decrby : ℕ → Key → Db → Db
  decrby zero k d = d
  decrby (suc n) k d = decrby n k (decr k d)

  unfoldable pub congestion_release : String → ℕ → Db → ℕ × Db
  unfolding decrby
  congestion_release g n d =
      let key = congestion_non_ready_count g in
      let d' = decrby n key d in
      let count = to_number (get key d') in
      let d'' = if is_below_zero (get key d') then set key (num 0) d' else d' in
      (count, hset (congestion_stats g) current_non_ready_count (num count) d'')

  unfoldable pub release_from_non_ready : Bool → String → ℕ → Db → ℕ × Db
  unfolding congestion_release
  release_from_non_ready script_fails g n d =
      if script_fails then (0, d) else congestion_release g n d

  -- The value of a counter that started at `c` and was decreased `n` times.
  abbrev lowered : ℕ → Value → Value
  lowered zero v = v
  lowered (suc n) v = lowered n (decrement (some v))

  get-decrby :
      (n : ℕ) (k : Key) (v : Value) (d : Db)
      → get k d ≡ some v
      → get k (decrby n k d) ≡ some (lowered n v)
  unfolding decrby
  get-decrby zero k v d h = h
  get-decrby (suc n) k v d h =
      get-decrby n k (decrement (some v)) (decr k d) (rw get-decr (ground (arith, h)))

  lowered_neg : (n m : ℕ) → (k : ℕ) × (lowered n (neg m) ≡ neg k)
  lowered_neg zero m = (m, refl)
  lowered_neg (suc n) m = lowered_neg n (suc m)

  -- A counter is decreased as far as it goes, or below 0.
  lowered_cases :
      (n c : ℕ)
      → ((n ≤ c) × (lowered n (num c) ≡ num (c - n)))
        ⊎ ((c < n) × ((k : ℕ) × (lowered n (num c) ≡ neg k)))
  lowered_cases zero c = inl (omega arith, ap num (omega arith))
  lowered_cases (suc n) zero = inr (omega arith, lowered_neg n 0)
  lowered_cases (suc n) (suc c) = elim (lowered_cases n c) [
    | inl (h, e) ↦ inl (omega (arith, h), e ∙ ap num (omega arith))
    | inr (h, e) ↦ inr (omega (arith, h), e)
  ]

  -- `releaseFromNonReady` of `n` jobs, when the script runs on a group that counts `c` of them: the answer, the counter
  -- and the count in the statistics are `c` less `n`, and 0 when that is below 0.
  pub release_from_non_ready_lem :
      (g : String) (n c : ℕ) (d : Db)
      → get (congestion_non_ready_count g) d ≡ some (num c)
      → let (answer, d') = release_from_non_ready false g n d in
        (answer ≡ c - n)
        × (get (congestion_non_ready_count g) d' ≡ some (num (c - n)))
        × (hget (congestion_stats g) current_non_ready_count d' ≡ some (num (c - n)))
  unfolding release_from_non_ready congestion_release
  release_from_non_ready_lem g n c d h =
      let key = congestion_non_ready_count g in
      let after = get-decrby n key (num c) d h in
      elim (lowered_cases n c) [
        | inl (le, e) ↦
            let value : get key (decrby n key d) ≡ some (num (c - n)) = after ∙ ap some e in
            rw (value, congestion_release)
              (refl, simp store_laws value, simp store_laws (ground arith))
        | inr (lt, (k, e)) ↦
            let value : get key (decrby n key d) ≡ some (neg k) = after ∙ ap some e in
            let none_left : 0 ≡ c - n = omega (arith, lt) in
            rw (value, congestion_release)
              (
                none_left,
                simp store_laws (ground (arith, none_left)),
                simp store_laws (ground (arith, none_left)),
              )
      ]
