-- ===== src/Lock.antt =====
-- libs/bulk-action/src/lock/DistributedLockService.ts with lua/acquire-lock.lua and
-- lua/release-lock.lua. A token is what `randomUUID` gave to the call; the key's expiry is a step of
-- the environment, and `sleep` is what others do to the store during the delay before another attempt.
pub mod Exclusion
use nestjs_playground.Prelude.{
  ℕ, zero, suc, Bool, true, false, if◌then◌else◌, String, Option, none, some, ◌≡◌, refl, inl, inr,
  ◌⊎◌,
}
use nestjs_playground.Model.{Value, str, String-discrete}
use nestjs_playground.Keys.{Key}
use nestjs_playground.Redis.{Redis, Db, get, setnx, expire, del, same_text}

-- What a callback comes to: its value, or the error that it throws.
pub data Outcome {ℓ} (A : Type ℓ) : Type ℓ where
  returns : A → Outcome A
  throws : String → Outcome A

pub Outcome-cases {ℓ} :
    {A : Type ℓ} (o : Outcome A) → ((a : A) × (o ≡ returns a)) ⊎ ((e : String) × (o ≡ throws e))
Outcome-cases (returns a) = inl (a, refl)
Outcome-cases (throws e) = inr (e, refl)

abbrev pub is_held_by : Option Value → String → Bool
is_held_by (some (str s)) token = same_text s token
is_held_by _ token = false

abbrev pub is_free : Option Value → Bool
is_free none = true
is_free (some v) = false

module _ ⦃r : Redis⦄ where
  -- SET key token NX PX ttl
  unfoldable pub acquire_lock : Key → String → ℕ → Db → Bool × Db
  acquire_lock k token ttl d =
      if is_free (get k d) then (true, expire k ttl (setnx k (str token) d)) else (false, d)

  unfoldable pub release : Key → String → Db → Bool × Db
  unfolding String-discrete
  release k token d = if is_held_by (get k d) token then (true, del k d) else (false, d)

  -- The attempts: one, and `retries` more after a delay each.
  unfoldable pub acquire : (Db → Db) → Key → String → ℕ → ℕ → Db → Option String × Db
  unfolding acquire_lock
  acquire sleep k token ttl zero d =
      let (acquired, d') = acquire_lock k token ttl d in (if acquired then some token else none, d')
  acquire sleep k token ttl (suc retries) d =
      let (acquired, d') = acquire_lock k token ttl d in
      let again = acquire sleep k token ttl retries (sleep d') in
      if acquired then (some token, d') else again

  -- `try { return await callback() } finally { release }`; `none` is the `null` of a lock not taken.
  unfoldable pub with_lock {ℓ} :
      {A : Type ℓ}
      → (Db → Db)
      → Key
      → String
      → ℕ
      → ℕ
      → (Db → Outcome A × Db)
      → Db
      → Option (Outcome A) × Db
  unfolding acquire release
  with_lock sleep k token ttl retries callback d =
      let (taken, d') = acquire sleep k token ttl retries d in
      elim taken [
        | none ↦ (none, d')
        | some t ↦ let (out, d'') = callback d' in (some out, (release k token d'').1)
      ]
