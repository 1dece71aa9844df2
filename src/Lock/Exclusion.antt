-- ===== src/Lock/Exclusion.antt =====
-- Who holds the lock of DistributedLockService.ts: acquiring, releasing, and the bracket `withLock`.
use nestjs_playground.Prelude.{
  ℕ, zero, suc, true, false, String, Option, none, some, ◌≡◌, refl, ◌≢◌, ◌↔◌, inl, inr, Bool-cases,
  Option-cases, arith,
}
use nestjs_playground.Model.{Value, str}
use nestjs_playground.Keys.{Key}
use nestjs_playground.Redis.{Redis, Db, get, setnx, expire, get-setnx, get-expire, get-del}
use nestjs_playground.Lock.{Outcome, is_held_by, acquire_lock, release, acquire, with_lock}

is_held_by_iff : (v : Option Value) (t : String) → (is_held_by v t ≡ true) ↔ (v ≡ some (str t))
is_held_by_iff none t = ground arith
is_held_by_iff (some (str s)) t = ground arith
is_held_by_iff (some _) t = ground arith

module _ ⦃r : Redis⦄ (k : Key) (token : String) (ttl : ℕ) where
  set_token :
      (d : Db) → get k d ≡ none → get k (expire k ttl (setnx k (str token) d)) ≡ some (str token)
  set_token d free = rw (get-expire, get-setnx) (ground arith)

  acquire_lock_free : (d : Db) → get k d ≡ none → (acquire_lock k token ttl d).0 ≡ true
  unfolding acquire_lock
  acquire_lock_free d free = rw free

  acquire_lock_held :
      (d : Db) (v : Value) → get k d ≡ some v → acquire_lock k token ttl d ≡ (false, d)
  unfolding acquire_lock
  acquire_lock_held d v held = rw (held, acquire_lock)

  acquire_lock-token :
      (d : Db)
      → (acquire_lock k token ttl d).0 ≡ true
      → get k (acquire_lock k token ttl d).1 ≡ some (str token)
  unfolding acquire_lock
  acquire_lock-token d h = elim (Option-cases (get k d)) [
    | inl free ↦ rw (free, acquire_lock) (set_token d free)
    | inr (v, held) ↦ ground arith
  ]

  -- Whatever others do during the delays, a call of `acquire` that returns a token returns its own, and
  -- the key then holds it.
  pub acquire_holds :
      (sleep : Db → Db) (retries : ℕ) (d : Db) (t : String)
      → (acquire sleep k token ttl retries d).0 ≡ some t
      → (t ≡ token) × (get k (acquire sleep k token ttl retries d).1 ≡ some (str token))
  unfolding acquire
  acquire_holds sleep zero d t h = elim (Bool-cases (acquire_lock k token ttl d).0) [
    | inl e ↦ (ground arith, acquire_lock-token d e)
    | inr e ↦ ground arith
  ]
  acquire_holds sleep (suc retries) d t h = elim (Bool-cases (acquire_lock k token ttl d).0) [
    | inl e ↦ (ground arith, rw e (acquire_lock-token d e))
    | inr e ↦
        rw (e, acquire)
          (acquire_holds sleep retries (sleep (acquire_lock k token ttl d).1) t
            (rw (e, acquire) at h))
  ]

  acquire_free :
      (sleep : Db → Db) (retries : ℕ) (d : Db)
      → (acquire_lock k token ttl d).0 ≡ true
      → (acquire sleep k token ttl retries d).0 ≡ some token
  unfolding acquire
  acquire_free sleep zero d e = rw (e, acquire)
  acquire_free sleep (suc retries) d e = rw (e, acquire)

  -- As long as the others leave a held lock held, no number of attempts takes it from its holder.
  pub acquire_excluded :
      (sleep : Db → Db) (v : Value)
      → ((d : Db) → get k d ≡ some v → get k (sleep d) ≡ some v)
      → (retries : ℕ) (d : Db) → get k d ≡ some v
      → ((acquire sleep k token ttl retries d).0 ≡ none)
        × (get k (acquire sleep k token ttl retries d).1 ≡ some v)
  unfolding acquire
  acquire_excluded sleep v keeps zero d held = rw (acquire_lock_held d v held, acquire) (refl, held)
  acquire_excluded sleep v keeps (suc retries) d held =
      rw (acquire_lock_held d v held, acquire)
        (acquire_excluded sleep v keeps retries (sleep d) (keeps d held))

  -- A release frees a lock that holds the token, and leaves the store alone in every other case.
  pub release_lem :
      (d : Db)
      → (get k d ≡ some (str token)
          → ((release k token d).0 ≡ true) × (get k (release k token d).1 ≡ none))
        × (get k d ≢ some (str token) → release k token d ≡ (false, d))
  unfolding release
  release_lem d = (
    λ held. rw ((is_held_by_iff (get k d) token).1 held, release) (refl, rw get-del (ground arith)),
    λ other. ground (arith, is_held_by_iff (get k d) token),
  )

  -- `withLock` on a free lock runs its callback on a store in which the lock holds the token, hands its
  -- outcome on, also an error, and leaves the lock free if the callback left it held.
  pub with_lock_free {ℓ} :
      {A : Type ℓ} (sleep : Db → Db) (retries : ℕ) (callback : Db → Outcome A × Db) (d : Db)
      → get k d ≡ none
      → (start : Db) × (get k start ≡ some (str token))
        × ((with_lock sleep k token ttl retries callback d).0 ≡ some (callback start).0)
        × (get k (callback start).1 ≡ some (str token)
            → get k (with_lock sleep k token ttl retries callback d).1 ≡ none)
  unfolding with_lock
  with_lock_free sleep retries callback d free =
      let start = (acquire sleep k token ttl retries d).1 in
      let taken = acquire_free sleep retries d (acquire_lock_free d free) in
      (
        start,
        (acquire_holds sleep retries d token taken).1,
        rw (taken, with_lock),
        λ kept. rw (taken, with_lock) ((release_lem (callback start).1).0 kept).1,
      )

  -- While another token holds the lock, `withLock` gives up and does not run the callback: the lock
  -- keeps its holder.
  pub with_lock_excluded {ℓ} :
      {A : Type ℓ} (sleep : Db → Db) (v : Value) (retries : ℕ) (callback : Db → Outcome A × Db)
      (d : Db)
      → ((d : Db) → get k d ≡ some v → get k (sleep d) ≡ some v)
      → get k d ≡ some v
      → (with_lock sleep k token ttl retries callback d
          ≡ (none, (acquire sleep k token ttl retries d).1))
        × (get k (with_lock sleep k token ttl retries callback d).1 ≡ some v)
  unfolding with_lock
  with_lock_excluded sleep v retries callback d keeps held =
      let (refused, kept) = acquire_excluded sleep v keeps retries d held in
      (rw (refused, with_lock), rw (refused, with_lock) kept)
