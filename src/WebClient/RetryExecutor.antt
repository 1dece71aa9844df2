-- ===== src/WebClient/RetryExecutor.antt =====
-- libs/web-client/src/retry/RetryExecutor.ts. The action is a step on the state `S` of the world, and `sleep` is
-- what the wait of some milliseconds does to it; `Math.random() * jitter`, rounded down, is an argument for
-- each attempt.
use nestjs_playground.Prelude.{
  ℕ, zero, suc, ◌+◌, ◌-◌, ◌*◌, ◌^◌, ◌≤◌, ◌<◌, min, ltb, if◌then◌else◌, String, ◌≡◌, refl, ap, ◌∙◌,
  arith,
}
use nestjs_playground.Lock.{Outcome, returns, throws}
use nestjs_playground.WebClient.RetryPolicy.{ℤ, pos, negsuc, RetryPolicy}

-- The number of a policy that `build` has let pass.
abbrev pub to_count : ℤ → ℕ
to_count (pos n) = n
to_count (negsuc n) = 0

unfoldable pub base_delay : ℕ → RetryPolicy → ℕ
base_delay retry_count p =
    if ltb 0 (to_count p.multiplier)
    then to_count p.delay * to_count p.multiplier ^ retry_count
    else to_count p.delay

unfoldable pub calculate_delay : ℕ → ℕ → RetryPolicy → ℕ
unfolding base_delay
calculate_delay random_part retry_count p =
    let jitter = if ltb 0 (to_count p.jitter) then random_part else 0 in
    let total = base_delay retry_count p + jitter in
    if ltb 0 (to_count p.max_delay) then min total (to_count p.max_delay) else total

module _ {S A : Type 0} (action : S → Outcome A × S) (sleep : ℕ → S → S) (random_part : ℕ → ℕ)
    (p : RetryPolicy) where
  -- The loop from the attempt `attempt` on, with `left` more attempts after it.
  unfoldable pub attempts : ℕ → ℕ → S → Outcome A × S
  unfolding calculate_delay
  attempts zero attempt s = action s
  attempts (suc left) attempt s =
      let (out, s') = action s in
      let rest =
        attempts left (suc attempt) (sleep (calculate_delay (random_part attempt) attempt p) s') in
      elim out [ returns a ↦ (returns a, s') | throws e ↦ rest ]

  -- With a negative number of retries the loop has no attempt, and `undefined` is thrown.
  unfoldable pub execute : S → Outcome A × S
  unfolding attempts
  execute s = elim p.max_retries [ pos n ↦ attempts n 0 s | negsuc n ↦ (throws "undefined", s) ]

  -- The world before the attempt `n`, when all attempts before it have thrown.
  abbrev pub world_at : ℕ → S → S
  world_at zero s = s
  world_at (suc n) s = sleep (calculate_delay (random_part n) n p) (action (world_at n s)).1

  attempts-world :
      (left n : ℕ) (s : S) (e : String)
      → (action (world_at n s)).0 ≡ throws e
      → attempts (suc left) n (world_at n s) ≡ attempts left (suc n) (world_at (suc n) s)
  unfolding attempts
  attempts-world left n s e h = rw (h, attempts) refl

  -- The attempts before `n` have all thrown.
  abbrev pub FailedBefore : ℕ → S → Type 0
  FailedBefore n s = (i : ℕ) → i < n → (e : String) × ((action (world_at i s)).0 ≡ throws e)

  attempts-skip :
      (n left : ℕ) (s : S)
      → FailedBefore n s
      → attempts (n + left) 0 s ≡ attempts left n (world_at n s)
  attempts-skip zero left s h = ap (λ k. attempts k 0 s) (omega arith)
  attempts-skip (suc n) left s h =
      let (e, f) = h n (omega arith) in
      let before = attempts-skip n (suc left) s (λ i lt. h i (omega (arith, lt))) in
      ap (λ k. attempts k 0 s) (omega arith) ∙ (before ∙ attempts-world left n s e f)

  attempts-success :
      (left n : ℕ) (s : S) (a : A)
      → (action s).0 ≡ returns a
      → attempts left n s ≡ (returns a, (action s).1)
  unfolding attempts
  attempts-success zero n s a h = ap (λ (o : Outcome A). (o, (action s).1)) h
  attempts-success (suc left) n s a h = rw (h, attempts)

  execute-attempts : (n : ℕ) (s : S) → p.max_retries ≡ pos n → execute s ≡ attempts n 0 s
  unfolding execute
  execute-attempts n s e = rw (execute, e)

  -- The action is called again, each time after the wait that the policy gives, until it succeeds: where the
  -- attempts before attempt `k` throw and that one, which is within the retries, returns, `execute`
  -- returns its value, in the world that it left, and makes no further attempt.
  pub execute_first_success :
      (n k : ℕ) (s : S) (a : A)
      → p.max_retries ≡ pos n
      → k ≤ n
      → FailedBefore k s
      → (action (world_at k s)).0 ≡ returns a
      → execute s ≡ (returns a, (action (world_at k s)).1)
  execute_first_success n k s a e le h f =
      let split : n ≡ k + (n - k) = omega arith in
      execute-attempts n s e
      ∙ (ap (λ m. attempts m 0 s) split
          ∙ (attempts-skip k (n - k) s h ∙ attempts-success (n - k) k (world_at k s) a f))

  -- Where the first attempt and all retries throw, `execute` throws what the last of them threw, after
  -- one attempt more than there are retries.
  pub execute_all_failed :
      (n : ℕ) (s : S) (message : String)
      → p.max_retries ≡ pos n
      → FailedBefore n s
      → (action (world_at n s)).0 ≡ throws message
      → execute s ≡ (throws message, (action (world_at n s)).1)
  unfolding attempts
  execute_all_failed n s message e h f =
      let split : n ≡ n + 0 = omega arith in
      execute-attempts n s e
      ∙ (ap (λ m. attempts m 0 s) split
          ∙ (attempts-skip n 0 s h ∙ ap (λ (o : Outcome A). (o, (action (world_at n s)).1)) f))

-- A wait is never longer than the longest delay that the policy allows, if it allows one; with a random part below
-- the jitter it is otherwise at least the base delay and less than the base delay and the jitter.
pub calculate_delay_bounds :
    (random_part retry_count : ℕ) (p : RetryPolicy)
    → random_part < to_count p.jitter
    → let d = calculate_delay random_part retry_count p in
      (0 < to_count p.max_delay → d ≤ to_count p.max_delay)
      × (d ≤ base_delay retry_count p + to_count p.jitter)
      × (to_count p.max_delay ≡ 0 → base_delay retry_count p ≤ d)
unfolding calculate_delay
calculate_delay_bounds random_part retry_count p h = (ground arith, ground arith, ground arith)
