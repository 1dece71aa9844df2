-- ===== src/WebClient/RetryPolicy.antt =====
-- libs/web-client/src/retry/RetryPolicy.ts. The numbers of a policy are integers.
use nestjs_playground.Prelude.{ℕ, Bool, true, false, if◌then◌else◌, ◌≡◌, ◌↔◌, inl, inr, Bool-cases}
use nestjs_playground.Lock.{Outcome, returns, throws}

-- `negsuc n` is the number -(n + 1).
pub data ℤ : Type 0 where
  pos negsuc : ℕ → ℤ

abbrev pub is_negative : ℤ → Bool
is_negative (pos n) = false
is_negative (negsuc n) = true

pub record RetryPolicy : Type 0 where
  pub max_retries : ℤ
  pub delay : ℤ
  pub jitter : ℤ
  pub multiplier : ℤ
  pub max_delay : ℤ

unfoldable pub with_defaults : RetryPolicy
with_defaults = record {
  max_retries = pos 3;
  delay = pos 1000;
  jitter = pos 0;
  multiplier = pos 0;
  max_delay = pos 0;
}

-- The builder keeps the same five numbers, and begins with the defaults.
unfoldable pub builder : RetryPolicy
unfolding with_defaults
builder = with_defaults

pub data Setter : Type 0 where
  set_max_retries set_delay set_jitter set_multiplier set_max_delay : ℤ → Setter

unfoldable pub apply_setter : Setter → RetryPolicy → RetryPolicy
apply_setter (set_max_retries v) b = record b { max_retries = v }
apply_setter (set_delay v) b = record b { delay = v }
apply_setter (set_jitter v) b = record b { jitter = v }
apply_setter (set_multiplier v) b = record b { multiplier = v }
apply_setter (set_max_delay v) b = record b { max_delay = v }

unfoldable pub build : RetryPolicy → Outcome RetryPolicy
build b =
    if is_negative b.max_retries
    then throws "maxRetries must be >= 0"
    else if is_negative b.delay
    then throws "delay must be >= 0"
    else if is_negative b.jitter
    then throws "jitter must be >= 0"
    else if is_negative b.multiplier
    then throws "multiplier must be >= 0"
    else if is_negative b.max_delay
    then throws "maxDelay must be >= 0"
    else returns b

unfoldable pub with_max_retries : ℤ → Outcome RetryPolicy
unfolding build apply_setter builder
with_max_retries n = build (apply_setter (set_max_retries n) builder)

-- A policy without a negative number.
abbrev pub IsValid : RetryPolicy → Type 0
IsValid p =
    (is_negative p.max_retries ≡ false)
    × (is_negative p.delay ≡ false)
    × (is_negative p.jitter ≡ false)
    × (is_negative p.multiplier ≡ false)
    × (is_negative p.max_delay ≡ false)

built : (b p : RetryPolicy) → build b ≡ returns p → IsValid b × (p ≡ b)
unfolding build
built b p h = elim (Bool-cases (is_negative b.max_retries)) [
  | inl e0 ↦ absurd (cc (rw (build, e0) at h))
  | inr e0 ↦ elim (Bool-cases (is_negative b.delay)) [
    | inl e1 ↦ absurd (cc (rw (build, e0, e1) at h))
    | inr e1 ↦ elim (Bool-cases (is_negative b.jitter)) [
      | inl e2 ↦ absurd (cc (rw (build, e0, e1, e2) at h))
      | inr e2 ↦ elim (Bool-cases (is_negative b.multiplier)) [
        | inl e3 ↦ absurd (cc (rw (build, e0, e1, e2, e3) at h))
        | inr e3 ↦ elim (Bool-cases (is_negative b.max_delay)) [
          | inl e4 ↦ absurd (cc (rw (build, e0, e1, e2, e3, e4) at h))
          | inr e4 ↦ ((e0, e1, e2, e3, e4), cc (rw (build, e0, e1, e2, e3, e4) at h))
        ]
      ]
    ]
  ]
]

-- `build` gives the policy that was set, and does so exactly when no number of it is negative; otherwise it
-- throws.
pub build_iff : (b p : RetryPolicy) → (build b ≡ returns p) ↔ (IsValid b × (p ≡ b))
unfolding build
build_iff b p = (built b p, λ ((a, c, d, m, x), e). rw (a, c, d, m, x, e, build))
