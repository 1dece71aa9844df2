-- ===== src/Congestion/Backoff/Levels.antt =====
-- The congestion levels of BackoffCalculator.classify.
use nestjs_playground.Prelude.{ℕ, ◌*◌, ◌≤◌, ◌<◌, ◌≡◌, ◌↔◌, arith}
use nestjs_playground.Congestion.Backoff.{
  CongestionLevel, none_level, low, moderate, high, critical, classify,
}

-- The order in which the levels are listed.
pub severity : CongestionLevel → ℕ
severity none_level = 0
severity low = 1
severity moderate = 2
severity high = 3
severity critical = 4

-- Against one base, a longer back-off never has a milder level.
pub classify_mono : (base a b : ℕ) → a ≤ b → severity (classify a base) ≤ severity (classify b base)
unfolding classify severity
classify_mono base a b h = ground arith

-- A back-off of up to the base is NONE, and for a positive base the level is CRITICAL exactly from
-- thirty times the base on.
pub classify_ends :
    (base a : ℕ)
    → 0 < base
    → ((classify a base ≡ none_level) ↔ (a ≤ base))
      × ((classify a base ≡ critical) ↔ (30 * base ≤ a))
unfolding classify
classify_ends base a h = (ground arith, ground arith)
