-- ===== src/Model.antt =====
-- libs/bulk-action/src/model and reliable-queue/DeadLetterService.ts: jobs, results of jobs, dead
-- letters, and the values that the program stores. A number that the code writes with `toString` and
-- reads back with `parseInt` or `tonumber` is stored as that number, a value of an enum as itself
-- (its text), and an object that passes through `JSON.stringify` and `JSON.parse` as that object.
use text.Mathlib.Text.{◌==◌ as str_eq}
use text.Mathlib.TextEquality.{eq_iff}
use nestjs_playground.Prelude.{
  ℕ, zero, suc, ◌≡◌, String, Bool, true, false, Option, none, some, inl, inr, Bool-cases, ◌↔◌,
  arith, refl,
}
use nestjs_playground.Watcher.StateMachine.{GroupStatus, created, same_status, GroupStatus-discrete}

pub str_eq-differ : (s t : String) → str_eq s t ≡ false → ¬ (s ≡ t)
str_eq-differ s t e p = cc ((eq_iff s t).1 p)

unfoldable pub String-discrete : Discrete String
String-discrete s t = elim (Bool-cases (str_eq s t)) [
  | inl e ↦ yes ((eq_iff s t).0 e)
  | inr e ↦ no (str_eq-differ s t e)
]

pub data PriorityLevel : Type 0 where
  high_level normal_level low_level : PriorityLevel

pub data JobStatus : Type 0 where
  pending processing job_completed job_failed : JobStatus

pub data WorkerState : Type 0 where
  idle_worker running_worker stopping_worker stopped_worker : WorkerState

pub record JobError : Type 0 where
  pub message : String
  pub code : Option String
  pub retryable : Bool

-- `data` of the source is `output`, a text that the code passes on.
pub record JobProcessorResponse : Type 0 where
  pub job_id : String
  pub group_id : String
  pub success : Bool
  pub output : String
  pub error : Option JobError
  pub duration_ms : ℕ
  pub processor_type : String

pub record DeadLetterEntry : Type 0 where
  pub job_id : String
  pub group_id : String
  pub retry_count : ℕ
  pub error : String
  pub failed_at : ℕ

-- `neg n` is the number -(n + 1).
pub data Value : Type 0 where
  num neg : ℕ → Value
  str : String → Value
  group_status : GroupStatus → Value
  job_status : JobStatus → Value
  level : PriorityLevel → Value
  dead_letter : DeadLetterEntry → Value
  job_result : JobProcessorResponse → Value

-- `tonumber(v or '0')` and `parseInt(v ?? '0', 10)` of a counter.
abbrev pub to_number : Option Value → ℕ
to_number (some (num n)) = n
to_number _ = 0

abbrev pub to_text : Option Value → String
to_text (some (str s)) = s
to_text _ = ""

-- `v === status`, where a missing value is no status.
abbrev pub is_status : Option Value → GroupStatus → Bool
unfolding GroupStatus-discrete
is_status (some (group_status s)) t = same_status s t
is_status _ t = false

-- `meta.status as GroupStatus`
abbrev pub to_status : Option Value → Option GroupStatus
to_status (some (group_status s)) = some s
to_status _ = none

-- INCR and DECR: a missing value counts as 0, and a value that is no number stays.
abbrev pub increment : Option Value → Value
increment none = num 1
increment (some (num n)) = num (suc n)
increment (some (neg zero)) = num 0
increment (some (neg (suc n))) = neg n
increment (some v) = v

abbrev pub decrement : Option Value → Value
decrement none = neg 0
decrement (some (num zero)) = neg 0
decrement (some (num (suc n))) = num n
decrement (some (neg n)) = neg (suc n)
decrement (some v) = v

pub is_status_iff :
    (v : Option Value) (s : GroupStatus) → (is_status v s ≡ true) ↔ (v ≡ some (group_status s))
unfolding GroupStatus-discrete
is_status_iff none s = ground arith
is_status_iff (some (group_status created)) s = ground arith
is_status_iff (some (group_status t)) s = ground arith
is_status_iff (some v) s = ground arith

-- A counter that nothing has taken below 0.
abbrev pub IsCount : Option Value → Type 0
IsCount none = Unit {0}
IsCount (some (num n)) = Unit {0}
IsCount (some _) = ⊥

pub to_number-increment :
    (v : Option Value) → IsCount v → to_number (some (increment v)) ≡ suc (to_number v)
to_number-increment none h = refl
to_number-increment (some (num n)) h = refl
to_number-increment (some (neg n)) h = absurd h
to_number-increment (some _) h = absurd h

pub decrement-increment :
    (v : Option Value) → IsCount v → decrement (some (increment v)) ≡ num (to_number v)
decrement-increment none h = refl
decrement-increment (some (num n)) h = refl
decrement-increment (some (neg n)) h = absurd h
decrement-increment (some _) h = absurd h

pub IsCount-increment : (v : Option Value) → IsCount v → IsCount (some (increment v))
IsCount-increment none h = tt
IsCount-increment (some (num n)) h = tt
IsCount-increment (some (neg n)) h = absurd h
IsCount-increment (some _) h = absurd h
