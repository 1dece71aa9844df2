-- ===== src/Aggregator/Service.antt =====
-- libs/bulk-action/src/aggregator/AggregatorService.ts and AggregatorInterface.ts: `aggregate`,
-- `finalizeGroup`, `getResult`, `getProgress` and the registry of aggregators. `unknown` is the type
-- `U`; `stringify` is `JSON.stringify` on it. In `finalizeGroup` other clients act as `others` before the
-- reading of the metadata, after it, and between a transition and the aggregation; between the calls
-- within `aggregate` none does.
pub mod Batches
pub mod Finalization
pub mod Frame
use nestjs_playground.Prelude.{
  ℕ, zero, suc, ◌+◌, ◌-◌, ◌*◌, ◌/◌, Bool, true, false, ltb, ◌==◌, if◌then◌else◌, String, Option,
  none, some, List, [], ◌∷◌, ◌++◌, map, length, take, drop,
}
use nestjs_playground.Watcher.StateMachine.{GroupStatus, running, aggregating, completed}
use nestjs_playground.Model.{
  Value, num, str, job_result, JobProcessorResponse, to_number, to_status, String-discrete,
}
use nestjs_playground.Keys.{
  group_meta, group_result, group_job_results, group_aggregation_lock, status, total_jobs,
  done_jobs, success_count, failed_count, processor_type, result, aggregated_at,
}
use nestjs_playground.Redis.{Redis, Db, hget, lrange, hset, same_text}
use nestjs_playground.Lock.{Outcome, returns, throws, with_lock}
use nestjs_playground.Aggregator.Scripts.{transition}

pub record AggregationContext : Type 0 where
  pub group_id : String
  pub total_jobs : ℕ
  pub success_count : ℕ
  pub failed_count : ℕ

pub record Aggregator (U : Type 0) : Type 0 where
  pub type : String
  pub map_result : JobProcessorResponse → U
  pub reduce : List U → AggregationContext → U

pub record GroupProgress : Type 0 where
  pub group_id : String
  pub total_jobs : ℕ
  pub success_count : ℕ
  pub failed_count : ℕ
  pub done_jobs : ℕ
  pub progress_percent : ℕ
  pub status : Option GroupStatus

abbrev pub results_of : List Value → List JobProcessorResponse
results_of [] = []
results_of (job_result x ∷ vs) = x ∷ results_of vs
results_of (_ ∷ vs) = results_of vs

abbrev pub or_pick {ℓ} : {A : Type ℓ} → Option A → Option A → Option A
or_pick none b = b
or_pick (some a) b = some a

-- `Map.get` after the constructor's `Map.set`s: the last of a type wins.
unfoldable pub registered : {U : Type 0} → List (Aggregator U) → String → Option (Aggregator U)
registered [] t = none
registered (a ∷ rest) t = or_pick (registered rest t) (if same_text a.type t then some a else none)

-- A processor type that is missing or empty is falsy.
unfoldable pub resolve_aggregator :
    {U : Type 0} → List (Aggregator U) → Option Value → Option (Aggregator U)
unfolding registered
resolve_aggregator as_given (some (str t)) =
    if same_text t ""
    then registered as_given "__default__"
    else or_pick (registered as_given t) (registered as_given "__default__")
resolve_aggregator as_given _ = registered as_given "__default__"

abbrev pub after_batch : {U : Type 0} → List U → Option (List U) → Option (List U)
after_batch ys none = none
after_batch ys (some zs) = some (ys ++ zs)

abbrev pub default_batch_size : ℕ
default_batch_size = 5000

-- The batches of `aggregate`: LRANGE of `batch_size` entries from `offset`, until one is empty or
-- short. `none` means that the fuel ran out.
unfoldable pub load_batches :
    {U : Type 0}
    → (JobProcessorResponse → U)
    → ℕ
    → ℕ
    → ℕ
    → List JobProcessorResponse
    → Option (List U)
load_batches f batch_size zero offset xs = none
load_batches f batch_size (suc fuel) offset xs =
    let batch = take batch_size (drop offset xs) in
    let rest = load_batches f batch_size fuel (offset + length batch) xs in
    if length batch == 0
    then some []
    else if ltb (length batch) batch_size
    then some (map f batch)
    else after_batch (map f batch) rest

-- What a loop that has ended loaded.
abbrev pub loaded : {U : Type 0} → Option (List U) → List U
loaded none = []
loaded (some xs) = xs

module _ ⦃r : Redis⦄ where
  abbrev pub job_results : String → Db → List JobProcessorResponse
  job_results g d = results_of (lrange (group_job_results g) d)

  unfoldable pub context_of : String → Db → AggregationContext
  context_of g d = record {
    group_id = g;
    total_jobs = to_number (hget (group_meta g) total_jobs d);
    success_count = to_number (hget (group_meta g) success_count d);
    failed_count = to_number (hget (group_meta g) failed_count d);
  }

  unfoldable pub get_result : String → Db → Option Value
  get_result g d = hget (group_result g) result d

  -- `Math.floor((doneJobs / totalJobs) * 100)`
  unfoldable pub get_progress : String → Db → GroupProgress
  get_progress g d =
      let total = to_number (hget (group_meta g) total_jobs d) in
      let finished = to_number (hget (group_meta g) done_jobs d) in
      record {
        group_id = g;
        total_jobs = total;
        success_count = to_number (hget (group_meta g) success_count d);
        failed_count = to_number (hget (group_meta g) failed_count d);
        done_jobs = finished;
        progress_percent = if ltb 0 total then finished * 100 / total else 0;
        status = to_status (hget (group_meta g) status d);
      }

-- `result ?? false`
abbrev or_false : Option (Outcome Bool) → Outcome Bool
or_false none = returns false
or_false (some out) = out

module _ ⦃r : Redis⦄ {U : Type 0} (stringify : U → String) (aggregators : List (Aggregator U)) where
  -- The fuel: one round more than there are results is enough for a positive batch size.
  unfoldable pub aggregate_with : Aggregator U → String → ℕ → Db → U × Db
  unfolding load_batches context_of
  aggregate_with a g now d =
      let results = job_results g d in
      let mapped =
        loaded (load_batches a.map_result default_batch_size (suc (length results)) 0 results) in
      let reduced = a.reduce mapped (context_of g d) in
      (
        reduced,
        hset (group_result g) aggregated_at (num now)
            (hset (group_result g) result (str (stringify reduced)) d),
      )

  unfoldable pub aggregate : String → Option Value → ℕ → Db → Outcome U × Db
  unfolding aggregate_with resolve_aggregator
  aggregate g processor now d = elim (resolve_aggregator aggregators processor) [
    | none ↦ (throws "No default aggregator registered", d)
    | some a ↦ let (u, d') = aggregate_with a g now d in (returns u, d')
  ]

  -- AGGREGATING to COMPLETED, once the results are aggregated; an error of `aggregate` goes on.
  unfoldable pub aggregate_and_complete :
      (Db → Db) → String → Option Value → ℕ → Db → Outcome Bool × Db
  unfolding aggregate transition
  aggregate_and_complete others g processor now d =
      let (out, d') = aggregate g processor now d in
      elim out [
        | throws e ↦ (throws e, d')
        | returns u ↦
            let (done, d'') = transition g aggregating completed now (others d') in
            (returns done, d'')
      ]

  -- The callback of `finalizeGroup`, by the status and the processor type that it read.
  unfoldable pub finalize_from :
      (Db → Db) → String → Option GroupStatus → Option Value → ℕ → Db → Outcome Bool × Db
  unfolding aggregate_and_complete transition
  finalize_from others g (some aggregating) processor now d =
      aggregate_and_complete others g processor now d
  finalize_from others g (some running) processor now d =
      let (moved, d') = transition g running aggregating now d in
      if moved
      then aggregate_and_complete others g processor now (others d')
      else (returns false, d')
  finalize_from others g _ processor now d = (returns false, d)

  unfoldable pub finalize_group :
      (Db → Db) → (Db → Db) → String → String → ℕ → ℕ → ℕ → Db → Outcome Bool × Db
  unfolding finalize_from with_lock
  finalize_group others sleep token g ttl retries now d =
      let (out, d') =
        with_lock sleep (group_aggregation_lock g) token ttl retries
          (λ d.
            let read = others d in
            finalize_from others g (to_status (hget (group_meta g) status read))
              (hget (group_meta g) processor_type read) now (others read))
          d in
      (or_false out, d')
