-- ===== src/Aggregator/DefaultAggregator.antt =====
-- libs/bulk-action/src/aggregator/DefaultAggregator.ts. A duration is a natural number and a success a Boolean,
-- which is what `recordJobResult` stores.
use nestjs_playground.Prelude.{
  ℕ, ◌+◌, ◌/◌, Bool, not, ltb, if◌then◌else◌, String, Option, none, some, List, [], ◌∷◌, ◌++◌, map,
  keep, length, length-map, ◌≡◌, refl, ap, ap₂, append-nil, append_assoc, sym, ◌∙◌, inl, inr,
  Bool-cases, arith,
}
use nestjs_playground.Model.{Value, str, JobError, JobProcessorResponse, String-discrete}
use nestjs_playground.Redis.{same_text}
use nestjs_playground.Aggregator.Service.{
  Aggregator, AggregationContext, registered, resolve_aggregator, or_pick,
}

pub record DefaultMapResult : Type 0 where
  pub success : Bool
  pub duration_ms : ℕ
  pub error : Option JobError
  pub job_id : String

pub record DefaultReduceResult : Type 0 where
  pub success_count : ℕ
  pub failed_count : ℕ
  pub total_jobs : ℕ
  pub average_duration_ms : ℕ
  pub failed_job_ids : List String

-- The two types of values that go through the `unknown` of the interface.
pub data DefaultValue : Type 0 where
  mapped : DefaultMapResult → DefaultValue
  reduced : DefaultReduceResult → DefaultValue

unfoldable pub map_default : JobProcessorResponse → DefaultMapResult
map_default x = record {
  success = x.success;
  duration_ms = x.duration_ms;
  error = x.error;
  job_id = x.job_id;
}

-- The loop of `reduce`, from the totals so far.
unfoldable pub reduce_loop : ℕ → List String → List DefaultMapResult → ℕ × List String
reduce_loop total ids [] = (total, ids)
reduce_loop total ids (x ∷ xs) =
    reduce_loop (total + x.duration_ms) (if x.success then ids else ids ++ x.job_id ∷ []) xs

unfoldable pub reduce_default : List DefaultMapResult → AggregationContext → DefaultReduceResult
unfolding reduce_loop
reduce_default xs c =
    let (total, ids) = reduce_loop 0 [] xs in
    record {
      success_count = c.success_count;
      failed_count = c.failed_count;
      total_jobs = c.total_jobs;
      average_duration_ms = if ltb 0 (length xs) then total / length xs else 0;
      failed_job_ids = ids;
    }

abbrev pub mapped_only : List DefaultValue → List DefaultMapResult
mapped_only [] = []
mapped_only (mapped x ∷ vs) = x ∷ mapped_only vs
mapped_only (reduced x ∷ vs) = mapped_only vs

unfoldable pub default_aggregator : Aggregator DefaultValue
unfolding map_default reduce_default
default_aggregator = record {
  type = "__default__";
  map_result = λ x. mapped (map_default x);
  reduce = λ vs c. reduced (reduce_default (mapped_only vs) c);
}

-- The provider AGGREGATOR of BulkActionModule.ts: the default one, and then the custom ones.
unfoldable pub all_aggregators :
    {U : Type 0} → Aggregator U → List (Aggregator U) → List (Aggregator U)
all_aggregators default custom = default ∷ custom

-- The durations of results, summed, and the ids of those without success.
abbrev pub sum_durations : List JobProcessorResponse → ℕ
sum_durations [] = 0
sum_durations (x ∷ xs) = x.duration_ms + sum_durations xs

abbrev pub failed_ids : List JobProcessorResponse → List String
failed_ids xs = map (λ x. x.job_id) (keep (λ x. not x.success) xs)

reduce_loop_lem :
    (total : ℕ) (ids : List String) (xs : List JobProcessorResponse)
    → reduce_loop total ids (map map_default xs) ≡ (total + sum_durations xs, ids ++ failed_ids xs)
unfolding reduce_loop map_default
reduce_loop_lem total ids [] =
    ap₂ (λ (t : ℕ) (is : List String). (t, is)) (omega arith) (sym (append-nil ids))
reduce_loop_lem total ids (x ∷ xs) = elim (Bool-cases x.success) [
  | inl e ↦ rw e (
      reduce_loop_lem (total + x.duration_ms) ids xs
      ∙ ap (λ (t : ℕ). (t, ids ++ failed_ids xs)) (omega arith))
  | inr e ↦ rw e (
      reduce_loop_lem (total + x.duration_ms) (ids ++ x.job_id ∷ []) xs
      ∙ ap₂ (λ (t : ℕ) (is : List String). (t, is)) (omega arith)
          (append_assoc ids (x.job_id ∷ []) (failed_ids xs)))
]

totals :
    (xs : List JobProcessorResponse)
    → reduce_loop 0 [] (map map_default xs) ≡ (sum_durations xs, failed_ids xs)
totals xs = reduce_loop_lem 0 [] xs ∙ ap (λ (t : ℕ). (t, failed_ids xs)) (omega arith)

mapped_only-map :
    (xs : List JobProcessorResponse)
    → mapped_only (map default_aggregator.map_result xs) ≡ map map_default xs
unfolding default_aggregator
mapped_only-map [] = refl
mapped_only-map (x ∷ xs) = ap (◌∷◌ (map_default x)) (mapped_only-map xs)

-- The default aggregator's reduction of the results of a group is the counters of the group, the sum of the
-- durations divided by the number of results and rounded down (0 without results), and the ids of
-- the results without success, in their order.
pub default_aggregator_lem :
    (xs : List JobProcessorResponse) (c : AggregationContext)
    → default_aggregator.reduce (map default_aggregator.map_result xs) c
      ≡ reduced (record {
        success_count = c.success_count;
        failed_count = c.failed_count;
        total_jobs = c.total_jobs;
        average_duration_ms = if ltb 0 (length xs) then sum_durations xs / length xs else 0;
        failed_job_ids = failed_ids xs;
      })
unfolding default_aggregator reduce_default
default_aggregator_lem xs c = rw (mapped_only-map xs, totals xs, length-map)

or_pick-some :
    {U : Type 0} (o : Option (Aggregator U)) (a : Aggregator U)
    → (b : Aggregator U) × (or_pick o (some a) ≡ some b)
or_pick-some none a = (a, refl)
or_pick-some (some b) a = (b, refl)

or_pick-right :
    {U : Type 0} (o p : Option (Aggregator U))
    → ((b : Aggregator U) × (p ≡ some b))
    → (b : Aggregator U) × (or_pick o p ≡ some b)
or_pick-right none p h = h
or_pick-right (some a) p h = (a, refl)

registered_default :
    {U : Type 0} (a : Aggregator U) (custom : List (Aggregator U))
    → a.type ≡ "__default__"
    → (b : Aggregator U) × (registered (all_aggregators a custom) "__default__" ≡ some b)
unfolding registered all_aggregators String-discrete Bool-cases
registered_default a custom h = or_pick-right (registered custom "__default__") _ (a, rw h refl)

-- With the default aggregator registered, whatever the custom ones are, every group finds an aggregator,
-- also one whose processor type is missing or unknown: `aggregate` never throws for the lack of one.
pub resolve_aggregator_total :
    {U : Type 0} (a : Aggregator U) (custom : List (Aggregator U)) (processor : Option Value)
    → a.type ≡ "__default__"
    → (b : Aggregator U) × (resolve_aggregator (all_aggregators a custom) processor ≡ some b)
unfolding resolve_aggregator
resolve_aggregator_total a custom (some (str t)) h = elim (Bool-cases (same_text t "")) [
  | inl e ↦ rw (e, resolve_aggregator) (registered_default a custom h)
  | inr e ↦
      rw (e, resolve_aggregator)
        (or_pick-right (registered (all_aggregators a custom) t) _ (registered_default a custom h))
]
resolve_aggregator_total a custom _ h = registered_default a custom h
