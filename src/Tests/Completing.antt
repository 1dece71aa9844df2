-- ===== src/Tests/Completing.antt =====
-- Jobs that are completed, that fail, and that are given up.
use nestjs_playground.Prelude.{
  ℕ, ◌+◌, ◌/◌, ◌≤◌, ◌<◌, true, false, String, none, some, [], ◌∷◌, ◌++◌, map, length, ◌≡◌, ◌⊎◌,
  refl, arith, Bool-cases,
}
use nestjs_playground.Watcher.StateMachine.{completed}
use nestjs_playground.Model.{
  num, str, group_status, dead_letter, pending, IsCount, JobProcessorResponse, String-discrete,
}
use nestjs_playground.Keys.{
  Key-discrete, Field-discrete, group_meta, group_aggregation_lock, dead_letter_queue, job,
  total_jobs, done_jobs, success_count, failed_count, processor_type, retry_count,
}
use nestjs_playground.Redis.{Db, get, hget, lrange, hset, memory, empty_store}
use nestjs_playground.FairQueue.{Job}
use nestjs_playground.Backpressure.Admission.{BackpressureConfig}
use nestjs_playground.Aggregator.Scripts.{counter}
use nestjs_playground.Aggregator.Service.{
  AggregationContext, job_results, get_result, resolve_aggregator, registered,
}
use nestjs_playground.Aggregator.StatusWrites.{status_of}
use nestjs_playground.Aggregator.DefaultAggregator.{
  DefaultValue, reduced, default_aggregator, default_aggregator_lem, sum_durations, failed_ids,
}
use nestjs_playground.WorkerPool.Completion.{
  handle_job_complete, handle_job_failed, dead_letter_entry,
}
use nestjs_playground.WorkerPool.Completion.Results.{context_with, handle_job_complete_ends_group}
use nestjs_playground.WorkerPool.Completion.Failures.{Requeued, Buried, handle_job_failed_lem}
use nestjs_playground.WorkerPool.Completion.Attempts.{fail_times, fail_times_buried}

abbrev done : JobProcessorResponse
done = record {
  job_id = "j1";
  group_id = "g1";
  success = true;
  output = "sent";
  error = none;
  duration_ms = 12;
  processor_type = "EMAIL";
}

abbrev show : DefaultValue → String
show v = "{}"

abbrev one_job : Db
one_job = hset (group_meta "g1") total_jobs (num 1) empty_store

abbrev wait : Db → Db
wait d = d

nothing_counted : IsCount (hget (group_meta "g1") success_count one_job)
unfolding hget hset Key-discrete Field-discrete String-discrete Bool-cases
nothing_counted = tt

no_failure : IsCount (hget (group_meta "g1") failed_count one_job)
unfolding hget hset Key-discrete Field-discrete String-discrete Bool-cases
no_failure = tt

none_done : IsCount (hget (group_meta "g1") done_jobs one_job)
unfolding hget hset Key-discrete Field-discrete String-discrete Bool-cases
none_done = tt

last_job : counter "g1" total_jobs one_job ≤ counter "g1" done_jobs one_job + 1
unfolding hget hset Key-discrete Field-discrete String-discrete Bool-cases
last_job = omega arith

unlocked : get (group_aggregation_lock "g1") one_job ≡ none
unfolding get hset
unlocked = refl

default_found :
    resolve_aggregator (default_aggregator ∷ []) (hget (group_meta "g1") processor_type one_job)
    ≡ some default_aggregator
unfolding resolve_aggregator registered default_aggregator hget hset Key-discrete Field-discrete
    String-discrete Bool-cases
default_found = refl

handle_job_complete_ends_group_example :
    let d' = handle_job_complete show (default_aggregator ∷ []) wait "t" 9 3 done 5 one_job in
    (status_of "g1" d' ≡ some (group_status completed))
    × (get_result "g1" d'
        ≡ some (
            str (
              show (
                default_aggregator.reduce
                  (map default_aggregator.map_result (job_results "g1" one_job ++ done ∷ []))
                  (context_with done one_job)))))
handle_job_complete_ends_group_example =
    handle_job_complete_ends_group show (default_aggregator ∷ []) wait "t" 9 3 done 5 one_job
      default_aggregator nothing_counted no_failure none_done last_job unlocked default_found

abbrev context : AggregationContext
context = record { group_id = "g1"; total_jobs = 1; success_count = 1; failed_count = 0 }

default_aggregator_lem_example :
    default_aggregator.reduce (map default_aggregator.map_result (done ∷ [])) context
    ≡ reduced (record {
      success_count = 1;
      failed_count = 0;
      total_jobs = 1;
      average_duration_ms = sum_durations (done ∷ []) / length (done ∷ []);
      failed_job_ids = failed_ids (done ∷ []);
    })
default_aggregator_lem_example = default_aggregator_lem (done ∷ []) context

abbrev limits : BackpressureConfig
limits = record {
  ready_queue_max_size = 10;
  rate_limit_window_sec = 1;
  rate_limit_key_ttl_sec = 2;
  congestion = record {
    enabled = false;
    base_backoff_ms = 1000;
    max_backoff_ms = 120000;
    global_rps = 10;
  };
}

abbrev failing : Job
failing = record {
  id = "j1";
  group_id = "g1";
  processor_type = "EMAIL";
  payload = "{}";
  status = pending;
  retry_count = 0;
  created_at = 1;
}

handle_job_failed_lem_example :
    let d' = handle_job_failed 3 limits false failing "refused" 5 one_job in
    ((0 < 3) × Requeued failing 5 one_job d') ⊎ ((3 ≤ 0) × Buried failing "refused" 5 one_job d')
handle_job_failed_lem_example =
    handle_job_failed_lem limits false failing "refused" 5 3 one_job no_failure none_done

abbrev stored : Db
stored = hset (job "j1") retry_count (num 0) empty_store

fresh_job : hget (job "j1") retry_count stored ≡ some (num 0)
unfolding hget hset Key-discrete Field-discrete String-discrete Bool-cases
fresh_job = refl

stored_failures : IsCount (hget (group_meta "g1") failed_count stored)
unfolding hget hset Key-discrete Field-discrete String-discrete Bool-cases
stored_failures = tt

stored_done : IsCount (hget (group_meta "g1") done_jobs stored)
unfolding hget hset Key-discrete Field-discrete String-discrete Bool-cases
stored_done = tt

abbrev said : ℕ → String
said n = "refused"

abbrev at_time : ℕ → ℕ
at_time n = n

fail_times_buried_example :
    let d' = fail_times 2 limits false said at_time failing 3 stored in
    let last = record failing { retry_count = 2 } in
    ((n : ℕ)
      → n ≤ 2
      → lrange dead_letter_queue (fail_times 2 limits false said at_time failing n stored)
        ≡ lrange dead_letter_queue stored)
    × (lrange dead_letter_queue d'
        ≡ lrange dead_letter_queue stored
          ++ dead_letter (dead_letter_entry last (said 2) (at_time 2)) ∷ [])
    × (counter "g1" failed_count d' ≡ counter "g1" failed_count stored + 1)
    × (counter "g1" done_jobs d' ≡ counter "g1" done_jobs stored + 1)
fail_times_buried_example =
    fail_times_buried 2 limits false said at_time failing stored fresh_job stored_failures
      stored_done
