-- ===== src/Tests/Submitting.antt =====
-- A group that is submitted, its first check and its jobs; the ready queue; the history.
use nestjs_playground.Prelude.{
  ◌+◌, ◌≤◌, ◌<◌, String, Option, none, some, List, [], ◌∷◌, ◌++◌, map, length, ◌≡◌, ◌≢◌, refl,
  arith, Bool-cases,
}
use nestjs_playground.Watcher.StateMachine.{created, dispatched}
use nestjs_playground.Model.{Value, num, str, group_status, to_number, str_eq-differ}
use nestjs_playground.Keys.{
  Key-discrete, Field, group_meta, group_jobs, ready_queue, congestion_history,
  watcher_active_groups, status, total_jobs, done_jobs, registered_jobs, timeout_at,
}
use nestjs_playground.Redis.{Db, hget, lrange, rpush, smembers, add_text, memory, empty_store}
use nestjs_playground.Lock.{returns}
use nestjs_playground.Aggregator.StatusWrites.{status_of}
use nestjs_playground.Aggregator.DefaultAggregator.{DefaultValue, default_aggregator}
use nestjs_playground.Watcher.Service.{WatcherStats, WatcherConfig, check_group}
use nestjs_playground.Facade.{
  BulkJob, SubmitBulkJobsRequest, request_for, submit_bulk_jobs, get_job_status,
}
use nestjs_playground.Facade.Submission.{IsNew, ids_of, submit_bulk_jobs_lem}
use nestjs_playground.Facade.Progress.{submit-check_group}
use nestjs_playground.Facade.Lookup.{job_of, submit_bulk_jobs-get_job_status}
use nestjs_playground.Backpressure.ReadyQueue.Fifo.{
  Op, do_push, do_pop, do_size, queue_run, service_run, Holds, service_run_refines,
}
use nestjs_playground.Congestion.History.{
  last_of, get_congestion_history, snapshot_each, get_congestion_history_lem,
}

abbrev job_named : String → BulkJob
job_named j = record { job_id = j; payload = "{}" }

abbrev two_jobs : SubmitBulkJobsRequest
two_jobs = record {
  group_id = "g1";
  processor_type = "EMAIL";
  jobs = job_named "j1" ∷ job_named "j2" ∷ [];
  base_priority = none;
  priority_level = none;
}

nothing_stored : IsNew "g1" empty_store
unfolding hget lrange
nothing_stored = record { total = refl; finished = refl; jobs = refl }

submit_bulk_jobs_lem_example :
    let (n, d') = submit_bulk_jobs 10 86400000 two_jobs 5 empty_store in
    let at : Field → Option Value = λ f. hget (group_meta "g1") f d' in
    (n ≡ 2)
    × (to_number (at total_jobs) ≡ n)
    × (at registered_jobs ≡ some (num n))
    × (to_number (at done_jobs) ≡ 0)
    × (lrange (group_jobs "g1") d' ≡ ids_of two_jobs.jobs)
    × (0 < n → at status ≡ some (group_status created))
    × (smembers watcher_active_groups d'
        ≡ add_text "g1" (smembers watcher_active_groups empty_store))
    × (at timeout_at ≡ some (num (5 + 86400000)))
submit_bulk_jobs_lem_example =
    submit_bulk_jobs_lem 10 86400000 5 two_jobs empty_store nothing_stored

abbrev show : DefaultValue → String
show v = "{}"

abbrev watching : WatcherConfig
watching = record { lock_ttl_ms = 9; lock_retry_count = 3; stale_group_threshold_ms = 100 }

abbrev nothing_counted : WatcherStats
nothing_counted = record { cycle_count = 0; groups_checked = 0; transitions_triggered = 0 }

abbrev wait : Db → Db
wait d = d

submit-check_group_example :
    let d' = (submit_bulk_jobs 10 86400000 two_jobs 5 empty_store).1 in
    let (error, (s', d'')) =
      check_group show
        (default_aggregator ∷ [])
        watching
        wait
        (λ e. e)
        "t"
        "u"
        1005
        "g1"
        nothing_counted
        d' in
    (error ≡ none)
    × (status_of "g1" d'' ≡ some (group_status dispatched))
    × (s'.transitions_triggered ≡ nothing_counted.transitions_triggered + 1)
submit-check_group_example =
    submit-check_group 10 86400000 5 two_jobs empty_store show (default_aggregator ∷ []) watching
      wait "t" "u" 1005 nothing_counted nothing_stored (omega arith) (omega arith)

named : (job_named "j1").job_id ≢ ""
named = str_eq-differ "j1" "" refl

other_name : (job_named "j2").job_id ≢ "j1"
other_name = str_eq-differ "j2" "j1" refl

submit_bulk_jobs-get_job_status_example :
    get_job_status "j1" (submit_bulk_jobs 10 86400000 two_jobs 5 empty_store).1
    ≡ some (returns (job_of (request_for two_jobs (job_named "j1")) 5))
submit_bulk_jobs-get_job_status_example =
    submit_bulk_jobs-get_job_status 10 86400000 5 two_jobs [] (job_named "j2" ∷ []) (job_named "j1")
      empty_store refl named (other_name, tt)

abbrev one_waits : Db
one_waits = rpush ready_queue (str "j1") empty_store

Holds-one : Holds 2 ("j1" ∷ []) one_waits
unfolding lrange rpush Key-discrete Bool-cases
Holds-one = refl

abbrev calls : List Op
calls = do_push "j2" ∷ do_push "j3" ∷ do_pop ∷ do_size ∷ []

service_run_refines_example :
    let (answers, q') = queue_run 2 calls ("j1" ∷ []) in
    let (given, d') = service_run 2 calls one_waits in (given ≡ answers) × Holds 2 q' d'
service_run_refines_example = service_run_refines 2 calls ("j1" ∷ []) one_waits Holds-one

no_history : length (lrange (congestion_history "g1") empty_store) ≤ 2
unfolding lrange
no_history = omega arith

get_congestion_history_lem_example :
    let d' = snapshot_each 2 "g1" ("a" ∷ "b" ∷ "c" ∷ []) empty_store in
    (get_congestion_history "g1" 1 d'
      ≡ last_of 1 (lrange (congestion_history "g1") empty_store ++ map str ("a" ∷ "b" ∷ "c" ∷ [])))
    × (length (lrange (congestion_history "g1") d') ≤ 2)
get_congestion_history_lem_example =
    get_congestion_history_lem 2 1 "g1" ("a" ∷ "b" ∷ "c" ∷ []) empty_store (omega arith)
      (omega arith) no_history
