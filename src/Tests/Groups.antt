-- ===== src/Tests/Groups.antt =====
-- A group of one job, on its way from CREATED to COMPLETED.
use nestjs_playground.Prelude.{
  ℕ, ◌≤◌, true, String, none, some, [], ◌∷◌, length, inl, ◌≡◌, ◌↔◌, ◌⊎◌, refl, Bool-cases,
}
use nestjs_playground.Watcher.StateMachine.{
  created, failed, running, aggregating, completed, is_valid_transition,
}
use nestjs_playground.Watcher.StateMachine.Diagram.{Drawn, is_valid_transition_iff}
use nestjs_playground.Model.{str, group_status, job_result, JobProcessorResponse, String-discrete}
use nestjs_playground.Keys.{
  Key-discrete, Field-discrete, group_meta, group_job_results, group_aggregation_lock, status,
  processor_type,
}
use nestjs_playground.Redis.{Db, get, hget, hset, rpush, memory, empty_store}
use nestjs_playground.Lock.{returns}
use nestjs_playground.Prelude.{◌+◌, ◌≤◌, ◌<◌, ◌++◌, if◌then◌else◌}
use nestjs_playground.Keys.{job, done_jobs, total_jobs, success_count, failed_count}
use nestjs_playground.Model.{job_status, job_completed}
use nestjs_playground.Redis.{lrange}
use nestjs_playground.Aggregator.Scripts.{counter, ack, record_job_result}
use nestjs_playground.Aggregator.Scripts.Counting.{ack_lem, record_job_result_lem}
use nestjs_playground.Aggregator.Service.{
  Aggregator, resolve_aggregator, get_result, finalize_group,
}
use nestjs_playground.Aggregator.StatusWrites.{status_of}
use nestjs_playground.Aggregator.Service.Finalization.{reduction, finalize_group_lem}

is_valid_transition_iff_example :
    (is_valid_transition running aggregating ≡ true)
    ↔ (Drawn running aggregating ⊎ ((running ≡ created) × (aggregating ≡ failed)))
is_valid_transition_iff_example = is_valid_transition_iff running aggregating

abbrev sent : JobProcessorResponse
sent = record {
  job_id = "j1";
  group_id = "g1";
  success = true;
  output = "sent";
  error = none;
  duration_ms = 12;
  processor_type = "EMAIL";
}

abbrev counting : Aggregator ℕ
counting = record {
  type = "__default__";
  map_result = λ x. x.duration_ms;
  reduce = λ xs c. length xs;
}

abbrev show : ℕ → String
show n = "1"

abbrev group_store : Db
group_store =
    rpush (group_job_results "g1") (job_result sent)
      (hset (group_meta "g1") status (group_status running) empty_store)

abbrev quiet : Db → Db
quiet d = d

is_running : status_of "g1" group_store ≡ some (group_status running)
unfolding hget hset rpush Key-discrete Field-discrete String-discrete Bool-cases
is_running = refl

unlocked : get (group_aggregation_lock "g1") group_store ≡ none
unfolding get hset rpush
unlocked = refl

default_found :
    resolve_aggregator (counting ∷ []) (hget (group_meta "g1") processor_type group_store)
    ≡ some counting
unfolding resolve_aggregator hget hset rpush Key-discrete Field-discrete String-discrete Bool-cases
default_found = refl

finalize_group_lem_example :
    let out = finalize_group show (counting ∷ []) (λ e. e) quiet "token" "g1" 30 2 9 group_store in
    (out.0 ≡ returns true)
    × (status_of "g1" out.1 ≡ some (group_status completed))
    × (get_result "g1" out.1
        ≡ some (str (show (reduction show (counting ∷ []) counting "g1" group_store))))
finalize_group_lem_example =
    finalize_group_lem show (counting ∷ []) quiet "g1" "token" 30 2 9 group_store counting running
      unlocked default_found (inl refl) is_running

no_done : hget (group_meta "g1") done_jobs group_store ≡ none
unfolding hget hset rpush Key-discrete Field-discrete String-discrete Bool-cases
no_done = refl

ack_lem_example :
    let out = ack "j1" "g1" group_store in
    (counter "g1" done_jobs out.1 ≡ counter "g1" done_jobs group_store + 1)
    × ((out.0 ≡ true)
        ↔ (counter "g1" total_jobs group_store ≤ counter "g1" done_jobs group_store + 1))
    × (hget (group_meta "g1") status out.1 ≡ (
        if out.0
        then some (group_status aggregating)
        else hget (group_meta "g1") status group_store))
    × (hget (job "j1") status out.1 ≡ some (job_status job_completed))
ack_lem_example = ack_lem "j1" "g1" group_store (rw no_done tt)

no_success : hget (group_meta "g1") success_count group_store ≡ none
unfolding hget hset rpush Key-discrete Field-discrete String-discrete Bool-cases
no_success = refl

no_failure : hget (group_meta "g1") failed_count group_store ≡ none
unfolding hget hset rpush Key-discrete Field-discrete String-discrete Bool-cases
no_failure = refl

record_job_result_lem_example :
    let out = record_job_result sent 7 group_store in
    let successes = counter "g1" success_count group_store in
    let failures = counter "g1" failed_count group_store in
    let total = counter "g1" total_jobs group_store in
    (out.0.success_count ≡ (if sent.success then successes + 1 else successes))
    × (out.0.failed_count ≡ (if sent.success then failures else failures + 1))
    × ((out.0.is_group_complete ≡ true) ↔ ((total ≤ successes + failures + 1) × (0 < total)))
    × (lrange (group_job_results "g1") out.1
        ≡ lrange (group_job_results "g1") group_store ++ job_result sent ∷ [])
record_job_result_lem_example =
    record_job_result_lem sent 7 group_store (rw no_success tt) (rw no_failure tt)
