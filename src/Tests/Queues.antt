-- ===== src/Tests/Queues.antt =====
-- Jobs that are queued fairly and processed once.
use nestjs_playground.Prelude.{String, none, some, [], ◌∷◌, ◌≡◌, ◌⊎◌}
use nestjs_playground.Model.{low_level}
use nestjs_playground.Keys.{Key}
use nestjs_playground.Redis.{Db, lrange, memory, empty_store}
use nestjs_playground.FairQueue.{BulkActionRequest, enqueue, level_queues, read_job, dequeue_job}
use nestjs_playground.FairQueue.Searches.{Served}
use nestjs_playground.FairQueue.Dequeue.{NoJobs, dequeue_job_lem}
use nestjs_playground.Idempotency.{filter_unprocessed}
use nestjs_playground.Idempotency.Marks.{Fresh, filter_unprocessed-Fresh}

abbrev request : BulkActionRequest
request = record {
  job_group_id = "g1";
  job_id = "j1";
  job_processor_type = "EMAIL";
  payload = "{}";
  base_priority = none;
  priority_level = some low_level;
}

abbrev queued : Db
queued = enqueue 10000 request 3 empty_store

dequeue_job_lem_example :
    let out = dequeue_job 10000 8 queued in
    ((out.0 ≡ some none)
      × NoJobs level_queues queued
      × ((k : Key) → lrange k out.1 ≡ lrange k queued))
    ⊎ ((j : String) × (out.0 ≡ some (some (read_job j out.1))) × Served j queued out.1)
dequeue_job_lem_example = dequeue_job_lem 10000 8 queued

filter_unprocessed-Fresh_example :
    Fresh 5000
      ("a" ∷ "b" ∷ "a" ∷ [])
      empty_store
      (filter_unprocessed 5000 ("a" ∷ "b" ∷ "a" ∷ []) empty_store)
filter_unprocessed-Fresh_example = filter_unprocessed-Fresh 5000 ("a" ∷ "b" ∷ "a" ∷ []) empty_store
