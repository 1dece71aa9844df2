-- ===== src/Tests/Working.antt =====
-- A worker's heartbeats, its failed and its released job, its end, the pool's end, and a fetch cycle.
use nestjs_playground.Prelude.{
  ◌∙◌, ◌+◌, ℕ, ◌≤◌, true, false, String, none, some, List, [], ◌∷◌, map, ◌≡◌, refl, arith,
  Bool-cases,
}
use nestjs_playground.Model.{
  normal_level, num, str, job_status, pending, String-discrete, stopped_worker,
}
use nestjs_playground.Keys.{
  group_jobs, fair_queue, Key-discrete, Field-discrete, ready_queue, in_flight_queue, job, id,
  group_id, processor_type, payload, status, retry_count, created_at,
}
use nestjs_playground.Redis.{
  millis, zadd, Db, hget, hset, lrange, rpush, zrange, score_in, memory, empty_store,
}
use nestjs_playground.Lock.{returns}
use nestjs_playground.FairQueue.{Job, read_job, parse_job}
use nestjs_playground.ReliableQueue.InFlight.{DequeueResult, dequeue, claim_head}
use nestjs_playground.Aggregator.DefaultAggregator.{DefaultValue, default_aggregator}
use nestjs_playground.Backpressure.Admission.{BackpressureConfig}
use nestjs_playground.Backpressure.ReadyQueue.{ready_size}
use nestjs_playground.Watcher.Service.{WatcherConfig}
use nestjs_playground.WorkerPool.Worker.{JobProcessor, tick, WorkerOptions, load_job, processor_for}
use nestjs_playground.WorkerPool.Worker.Aside.{alone, all_alone, load_job-dequeue}
use nestjs_playground.WorkerPool.Worker.States.{
  Worker, Reachable, fresh, after, starts, stops, resumes, tests, takes, finishes, new_worker,
  start, stop, test_loop, finish_tick, take_job, resume_stop,
}
use nestjs_playground.WorkerPool.Worker.States.Shutdown.{stop_completes, Reachable-stopped}
use nestjs_playground.WorkerPool.Worker.States.Leaving.{AllSteps, none_left, each, here, next}
use nestjs_playground.WorkerPool.Pool.{
  pool_tick, on_module_init, begin_shutdown, end_shutdown, get_pool_status,
}
use nestjs_playground.WorkerPool.Worker.Ending.{Ended}
use nestjs_playground.WorkerPool.Completion.{handle_job_complete, handle_job_failed}
use nestjs_playground.WorkerPool.Pool.Processing.{pool_tick_releases}
use nestjs_playground.WorkerPool.Pool.Retries.{Returned, pool_tick_retries}
use nestjs_playground.WorkerPool.Pool.Lifetime.{shutdown_lem}
use nestjs_playground.WorkerPool.Fetcher.{FetcherStats, fetch_cycle}
use nestjs_playground.WorkerPool.Fetcher.Cycle.{Counted, fetch_cycle_counts}
use nestjs_playground.WorkerPool.Fetcher.Alone.{fetch_cycle_alone}

abbrev waiting : Job
waiting = record {
  id = "j1";
  group_id = "g1";
  processor_type = "EMAIL";
  payload = "{}";
  status = pending;
  retry_count = 0;
  created_at = 5;
}

abbrev one_ready : Db
one_ready = hset (job "j1") id (str "j1") (
    hset (job "j1") group_id (str "g1") (
      hset (job "j1") processor_type (str "EMAIL") (
        hset (job "j1") payload (str "{}") (
          hset (job "j1") status (job_status pending) (
            hset (job "j1") retry_count (num 0)
              (hset (job "j1") created_at (num 5) (rpush ready_queue (str "j1") empty_store)))))))

at_head : lrange ready_queue one_ready ≡ str waiting.id ∷ []
unfolding lrange rpush hset Key-discrete Bool-cases
at_head = refl

loaded : load_job waiting.id one_ready ≡ some (returns waiting)
unfolding load_job read_job parse_job hget hset Key-discrete Field-discrete String-discrete
    Bool-cases
loaded = refl

abbrev options : WorkerOptions
options = record {
  job_timeout_ms = 30000;
  claim = record { worker_id = "w1"; instance_id = "i1"; ack_timeout_ms = 30000 };
}

abbrev limits : BackpressureConfig
limits = record {
  ready_queue_max_size = 10;
  rate_limit_window_sec = 1;
  rate_limit_key_ttl_sec = 2;
  congestion = record {
    enabled = false;
    base_backoff_ms = 1000;
    max_backoff_ms = 120000;
    global_rps = 10;
  };
}

abbrev watching : WatcherConfig
watching = record { lock_ttl_ms = 9; lock_retry_count = 3; stale_group_threshold_ms = 100 }

abbrev show : DefaultValue → String
show v = "{}"

abbrev on_time : ℕ → ℕ
on_time n = 0

-- A processor that sends in 5 ms.
abbrev sender : JobProcessor
sender = record {
  type = "EMAIL";
  process = λ x. record {
    outcome = returns (record {
      job_id = "j1";
      group_id = "g1";
      success = true;
      output = "sent";
      error = none;
      duration_ms = 0;
      processor_type = "";
    });
    elapsed_ms = 5;
  };
}

-- No processor is registered for the job.
pool_tick_retries_example :
    let (error, d') =
      pool_tick show
        (default_aggregator ∷ [])
        watching
        limits
        false
        3
        alone
        "t"
        []
        options
        alone
        (all_alone 3 on_time 0)
        1000
        one_ready in
    (error ≡ none) × Returned waiting [] one_ready d'
unfolding processor_for
pool_tick_retries_example =
    pool_tick_retries show (default_aggregator ∷ []) watching limits false 3 alone "t" 3 on_time 0
      [] options 1000 waiting [] one_ready at_head loaded (omega arith) tt

abbrev taken : DequeueResult
taken = record { job_id = "j1"; deadline = 31000 }

is_taken : (dequeue options.claim alone 1000 one_ready).0 ≡ some taken
unfolding dequeue claim_head lrange rpush hset Key-discrete Bool-cases
is_taken = refl

loaded_after : load_job "j1" (dequeue options.claim alone 1000 one_ready).1 ≡ some (returns waiting)
loaded_after = load_job-dequeue options.claim 1000 "j1" [] one_ready at_head ∙ loaded

no_error :
    (pool_tick show
      (default_aggregator ∷ [])
      watching
      limits
      false
      3
      alone
      "t"
      (sender ∷ [])
      options
      alone
      (all_alone 3 on_time 0)
      1000
      one_ready).0
    ≡ none
unfolding pool_tick tick
no_error = rw (is_taken, tick, loaded_after)

pool_tick_releases_example :
    let d' =
      (pool_tick show
        (default_aggregator ∷ [])
        watching
        limits
        false
        3
        alone
        "t"
        (sender ∷ [])
        options
        alone
        (all_alone 3 on_time 0)
        1000
        one_ready).1 in
    (score_in "j1" (zrange in_flight_queue d') ≡ none)
    × Ended
        (handle_job_complete show (default_aggregator ∷ []) alone "t" 9 3)
        (handle_job_failed 3 limits false)
        (sender ∷ [])
        options
        (all_alone 3 on_time 0)
        "j1"
        (1000 + 3)
        (dequeue options.claim alone 1000 one_ready).1
        d'
pool_tick_releases_example =
    pool_tick_releases show (default_aggregator ∷ []) watching limits false 3 alone "t"
      (sender ∷ []) options alone (all_alone 3 on_time 0) 1000 one_ready taken (λ e. refl) is_taken
      no_error

ticking : Reachable (take_job waiting (test_loop (start new_worker)))
ticking = after (after (after fresh starts) tests) (takes waiting)

stop_completes_example :
    let w = take_job waiting (test_loop (start new_worker)) in
    let e = resume_stop (test_loop (finish_tick (stop w))) in
    (e.state ≡ stopped_worker) × (e.current_job ≡ none) × ((stop w).current_job ≡ w.current_job)
stop_completes_example = stop_completes ticking

abbrev ended_worker : Worker
ended_worker =
    resume_stop (test_loop (finish_tick (stop (take_job waiting (test_loop (start new_worker))))))

ended-Reachable : Reachable ended_worker
ended-Reachable = after (after (after (after ticking stops) finishes) tests) resumes

ended_stopped : ended_worker.state ≡ stopped_worker
ended_stopped = (stop_completes ticking).0

Reachable-stopped_example :
    (ended_worker.current_job ≡ none)
    × ((start ended_worker).state ≡ stopped_worker)
    × ((start ended_worker).current_job ≡ none)
Reachable-stopped_example = Reachable-stopped ended-Reachable ended_stopped starts

-- Of two workers one ends its loop and the other takes no step.
abbrev after_stop : List Worker
after_stop = resume_stop (test_loop (stop (start new_worker))) ∷ stop (start new_worker) ∷ []

steps_taken : AllSteps (map stop (on_module_init 2).workers) after_stop
unfolding on_module_init
steps_taken = each (next (next here tests) resumes) (each here none_left)

accepting : (on_module_init 2).is_shutting_down ≡ false
unfolding on_module_init
accepting = refl

shutdown_lem_example :
    let p = on_module_init 2 in
    let (begun, q) = begin_shutdown p in
    let (still_running, e) = end_shutdown (record q { workers = after_stop }) in
    (begun ≡ true)
    × (q.workers ≡ map stop p.workers)
    × (still_running ≡ 0)
    × ((get_pool_status e).active_workers ≡ 0)
    × (e.fetcher_running ≡ false)
    × (e.dispatcher_running ≡ false)
    × (begin_shutdown e ≡ (false, e))
shutdown_lem_example = shutdown_lem (on_module_init 2) after_stop accepting steps_taken

abbrev nothing_fetched : FetcherStats
nothing_fetched = record {
  total_fetched = 0;
  total_admitted_ready = 0;
  total_admitted_non_ready = 0;
  total_rejected = 0;
  total_empty_polls = 0;
}

abbrev nobody : ℕ → Db → Db
nobody n d = d

-- A job in the fair queue beside the one in the ready queue.
abbrev queued : Db
queued = rpush (group_jobs "g1") (str "j2") (
    zadd (fair_queue normal_level) (millis 1) "g1" (
      hset (job "j2") id (str "j2")
        (hset (job "j2") group_id (str "g1") (hset (job "j2") payload (str "{}") one_ready))))

fetch_cycle_counts_example :
    let (n, s', d') = fetch_cycle limits false 10 1000 nobody 5 nothing_fetched queued in
    (b : ℕ) × (n ≤ 5) × (b ≤ 1) × Counted n b nothing_fetched s'
fetch_cycle_counts_example = fetch_cycle_counts limits false 10 1000 nobody 5 nothing_fetched queued

has_room : ready_size queued ≤ limits.ready_queue_max_size
unfolding lrange rpush hset zadd Key-discrete Bool-cases String-discrete
has_room = omega arith

fetch_cycle_alone_example :
    let (n, s', d') = fetch_cycle limits false 10 1000 nobody 5 nothing_fetched queued in
    Counted n 0 nothing_fetched s' × (ready_size d' ≤ limits.ready_queue_max_size)
fetch_cycle_alone_example = fetch_cycle_alone limits false 10 1000 5 nothing_fetched queued has_room
