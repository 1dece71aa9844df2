-- ===== src/WorkerPool/Pool.antt =====
-- libs/bulk-action/src/worker-pool/WorkerPoolService.ts: the pool of workers, its start and its shutdown, and
-- one tick of a worker with the handlers that the pool hands to it.
pub mod Processing
pub mod Retries
pub mod Lifetime
use nestjs_playground.Prelude.{
  ℕ, zero, suc, Bool, true, false, if◌then◌else◌, ◌&&◌, String, Option, none, some, List, [], ◌∷◌,
  map, length, keep,
}
use nestjs_playground.Model.{
  WorkerState, idle_worker, running_worker, stopping_worker, stopped_worker,
}
use nestjs_playground.Redis.{Redis, Db}
use nestjs_playground.FairQueue.{Job}
use nestjs_playground.Aggregator.Service.{Aggregator}
use nestjs_playground.Backpressure.Admission.{BackpressureConfig}
use nestjs_playground.Watcher.Service.{WatcherConfig}
use nestjs_playground.WorkerPool.Completion.{handle_job_complete, handle_job_failed}
use nestjs_playground.WorkerPool.Worker.{JobProcessor, WorkerOptions, Meanwhile, tick}
use nestjs_playground.WorkerPool.Worker.States.{Worker, new_worker, start, stop}

pub record Pool : Type 0 where
  pub workers : List Worker
  pub fetcher_running : Bool
  pub dispatcher_running : Bool
  pub is_shutting_down : Bool

-- The counts of `getPoolStatus`; its lists and the statistics are those of the parts.
pub record WorkerPoolStatus : Type 0 where
  pub worker_count : ℕ
  pub active_workers : ℕ
  pub idle_workers : ℕ
  pub fetcher_running : Bool
  pub dispatcher_running : Bool
  pub is_shutting_down : Bool

-- `state === WorkerState.RUNNING`
unfoldable pub is_running : Worker → Bool
is_running w = elim w.state [ running_worker ↦ true | _ ↦ false ]

unfoldable pub has_no_job : Worker → Bool
has_no_job w = elim w.current_job [ none ↦ true | some x ↦ false ]

abbrev pub new_pool : Pool
new_pool = record {
  workers = [];
  fetcher_running = false;
  dispatcher_running = false;
  is_shutting_down = false;
}

unfoldable pub create_workers : ℕ → Pool → Pool
create_workers zero p = p
create_workers (suc n) p =
    let q = create_workers n p in record q { workers = new_worker ∷ q.workers }

unfoldable pub start_all : Pool → Pool
start_all p = record {
  workers = map start p.workers;
  fetcher_running = true;
  dispatcher_running = true;
  is_shutting_down = p.is_shutting_down;
}

unfoldable pub on_module_init : ℕ → Pool
unfolding create_workers start_all
on_module_init worker_count = start_all (create_workers worker_count new_pool)

unfoldable pub get_pool_status : Pool → WorkerPoolStatus
unfolding is_running has_no_job
get_pool_status p = record {
  worker_count = length p.workers;
  active_workers = length (keep is_running p.workers);
  idle_workers = length (keep (λ w. is_running w && has_no_job w) p.workers);
  fetcher_running = p.fetcher_running;
  dispatcher_running = p.dispatcher_running;
  is_shutting_down = p.is_shutting_down;
}

-- `shutdown` up to its `await`; false for the early return.
unfoldable pub begin_shutdown : Pool → Bool × Pool
begin_shutdown p = if p.is_shutting_down then (false, p) else (
  true,
  record {
    workers = map stop p.workers;
    fetcher_running = false;
    dispatcher_running = p.dispatcher_running;
    is_shutting_down = true;
  },
)

-- The rest, when the workers have stopped or the grace period is over: the dispatcher stops, and the
-- number of workers that still run is logged.
unfoldable pub end_shutdown : Pool → ℕ × Pool
unfolding is_running
end_shutdown p = (length (keep is_running p.workers), record p { dispatcher_running = false })

module _ ⦃r : Redis⦄ {U : Type 0} (stringify : U → String) (aggregators : List (Aggregator U))
    (w : WatcherConfig) (c : BackpressureConfig) (script_fails : Bool) (max_retry_count : ℕ)
    (sleep : Db → Db) (token : String) where
  -- One tick, with the callbacks of `createWorkers`.
  unfoldable pub pool_tick :
      List JobProcessor → WorkerOptions → (Db → Db) → Meanwhile → ℕ → Db → Option String × Db
  pool_tick =
      tick (handle_job_complete stringify aggregators sleep token w.lock_ttl_ms w.lock_retry_count)
        (handle_job_failed max_retry_count c script_fails)
