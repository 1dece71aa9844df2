-- ===== src/WorkerPool/Worker/States.antt =====
-- libs/bulk-action/src/worker-pool/Worker.ts: `start`, `stop` and `loop` as steps that may come in any order.
-- A call of `stop` waits for the loop, so it is two steps; several calls may wait at once.
pub mod Shutdown
pub mod Leaving
use nestjs_playground.Prelude.{ℕ, zero, suc, Bool, true, false, if◌then◌else◌, Option, none, some}
use nestjs_playground.Model.{
  WorkerState, idle_worker, running_worker, stopping_worker, stopped_worker,
}
use nestjs_playground.FairQueue.{Job}

-- Where the loop is: not begun, at the test of its `while`, in a tick, or at its end.
pub data LoopState : Type 0 where
  not_begun at_test in_tick ended : LoopState

-- `waiting_stops` counts the calls of `stop` that wait for the loop.
pub record Worker : Type 0 where
  pub state : WorkerState
  pub loop : LoopState
  pub current_job : Option Job
  pub waiting_stops : ℕ

abbrev pub new_worker : Worker
new_worker = record { state = idle_worker; loop = not_begun; current_job = none; waiting_stops = 0 }

abbrev start_from : WorkerState → Worker → Worker
start_from idle_worker w = record w { state = running_worker; loop = at_test }
start_from _ w = w

unfoldable pub start : Worker → Worker
start w = start_from w.state w

abbrev stop_from : WorkerState → Worker → Worker
stop_from stopped_worker w = w
stop_from _ w = record w { state = stopping_worker; waiting_stops = suc w.waiting_stops }

-- `stop` up to its `await`.
unfoldable pub stop : Worker → Worker
stop w = stop_from w.state w

abbrev resume_with : ℕ → LoopState → Worker → Worker
resume_with zero l w = w
resume_with (suc n) at_test w = w
resume_with (suc n) in_tick w = w
resume_with (suc n) _ w = record w { state = stopped_worker; waiting_stops = n }

-- The rest of `stop`, once the loop is no longer running.
unfoldable pub resume_stop : Worker → Worker
resume_stop w = resume_with w.waiting_stops w.loop w

abbrev loop_from : LoopState → WorkerState → Worker → Worker
loop_from at_test running_worker w = record w { loop = in_tick }
loop_from at_test _ w = record w { loop = ended }
loop_from _ s w = w

-- `while (this.state === WorkerState.RUNNING)`
unfoldable pub test_loop : Worker → Worker
test_loop w = loop_from w.loop w.state w

abbrev take_in : LoopState → Job → Worker → Worker
take_in in_tick x w = record w { current_job = some x }
take_in _ x w = w

-- `this.currentJob = job`
unfoldable pub take_job : Job → Worker → Worker
take_job x w = take_in w.loop x w

abbrev finish_in : LoopState → Worker → Worker
finish_in in_tick w = record w { loop = at_test; current_job = none }
finish_in _ w = w

-- The end of a tick, by return or by an error.
unfoldable pub finish_tick : Worker → Worker
finish_tick w = finish_in w.loop w

pub data Step : Worker → Worker → Type 0 where
  starts : {w : Worker} → Step w (start w)
  stops : {w : Worker} → Step w (stop w)
  resumes : {w : Worker} → Step w (resume_stop w)
  tests : {w : Worker} → Step w (test_loop w)
  takes : {w : Worker} (x : Job) → Step w (take_job x w)
  finishes : {w : Worker} → Step w (finish_tick w)

-- What a worker can come to by any steps in any order.
pub data Reachable : Worker → Type 0 where
  fresh : Reachable new_worker
  after : {w w' : Worker} → Reachable w → Step w w' → Reachable w'
