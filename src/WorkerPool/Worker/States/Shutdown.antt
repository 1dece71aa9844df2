-- ===== src/WorkerPool/Worker/States/Shutdown.antt =====
-- The states that a worker can be in (Worker.ts), and its end.
use nestjs_playground.Prelude.{ℕ, zero, suc, Option, none, some, ◌≡◌, refl}
use nestjs_playground.Model.{
  WorkerState, idle_worker, running_worker, stopping_worker, stopped_worker,
}
use nestjs_playground.FairQueue.{Job}
use nestjs_playground.WorkerPool.Worker.States.{
  Worker, LoopState, not_begun, at_test, in_tick, ended, start, stop, resume_stop, test_loop,
  take_job, finish_tick, Step, starts, stops, resumes, tests, takes, finishes, Reachable, fresh,
  after,
}

-- A worker in a state, at a place of its loop, with a job, and with a number of waiting stops.
abbrev at : WorkerState → LoopState → Option Job → ℕ → Worker
at s l x n = record { state = s; loop = l; current_job = x; waiting_stops = n }

-- The states that occur.
pub data Coherent : Worker → Type 0 where
  is_new : Coherent (at idle_worker not_begun none 0)
  is_testing : Coherent (at running_worker at_test none 0)
  is_ticking : (x : Option Job) → Coherent (at running_worker in_tick x 0)
  is_stopping_tick : (x : Option Job) (n : ℕ) → Coherent (at stopping_worker in_tick x (suc n))
  is_stopping_test : (n : ℕ) → Coherent (at stopping_worker at_test none (suc n))
  is_stopping_unbegun : (n : ℕ) → Coherent (at stopping_worker not_begun none (suc n))
  is_stopping_ended : (n : ℕ) → Coherent (at stopping_worker ended none (suc n))
  is_stopped_unbegun : (n : ℕ) → Coherent (at stopped_worker not_begun none n)
  is_stopped_ended : (n : ℕ) → Coherent (at stopped_worker ended none n)

Coherent-start : {w : Worker} → Coherent w → Coherent (start w)
unfolding start
Coherent-start is_new = is_testing
Coherent-start is_testing = is_testing
Coherent-start (is_ticking x) = is_ticking x
Coherent-start (is_stopping_tick x n) = is_stopping_tick x n
Coherent-start (is_stopping_test n) = is_stopping_test n
Coherent-start (is_stopping_unbegun n) = is_stopping_unbegun n
Coherent-start (is_stopping_ended n) = is_stopping_ended n
Coherent-start (is_stopped_unbegun n) = is_stopped_unbegun n
Coherent-start (is_stopped_ended n) = is_stopped_ended n

Coherent-stop : {w : Worker} → Coherent w → Coherent (stop w)
unfolding stop
Coherent-stop is_new = is_stopping_unbegun 0
Coherent-stop is_testing = is_stopping_test 0
Coherent-stop (is_ticking x) = is_stopping_tick x 0
Coherent-stop (is_stopping_tick x n) = is_stopping_tick x (suc n)
Coherent-stop (is_stopping_test n) = is_stopping_test (suc n)
Coherent-stop (is_stopping_unbegun n) = is_stopping_unbegun (suc n)
Coherent-stop (is_stopping_ended n) = is_stopping_ended (suc n)
Coherent-stop (is_stopped_unbegun n) = is_stopped_unbegun n
Coherent-stop (is_stopped_ended n) = is_stopped_ended n

Coherent-resume_stop : {w : Worker} → Coherent w → Coherent (resume_stop w)
unfolding resume_stop
Coherent-resume_stop is_new = is_new
Coherent-resume_stop is_testing = is_testing
Coherent-resume_stop (is_ticking x) = is_ticking x
Coherent-resume_stop (is_stopping_tick x n) = is_stopping_tick x n
Coherent-resume_stop (is_stopping_test n) = is_stopping_test n
Coherent-resume_stop (is_stopping_unbegun n) = is_stopped_unbegun n
Coherent-resume_stop (is_stopping_ended n) = is_stopped_ended n
Coherent-resume_stop (is_stopped_unbegun zero) = is_stopped_unbegun 0
Coherent-resume_stop (is_stopped_unbegun (suc n)) = is_stopped_unbegun n
Coherent-resume_stop (is_stopped_ended zero) = is_stopped_ended 0
Coherent-resume_stop (is_stopped_ended (suc n)) = is_stopped_ended n

Coherent-test_loop : {w : Worker} → Coherent w → Coherent (test_loop w)
unfolding test_loop
Coherent-test_loop is_new = is_new
Coherent-test_loop is_testing = is_ticking none
Coherent-test_loop (is_ticking x) = is_ticking x
Coherent-test_loop (is_stopping_tick x n) = is_stopping_tick x n
Coherent-test_loop (is_stopping_test n) = is_stopping_ended n
Coherent-test_loop (is_stopping_unbegun n) = is_stopping_unbegun n
Coherent-test_loop (is_stopping_ended n) = is_stopping_ended n
Coherent-test_loop (is_stopped_unbegun n) = is_stopped_unbegun n
Coherent-test_loop (is_stopped_ended n) = is_stopped_ended n

Coherent-take_job : (y : Job) {w : Worker} → Coherent w → Coherent (take_job y w)
unfolding take_job
Coherent-take_job y is_new = is_new
Coherent-take_job y is_testing = is_testing
Coherent-take_job y (is_ticking x) = is_ticking (some y)
Coherent-take_job y (is_stopping_tick x n) = is_stopping_tick (some y) n
Coherent-take_job y (is_stopping_test n) = is_stopping_test n
Coherent-take_job y (is_stopping_unbegun n) = is_stopping_unbegun n
Coherent-take_job y (is_stopping_ended n) = is_stopping_ended n
Coherent-take_job y (is_stopped_unbegun n) = is_stopped_unbegun n
Coherent-take_job y (is_stopped_ended n) = is_stopped_ended n

Coherent-finish_tick : {w : Worker} → Coherent w → Coherent (finish_tick w)
unfolding finish_tick
Coherent-finish_tick is_new = is_new
Coherent-finish_tick is_testing = is_testing
Coherent-finish_tick (is_ticking x) = is_testing
Coherent-finish_tick (is_stopping_tick x n) = is_stopping_test n
Coherent-finish_tick (is_stopping_test n) = is_stopping_test n
Coherent-finish_tick (is_stopping_unbegun n) = is_stopping_unbegun n
Coherent-finish_tick (is_stopping_ended n) = is_stopping_ended n
Coherent-finish_tick (is_stopped_unbegun n) = is_stopped_unbegun n
Coherent-finish_tick (is_stopped_ended n) = is_stopped_ended n

Coherent-Step : {w w' : Worker} → Step w w' → Coherent w → Coherent w'
Coherent-Step starts c = Coherent-start c
Coherent-Step stops c = Coherent-stop c
Coherent-Step resumes c = Coherent-resume_stop c
Coherent-Step tests c = Coherent-test_loop c
Coherent-Step (takes x) c = Coherent-take_job x c
Coherent-Step finishes c = Coherent-finish_tick c

Reachable-Coherent : {w : Worker} → Reachable w → Coherent w
Reachable-Coherent fresh = is_new
Reachable-Coherent (after r s) = Coherent-Step s (Reachable-Coherent r)

ends :
    {w : Worker}
    → Coherent w
    → let e = resume_stop (test_loop (finish_tick (stop w))) in
      (e.state ≡ stopped_worker) × (e.current_job ≡ none) × ((stop w).current_job ≡ w.current_job)
unfolding resume_stop test_loop finish_tick stop
ends is_new = (refl, refl, refl)
ends is_testing = (refl, refl, refl)
ends (is_ticking x) = (refl, refl, refl)
ends (is_stopping_tick x n) = (refl, refl, refl)
ends (is_stopping_test n) = (refl, refl, refl)
ends (is_stopping_unbegun n) = (refl, refl, refl)
ends (is_stopping_ended n) = (refl, refl, refl)
ends (is_stopped_unbegun zero) = (refl, refl, refl)
ends (is_stopped_unbegun (suc n)) = (refl, refl, refl)
ends (is_stopped_ended zero) = (refl, refl, refl)
ends (is_stopped_ended (suc n)) = (refl, refl, refl)

-- A worker that any steps led to, when `stop` is called: the job it is processing stays its job, and once
-- that tick ends and the loop is tested the waiting call finds the worker STOPPED, without a job.
pub stop_completes :
    {w : Worker}
    → Reachable w
    → let e = resume_stop (test_loop (finish_tick (stop w))) in
      (e.state ≡ stopped_worker) × (e.current_job ≡ none) × ((stop w).current_job ≡ w.current_job)
stop_completes r = ends (Reachable-Coherent r)

free : {w : Worker} → Coherent w → w.state ≡ stopped_worker → w.current_job ≡ none
free (is_stopped_unbegun n) h = refl
free (is_stopped_ended n) h = refl
free is_new h = refl
free is_testing h = refl
free (is_ticking x) h = cc
free (is_stopping_tick x n) h = cc
free (is_stopping_test n) h = refl
free (is_stopping_unbegun n) h = refl
free (is_stopping_ended n) h = refl

stays :
    {w w' : Worker} → Step w w' → Coherent w → w.state ≡ stopped_worker → w'.state ≡ stopped_worker
unfolding start stop resume_stop test_loop take_job finish_tick
stays s is_new h = cc
stays s is_testing h = cc
stays s (is_ticking x) h = cc
stays s (is_stopping_tick x n) h = cc
stays s (is_stopping_test n) h = cc
stays s (is_stopping_unbegun n) h = cc
stays s (is_stopping_ended n) h = cc
stays starts (is_stopped_unbegun n) h = refl
stays stops (is_stopped_unbegun n) h = refl
stays resumes (is_stopped_unbegun zero) h = refl
stays resumes (is_stopped_unbegun (suc n)) h = refl
stays tests (is_stopped_unbegun n) h = refl
stays (takes x) (is_stopped_unbegun n) h = refl
stays finishes (is_stopped_unbegun n) h = refl
stays starts (is_stopped_ended n) h = refl
stays stops (is_stopped_ended n) h = refl
stays resumes (is_stopped_ended zero) h = refl
stays resumes (is_stopped_ended (suc n)) h = refl
stays tests (is_stopped_ended n) h = refl
stays (takes x) (is_stopped_ended n) h = refl
stays finishes (is_stopped_ended n) h = refl

-- A worker that any steps led to is without a job when it is STOPPED, and stays STOPPED and without one
-- whatever step follows: `start` does not revive it, and its loop takes no further job.
pub Reachable-stopped :
    {w w' : Worker}
    → Reachable w
    → w.state ≡ stopped_worker
    → Step w w'
    → (w.current_job ≡ none) × (w'.state ≡ stopped_worker) × (w'.current_job ≡ none)
Reachable-stopped r h s =
    let c = Reachable-Coherent r in
    let still = stays s c h in (free c h, still, free (Coherent-Step s c) still)
