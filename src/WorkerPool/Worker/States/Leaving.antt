-- ===== src/WorkerPool/Worker/States/Leaving.antt =====
-- What follows a call of `stop`, step by step (Worker.ts).
use nestjs_playground.Prelude.{ℕ, zero, suc, ◌≡◌, refl, inl, inr, ◌⊎◌, List, [], ◌∷◌}
use nestjs_playground.Model.{
  WorkerState, idle_worker, running_worker, stopping_worker, stopped_worker,
}
use nestjs_playground.FairQueue.{Job}
use nestjs_playground.WorkerPool.Worker.States.{
  Worker, LoopState, at_test, in_tick, start_from, start, stop_from, stop, resume_with, resume_stop,
  loop_from, test_loop, take_in, take_job, finish_in, finish_tick, Step, starts, stops, resumes,
  tests, takes, finishes,
}

-- A worker that is on its way out, or has stopped.
abbrev pub Leaving : Worker → Type 0
Leaving w = (w.state ≡ stopping_worker) ⊎ (w.state ≡ stopped_worker)

start_same :
    (s : WorkerState) (w : Worker)
    → (s ≡ stopping_worker) ⊎ (s ≡ stopped_worker)
    → start_from s w ≡ w
start_same idle_worker w (inl h) = cc
start_same idle_worker w (inr h) = cc
start_same _ w h = refl

stop_state : (s : WorkerState) (w : Worker) → w.state ≡ s → Leaving (stop_from s w)
stop_state stopped_worker w h = inr h
stop_state _ w h = inl refl

resume_state : (n : ℕ) (l : LoopState) (w : Worker) → Leaving w → Leaving (resume_with n l w)
resume_state zero l w h = h
resume_state (suc n) at_test w h = h
resume_state (suc n) in_tick w h = h
resume_state (suc n) _ w h = inr refl

loop_state : (l : LoopState) (s : WorkerState) (w : Worker) → (loop_from l s w).state ≡ w.state
loop_state at_test running_worker w = refl
loop_state at_test _ w = refl
loop_state _ s w = refl

take_state : (l : LoopState) (x : Job) (w : Worker) → (take_in l x w).state ≡ w.state
take_state in_tick x w = refl
take_state _ x w = refl

finish_state : (l : LoopState) (w : Worker) → (finish_in l w).state ≡ w.state
finish_state in_tick w = refl
finish_state _ w = refl

pub Leaving-stop : (w : Worker) → Leaving (stop w)
unfolding stop
Leaving-stop w = stop_state w.state w refl

Leaving-Step : {w w' : Worker} → Step w w' → Leaving w → Leaving w'
unfolding start resume_stop test_loop take_job finish_tick
Leaving-Step (starts {w}) h = rw (start_same w.state w h) h
Leaving-Step (stops {w}) h = Leaving-stop w
Leaving-Step (resumes {w}) h = resume_state w.waiting_stops w.loop w h
Leaving-Step (tests {w}) h = rw (loop_state w.loop w.state w) h
Leaving-Step (takes {w} x) h = rw (take_state w.loop x w) h
Leaving-Step (finishes {w}) h = rw (finish_state w.loop w) h

-- Any number of steps of one worker, and of each worker of a list.
pub data Steps (w : Worker) : Worker → Type 0 where
  here : Steps w w
  next : {v u : Worker} → Steps w v → Step v u → Steps w u

pub data AllSteps : List Worker → List Worker → Type 0 where
  none_left : AllSteps [] []
  each :
      {w w' : Worker} {ws ws' : List Worker}
      → Steps w w'
      → AllSteps ws ws'
      → AllSteps (w ∷ ws) (w' ∷ ws')

pub Leaving-Steps : {w w' : Worker} → Steps w w' → Leaving w → Leaving w'
Leaving-Steps here h = h
Leaving-Steps (next s t) h = Leaving-Step t (Leaving-Steps s h)
