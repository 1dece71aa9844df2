-- ===== src/WorkerPool/Pool/Lifetime.antt =====
-- The start of the pool, its status and its shutdown (WorkerPoolService.ts).
use nestjs_playground.Prelude.{
  ℕ, zero, suc, ◌≤◌, Bool, true, false, ◌&&◌, List, [], ◌∷◌, map, length, keep, ◌≡◌, refl, ap, inl,
  inr, arith,
}
use nestjs_playground.WorkerPool.Worker.States.{Worker, start, stop}
use nestjs_playground.WorkerPool.Worker.States.Leaving.{
  Leaving, Leaving-stop, Leaving-Steps, AllSteps, none_left, each,
}
use nestjs_playground.WorkerPool.Pool.{
  Pool, is_running, has_no_job, create_workers, start_all, on_module_init, get_pool_status,
  begin_shutdown, end_shutdown, new_pool,
}

length-keep_and :
    {A : Type 0} (p q : A → Bool) (xs : List A)
    → length (keep (λ x. p x && q x) xs) ≤ length (keep p xs)
length-keep_and p q [] = omega arith
length-keep_and p q (x ∷ xs) = ground (arith, length-keep_and p q xs)

length-keep : {A : Type 0} (p : A → Bool) (xs : List A) → length (keep p xs) ≤ length xs
length-keep p [] = omega arith
length-keep p (x ∷ xs) = ground (arith, length-keep p xs)

-- No worker counts as idle that does not count as active, and no more are active than there are.
pub get_pool_status_ordered :
    (p : Pool)
    → let s = get_pool_status p in
      (s.idle_workers ≤ s.active_workers) × (s.active_workers ≤ s.worker_count)
unfolding get_pool_status
get_pool_status_ordered p =
    (length-keep_and is_running has_no_job p.workers, length-keep is_running p.workers)

-- A pool of `n` workers, and its workers when they are started.
record Sized (n : ℕ) (p : Pool) : Type 0 where
  pub size : length p.workers ≡ n
  pub active : length (keep is_running (map start p.workers)) ≡ n
  pub idle : length (keep (λ w. is_running w && has_no_job w) (map start p.workers)) ≡ n
  pub accepting : p.is_shutting_down ≡ false

Sized-create_workers : (n : ℕ) → Sized n (create_workers n new_pool)
unfolding create_workers is_running start has_no_job
Sized-create_workers zero = record { size = refl; active = refl; idle = refl; accepting = refl }
Sized-create_workers (suc n) =
    let s = Sized-create_workers n in
    record {
      size = ap suc s.size;
      active = ap suc s.active;
      idle = ap suc s.idle;
      accepting = s.accepting;
    }

length-map-start : (ws : List Worker) → length (map start ws) ≡ length ws
length-map-start [] = refl
length-map-start (w ∷ ws) = ap suc (length-map-start ws)

-- Once the module has started, `getPoolStatus` shows as many workers as are configured, all of them active
-- and idle, and the fetcher and the dispatcher running.
pub on_module_init_lem :
    (n : ℕ)
    → get_pool_status (on_module_init n) ≡ record {
      worker_count = n;
      active_workers = n;
      idle_workers = n;
      fetcher_running = true;
      dispatcher_running = true;
      is_shutting_down = false;
    }
unfolding get_pool_status on_module_init start_all
on_module_init_lem n =
    let s = Sized-create_workers n in rw (length-map-start, s.size, s.active, s.idle, s.accepting)

not_running : (w : Worker) → Leaving w → is_running w ≡ false
unfolding is_running
not_running w (inl h) = rw h
not_running w (inr h) = rw h

none_running :
    (ws : List Worker) {ws' : List Worker} → AllSteps (map stop ws) ws' → keep is_running ws' ≡ []
none_running [] none_left = refl
none_running (w ∷ ws) (each {w' = w'} s rest) =
    rw (not_running w' (Leaving-Steps s (Leaving-stop w))) (none_running ws rest)

-- A pool that is not shutting down, once `shutdown` has called `stop` on every worker: whatever steps the workers
-- take from then on, at the end of the shutdown no worker counts as running, also one whose tick never
-- ended within the grace period; the fetcher and the dispatcher are stopped, and a second shutdown does nothing.
pub shutdown_lem :
    (p : Pool) (ws' : List Worker)
    → p.is_shutting_down ≡ false
    → AllSteps (map stop p.workers) ws'
    → let (begun, q) = begin_shutdown p in
      let (still_running, e) = end_shutdown (record q { workers = ws' }) in
      (begun ≡ true)
      × (q.workers ≡ map stop p.workers)
      × (still_running ≡ 0)
      × ((get_pool_status e).active_workers ≡ 0)
      × (e.fetcher_running ≡ false)
      × (e.dispatcher_running ≡ false)
      × (begin_shutdown e ≡ (false, e))
unfolding begin_shutdown end_shutdown get_pool_status
shutdown_lem p ws' h s =
    let idle = ap length (none_running p.workers s) in
    rw (h, begin_shutdown) (refl, refl, idle, idle, refl, refl, refl)
