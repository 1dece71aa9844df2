-- ===== src/Backpressure/ReadyQueue/Fifo.antt =====
-- ReadyQueueService.ts as a bounded queue: what it promises, and that it does.
use nestjs_playground.Prelude.{
  ℕ, ltb, leb, Bool, true, false, if◌then◌else◌, String, Option, none, some, List, [], ◌∷◌, ◌++◌,
  map, length, length-map, ◌≡◌, refl, ap, ap₂, ◌∙◌, inl, inr, Bool-cases, arith,
}
use nestjs_playground.Model.{Value, str}
use nestjs_playground.Keys.{ready_queue}
use nestjs_playground.Redis.{Redis, Db, lrange, lrange-rpush, lrange-lpop}
use nestjs_playground.Backpressure.ReadyQueue.{push, pop, ready_size, has_capacity}

-- The calls of the service, and what they answer.
pub data Op : Type 0 where
  do_push : String → Op
  do_pop do_size do_has_capacity : Op

pub data Answer : Type 0 where
  pushed : Bool → Answer
  popped : Option String → Answer
  size_is : ℕ → Answer
  capacity : Bool → Answer

-- The promise: a first-in first-out queue of ids that refuses an id when it holds `max_size`.
module _ (max_size : ℕ) where
  abbrev pub queue_push : String → List String → Answer × List String
  queue_push j q = if ltb (length q) max_size then (pushed true, q ++ j ∷ []) else (pushed false, q)

  abbrev pub queue_step : Op → List String → Answer × List String
  queue_step (do_push j) q = queue_push j q
  queue_step do_pop [] = (popped none, [])
  queue_step do_pop (j ∷ q) = (popped (some j), q)
  queue_step do_size q = (size_is (length q), q)
  queue_step do_has_capacity q = (capacity (ltb (length q) max_size), q)

  abbrev pub queue_run : List Op → List String → List Answer × List String
  queue_run [] q = ([], q)
  queue_run (o ∷ os) q =
      let (a, q') = queue_step o q in let (answers, q'') = queue_run os q' in (a ∷ answers, q'')

-- The text of a popped value.
abbrev pub text_of : Option Value → Option String
text_of (some (str j)) = some j
text_of _ = none

module _ ⦃r : Redis⦄ (max_size : ℕ) where
  abbrev pub service_step : Op → Db → Answer × Db
  service_step (do_push j) d = let (b, d') = push max_size j d in (pushed b, d')
  service_step do_pop d = let (v, d') = pop d in (popped (text_of v), d')
  service_step do_size d = (size_is (ready_size d), d)
  service_step do_has_capacity d = (capacity (has_capacity max_size d), d)

  abbrev pub service_run : List Op → Db → List Answer × Db
  service_run [] d = ([], d)
  service_run (o ∷ os) d =
      let (a, d') = service_step o d in let (answers, d'') = service_run os d' in (a ∷ answers, d'')

  -- The store holds the queue.
  abbrev pub Holds : List String → Db → Type 0
  Holds q d = lrange ready_queue d ≡ map str q

  map-append : (q : List String) (j : String) → map str q ++ str j ∷ [] ≡ map str (q ++ j ∷ [])
  map-append [] j = refl
  map-append (i ∷ q) j = ap (◌∷◌ (str i)) (map-append q j)

  size_held : (q : List String) (d : Db) → Holds q d → ready_size d ≡ length q
  size_held q d h = ap length h ∙ length-map str q

  step_refines :
      (o : Op) (q : List String) (d : Db)
      → Holds q d
      → let (a, q') = queue_step max_size o q in
        let (b, d') = service_step o d in (b ≡ a) × Holds q' d'
  unfolding push pop has_capacity
  step_refines (do_push j) q d h =
      let size = size_held q d h in
      elim (Bool-cases (leb max_size (ready_size d))) [
        | inl e ↦
            let full : ltb (length q) max_size ≡ false = ground (arith, size) in
            rw (e, full, push) (refl, h)
        | inr e ↦
            let room : ltb (length q) max_size ≡ true = ground (arith, size) in
            rw (e, room, push) (refl, rw lrange-rpush (ground (arith, h, map-append q j)))
      ]
  step_refines do_pop [] d h = (rw h refl, rw lrange-lpop (ground (arith, h)))
  step_refines do_pop (j ∷ q) d h = (rw h refl, rw lrange-lpop (ground (arith, h)))
  step_refines do_size q d h = (ap size_is (size_held q d h), h)
  step_refines do_has_capacity q d h = (ap (λ n. capacity (ltb n max_size)) (size_held q d h), h)

  -- The service refines the queue: from a store that holds a queue, any sequence of pushes, pops and tests gives
  -- the answers that the first-in first-out queue of that size gives, and leaves the store holding what
  -- that queue then holds.
  pub service_run_refines :
      (os : List Op) (q : List String) (d : Db)
      → Holds q d
      → let (answers, q') = queue_run max_size os q in
        let (given, d') = service_run os d in (given ≡ answers) × Holds q' d'
  service_run_refines [] q d h = (refl, h)
  service_run_refines (o ∷ os) q d h =
      let (same, held) = step_refines o q d h in
      let (rest, last) = service_run_refines os _ _ held in (ap₂ ◌∷◌ same rest, last)
