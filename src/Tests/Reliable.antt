-- ===== src/Tests/Reliable.antt =====
-- Jobs that are taken, acknowledged, recovered and retried.
use nestjs_playground.Prelude.{Bool-cases, ◌+◌, ◌≤◌, some, [], ◌∷◌, length, ◌≡◌, refl}
use nestjs_playground.Model.{num, String-discrete, str_eq-differ, str, dead_letter, DeadLetterEntry}
use nestjs_playground.Keys.{
  job, retry_count, Key-discrete, ready_queue, in_flight_queue, dead_letter_queue,
}
use nestjs_playground.Redis.{
  hset, Db, millis, lrange, zrange, rpush, lpop, zadd, up_to, memory, empty_store,
}
use nestjs_playground.ReliableQueue.InFlight.{Claim, peek, dequeue}
use nestjs_playground.ReliableQueue.InFlight.Metadata.{Taken, dequeue-Taken}
use nestjs_playground.ReliableQueue.Orphans.{nothing_recovered, recover_orphans}
use nestjs_playground.ReliableQueue.Orphans.Rounds.{AllDifferent}
use nestjs_playground.ReliableQueue.Orphans.Conservation.{Recovered, recover_orphans-Recovered}
use nestjs_playground.ReliableQueue.DeadLetters.{entries_of, retry_loop}
use nestjs_playground.ReliableQueue.DeadLetters.Removal.{retry_loop_total}

abbrev worker : Claim
worker = record { worker_id = "w1"; instance_id = "i1"; ack_timeout_ms = 30000 }

abbrev two_ready : Db
two_ready = rpush ready_queue (str "j2") (rpush ready_queue (str "j1") empty_store)

-- Another worker takes the head in between.
abbrev faster : Db → Db
faster d = lpop ready_queue d

j1_first : lrange ready_queue two_ready ≡ str "j1" ∷ str "j2" ∷ []
unfolding lrange rpush Key-discrete
j1_first = refl

j2_first : lrange ready_queue (faster two_ready) ≡ str "j2" ∷ []
unfolding lrange rpush lpop Key-discrete
j2_first = refl

dequeue-Taken_example :
    Taken "j2" (5 + 30000) [] (peek "j1" two_ready) (dequeue worker faster 5 two_ready)
dequeue-Taken_example =
    dequeue-Taken worker faster 5 "j1" "j2" (str "j2" ∷ []) [] two_ready j1_first j2_first

-- Two jobs whose deadline has passed, of which one has no retries left.
abbrev flying : Db
flying =
    hset (job "j2") retry_count (num 3)
      (zadd in_flight_queue (millis 20) "j2" (zadd in_flight_queue (millis 10) "j1" empty_store))

different : AllDifferent (up_to 4 (millis 50) (zrange in_flight_queue flying))
unfolding zrange zadd hset Key-discrete String-discrete Bool-cases
different = ((str_eq-differ "j2" "j1" refl, tt), (tt, tt))

recover_orphans-Recovered_example :
    Recovered 3 50
      (up_to 4 (millis 50) (zrange in_flight_queue flying))
      (nothing_recovered, flying)
      (recover_orphans 4 3 50 flying)
    × (length (up_to 4 (millis 50) (zrange in_flight_queue flying)) ≤ 4)
recover_orphans-Recovered_example = recover_orphans-Recovered 3 50 4 flying different

abbrev dead : DeadLetterEntry
dead = record { job_id = "j1"; group_id = "g1"; retry_count = 3; error = "boom"; failed_at = 8 }

abbrev one_dead : Db
one_dead = rpush dead_letter_queue (dead_letter dead) empty_store

retry_loop_total_example :
    (last : Db) × (retry_loop 2 0 one_dead ≡ some (1, last))
    × (lrange dead_letter_queue last ≡ [])
    × (lrange ready_queue last ≡ str "j1" ∷ [])
unfolding lrange rpush Key-discrete entries_of
retry_loop_total_example = retry_loop_total one_dead tt
