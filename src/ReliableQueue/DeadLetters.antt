-- ===== src/ReliableQueue/DeadLetters.antt =====
-- libs/bulk-action/src/reliable-queue/DeadLetterService.ts. Its calls are not one step of the server;
-- the model runs them with no other client in between. An entry of the queue is what `JSON.parse` gives
-- back, and `e !== entryJson` compares entries.
pub mod Removal
use nestjs_playground.Prelude.{
  ℕ, zero, suc, ◌+◌, ◌-◌, ◌==◌, Bool, true, false, not, ◌&&◌, ltb, if◌then◌else◌, String, Option,
  none, some, List, [], ◌∷◌, keep, find, length,
}
use nestjs_playground.Model.{
  Value, num, str, dead_letter, job_status, pending, DeadLetterEntry, to_text, String-discrete,
}
use nestjs_playground.Keys.{ready_queue, dead_letter_queue, job, retry_count, status}
use nestjs_playground.Redis.{Redis, Db, lrange, hset, rpush, lpop, del, same_text, first_of_list}

-- The entries of the queue; the program writes nothing else into it.
unfoldable pub entries_of : List Value → List DeadLetterEntry
entries_of [] = []
entries_of (dead_letter e ∷ vs) = e ∷ entries_of vs
entries_of (_ ∷ vs) = entries_of vs

unfoldable pub same_entry : DeadLetterEntry → DeadLetterEntry → Bool
unfolding String-discrete
same_entry a b =
    same_text a.job_id b.job_id
    && (same_text a.group_id b.group_id
        && (a.retry_count == b.retry_count
            && (same_text a.error b.error && a.failed_at == b.failed_at)))

module _ ⦃r : Redis⦄ where
  abbrev pub entries : Db → List DeadLetterEntry
  entries d = entries_of (lrange dead_letter_queue d)

  unfoldable pub append_all : List DeadLetterEntry → Db → Db
  append_all [] d = d
  append_all (e ∷ es) d = append_all es (rpush dead_letter_queue (dead_letter e) d)

  unfoldable pub remove_from_dlq : DeadLetterEntry → Db → Db
  unfolding append_all same_entry entries_of
  remove_from_dlq e d =
      append_all (keep (λ x. not (same_entry x e)) (entries d)) (del dead_letter_queue d)

  -- The job starts anew.
  unfoldable pub reset_job : String → Db → Db
  reset_job j d =
      rpush ready_queue (str j)
        (hset (job j) status (job_status pending) (hset (job j) retry_count (num 0) d))

  unfoldable pub retry_entry : Option DeadLetterEntry → String → Db → Bool × Db
  unfolding reset_job remove_from_dlq
  retry_entry none j d = (false, d)
  retry_entry (some e) j d = (true, remove_from_dlq e (reset_job j d))

  unfoldable pub retry : String → Db → Bool × Db
  unfolding retry_entry String-discrete entries_of
  retry j d = retry_entry (find (λ e. same_text e.job_id j) (entries d)) j d

  -- `while (true)` pops until the queue is empty; the fuel bounds the rounds.
  -- An entry that `JSON.parse` refuses ends the loop by an error, `none` here.
  unfoldable pub retry_loop : ℕ → ℕ → Db → Option (ℕ × Db)
  unfolding reset_job
  retry_loop zero count d = none
  retry_loop (suc fuel) count d = elim (first_of_list (lrange dead_letter_queue d)) [
    | none ↦ some (count, d)
    | some (dead_letter e) ↦
        retry_loop fuel (count + 1) (reset_job e.job_id (lpop dead_letter_queue d))
    | some v ↦ none
  ]

  unfoldable pub purge_entry : Option DeadLetterEntry → Db → Bool × Db
  unfolding remove_from_dlq
  purge_entry none d = (false, d)
  purge_entry (some e) d = (true, remove_from_dlq e d)

  unfoldable pub purge : String → Db → Bool × Db
  unfolding purge_entry String-discrete entries_of
  purge j d = purge_entry (find (λ e. same_text e.job_id j) (entries d)) d

  unfoldable pub remove_each : List DeadLetterEntry → Db → Db
  unfolding remove_from_dlq
  remove_each [] d = d
  remove_each (e ∷ es) d = remove_each es (remove_from_dlq e d)

  -- `failedAt < now - retention`, with the subtraction moved to the other side.
  unfoldable pub is_expired : ℕ → ℕ → DeadLetterEntry → Bool
  is_expired retention now e = ltb (e.failed_at + retention) now

  unfoldable pub cleanup : ℕ → ℕ → Db → ℕ × Db
  unfolding remove_each is_expired entries_of
  cleanup retention now d =
      let old = keep (is_expired retention now) (entries d) in (length old, remove_each old d)
