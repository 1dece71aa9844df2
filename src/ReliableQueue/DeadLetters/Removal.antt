-- ===== src/ReliableQueue/DeadLetters/Removal.antt =====
-- Removing dead letters, one or all, and giving their jobs a new start.
use nestjs_playground.Prelude.{
  ℕ, zero, suc, ◌+◌, ◌<◌, true, false, not, String, Option, none, some, List, [], ◌∷◌, ◌++◌, map,
  keep, find, length, ◌≡◌, refl, ap, sym, ◌∙◌, ◌≢◌, arith, append_assoc, append-nil,
}
use nestjs_playground.Model.{Value, str, dead_letter, DeadLetterEntry}
use nestjs_playground.Keys.{Key, ready_queue, dead_letter_queue}
use nestjs_playground.Redis.{
  Redis, Db, lrange, rpush, lpop, del, same_text, store_laws, lrange-rpush, lrange-del, lrange-lpop,
}
use nestjs_playground.ReliableQueue.DeadLetters.{
  entries_of, same_entry, entries, append_all, remove_from_dlq, reset_job, retry, retry_loop,
}

entries_of-append :
    (vs : List Value) (e : DeadLetterEntry)
    → entries_of (vs ++ dead_letter e ∷ []) ≡ entries_of vs ++ e ∷ []
unfolding entries_of
entries_of-append [] e = refl
entries_of-append (dead_letter x ∷ vs) e = ap (◌∷◌ x) (entries_of-append vs e)
entries_of-append (_ ∷ vs) e = entries_of-append vs e

module _ ⦃r : Redis⦄ where
  rpush_self : (k : Key) (v : Value) (d : Db) → lrange k (rpush k v d) ≡ lrange k d ++ v ∷ []
  rpush_self k v d = rw lrange-rpush (ground arith)

  del_self : (k : Key) (d : Db) → lrange k (del k d) ≡ []
  del_self k d = rw lrange-del (ground arith)

  entries-append_all :
      (es : List DeadLetterEntry) (d : Db) → entries (append_all es d) ≡ entries d ++ es
  unfolding append_all
  entries-append_all [] d = sym (append-nil (entries d))
  entries-append_all (e ∷ es) d =
      entries-append_all es (rpush dead_letter_queue (dead_letter e) d)
      ∙ (ap (λ (xs : List DeadLetterEntry). xs ++ es) pushed ∙ append_assoc (entries d) (e ∷ []) es)
    where
      pushed : entries (rpush dead_letter_queue (dead_letter e) d) ≡ entries d ++ e ∷ []
      pushed =
          ap entries_of (rpush_self dead_letter_queue (dead_letter e) d)
          ∙ entries_of-append (lrange dead_letter_queue d) e

  append_all_others :
      (k : Key) (es : List DeadLetterEntry) (d : Db)
      → dead_letter_queue ≢ k
      → lrange k (append_all es d) ≡ lrange k d
  unfolding append_all
  append_all_others k [] d h = refl
  append_all_others k (e ∷ es) d h =
      append_all_others k es (rpush dead_letter_queue (dead_letter e) d) h
      ∙ rw lrange-rpush (ground arith)

  remove_entries :
      (e : DeadLetterEntry) (d : Db)
      → entries (remove_from_dlq e d) ≡ keep (λ x. not (same_entry x e)) (entries d)
  unfolding remove_from_dlq
  remove_entries e d =
      entries-append_all (keep (λ x. not (same_entry x e)) (entries d)) (del dead_letter_queue d)
      ∙ ap (λ (vs : List Value). entries_of vs ++ keep (λ x. not (same_entry x e)) (entries d))
          (del_self dead_letter_queue d)

  remove_others :
      (k : Key) (e : DeadLetterEntry) (d : Db)
      → dead_letter_queue ≢ k
      → lrange k (remove_from_dlq e d) ≡ lrange k d
  unfolding remove_from_dlq
  remove_others k e d h =
      append_all_others k (keep (λ x. not (same_entry x e)) (entries d)) (del dead_letter_queue d) h
      ∙ rw lrange-del (ground arith)

  reset_job_ready :
      (j : String) (d : Db)
      → lrange ready_queue (reset_job j d) ≡ lrange ready_queue d ++ str j ∷ []
  unfolding reset_job
  reset_job_ready j d = simp store_laws (ground arith)

  reset_job_dead :
      (j : String) (d : Db) → lrange dead_letter_queue (reset_job j d) ≡ lrange dead_letter_queue d
  unfolding reset_job
  reset_job_dead j d = simp store_laws (ground arith)

  -- Where an entry of the job is the first to be found, `retry` puts the job at the end of the ready
  -- queue and drops every entry equal to that one, and no other; where none is, it does nothing.
  pub retry_lem :
      (j : String) (d : Db) (e : DeadLetterEntry)
      → (find (λ x. same_text x.job_id j) (entries d) ≡ some e
          → ((retry j d).0 ≡ true)
            × (lrange ready_queue (retry j d).1 ≡ lrange ready_queue d ++ str j ∷ [])
            × (entries (retry j d).1 ≡ keep (λ x. not (same_entry x e)) (entries d)))
        × (find (λ x. same_text x.job_id j) (entries d) ≡ none → retry j d ≡ (false, d))
  unfolding retry
  retry_lem j d e = (
    λ h.
        rw (h, retry)
          (
            refl,
            remove_others ready_queue e (reset_job j d) (λ p. cc) ∙ reset_job_ready j d,
            remove_entries e (reset_job j d)
                ∙ ap (λ (vs : List Value). keep (λ x. not (same_entry x e)) (entries_of vs))
                    (reset_job_dead j d),
          ),
    λ h. rw (h, retry),
  )

  abbrev pub AllDead : List Value → Type 0
  AllDead [] = Unit
  AllDead (dead_letter e ∷ vs) = AllDead vs
  AllDead (_ ∷ vs) = ⊥

  lpop_dead :
      (d : Db) (v : Value) (vs : List Value)
      → lrange dead_letter_queue d ≡ v ∷ vs
      → lrange dead_letter_queue (lpop dead_letter_queue d) ≡ vs
  lpop_dead d v vs e = rw lrange-lpop (ground arith)

  lpop_ready : (d : Db) → lrange ready_queue (lpop dead_letter_queue d) ≡ lrange ready_queue d
  lpop_ready d = rw lrange-lpop (ground arith)

  record Drained (es : List DeadLetterEntry) (count : ℕ) (d : Db) (out : Option (ℕ × Db))
      : Type 0 where
    pub last : Db
    pub ends : out ≡ some (count + length es, last)
    pub emptied : lrange dead_letter_queue last ≡ []
    pub revived : lrange ready_queue last ≡ lrange ready_queue d ++ map (λ e. str e.job_id) es

  retry_loop-Drained :
      (fuel count : ℕ) (vs : List Value) (d : Db)
      → lrange dead_letter_queue d ≡ vs
      → AllDead vs
      → length vs < fuel
      → Drained (entries_of vs) count d (retry_loop fuel count d)
  unfolding retry_loop entries_of
  retry_loop-Drained zero count vs d e all h = absurd (omega arith)
  retry_loop-Drained (suc fuel) count [] d e all h =
      rw (e, retry_loop)
        (record {
          last = d;
          ends = ground arith;
          emptied = e;
          revived = sym (append-nil (lrange ready_queue d));
        })
  retry_loop-Drained (suc fuel) count (dead_letter x ∷ vs) d e all h =
      let popped = lpop dead_letter_queue d in
      let rest =
        retry_loop-Drained fuel (count + 1) vs (reset_job x.job_id popped)
          (reset_job_dead x.job_id popped ∙ lpop_dead d (dead_letter x) vs e) all (omega arith) in
      rw (e, retry_loop)
        (record {
          last = rest.last;
          ends = rest.ends ∙ ap (λ (n : ℕ). some (n, rest.last)) (omega arith);
          emptied = rest.emptied;
          revived =
              rest.revived
              ∙ (ap (λ (xs : List Value). xs ++ map (λ y. str y.job_id) (entries_of vs))
                    (reset_job_ready x.job_id popped
                      ∙ ap (λ (xs : List Value). xs ++ str x.job_id ∷ []) (lpop_ready d))
                  ∙ append_assoc (lrange ready_queue d) (str x.job_id ∷ [])
                      (map (λ y. str y.job_id) (entries_of vs)));
        })
  retry_loop-Drained (suc fuel) count (_ ∷ vs) d e all h = absurd all

  -- `retryAll` ends, within one round more than there are dead letters: the dead-letter queue is then
  -- empty, every job of it stands at the end of the ready queue in its order, and the result is how
  -- many they were.
  pub retry_loop_total :
      (d : Db)
      → AllDead (lrange dead_letter_queue d)
      → (last : Db) × (retry_loop (suc (length (lrange dead_letter_queue d))) 0 d
          ≡ some (length (entries d), last))
        × (lrange dead_letter_queue last ≡ [])
        × (lrange ready_queue last ≡ lrange ready_queue d ++ map (λ e. str e.job_id) (entries d))
  retry_loop_total d all =
      let out =
        retry_loop-Drained (suc (length (lrange dead_letter_queue d))) 0
          (lrange dead_letter_queue d) d refl all (omega arith) in
      (
        out.last,
        out.ends ∙ ap (λ (n : ℕ). some (n, out.last)) (omega arith),
        out.emptied,
        out.revived,
      )
