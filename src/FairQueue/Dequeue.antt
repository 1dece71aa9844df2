-- ===== src/FairQueue/Dequeue.antt =====
-- `dequeue` of FairQueueService.ts, over the three queues, and a dequeue after an `enqueue`.
use nestjs_playground.Prelude.{
  ℕ, suc, Bool, true, ◌==◌, String, Option, none, some, List, [], ◌∷◌, ◌++◌, length, ◌≡◌, refl, sym,
  ◌∙◌, ◌⊎◌, inl, inr, Bool-cases, Option-cases, arith,
}
use nestjs_playground.Model.{
  Value, str, to_number, PriorityLevel, high_level, normal_level, low_level,
}
use nestjs_playground.Keys.{Key, fair_queue, group_jobs, group_meta, total_jobs}
use nestjs_playground.Redis.{
  Redis, Db, Score, Member, hget, lrange, zrange, hincr, rpush, zadd, has_member, insert_member,
  without_member, store_laws, zrange-zadd, lrange-zadd,
}
use nestjs_playground.FairQueue.{
  BulkActionRequest, store_job, start_group, enqueue, level_of, search_queue, search_queues,
  level_queues, read_job, dequeue_job,
}
use nestjs_playground.FairQueue.Searches.{Served, Emptied, search_queue-Searched}

has-insert :
    (before : String → String → Bool) (e : Member) (xs : List Member)
    → has_member e.member (insert_member before e xs) ≡ true
has-insert before e [] = ground arith
has-insert before e (x ∷ xs) = ground (arith, has-insert before e xs)

module _ ⦃r : Redis⦄ where
  -- No group of the queues has a job.
  abbrev pub NoJobs : List Key → Db → Type 0
  NoJobs [] d = Unit
  NoJobs (q ∷ qs) d =
      ((g : String) → has_member g (zrange q d) ≡ true → lrange (group_jobs g) d ≡ []) × NoJobs qs d

  abbrev Answered : List Key → Db → Option (Option String) → Db → Type 0
  Answered queues before none after = ⊥
  Answered queues before (some none) after =
      NoJobs queues before × ((k : Key) → lrange k after ≡ lrange k before)
  Answered queues before (some (some j)) after = Served j before after

  not_empty : (g : String) (xs : List Member) → has_member g xs ≡ true → xs ≡ [] → ⊥
  not_empty g [] h e = ground arith
  not_empty g (x ∷ xs) h e = ground arith

  NoJobs-before :
      (queue : Key) (queues : List Key) (before after : Db)
      → Emptied queue before after
      → NoJobs queues after
      → NoJobs queues before
  NoJobs-before queue [] before after s n = tt
  NoJobs-before queue (q ∷ qs) before after s (idle, n) = (
    λ g h. elim (s.seen q g h) [ inl e ↦ sym (s.kept (group_jobs g)) ∙ idle g e | inr e ↦ e ],
    NoJobs-before queue qs before after s n,
  )

  NoJobs-queue :
      (queue : Key) (before after : Db)
      → Emptied queue before after
      → (g : String) → has_member g (zrange queue before) ≡ true
      → lrange (group_jobs g) before ≡ []
  NoJobs-queue queue before after s g h = elim (s.seen queue g h) [
    | inl e ↦ absurd (not_empty g (zrange queue after) e s.none_left)
    | inr e ↦ e
  ]

  Answered-after :
      (queue : Key) (queues : List Key) (before d after : Db) (found : Option (Option String))
      → Emptied queue before d
      → Answered queues d found after
      → Answered (queue ∷ queues) before found after
  Answered-after queue queues before d after none s a = a
  Answered-after queue queues before d after (some none) s (n, kept) = (
    (NoJobs-queue queue before d s, NoJobs-before queue queues before d s n),
    λ k. kept k ∙ s.kept k,
  )
  Answered-after queue queues before d after (some (some j)) s a = record {
    group = a.group;
    value = a.value;
    rest = a.rest;
    head = sym (s.kept (group_jobs a.group)) ∙ a.head;
    named = a.named;
    left = a.left;
    others = λ k h. a.others k h ∙ s.kept k;
  }

  search_queues-Answered :
      (alpha now : ℕ) (queues : List Key) (d : Db)
      → let (found, d') = search_queues alpha now queues d in Answered queues d found d'
  unfolding search_queues
  search_queues-Answered alpha now [] d = (tt, λ k. refl)
  search_queues-Answered alpha now (queue ∷ queues) d =
      let fuel = suc (length (zrange queue d)) in
      let out = search_queue fuel alpha now queue d in
      let first = search_queue-Searched fuel alpha now queue d (omega arith) in
      elim (Option-cases out.0) [
        | inl e ↦ absurd (rw e at first)
        | inr (none, e) ↦
            rw (e, search_queues)
              (Answered-after queue queues d out.1 _ _ (rw e at first)
                (search_queues-Answered alpha now queues out.1))
        | inr (some j, e) ↦ rw (e, search_queues) (rw e at first)
      ]

  -- A dequeue always ends. Either it returns the job whose id was the head of the jobs of some group,
  -- takes that id from the group and no other id from any list; or it returns nothing, takes nothing,
  -- and no group in any of the three queues had a job.
  pub dequeue_job_lem :
      (alpha now : ℕ) (d : Db)
      → let (answer, d') = dequeue_job alpha now d in
        ((answer ≡ some none) × NoJobs level_queues d × ((k : Key) → lrange k d' ≡ lrange k d))
        ⊎ ((j : String) × (answer ≡ some (some (read_job j d'))) × Served j d d')
  unfolding dequeue_job
  dequeue_job_lem alpha now d =
      let out = search_queues alpha now level_queues d in
      let all = search_queues-Answered alpha now level_queues d in
      elim (Option-cases out.0) [
        | inl e ↦ absurd (rw e at all)
        | inr (none, e) ↦ rw (e, dequeue_job) (inl (refl, (rw e at all).0, (rw e at all).1))
        | inr (some j, e) ↦ rw (e, dequeue_job) (inr (j, refl, rw e at all))
      ]

  lrange-store_job :
      (q : BulkActionRequest) (now : ℕ) (k : Key) (d : Db)
      → lrange k (store_job q now d) ≡ lrange k d
  unfolding store_job
  lrange-store_job q now k d = simp store_laws

  lrange-start_group :
      (q : BulkActionRequest) (now : ℕ) (k : Key) (d : Db)
      → lrange k (start_group q now d) ≡ lrange k d
  unfolding start_group
  lrange-start_group q now k d = simp store_laws

  -- The store of an `enqueue` before the metadata of a new group.
  abbrev counted : BulkActionRequest → ℕ → Db → Db
  counted q now d =
      hincr (group_meta q.job_group_id) total_jobs
        (rpush (group_jobs q.job_group_id) (str q.job_id) (store_job q now d))

  jobs-counted :
      (q : BulkActionRequest) (now : ℕ) (d : Db)
      → lrange (group_jobs q.job_group_id) (counted q now d)
        ≡ lrange (group_jobs q.job_group_id) d ++ str q.job_id ∷ []
  jobs-counted q now d =
      simp store_laws (ground (arith, lrange-store_job q now (group_jobs q.job_group_id) d))

  -- An `enqueue` puts the job at the end of its group's jobs, and the group into the queue of its level.
  enqueue_lem :
      (alpha now : ℕ) (q : BulkActionRequest) (d : Db)
      → let d' = enqueue alpha q now d in
        (lrange (group_jobs q.job_group_id) d'
          ≡ lrange (group_jobs q.job_group_id) d ++ str q.job_id ∷ [])
        × (has_member q.job_group_id (zrange (fair_queue (level_of q.priority_level)) d') ≡ true)
  unfolding enqueue
  enqueue_lem alpha now q d =
      elim (Bool-cases
        (to_number (hget (group_meta q.job_group_id) total_jobs (counted q now d)) == 1)) [
          | inl e ↦
              rw (e, enqueue)
                (
                  lrange-zadd _ _ _ _ _ ∙ (lrange-start_group q now _ _ ∙ jobs-counted q now d),
                  registered _ _ _ _,
                )
          | inr e ↦
              rw (e, enqueue) (lrange-zadd _ _ _ _ _ ∙ jobs-counted q now d, registered _ _ _ _)
        ]
    where
      registered :
          (queue : Key) (s : Score) (g : String) (d : Db)
          → has_member g (zrange queue (zadd queue s g d)) ≡ true
      registered queue s g d = rw zrange-zadd (
          ground (
            arith,
            has-insert r.before (record { member = g; score = s })
                (without_member g (zrange queue d)),
          ))

  some_level :
      (l : PriorityLevel) (g : String) (d : Db)
      → NoJobs level_queues d
      → has_member g (zrange (fair_queue l) d) ≡ true
      → lrange (group_jobs g) d ≡ []
  some_level high_level g d n h = n.0 g h
  some_level normal_level g d n h = n.1.0 g h
  some_level low_level g d n h = n.1.1.0 g h

  snoc_empty : (vs : List Value) (v : Value) → vs ++ v ∷ [] ≡ [] → ⊥
  snoc_empty [] v h = ground arith
  snoc_empty (x ∷ vs) v h = ground arith

  -- After an `enqueue` at any level, with whatever was queued before, the next dequeue returns a job.
  pub enqueue-dequeue_job :
      (alpha now later : ℕ) (q : BulkActionRequest) (d : Db)
      → let d' = enqueue alpha q now d in
        let (answer, d'') = dequeue_job alpha later d' in
        (j : String) × (answer ≡ some (some (read_job j d''))) × Served j d' d''
  enqueue-dequeue_job alpha now later q d =
      let d' = enqueue alpha q now d in
      let (queued, listed) = enqueue_lem alpha now q d in
      elim (dequeue_job_lem alpha later d') [
        | inr found ↦ found
        | inl (_, idle, _) ↦ absurd (
            snoc_empty (lrange (group_jobs q.job_group_id) d) (str q.job_id)
              (sym queued ∙ some_level (level_of q.priority_level) q.job_group_id d' idle listed))
      ]
