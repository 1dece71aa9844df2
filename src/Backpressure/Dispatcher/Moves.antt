-- ===== src/Backpressure/Dispatcher/Moves.antt =====
-- What a dispatch moves from the non-ready to the ready queue.
use nestjs_playground.Prelude.{
  ℕ, ◌+◌, ◌≤◌, ◌<◌, Bool, true, String, Option, none, some, List, [], ◌∷◌, ◌++◌, map, length,
  append-nil, append_assoc, ◌≡◌, refl, ap, sym, ◌∙◌, inl, inr, Bool-cases, arith,
}
use nestjs_playground.Model.{Value, str, to_text}
use nestjs_playground.Keys.{Key, ready_queue, non_ready_queue, congestion_non_ready_count}
use nestjs_playground.Redis.{
  Redis, Db, Member, millis, get, lrange, zrange, decr, up_to, without_member, store_laws,
  length-up_to_le, lrange-rpush, lrange-zrem, zrange-rpush, zrange-zrem,
}
use nestjs_playground.Backpressure.ReadyQueue.{ready_size}
use nestjs_playground.Backpressure.Dispatcher.{
  Dispatcher, is_negative, release_one, release_group, move_one, move_jobs, move_to_ready,
}

abbrev pub without_all : List String → List Member → List Member
without_all [] xs = xs
without_all (j ∷ js) xs = without_all js (without_member j xs)

module _ ⦃r : Redis⦄ where
  lrange-release_one : (k : Key) (g : String) (d : Db) → lrange k (release_one g d) ≡ lrange k d
  unfolding release_one
  lrange-release_one k g d =
      let key = congestion_non_ready_count g in
      elim (Bool-cases (is_negative (get key (decr key d)))) [
        | inl e ↦ rw (e, release_one) (simp store_laws)
        | inr e ↦ rw (e, release_one) (simp store_laws)
      ]

  lrange-release_group :
      (k : Key) (g : Option Value) (d : Db) → lrange k (release_group g d) ≡ lrange k d
  unfolding release_group
  lrange-release_group k none d = refl
  lrange-release_group k (some g) d = lrange-release_one k (to_text (some g)) d

  zrange-release_one : (k : Key) (g : String) (d : Db) → zrange k (release_one g d) ≡ zrange k d
  unfolding release_one
  zrange-release_one k g d =
      let key = congestion_non_ready_count g in
      elim (Bool-cases (is_negative (get key (decr key d)))) [
        | inl e ↦ rw (e, release_one) (simp store_laws)
        | inr e ↦ rw (e, release_one) (simp store_laws)
      ]

  zrange-release_group :
      (k : Key) (g : Option Value) (d : Db) → zrange k (release_group g d) ≡ zrange k d
  unfolding release_group
  zrange-release_group k none d = refl
  zrange-release_group k (some g) d = zrange-release_one k (to_text (some g)) d

  move_one_ready :
      (j : String) (d : Db) → lrange ready_queue (move_one j d) ≡ lrange ready_queue d ++ str j ∷ []
  unfolding move_one
  move_one_ready j d =
      rw (lrange-release_group, lrange-rpush)
        (ground (arith, lrange-zrem ready_queue non_ready_queue j d))

  move_one_non_ready :
      (j : String) (d : Db)
      → zrange non_ready_queue (move_one j d) ≡ without_member j (zrange non_ready_queue d)
  unfolding move_one
  move_one_non_ready j d = rw (zrange-release_group, zrange-rpush, zrange-zrem) (ground arith)

  move_jobs_ready :
      (js : List String) (d : Db)
      → lrange ready_queue (move_jobs js d) ≡ lrange ready_queue d ++ map str js
  unfolding move_jobs
  move_jobs_ready [] d = sym (append-nil (lrange ready_queue d))
  move_jobs_ready (j ∷ js) d =
      move_jobs_ready js (move_one j d)
      ∙ (ap (λ (xs : List Value). xs ++ map str js) (move_one_ready j d)
          ∙ append_assoc (lrange ready_queue d) (str j ∷ []) (map str js))

  move_jobs_non_ready :
      (js : List String) (d : Db)
      → zrange non_ready_queue (move_jobs js d) ≡ without_all js (zrange non_ready_queue d)
  unfolding move_jobs
  move_jobs_non_ready [] d = refl
  move_jobs_non_ready (j ∷ js) d =
      move_jobs_non_ready js (move_one j d) ∙ ap (without_all js) (move_one_non_ready j d)

  -- `moveToReady` takes at most a batch of the jobs that are due, first due first: they leave the
  -- non-ready queue, they stand at the end of the ready queue in that order, and the result is how many
  -- they are.
  pub move_to_ready_lem :
      (now batch : ℕ) (d : Db)
      → let due = up_to batch (millis now) (zrange non_ready_queue d) in
        let (moved, d') = move_to_ready now batch d in
        (lrange ready_queue d' ≡ lrange ready_queue d ++ map str due)
        × (zrange non_ready_queue d' ≡ without_all due (zrange non_ready_queue d))
        × (moved ≡ length due)
        × (moved ≤ batch)
  unfolding move_to_ready
  move_to_ready_lem now batch d =
      let due = up_to batch (millis now) (zrange non_ready_queue d) in
      (
        move_jobs_ready due d,
        move_jobs_non_ready due d,
        refl,
        length-up_to_le batch (millis now) (zrange non_ready_queue d),
      )

  -- What a dispatch of at most a batch into a queue of `max_size` comes to: the jobs that are due are moved, or
  -- nothing is, since a call failed or the queue was full.
  pub data Dispatched (look_fails move_fails : Bool) (others : Db → Db) (max_size batch now : ℕ)
      (d : Db) (moved : ℕ) (after : Db) : Type 0 where
    moves :
        ready_size d < max_size
        → moved ≡ length (up_to batch (millis now) (zrange non_ready_queue (others d)))
        → moved ≤ batch
        → ready_size after ≡ ready_size (others d) + moved
        → ready_size after + ready_size d < ready_size (others d) + max_size + batch
        → Dispatched look_fails move_fails others max_size batch now d moved after
    finds_full :
        max_size ≤ ready_size d
        → moved ≡ 0
        → after ≡ d
        → Dispatched look_fails move_fails others max_size batch now d moved after
    cannot_look :
        look_fails ≡ true
        → moved ≡ 0
        → after ≡ d
        → Dispatched look_fails move_fails others max_size batch now d moved after
    cannot_move :
        move_fails ≡ true
        → moved ≡ 0
        → after ≡ others d
        → Dispatched look_fails move_fails others max_size batch now d moved after
