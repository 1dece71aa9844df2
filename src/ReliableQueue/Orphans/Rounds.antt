-- ===== src/ReliableQueue/Orphans/Rounds.antt =====
-- What one round of recover-orphans.lua does to its job, and that it leaves the other jobs alone.
use nestjs_playground.Prelude.{
  ℕ, ◌+◌, leb, Bool, true, false, if◌then◌else◌, String, some, List, [], ◌∷◌, ◌++◌, ◌≡◌, ◌≢◌, refl,
  ap, sym, subst, ◌∙◌, inl, inr, Bool-cases, arith,
}
use nestjs_playground.Model.{
  Value, str, job_status, pending, job_failed, increment, to_number, to_text,
}
use nestjs_playground.Keys.{
  Field, ready_queue, in_flight_queue, in_flight_meta, dead_letter_queue, job, retry_count,
  group_id, status,
}
use nestjs_playground.Redis.{Redis, Db, hget, lrange, zrange, zrem, del, without_member, store_laws}
use nestjs_playground.ReliableQueue.Orphans.{
  Recovery, source_of, orphan_entry, bury, revive, recover_one, recover_each,
}

-- The text is none of those in the list, and no text of a list stands there twice.
abbrev pub NotIn : String → List String → Type 0
NotIn j [] = Unit {0}
NotIn j (i ∷ is) = (i ≢ j) × NotIn j is

abbrev pub AllDifferent : List String → Type 0
AllDifferent [] = Unit {0}
AllDifferent (j ∷ js) = NotIn j js × AllDifferent js

module _ ⦃r : Redis⦄ (max_retries now : ℕ) where
  -- What the store says of a job in flight.
  abbrev pub retries_of : Db → String → ℕ
  retries_of d j = to_number (hget (source_of j d) retry_count d)

  abbrev pub group_of : Db → String → String
  group_of d j = to_text (hget (source_of j d) group_id d)

  abbrev pub is_spent : Db → String → Bool
  is_spent d j = leb max_retries (retries_of d j)

  -- The ids of those jobs that have retries left, the dead letters of the others, and their pairs, last first.
  abbrev pub to_ready : Db → List String → List Value
  to_ready d [] = []
  to_ready d (j ∷ js) = let rest = to_ready d js in if is_spent d j then rest else str j ∷ rest

  abbrev pub to_dead : Db → List String → List Value
  to_dead d [] = []
  to_dead d (j ∷ js) =
      let rest = to_dead d js in
      if is_spent d j then orphan_entry j (group_of d j) (retries_of d j) now ∷ rest else rest

  abbrev pub pairs_of : Db → List String → List (String × String) → List (String × String)
  pairs_of d [] ps = ps
  pairs_of d (j ∷ js) ps = pairs_of d js (if is_spent d j then (j, group_of d j) ∷ ps else ps)

  -- A job without retries left has FAILED, another is PENDING with one retry more.
  abbrev pub JobSettled : Bool → String → Db → Db → Type 0
  JobSettled true j before after = hget (job j) status after ≡ some (job_status job_failed)
  JobSettled false j before after =
      (hget (job j) status after ≡ some (job_status pending))
      × (hget (job j) retry_count after ≡ some (increment (hget (job j) retry_count before)))

  abbrev pub JobsSettled : List String → Db → Db → Type 0
  JobsSettled [] before after = Unit {0}
  JobsSettled (j ∷ js) before after =
      JobSettled (is_spent before j) j before after × JobsSettled js before after

  -- The store of a round after the ZREM and the DEL.
  abbrev pub cleared : String → Db → Db
  cleared j d = del (in_flight_meta j) (zrem in_flight_queue j d)

  read-zrem :
      (j : String) (f : Field) (d : Db)
      → hget (source_of j (zrem in_flight_queue j d)) f (zrem in_flight_queue j d)
        ≡ hget (source_of j d) f d
  unfolding source_of
  read-zrem j f d = simp store_laws

  pub one-buried :
      (j : String) (so_far : Recovery) (d : Db)
      → is_spent d j ≡ true
      → recover_one max_retries now j so_far d ≡ (
        record {
          recovered = so_far.recovered;
          dead_lettered = so_far.dead_lettered + 1;
          pairs = (j, group_of d j) ∷ so_far.pairs;
        },
        bury j (group_of d j) (retries_of d j) now (cleared j d),
      )
  unfolding recover_one
  one-buried j so_far d e = rw (recover_one, read-zrem j retry_count d, read-zrem j group_id d, e)

  pub one-revived :
      (j : String) (so_far : Recovery) (d : Db)
      → is_spent d j ≡ false
      → recover_one max_retries now j so_far d
        ≡ (record so_far { recovered = so_far.recovered + 1 }, revive j (cleared j d))
  unfolding recover_one
  one-revived j so_far d e = rw (recover_one, read-zrem j retry_count d, e)

  -- What a round leaves of another job.
  pub record Untouched (i : String) (before after : Db) : Type 0 where
    pub meta : (f : Field) → hget (in_flight_meta i) f after ≡ hget (in_flight_meta i) f before
    pub fields : (f : Field) → hget (job i) f after ≡ hget (job i) f before

  Untouched-one :
      (i j : String) (so_far : Recovery) (d : Db)
      → j ≢ i
      → Untouched i d (recover_one max_retries now j so_far d).1
  unfolding bury revive
  Untouched-one i j so_far d h = elim (Bool-cases (is_spent d j)) [
    | inl e ↦ rw (one-buried j so_far d e) (record {
      meta = λ f. simp store_laws (ground arith);
      fields = λ f. simp store_laws (ground arith);
    })
    | inr e ↦ rw (one-revived j so_far d e) (record {
      meta = λ f. simp store_laws (ground arith);
      fields = λ f. simp store_laws (ground arith);
    })
  ]

  pub fields-each :
      (i : String) (js : List String) (so_far : Recovery) (d : Db) (f : Field)
      → NotIn i js
      → hget (job i) f (recover_each max_retries now js so_far d).1 ≡ hget (job i) f d
  unfolding recover_each
  fields-each i [] so_far d f h = refl
  fields-each i (j ∷ js) so_far d f (h, hs) =
      let (so_far', d') = recover_one max_retries now j so_far d in
      fields-each i js so_far' d' f hs ∙ (Untouched-one i j so_far d h).fields f

  source-Untouched : (i : String) (d e : Db) → Untouched i d e → source_of i e ≡ source_of i d
  unfolding source_of
  source-Untouched i d e u = let m = u.meta in simp m

  read_either :
      (b : Bool) (i : String) (d e : Db) (f : Field)
      → Untouched i d e
      → hget (if b then in_flight_meta i else job i) f e
        ≡ hget (if b then in_flight_meta i else job i) f d
  read_either true i d e f u = u.meta f
  read_either false i d e f u = u.fields f

  read-Untouched :
      (i : String) (d e : Db) (f : Field)
      → Untouched i d e
      → hget (source_of i e) f e ≡ hget (source_of i d) f d
  unfolding source_of
  read-Untouched i d e f u =
      ap (λ k. hget k f e) (source-Untouched i d e u) ∙ read_either _ i d e f u

  -- Of no job in the list.
  abbrev pub AllUntouched : List String → Db → Db → Type 0
  AllUntouched [] d e = Unit {0}
  AllUntouched (i ∷ is) d e = Untouched i d e × AllUntouched is d e

  pub AllUntouched-one :
      (js : List String) (j : String) (so_far : Recovery) (d : Db)
      → NotIn j js
      → AllUntouched js d (recover_one max_retries now j so_far d).1
  AllUntouched-one [] j so_far d h = tt
  AllUntouched-one (i ∷ is) j so_far d (h, hs) =
      (Untouched-one i j so_far d (λ p. h (sym p)), AllUntouched-one is j so_far d hs)

  pub to_ready-same :
      (js : List String) (d e : Db) → AllUntouched js d e → to_ready e js ≡ to_ready d js
  to_ready-same [] d e h = refl
  to_ready-same (i ∷ is) d e (u, us) =
      rw (to_ready, read-Untouched i d e retry_count u, to_ready-same is d e us)

  pub to_dead-same :
      (js : List String) (d e : Db) → AllUntouched js d e → to_dead e js ≡ to_dead d js
  to_dead-same [] d e h = refl
  to_dead-same (i ∷ is) d e (u, us) = rw (
    to_dead,
    read-Untouched i d e retry_count u,
    read-Untouched i d e group_id u,
    to_dead-same is d e us,
  )

  pub pairs_of-same :
      (js : List String) (ps : List (String × String)) (d e : Db)
      → AllUntouched js d e
      → pairs_of e js ps ≡ pairs_of d js ps
  pairs_of-same [] ps d e h = refl
  pairs_of-same (i ∷ is) ps d e (u, us) =
      pairs_of-same is _ d e us
      ∙ rw (read-Untouched i d e retry_count u, read-Untouched i d e group_id u)

  JobSettled-same :
      (b : Bool) (i : String) (d e after : Db)
      → Untouched i d e
      → JobSettled b i e after
      → JobSettled b i d after
  JobSettled-same true i d e after u h = h
  JobSettled-same false i d e after u (pend, counted) =
      (pend, counted ∙ ap (λ v. some (increment v)) (u.fields retry_count))

  pub JobsSettled-same :
      (js : List String) (d e after : Db)
      → AllUntouched js d e
      → JobsSettled js e after
      → JobsSettled js d after
  JobsSettled-same [] d e after h k = tt
  JobsSettled-same (i ∷ is) d e after (u, us) (k, ks) = (
    subst (λ n. JobSettled (leb max_retries (to_number n)) i d after)
        (read-Untouched i d e retry_count u) (JobSettled-same _ i d e after u k),
    JobsSettled-same is d e after us ks,
  )

  pub bury_lem :
      (j : String) (d : Db) (g : String) (n : ℕ)
      → let e = bury j g n now (cleared j d) in
        (lrange ready_queue e ≡ lrange ready_queue d)
        × (lrange dead_letter_queue e ≡ lrange dead_letter_queue d ++ orphan_entry j g n now ∷ [])
        × (zrange in_flight_queue e ≡ without_member j (zrange in_flight_queue d))
        × (hget (job j) status e ≡ some (job_status job_failed))
  unfolding bury
  bury_lem j d g n = (
    simp store_laws (ground arith),
    simp store_laws (ground arith),
    simp store_laws (ground arith),
    simp store_laws (ground arith),
  )

  pub revive_lem :
      (j : String) (d : Db)
      → let e = revive j (cleared j d) in
        (lrange ready_queue e ≡ lrange ready_queue d ++ str j ∷ [])
        × (lrange dead_letter_queue e ≡ lrange dead_letter_queue d)
        × (zrange in_flight_queue e ≡ without_member j (zrange in_flight_queue d))
        × (hget (job j) status e ≡ some (job_status pending))
        × (hget (job j) retry_count e ≡ some (increment (hget (job j) retry_count d)))
  unfolding revive
  revive_lem j d = (
    simp store_laws (ground arith),
    simp store_laws (ground arith),
    simp store_laws (ground arith),
    simp store_laws (ground arith),
    simp store_laws (ground arith),
  )

  -- The first job of a list, by whether it has retries left.
  pub first-spent :
      (j : String) (js : List String) (ps : List (String × String)) (d after : Db)
      → is_spent d j ≡ true
      → (to_ready d (j ∷ js) ≡ to_ready d js)
        × (to_dead d (j ∷ js) ≡ orphan_entry j (group_of d j) (retries_of d j) now ∷ to_dead d js)
        × (pairs_of d (j ∷ js) ps ≡ pairs_of d js ((j, group_of d j) ∷ ps))
        × (JobSettled true j d after → JobSettled (is_spent d j) j d after)
  first-spent j js ps d after e =
      (rw (to_ready, e), rw (to_dead, e), rw (pairs_of, e), rw e (λ h. h))

  pub first-unspent :
      (j : String) (js : List String) (ps : List (String × String)) (d after : Db)
      → is_spent d j ≡ false
      → (to_ready d (j ∷ js) ≡ str j ∷ to_ready d js)
        × (to_dead d (j ∷ js) ≡ to_dead d js)
        × (pairs_of d (j ∷ js) ps ≡ pairs_of d js ps)
        × (JobSettled false j d after → JobSettled (is_spent d j) j d after)
  first-unspent j js ps d after e =
      (rw (to_ready, e), rw (to_dead, e), rw (pairs_of, e), rw e (λ h. h))
