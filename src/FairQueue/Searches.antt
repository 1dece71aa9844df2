-- ===== src/FairQueue/Searches.antt =====
-- What dequeue.lua finds.
use nestjs_playground.Prelude.{
  ℕ, zero, suc, ◌≤◌, ◌<◌, true, ◌==◌, String, Option, none, some, List, [], ◌∷◌, length, ◌≡◌, refl,
  ap, sym, ◌∙◌, ◌≢◌, ◌⊎◌, inl, inr, Bool-cases, Option-cases, arith,
}
use nestjs_playground.Model.{Value, job_status, processing, to_text, String-discrete}
use nestjs_playground.Keys.{Key, group_jobs, job, status}
use nestjs_playground.Redis.{
  Redis, Db, Member, lrange, zrange, hset, lpop, zrem, has_member, without_member, first_of_list,
  rest_of, last_member, same_text, store_laws, lrange-lpop, lrange-zrem, zrange-zrem, zrange-lpop,
}
use nestjs_playground.FairQueue.{update_group, search_queue}

last_none : (xs : List Member) → last_member xs ≡ none → xs ≡ []
last_none [] h = refl
last_none (x ∷ []) h = ground arith
last_none (x ∷ y ∷ xs) h = ground (arith, last_none (y ∷ xs) h)

last-has_member :
    (xs : List Member) (m : Member) → last_member xs ≡ some m → has_member m.member xs ≡ true
last-has_member [] m h = ground arith
last-has_member (x ∷ []) m h = ground arith
last-has_member (x ∷ y ∷ xs) m h = ground (arith, last-has_member (y ∷ xs) m h)

length-without_le : (s : String) (xs : List Member) → length (without_member s xs) ≤ length xs
length-without_le s [] = omega arith
length-without_le s (x ∷ xs) = ground (arith, length-without_le s xs)

length-without_lt :
    (s : String) (xs : List Member)
    → has_member s xs ≡ true
    → length (without_member s xs) < length xs
length-without_lt s [] h = ground arith
length-without_lt s (x ∷ xs) h = elim (Bool-cases (same_text x.member s)) [
  | inl e ↦ rw e (omega (arith, length-without_le s xs))
  | inr e ↦ rw e (ground (arith, length-without_lt s xs))
]

has-without :
    (g s : String) (xs : List Member)
    → has_member g xs ≡ true
    → g ≢ s
    → has_member g (without_member s xs) ≡ true
unfolding String-discrete
has-without g s [] h ne = ground arith
has-without g s (x ∷ xs) h ne = ground (arith, has-without g s xs)

module _ ⦃r : Redis⦄ where
  -- A job that was the head of a group's jobs, and only that one, is taken.
  pub record Served (j : String) (before after : Db) : Type 0 where
    pub group : String
    pub value : Value
    pub rest : List Value
    pub head : lrange (group_jobs group) before ≡ value ∷ rest
    pub named : to_text (some value) ≡ j
    pub left : lrange (group_jobs group) after ≡ rest
    pub others : (k : Key) → k ≢ group_jobs group → lrange k after ≡ lrange k before

  -- A queue is left empty, no jobs are touched, and a group that left a queue had no jobs.
  pub record Emptied (queue : Key) (before after : Db) : Type 0 where
    pub none_left : zrange queue after ≡ []
    pub kept : (k : Key) → lrange k after ≡ lrange k before
    pub seen :
        (k : Key) (g : String)
        → has_member g (zrange k before) ≡ true
        → (has_member g (zrange k after) ≡ true) ⊎ (lrange (group_jobs g) before ≡ [])

  abbrev Searched : Key → Db → Option (Option String) → Db → Type 0
  Searched queue before none after = ⊥
  Searched queue before (some none) after = Emptied queue before after
  Searched queue before (some (some j)) after = Served j before after

  lrange-update_group :
      (alpha now : ℕ) (queue : Key) (g j : String) (k : Key) (d : Db)
      → lrange k (update_group alpha now queue g j d) ≡ lrange k d
  unfolding update_group
  lrange-update_group alpha now queue g j k d =
      elim (Bool-cases
        (length (lrange (group_jobs g) (hset (job j) status (job_status processing) d)) == 0)) [
          | inl e ↦ rw (e, update_group) (simp store_laws)
          | inr e ↦ rw (e, update_group) (simp store_laws)
        ]

  served :
      (alpha now : ℕ) (queue : Key) (g : String) (v : Value) (rest : List Value) (d : Db)
      → lrange (group_jobs g) d ≡ v ∷ rest
      → Served
          (to_text (some v))
          d
          (update_group alpha now queue g (to_text (some v)) (lpop (group_jobs g) d))
  served alpha now queue g v rest d e = record {
    group = g;
    value = v;
    rest = rest;
    head = e;
    named = refl;
    left =
        lrange-update_group alpha now queue g (to_text (some v)) (group_jobs g)
          (lpop (group_jobs g) d)
        ∙ rw lrange-lpop (ground arith);
    others = λ k h.
        lrange-update_group alpha now queue g (to_text (some v)) k (lpop (group_jobs g) d)
        ∙ rw lrange-lpop (ground arith);
  }

  -- A group without jobs that leaves the queue.
  abbrev skipped : Key → String → Db → Db
  skipped queue g d = zrem queue g (lpop (group_jobs g) d)

  skipped-kept :
      (queue : Key) (g : String) (k : Key) (d : Db)
      → lrange (group_jobs g) d ≡ []
      → lrange k (skipped queue g d) ≡ lrange k d
  skipped-kept queue g k d e = rw (lrange-zrem, lrange-lpop) (ground arith)

  skipped-zrange :
      (queue : Key) (g : String) (d : Db)
      → zrange queue (skipped queue g d) ≡ without_member g (zrange queue d)
  skipped-zrange queue g d = rw (zrange-zrem, zrange-lpop) (ground arith)

  skipped-seen :
      (queue : Key) (g : String) (k : Key) (i : String) (d : Db)
      → lrange (group_jobs g) d ≡ []
      → has_member i (zrange k d) ≡ true
      → (has_member i (zrange k (skipped queue g d)) ≡ true) ⊎ (lrange (group_jobs i) d ≡ [])
  skipped-seen queue g k i d e h = elim (String-discrete i g) [
    | yes p ↦ inr (ap (λ (s : String). lrange (group_jobs s) d) p ∙ e)
    | no n ↦
        inl (simp (zrange-zrem, zrange-lpop) (ground (arith, has-without i g (zrange k d) h n)))
  ]

  Searched-after :
      (queue : Key) (before d after : Db) (found : Option (Option String))
      → ((k : Key) → lrange k d ≡ lrange k before)
      → ((k : Key) (g : String)
          → has_member g (zrange k before) ≡ true
          → (has_member g (zrange k d) ≡ true) ⊎ (lrange (group_jobs g) before ≡ []))
      → Searched queue d found after
      → Searched queue before found after
  Searched-after queue before d after none kept seen s = s
  Searched-after queue before d after (some none) kept seen s = record {
    none_left = s.none_left;
    kept = λ k. s.kept k ∙ kept k;
    seen = λ k g h. elim (seen k g h) [
      | inr e ↦ inr e
      | inl e ↦ elim (s.seen k g e) [ inl f ↦ inl f | inr f ↦ inr (sym (kept (group_jobs g)) ∙ f) ]
    ];
  }
  Searched-after queue before d after (some (some j)) kept seen s = record {
    group = s.group;
    value = s.value;
    rest = s.rest;
    head = sym (kept (group_jobs s.group)) ∙ s.head;
    named = s.named;
    left = s.left;
    others = λ k h. s.others k h ∙ kept k;
  }

  no_head : (vs : List Value) → first_of_list vs ≡ none → vs ≡ []
  no_head [] h = refl
  no_head (v ∷ vs) h = ground arith

  head_rest : (vs : List Value) (v : Value) → first_of_list vs ≡ some v → vs ≡ v ∷ rest_of vs
  head_rest [] v h = ground arith
  head_rest (x ∷ vs) v h = ground arith

  -- The search of one queue ends within a round more than it has groups: it takes the head of the jobs of
  -- a group, and no other job, or it empties the queue, and then no group of the queue had a job.
  pub search_queue-Searched :
      (fuel alpha now : ℕ) (queue : Key) (d : Db)
      → length (zrange queue d) < fuel
      → let (found, d') = search_queue fuel alpha now queue d in Searched queue d found d'
  unfolding search_queue
  search_queue-Searched zero alpha now queue d h = absurd (omega arith)
  search_queue-Searched (suc fuel) alpha now queue d h =
      elim (Option-cases (last_member (zrange queue d))) [
        | inl e ↦
            rw (e, search_queue)
              (record {
                none_left = last_none (zrange queue d) e;
                kept = λ k. refl;
                seen = λ k g p. inl p;
              })
        | inr (m, e) ↦ elim (Option-cases (first_of_list (lrange (group_jobs m.member) d))) [
          | inr (v, f) ↦
              rw (e, search_queue)
                (rw f (
                  served alpha now queue m.member v _ d
                    (head_rest (lrange (group_jobs m.member) d) v f)))
          | inl f ↦
              let idle = no_head (lrange (group_jobs m.member) d) f in
              rw (e, search_queue)
                (rw f (
                  Searched-after queue d (skipped queue m.member d) _ _
                    (λ k. skipped-kept queue m.member k d idle)
                    (λ k g p. skipped-seen queue m.member k g d idle p)
                    (search_queue-Searched fuel alpha now queue (skipped queue m.member d) (
                      rw skipped-zrange (
                        omega (
                          arith,
                          length-without_lt m.member (zrange queue d)
                              (last-has_member (zrange queue d) m e),
                        ))))))
        ]
      ]
