-- ===== src/Idempotency/Marks.antt =====
-- The marks of IdempotencyService.ts, and the keys that a filter lets through.
use nestjs_playground.Prelude.{
  ℕ, Bool, true, false, not, if◌then◌else◌, String, List, [], ◌∷◌, ◌≡◌, ◌∙◌, inl, inr, Bool-cases,
  Option-cases, arith,
}
use nestjs_playground.Keys.{idempotency}
use nestjs_playground.Redis.{Redis, Db, get, same_text, has_text, get-setnx, get-expire}
use nestjs_playground.Lock.{is_free}
use nestjs_playground.Idempotency.{is_processed, filter_unprocessed}

module _ ⦃r : Redis⦄ (ttl_ms : ℕ) where
  abbrev pub is_marked : String → Db → Bool
  is_marked key d = not (is_free (get (idempotency key) d))

  processed_answer : (key : String) (d : Db) → (is_processed ttl_ms key d).0 ≡ is_marked key d
  unfolding is_processed
  processed_answer key d = ground arith

  -- A check leaves its own key marked, and every other key as it was.
  processed_marks :
      (key other : String) (d : Db)
      → is_marked other (is_processed ttl_ms key d).1
        ≡ (if same_text key other then true else is_marked other d)
  unfolding is_processed
  processed_marks key other d = elim (Option-cases (get (idempotency key) d)) [
    | inl e ↦ rw (e, is_processed) (simp (get-expire, get-setnx) (ground arith))
    | inr (v, e) ↦ rw (e, is_processed) (ground arith)
  ]

  abbrev pub Distinct : List String → Type 0
  Distinct [] = Unit
  Distinct (x ∷ xs) = (has_text x xs ≡ false) × Distinct xs

  -- The keys that a filter lets through, and the marks that it leaves.
  pub record Fresh (keys : List String) (before : Db) (out : List String × Db) : Type 0 where
    pub through :
        (k : String) → has_text k out.0 ≡ (if is_marked k before then false else has_text k keys)
    pub marked :
        (k : String) → is_marked k out.1 ≡ (if is_marked k before then true else has_text k keys)
    pub once : Distinct out.0

  -- `filterUnprocessed` lets exactly those keys through that were not marked, each once; afterwards
  -- exactly the keys of the list and those marked before are marked.
  pub filter_unprocessed-Fresh :
      (keys : List String) (d : Db) → Fresh keys d (filter_unprocessed ttl_ms keys d)
  unfolding filter_unprocessed
  filter_unprocessed-Fresh [] d = record {
    through = λ k. ground arith;
    marked = λ k. ground arith;
    once = tt;
  }
  filter_unprocessed-Fresh (key ∷ keys) d =
      let d' = (is_processed ttl_ms key d).1 in
      let rest = filter_unprocessed-Fresh keys d' in
      elim (Bool-cases (is_marked key d)) [
        | inl e ↦
            rw (processed_answer key d ∙ e, filter_unprocessed)
              (record {
                through = λ k. ground (arith, rest.through k, processed_marks key k d);
                marked = λ k. ground (arith, rest.marked k, processed_marks key k d);
                once = rest.once;
              })
        | inr e ↦
            rw (processed_answer key d ∙ e, filter_unprocessed)
              (record {
                through = λ k. ground (arith, rest.through k, processed_marks key k d);
                marked = λ k. ground (arith, rest.marked k, processed_marks key k d);
                once = (ground (arith, rest.through key, processed_marks key key d), rest.once);
              })
      ]
