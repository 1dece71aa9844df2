-- ===== src/Congestion/History.antt =====
-- libs/bulk-action/src/congestion/CongestionStatsService.ts: the history of a group's snapshots, which are
-- the texts that `JSON.stringify` gives. LTRIM of a list to its last elements is the LPOPs it amounts to.
-- No other client acts between RPUSH and LTRIM. `recordJobCompletion`, which rounds a floating-point average, is left out.
use nestjs_playground.Prelude.{
  ℕ, zero, suc, ◌-◌, ◌≤◌, ◌<◌, List, [], ◌∷◌, ◌++◌, map, drop, drop-drop, drop-append, length-drop,
  length, length-append, String, ◌≡◌, refl, ap, sym, append-nil, append_assoc, ◌∙◌, arith,
}
use nestjs_playground.Model.{Value, str}
use nestjs_playground.Keys.{Key, congestion_history}
use nestjs_playground.Redis.{Redis, Db, lrange, rpush, lpop, rest_of, lrange-rpush, lrange-lpop}

-- LRANGE key -n -1: the last `n` elements, but for n = 0 all of them, since -0 is the index 0.
unfoldable pub last_of {ℓ} : {A : Type ℓ} → ℕ → List A → List A
last_of zero xs = xs
last_of (suc n) xs = drop (length xs - suc n) xs

module _ ⦃r : Redis⦄ where
  unfoldable pub lpop_times : ℕ → Key → Db → Db
  lpop_times zero k d = d
  lpop_times (suc n) k d = lpop_times n k (lpop k d)

  -- LTRIM key -n -1
  unfoldable pub ltrim_last : ℕ → Key → Db → Db
  unfolding lpop_times
  ltrim_last zero k d = d
  ltrim_last (suc n) k d = lpop_times (length (lrange k d) - suc n) k d

  unfoldable pub snapshot_congestion : ℕ → String → String → Db → Db
  unfolding ltrim_last
  snapshot_congestion max_history_length g snapshot d =
      ltrim_last max_history_length (congestion_history g)
        (rpush (congestion_history g) (str snapshot) d)

  unfoldable pub get_congestion_history : String → ℕ → Db → List Value
  unfolding last_of
  get_congestion_history g limit d = last_of limit (lrange (congestion_history g) d)

  -- Snapshots in turn.
  abbrev pub snapshot_each : ℕ → String → List String → Db → Db
  snapshot_each n g [] d = d
  snapshot_each n g (s ∷ ss) d = snapshot_each n g ss (snapshot_congestion n g s d)

last_of-last_of {ℓ} :
    {A : Type ℓ} (m n : ℕ) (xs ys : List A)
    → 0 < m
    → m ≤ n
    → last_of m (last_of n xs ++ ys) ≡ last_of m (xs ++ ys)
unfolding last_of
last_of-last_of zero n xs ys p q = absurd (omega (arith, p))
last_of-last_of (suc m) zero xs ys p q = absurd (omega (arith, q))
last_of-last_of (suc m) (suc n) xs ys p q =
    let b = length xs - suc n in
    let joined = drop-append b xs ys (omega arith) in
    let size = length-append (drop b xs) ys in
    ap (λ zs. drop (length (drop b xs ++ ys) - suc m) zs) joined
    ∙ (drop-drop b (length (drop b xs ++ ys) - suc m) (xs ++ ys)
        ∙ ap (λ k. drop k (xs ++ ys)) (ground (arith, size, length-drop b xs, length-append xs ys)))

last_of-short {ℓ} : {A : Type ℓ} (n : ℕ) (xs : List A) → length xs ≤ n → last_of n xs ≡ xs
unfolding last_of
last_of-short zero xs h = refl
last_of-short (suc n) xs h = let e : length xs - suc n ≡ 0 = omega arith in ap (λ k. drop k xs) e

length-last_of {ℓ} : {A : Type ℓ} (n : ℕ) (xs : List A) → 0 < n → length (last_of n xs) ≤ n
unfolding last_of
length-last_of zero xs p = absurd (omega (arith, p))
length-last_of (suc n) xs p = omega (arith, length-drop (length xs - suc n) xs)

module _ ⦃r : Redis⦄ where
  lrange-lpop_times : (n : ℕ) (k : Key) (d : Db) → lrange k (lpop_times n k d) ≡ drop n (lrange k d)
  unfolding lpop_times
  lrange-lpop_times zero k d = refl
  lrange-lpop_times (suc n) k d =
      lrange-lpop_times n k (lpop k d)
      ∙ (ap (drop n) (rw lrange-lpop (ground arith)) ∙ drop-rest n (lrange k d))
    where
      drop-rest : (n : ℕ) (vs : List Value) → drop n (rest_of vs) ≡ drop (suc n) vs
      drop-rest zero [] = refl
      drop-rest (suc n) [] = refl
      drop-rest n (v ∷ vs) = refl

  lrange-snapshot :
      (n : ℕ) (g snapshot : String) (d : Db)
      → lrange (congestion_history g) (snapshot_congestion n g snapshot d)
        ≡ last_of n (lrange (congestion_history g) d ++ str snapshot ∷ [])
  unfolding snapshot_congestion ltrim_last last_of
  lrange-snapshot zero g snapshot d = rw lrange-rpush (ground arith)
  lrange-snapshot (suc n) g snapshot d =
      let k = congestion_history g in
      let d' = rpush k (str snapshot) d in
      let pushed : lrange k d' ≡ lrange k d ++ str snapshot ∷ [] = rw lrange-rpush (ground arith) in
      lrange-lpop_times (length (lrange k d') - suc n) k d'
      ∙ ap (λ vs. drop (length vs - suc n) vs) pushed

  lrange-snapshots :
      (n : ℕ) (g : String) (ss : List String) (d : Db)
      → 0 < n
      → length (lrange (congestion_history g) d) ≤ n
      → lrange (congestion_history g) (snapshot_each n g ss d)
        ≡ last_of n (lrange (congestion_history g) d ++ map str ss)
  lrange-snapshots n g [] d p h = sym (
      ap (last_of n) (append-nil (lrange (congestion_history g) d))
      ∙ last_of-short n (lrange (congestion_history g) d) h)
  lrange-snapshots n g (s ∷ ss) d p h =
      let vs = lrange (congestion_history g) d in
      let d' = snapshot_congestion n g s d in
      let first = lrange-snapshot n g s d in
      let short = ap length first in
      lrange-snapshots n g ss d' p (omega (arith, short, length-last_of n (vs ++ str s ∷ []) p))
      ∙ (ap (λ ws. last_of n (ws ++ map str ss)) first
          ∙ (last_of-last_of n n (vs ++ str s ∷ []) (map str ss) p (omega arith)
              ∙ ap (last_of n) (append_assoc vs (str s ∷ []) (map str ss))))

  -- From a history within its length, any number of snapshots leaves the latest ones, as many as the history may
  -- have: a look at the last `limit` of them, at least one and no more than the history may have,
  -- gives the last `limit` of the old entries followed by all new ones.
  pub get_congestion_history_lem :
      (n limit : ℕ) (g : String) (ss : List String) (d : Db)
      → 0 < limit
      → limit ≤ n
      → length (lrange (congestion_history g) d) ≤ n
      → let d' = snapshot_each n g ss d in
        (get_congestion_history g limit d'
          ≡ last_of limit (lrange (congestion_history g) d ++ map str ss))
        × (length (lrange (congestion_history g) d') ≤ n)
  unfolding get_congestion_history
  get_congestion_history_lem n limit g ss d p q h =
      let vs = lrange (congestion_history g) d ++ map str ss in
      let p' : 0 < n = omega (arith, p, q) in
      let e = lrange-snapshots n g ss d p' h in
      (
        ap (last_of limit) (e ∙ sym (append-nil (last_of n vs)))
            ∙ (last_of-last_of limit n vs [] p q ∙ ap (last_of limit) (append-nil vs)),
        omega (arith, ap length e, length-last_of n vs p'),
      )
