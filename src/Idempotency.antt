-- ===== src/Idempotency.antt =====
-- libs/bulk-action/src/idempotency/IdempotencyService.ts. The marks' expiry is a step of the
-- environment; no other client acts between the calls of `filterUnprocessed`.
pub mod Marks
use nestjs_playground.Prelude.{
  ℕ, Bool, true, false, not, if◌then◌else◌, ceil_div, String, Option, none, some, List, [], ◌∷◌,
}
use nestjs_playground.Model.{Value, str}
use nestjs_playground.Keys.{Key, idempotency}
use nestjs_playground.Redis.{Redis, Db, get, setnx, expire, del}
use nestjs_playground.Lock.{is_free}

-- `Math.ceil(idempotencyTtlMs / 1000)`
unfoldable pub mark_ttl_sec : ℕ → ℕ
mark_ttl_sec ttl_ms = ceil_div ttl_ms 1000

module _ ⦃r : Redis⦄ (ttl_ms : ℕ) where
  -- SET key 1 NX EX ttl: true if the key was set before.
  unfoldable pub is_processed : String → Db → Bool × Db
  unfolding mark_ttl_sec
  is_processed key d =
      let k = idempotency key in
      if is_free (get k d)
      then (false, expire k (mark_ttl_sec ttl_ms) (setnx k (str "1") d))
      else (true, d)

  unfoldable pub reset : String → Db → Db
  reset key d = del (idempotency key) d

  unfoldable pub filter_unprocessed : List String → Db → List String × Db
  unfolding is_processed
  filter_unprocessed [] d = ([], d)
  filter_unprocessed (key ∷ keys) d =
      let (processed, d') = is_processed key d in
      let (rest, d'') = filter_unprocessed keys d' in (if processed then rest else key ∷ rest, d'')
