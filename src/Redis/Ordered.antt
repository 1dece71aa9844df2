-- ===== src/Redis/Ordered.antt =====
-- What ZRANGE and GET read after each command.
use nestjs_playground.Prelude.{ℕ, none, some, [], ◌≡◌, ap, String}
use nestjs_playground.Model.{Value, increment, decrement}
use nestjs_playground.Keys.{Key, Field}
use nestjs_playground.Redis.Contents.{
  Score, Contents, at_key, without_member, insert_member, or_else,
}
use nestjs_playground.Redis.Commands.{
  Redis, Db, zrange, get, hset, hincr, hsetnx, del, rpush, lpop, zadd, zrem, sadd, srem, set, incr,
  decr, setnx, expire,
}

module _ ⦃r : Redis⦄ where
  pub zrange-hset :
      (j : Key) (k : Key) (f : Field) (v : Value) (d : Db) → zrange j (hset k f v d) ≡ zrange j d
  unfolding zrange hset
  zrange-hset j k f v d = ap (λ (c : Contents). c.sorted_sets j) (r.hset_law k f v d)

  pub zrange-hincr : (j : Key) (k : Key) (f : Field) (d : Db) → zrange j (hincr k f d) ≡ zrange j d
  unfolding zrange hincr
  zrange-hincr j k f d = ap (λ (c : Contents). c.sorted_sets j) (r.hincr_law k f d)

  pub zrange-hsetnx :
      (j : Key) (k : Key) (f : Field) (v : Value) (d : Db) → zrange j (hsetnx k f v d) ≡ zrange j d
  unfolding zrange hsetnx
  zrange-hsetnx j k f v d = ap (λ (c : Contents). c.sorted_sets j) (r.hsetnx_law k f v d)

  pub zrange-del :
      (j : Key) (k : Key) (d : Db) → zrange j (del k d) ≡ at_key (λ a. zrange a d) k [] j
  unfolding zrange del
  zrange-del j k d = ap (λ (c : Contents). c.sorted_sets j) (r.del_law k d)

  pub zrange-rpush : (j : Key) (k : Key) (v : Value) (d : Db) → zrange j (rpush k v d) ≡ zrange j d
  unfolding zrange rpush
  zrange-rpush j k v d = ap (λ (c : Contents). c.sorted_sets j) (r.rpush_law k v d)

  pub zrange-lpop : (j : Key) (k : Key) (d : Db) → zrange j (lpop k d) ≡ zrange j d
  unfolding zrange lpop
  zrange-lpop j k d = ap (λ (c : Contents). c.sorted_sets j) (r.lpop_law k d)

  pub zrange-zadd :
      (j : Key) (k : Key) (s : Score) (m : String) (d : Db)
      → zrange j (zadd k s m d)
        ≡ at_key
            (λ a. zrange a d)
            k
            (insert_member r.before
              (record { member = m; score = s })
              (without_member m (zrange k d)))
            j
  unfolding zrange zadd
  zrange-zadd j k s m d = ap (λ (c : Contents). c.sorted_sets j) (r.zadd_law k s m d)

  pub zrange-zrem :
      (j : Key) (k : Key) (m : String) (d : Db)
      → zrange j (zrem k m d) ≡ at_key (λ a. zrange a d) k (without_member m (zrange k d)) j
  unfolding zrange zrem
  zrange-zrem j k m d = ap (λ (c : Contents). c.sorted_sets j) (r.zrem_law k m d)

  pub zrange-sadd : (j : Key) (k : Key) (m : String) (d : Db) → zrange j (sadd k m d) ≡ zrange j d
  unfolding zrange sadd
  zrange-sadd j k m d = ap (λ (c : Contents). c.sorted_sets j) (r.sadd_law k m d)

  pub zrange-srem : (j : Key) (k : Key) (m : String) (d : Db) → zrange j (srem k m d) ≡ zrange j d
  unfolding zrange srem
  zrange-srem j k m d = ap (λ (c : Contents). c.sorted_sets j) (r.srem_law k m d)

  pub zrange-set : (j : Key) (k : Key) (v : Value) (d : Db) → zrange j (set k v d) ≡ zrange j d
  unfolding zrange set
  zrange-set j k v d = ap (λ (c : Contents). c.sorted_sets j) (r.set_law k v d)

  pub zrange-incr : (j : Key) (k : Key) (d : Db) → zrange j (incr k d) ≡ zrange j d
  unfolding zrange incr
  zrange-incr j k d = ap (λ (c : Contents). c.sorted_sets j) (r.incr_law k d)

  pub zrange-decr : (j : Key) (k : Key) (d : Db) → zrange j (decr k d) ≡ zrange j d
  unfolding zrange decr
  zrange-decr j k d = ap (λ (c : Contents). c.sorted_sets j) (r.decr_law k d)

  pub zrange-setnx : (j : Key) (k : Key) (v : Value) (d : Db) → zrange j (setnx k v d) ≡ zrange j d
  unfolding zrange setnx
  zrange-setnx j k v d = ap (λ (c : Contents). c.sorted_sets j) (r.setnx_law k v d)

  pub zrange-expire :
      (j : Key) (k : Key) (ttl : ℕ) (d : Db) → zrange j (expire k ttl d) ≡ zrange j d
  unfolding zrange expire
  zrange-expire j k ttl d = ap (λ (c : Contents). c.sorted_sets j) (r.expire_law k ttl d)

  pub get-hset :
      (j : Key) (k : Key) (f : Field) (v : Value) (d : Db) → get j (hset k f v d) ≡ get j d
  unfolding get hset
  get-hset j k f v d = ap (λ (c : Contents). c.strings j) (r.hset_law k f v d)

  pub get-hincr : (j : Key) (k : Key) (f : Field) (d : Db) → get j (hincr k f d) ≡ get j d
  unfolding get hincr
  get-hincr j k f d = ap (λ (c : Contents). c.strings j) (r.hincr_law k f d)

  pub get-hsetnx :
      (j : Key) (k : Key) (f : Field) (v : Value) (d : Db) → get j (hsetnx k f v d) ≡ get j d
  unfolding get hsetnx
  get-hsetnx j k f v d = ap (λ (c : Contents). c.strings j) (r.hsetnx_law k f v d)

  pub get-del : (j : Key) (k : Key) (d : Db) → get j (del k d) ≡ at_key (λ a. get a d) k none j
  unfolding get del
  get-del j k d = ap (λ (c : Contents). c.strings j) (r.del_law k d)

  pub get-rpush : (j : Key) (k : Key) (v : Value) (d : Db) → get j (rpush k v d) ≡ get j d
  unfolding get rpush
  get-rpush j k v d = ap (λ (c : Contents). c.strings j) (r.rpush_law k v d)

  pub get-lpop : (j : Key) (k : Key) (d : Db) → get j (lpop k d) ≡ get j d
  unfolding get lpop
  get-lpop j k d = ap (λ (c : Contents). c.strings j) (r.lpop_law k d)

  pub get-zadd :
      (j : Key) (k : Key) (s : Score) (m : String) (d : Db) → get j (zadd k s m d) ≡ get j d
  unfolding get zadd
  get-zadd j k s m d = ap (λ (c : Contents). c.strings j) (r.zadd_law k s m d)

  pub get-zrem : (j : Key) (k : Key) (m : String) (d : Db) → get j (zrem k m d) ≡ get j d
  unfolding get zrem
  get-zrem j k m d = ap (λ (c : Contents). c.strings j) (r.zrem_law k m d)

  pub get-sadd : (j : Key) (k : Key) (m : String) (d : Db) → get j (sadd k m d) ≡ get j d
  unfolding get sadd
  get-sadd j k m d = ap (λ (c : Contents). c.strings j) (r.sadd_law k m d)

  pub get-srem : (j : Key) (k : Key) (m : String) (d : Db) → get j (srem k m d) ≡ get j d
  unfolding get srem
  get-srem j k m d = ap (λ (c : Contents). c.strings j) (r.srem_law k m d)

  pub get-set :
      (j : Key) (k : Key) (v : Value) (d : Db)
      → get j (set k v d) ≡ at_key (λ a. get a d) k (some v) j
  unfolding get set
  get-set j k v d = ap (λ (c : Contents). c.strings j) (r.set_law k v d)

  pub get-incr :
      (j : Key) (k : Key) (d : Db)
      → get j (incr k d) ≡ at_key (λ a. get a d) k (some (increment (get k d))) j
  unfolding get incr
  get-incr j k d = ap (λ (c : Contents). c.strings j) (r.incr_law k d)

  pub get-decr :
      (j : Key) (k : Key) (d : Db)
      → get j (decr k d) ≡ at_key (λ a. get a d) k (some (decrement (get k d))) j
  unfolding get decr
  get-decr j k d = ap (λ (c : Contents). c.strings j) (r.decr_law k d)

  pub get-setnx :
      (j : Key) (k : Key) (v : Value) (d : Db)
      → get j (setnx k v d) ≡ at_key (λ a. get a d) k (some (or_else (get k d) v)) j
  unfolding get setnx
  get-setnx j k v d = ap (λ (c : Contents). c.strings j) (r.setnx_law k v d)

  pub get-expire : (j : Key) (k : Key) (ttl : ℕ) (d : Db) → get j (expire k ttl d) ≡ get j d
  unfolding get expire
  get-expire j k ttl d = ap (λ (c : Contents). c.strings j) (r.expire_law k ttl d)

pub ruleset ordered_reads = (
  zrange-hset, zrange-hincr, zrange-hsetnx, zrange-del, zrange-rpush, zrange-lpop, zrange-zadd,
  zrange-zrem, zrange-sadd, zrange-srem, zrange-set, zrange-incr, zrange-decr, zrange-setnx,
  zrange-expire, get-hset, get-hincr, get-hsetnx, get-del, get-rpush, get-lpop, get-zadd, get-zrem,
  get-sadd, get-srem, get-set, get-incr, get-decr, get-setnx, get-expire,
)
