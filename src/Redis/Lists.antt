-- ===== src/Redis/Lists.antt =====
-- What LRANGE and SMEMBERS read after each command.
use nestjs_playground.Prelude.{ℕ, [], ◌∷◌, ◌++◌, ◌≡◌, ap, String}
use nestjs_playground.Model.{Value}
use nestjs_playground.Keys.{Key, Field}
use nestjs_playground.Redis.Contents.{Score, Contents, at_key, add_text, without_text, rest_of}
use nestjs_playground.Redis.Commands.{
  Redis, Db, lrange, smembers, hset, hincr, hsetnx, del, rpush, lpop, zadd, zrem, sadd, srem, set,
  incr, decr, setnx, expire,
}

module _ ⦃r : Redis⦄ where
  pub lrange-hset :
      (j : Key) (k : Key) (f : Field) (v : Value) (d : Db) → lrange j (hset k f v d) ≡ lrange j d
  unfolding lrange hset
  lrange-hset j k f v d = ap (λ (c : Contents). c.lists j) (r.hset_law k f v d)

  pub lrange-hincr : (j : Key) (k : Key) (f : Field) (d : Db) → lrange j (hincr k f d) ≡ lrange j d
  unfolding lrange hincr
  lrange-hincr j k f d = ap (λ (c : Contents). c.lists j) (r.hincr_law k f d)

  pub lrange-hsetnx :
      (j : Key) (k : Key) (f : Field) (v : Value) (d : Db) → lrange j (hsetnx k f v d) ≡ lrange j d
  unfolding lrange hsetnx
  lrange-hsetnx j k f v d = ap (λ (c : Contents). c.lists j) (r.hsetnx_law k f v d)

  pub lrange-del :
      (j : Key) (k : Key) (d : Db) → lrange j (del k d) ≡ at_key (λ a. lrange a d) k [] j
  unfolding lrange del
  lrange-del j k d = ap (λ (c : Contents). c.lists j) (r.del_law k d)

  pub lrange-rpush :
      (j : Key) (k : Key) (v : Value) (d : Db)
      → lrange j (rpush k v d) ≡ at_key (λ a. lrange a d) k (lrange k d ++ v ∷ []) j
  unfolding lrange rpush
  lrange-rpush j k v d = ap (λ (c : Contents). c.lists j) (r.rpush_law k v d)

  pub lrange-lpop :
      (j : Key) (k : Key) (d : Db)
      → lrange j (lpop k d) ≡ at_key (λ a. lrange a d) k (rest_of (lrange k d)) j
  unfolding lrange lpop
  lrange-lpop j k d = ap (λ (c : Contents). c.lists j) (r.lpop_law k d)

  pub lrange-zadd :
      (j : Key) (k : Key) (s : Score) (m : String) (d : Db) → lrange j (zadd k s m d) ≡ lrange j d
  unfolding lrange zadd
  lrange-zadd j k s m d = ap (λ (c : Contents). c.lists j) (r.zadd_law k s m d)

  pub lrange-zrem : (j : Key) (k : Key) (m : String) (d : Db) → lrange j (zrem k m d) ≡ lrange j d
  unfolding lrange zrem
  lrange-zrem j k m d = ap (λ (c : Contents). c.lists j) (r.zrem_law k m d)

  pub lrange-sadd : (j : Key) (k : Key) (m : String) (d : Db) → lrange j (sadd k m d) ≡ lrange j d
  unfolding lrange sadd
  lrange-sadd j k m d = ap (λ (c : Contents). c.lists j) (r.sadd_law k m d)

  pub lrange-srem : (j : Key) (k : Key) (m : String) (d : Db) → lrange j (srem k m d) ≡ lrange j d
  unfolding lrange srem
  lrange-srem j k m d = ap (λ (c : Contents). c.lists j) (r.srem_law k m d)

  pub lrange-set : (j : Key) (k : Key) (v : Value) (d : Db) → lrange j (set k v d) ≡ lrange j d
  unfolding lrange set
  lrange-set j k v d = ap (λ (c : Contents). c.lists j) (r.set_law k v d)

  pub lrange-incr : (j : Key) (k : Key) (d : Db) → lrange j (incr k d) ≡ lrange j d
  unfolding lrange incr
  lrange-incr j k d = ap (λ (c : Contents). c.lists j) (r.incr_law k d)

  pub lrange-decr : (j : Key) (k : Key) (d : Db) → lrange j (decr k d) ≡ lrange j d
  unfolding lrange decr
  lrange-decr j k d = ap (λ (c : Contents). c.lists j) (r.decr_law k d)

  pub lrange-setnx : (j : Key) (k : Key) (v : Value) (d : Db) → lrange j (setnx k v d) ≡ lrange j d
  unfolding lrange setnx
  lrange-setnx j k v d = ap (λ (c : Contents). c.lists j) (r.setnx_law k v d)

  pub lrange-expire :
      (j : Key) (k : Key) (ttl : ℕ) (d : Db) → lrange j (expire k ttl d) ≡ lrange j d
  unfolding lrange expire
  lrange-expire j k ttl d = ap (λ (c : Contents). c.lists j) (r.expire_law k ttl d)

  pub smembers-hset :
      (j : Key) (k : Key) (f : Field) (v : Value) (d : Db)
      → smembers j (hset k f v d) ≡ smembers j d
  unfolding smembers hset
  smembers-hset j k f v d = ap (λ (c : Contents). c.sets j) (r.hset_law k f v d)

  pub smembers-hincr :
      (j : Key) (k : Key) (f : Field) (d : Db) → smembers j (hincr k f d) ≡ smembers j d
  unfolding smembers hincr
  smembers-hincr j k f d = ap (λ (c : Contents). c.sets j) (r.hincr_law k f d)

  pub smembers-hsetnx :
      (j : Key) (k : Key) (f : Field) (v : Value) (d : Db)
      → smembers j (hsetnx k f v d) ≡ smembers j d
  unfolding smembers hsetnx
  smembers-hsetnx j k f v d = ap (λ (c : Contents). c.sets j) (r.hsetnx_law k f v d)

  pub smembers-del :
      (j : Key) (k : Key) (d : Db) → smembers j (del k d) ≡ at_key (λ a. smembers a d) k [] j
  unfolding smembers del
  smembers-del j k d = ap (λ (c : Contents). c.sets j) (r.del_law k d)

  pub smembers-rpush :
      (j : Key) (k : Key) (v : Value) (d : Db) → smembers j (rpush k v d) ≡ smembers j d
  unfolding smembers rpush
  smembers-rpush j k v d = ap (λ (c : Contents). c.sets j) (r.rpush_law k v d)

  pub smembers-lpop : (j : Key) (k : Key) (d : Db) → smembers j (lpop k d) ≡ smembers j d
  unfolding smembers lpop
  smembers-lpop j k d = ap (λ (c : Contents). c.sets j) (r.lpop_law k d)

  pub smembers-zadd :
      (j : Key) (k : Key) (s : Score) (m : String) (d : Db)
      → smembers j (zadd k s m d) ≡ smembers j d
  unfolding smembers zadd
  smembers-zadd j k s m d = ap (λ (c : Contents). c.sets j) (r.zadd_law k s m d)

  pub smembers-zrem :
      (j : Key) (k : Key) (m : String) (d : Db) → smembers j (zrem k m d) ≡ smembers j d
  unfolding smembers zrem
  smembers-zrem j k m d = ap (λ (c : Contents). c.sets j) (r.zrem_law k m d)

  pub smembers-sadd :
      (j : Key) (k : Key) (m : String) (d : Db)
      → smembers j (sadd k m d) ≡ at_key (λ a. smembers a d) k (add_text m (smembers k d)) j
  unfolding smembers sadd
  smembers-sadd j k m d = ap (λ (c : Contents). c.sets j) (r.sadd_law k m d)

  pub smembers-srem :
      (j : Key) (k : Key) (m : String) (d : Db)
      → smembers j (srem k m d) ≡ at_key (λ a. smembers a d) k (without_text m (smembers k d)) j
  unfolding smembers srem
  smembers-srem j k m d = ap (λ (c : Contents). c.sets j) (r.srem_law k m d)

  pub smembers-set :
      (j : Key) (k : Key) (v : Value) (d : Db) → smembers j (set k v d) ≡ smembers j d
  unfolding smembers set
  smembers-set j k v d = ap (λ (c : Contents). c.sets j) (r.set_law k v d)

  pub smembers-incr : (j : Key) (k : Key) (d : Db) → smembers j (incr k d) ≡ smembers j d
  unfolding smembers incr
  smembers-incr j k d = ap (λ (c : Contents). c.sets j) (r.incr_law k d)

  pub smembers-decr : (j : Key) (k : Key) (d : Db) → smembers j (decr k d) ≡ smembers j d
  unfolding smembers decr
  smembers-decr j k d = ap (λ (c : Contents). c.sets j) (r.decr_law k d)

  pub smembers-setnx :
      (j : Key) (k : Key) (v : Value) (d : Db) → smembers j (setnx k v d) ≡ smembers j d
  unfolding smembers setnx
  smembers-setnx j k v d = ap (λ (c : Contents). c.sets j) (r.setnx_law k v d)

  pub smembers-expire :
      (j : Key) (k : Key) (ttl : ℕ) (d : Db) → smembers j (expire k ttl d) ≡ smembers j d
  unfolding smembers expire
  smembers-expire j k ttl d = ap (λ (c : Contents). c.sets j) (r.expire_law k ttl d)

pub ruleset lists_reads = (
  lrange-hset, lrange-hincr, lrange-hsetnx, lrange-del, lrange-rpush, lrange-lpop, lrange-zadd,
  lrange-zrem, lrange-sadd, lrange-srem, lrange-set, lrange-incr, lrange-decr, lrange-setnx,
  lrange-expire, smembers-hset, smembers-hincr, smembers-hsetnx, smembers-del, smembers-rpush,
  smembers-lpop, smembers-zadd, smembers-zrem, smembers-sadd, smembers-srem, smembers-set,
  smembers-incr, smembers-decr, smembers-setnx, smembers-expire,
)
