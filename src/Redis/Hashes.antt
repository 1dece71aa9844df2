-- ===== src/Redis/Hashes.antt =====
-- What HGET reads after each command.
use nestjs_playground.Prelude.{ℕ, ◌≡◌, ap, String}
use nestjs_playground.Model.{Value, increment}
use nestjs_playground.Keys.{Key, Field}
use nestjs_playground.Redis.Contents.{Score, Contents, at_field, or_else, no_fields}
use nestjs_playground.Redis.Commands.{
  Redis, Db, hget, hset, hincr, hsetnx, del, rpush, lpop, zadd, zrem, sadd, srem, set, incr, decr,
  setnx, expire,
}

module _ ⦃r : Redis⦄ where
  pub hget-hset :
      (j : Key) (g : Field) (k : Key) (f : Field) (v : Value) (d : Db)
      → hget j g (hset k f v d) ≡ at_field (λ a b. hget a b d) k f v j g
  unfolding hget hset
  hget-hset j g k f v d = ap (λ (c : Contents). c.hashes j g) (r.hset_law k f v d)

  pub hget-hincr :
      (j : Key) (g : Field) (k : Key) (f : Field) (d : Db)
      → hget j g (hincr k f d) ≡ at_field (λ a b. hget a b d) k f (increment (hget k f d)) j g
  unfolding hget hincr
  hget-hincr j g k f d = ap (λ (c : Contents). c.hashes j g) (r.hincr_law k f d)

  pub hget-hsetnx :
      (j : Key) (g : Field) (k : Key) (f : Field) (v : Value) (d : Db)
      → hget j g (hsetnx k f v d) ≡ at_field (λ a b. hget a b d) k f (or_else (hget k f d) v) j g
  unfolding hget hsetnx
  hget-hsetnx j g k f v d = ap (λ (c : Contents). c.hashes j g) (r.hsetnx_law k f v d)

  pub hget-del :
      (j : Key) (g : Field) (k : Key) (d : Db)
      → hget j g (del k d) ≡ no_fields (λ a b. hget a b d) k j g
  unfolding hget del
  hget-del j g k d = ap (λ (c : Contents). c.hashes j g) (r.del_law k d)

  pub hget-rpush :
      (j : Key) (g : Field) (k : Key) (v : Value) (d : Db) → hget j g (rpush k v d) ≡ hget j g d
  unfolding hget rpush
  hget-rpush j g k v d = ap (λ (c : Contents). c.hashes j g) (r.rpush_law k v d)

  pub hget-lpop : (j : Key) (g : Field) (k : Key) (d : Db) → hget j g (lpop k d) ≡ hget j g d
  unfolding hget lpop
  hget-lpop j g k d = ap (λ (c : Contents). c.hashes j g) (r.lpop_law k d)

  pub hget-zadd :
      (j : Key) (g : Field) (k : Key) (s : Score) (m : String) (d : Db)
      → hget j g (zadd k s m d) ≡ hget j g d
  unfolding hget zadd
  hget-zadd j g k s m d = ap (λ (c : Contents). c.hashes j g) (r.zadd_law k s m d)

  pub hget-zrem :
      (j : Key) (g : Field) (k : Key) (m : String) (d : Db) → hget j g (zrem k m d) ≡ hget j g d
  unfolding hget zrem
  hget-zrem j g k m d = ap (λ (c : Contents). c.hashes j g) (r.zrem_law k m d)

  pub hget-sadd :
      (j : Key) (g : Field) (k : Key) (m : String) (d : Db) → hget j g (sadd k m d) ≡ hget j g d
  unfolding hget sadd
  hget-sadd j g k m d = ap (λ (c : Contents). c.hashes j g) (r.sadd_law k m d)

  pub hget-srem :
      (j : Key) (g : Field) (k : Key) (m : String) (d : Db) → hget j g (srem k m d) ≡ hget j g d
  unfolding hget srem
  hget-srem j g k m d = ap (λ (c : Contents). c.hashes j g) (r.srem_law k m d)

  pub hget-set :
      (j : Key) (g : Field) (k : Key) (v : Value) (d : Db) → hget j g (set k v d) ≡ hget j g d
  unfolding hget set
  hget-set j g k v d = ap (λ (c : Contents). c.hashes j g) (r.set_law k v d)

  pub hget-incr : (j : Key) (g : Field) (k : Key) (d : Db) → hget j g (incr k d) ≡ hget j g d
  unfolding hget incr
  hget-incr j g k d = ap (λ (c : Contents). c.hashes j g) (r.incr_law k d)

  pub hget-decr : (j : Key) (g : Field) (k : Key) (d : Db) → hget j g (decr k d) ≡ hget j g d
  unfolding hget decr
  hget-decr j g k d = ap (λ (c : Contents). c.hashes j g) (r.decr_law k d)

  pub hget-setnx :
      (j : Key) (g : Field) (k : Key) (v : Value) (d : Db) → hget j g (setnx k v d) ≡ hget j g d
  unfolding hget setnx
  hget-setnx j g k v d = ap (λ (c : Contents). c.hashes j g) (r.setnx_law k v d)

  pub hget-expire :
      (j : Key) (g : Field) (k : Key) (ttl : ℕ) (d : Db) → hget j g (expire k ttl d) ≡ hget j g d
  unfolding hget expire
  hget-expire j g k ttl d = ap (λ (c : Contents). c.hashes j g) (r.expire_law k ttl d)

pub ruleset hashes_reads = (
  hget-hset, hget-hincr, hget-hsetnx, hget-del, hget-rpush, hget-lpop, hget-zadd, hget-zrem,
  hget-sadd, hget-srem, hget-set, hget-incr, hget-decr, hget-setnx, hget-expire,
)
