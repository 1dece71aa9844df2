-- ===== src/Redis/Commands.antt =====
-- The interface: a store, what it holds, and the laws of the commands.
use nestjs_playground.Prelude.{ℕ, Option, none, some, List, [], ◌∷◌, ◌++◌, ◌≡◌, String, Bool}
use nestjs_playground.Model.{Value, increment, decrement}
use nestjs_playground.Keys.{Key, Field}
use nestjs_playground.Redis.Contents.{
  Score, Member, Contents, at_key, at_field, without_member, insert_member, add_text, without_text,
  rest_of, or_else, no_fields,
}

pub record Redis : Type 1 where
  pub Store : Type 0
  pub before : String → String → Bool
  pub contents : Store → Contents
  pub run_hset : Key → Field → Value → Store → Store
  pub run_hincr : Key → Field → Store → Store
  pub run_hsetnx : Key → Field → Value → Store → Store
  pub run_del : Key → Store → Store
  pub run_rpush : Key → Value → Store → Store
  pub run_lpop : Key → Store → Store
  pub run_zadd : Key → Score → String → Store → Store
  pub run_zrem : Key → String → Store → Store
  pub run_sadd : Key → String → Store → Store
  pub run_srem : Key → String → Store → Store
  pub run_set : Key → Value → Store → Store
  pub run_setnx : Key → Value → Store → Store
  pub run_expire : Key → ℕ → Store → Store
  pub run_incr : Key → Store → Store
  pub run_decr : Key → Store → Store
  pub hset_law :
      (k : Key) (f : Field) (v : Value) (d : Store)
      → contents (run_hset k f v d)
        ≡ record (contents d) { hashes = at_field (contents d).hashes k f v }
  pub hincr_law :
      (k : Key) (f : Field) (d : Store)
      → contents (run_hincr k f d) ≡ record (contents d) {
        hashes = at_field (contents d).hashes k f (increment ((contents d).hashes k f));
      }
  pub hsetnx_law :
      (k : Key) (f : Field) (v : Value) (d : Store)
      → contents (run_hsetnx k f v d) ≡ record (contents d) {
        hashes = at_field (contents d).hashes k f (or_else ((contents d).hashes k f) v);
      }
  pub del_law :
      (k : Key) (d : Store)
      → contents (run_del k d) ≡ record {
        hashes = no_fields (contents d).hashes k;
        lists = at_key (contents d).lists k [];
        sorted_sets = at_key (contents d).sorted_sets k [];
        sets = at_key (contents d).sets k [];
        strings = at_key (contents d).strings k none;
      }
  pub rpush_law :
      (k : Key) (v : Value) (d : Store)
      → contents (run_rpush k v d) ≡ record (contents d) {
        lists = at_key (contents d).lists k ((contents d).lists k ++ v ∷ []);
      }
  pub lpop_law :
      (k : Key) (d : Store)
      → contents (run_lpop k d) ≡ record (contents d) {
        lists = at_key (contents d).lists k (rest_of ((contents d).lists k));
      }
  pub zadd_law :
      (k : Key) (s : Score) (m : String) (d : Store)
      → contents (run_zadd k s m d) ≡ record (contents d) {
        sorted_sets = at_key (contents d).sorted_sets k (
            insert_member before
              (record { member = m; score = s })
              (without_member m ((contents d).sorted_sets k)));
      }
  pub zrem_law :
      (k : Key) (m : String) (d : Store)
      → contents (run_zrem k m d) ≡ record (contents d) {
        sorted_sets =
            at_key (contents d).sorted_sets k (without_member m ((contents d).sorted_sets k));
      }
  pub sadd_law :
      (k : Key) (m : String) (d : Store)
      → contents (run_sadd k m d) ≡ record (contents d) {
        sets = at_key (contents d).sets k (add_text m ((contents d).sets k));
      }
  pub srem_law :
      (k : Key) (m : String) (d : Store)
      → contents (run_srem k m d) ≡ record (contents d) {
        sets = at_key (contents d).sets k (without_text m ((contents d).sets k));
      }
  pub set_law :
      (k : Key) (v : Value) (d : Store)
      → contents (run_set k v d)
        ≡ record (contents d) { strings = at_key (contents d).strings k (some v) }
  pub setnx_law :
      (k : Key) (v : Value) (d : Store)
      → contents (run_setnx k v d) ≡ record (contents d) {
        strings = at_key (contents d).strings k (some (or_else ((contents d).strings k) v));
      }
  pub expire_law : (k : Key) (ttl : ℕ) (d : Store) → contents (run_expire k ttl d) ≡ contents d
  pub incr_law :
      (k : Key) (d : Store)
      → contents (run_incr k d) ≡ record (contents d) {
        strings = at_key (contents d).strings k (some (increment ((contents d).strings k)));
      }
  pub decr_law :
      (k : Key) (d : Store)
      → contents (run_decr k d) ≡ record (contents d) {
        strings = at_key (contents d).strings k (some (decrement ((contents d).strings k)));
      }

-- The commands and the reads, for the store that is in scope.
module _ ⦃r : Redis⦄ where
  abbrev pub Db : Type 0
  Db = r.Store

  unfoldable pub hget : Key → Field → Db → Option Value
  hget k f d = (r.contents d).hashes k f

  unfoldable pub lrange : Key → Db → List Value
  lrange k d = (r.contents d).lists k

  unfoldable pub zrange : Key → Db → List Member
  zrange k d = (r.contents d).sorted_sets k

  unfoldable pub smembers : Key → Db → List String
  smembers k d = (r.contents d).sets k

  unfoldable pub get : Key → Db → Option Value
  get k d = (r.contents d).strings k

  unfoldable pub hset : Key → Field → Value → Db → Db
  hset = r.run_hset

  unfoldable pub hincr : Key → Field → Db → Db
  hincr = r.run_hincr

  unfoldable pub hsetnx : Key → Field → Value → Db → Db
  hsetnx = r.run_hsetnx

  unfoldable pub del : Key → Db → Db
  del = r.run_del

  unfoldable pub rpush : Key → Value → Db → Db
  rpush = r.run_rpush

  unfoldable pub lpop : Key → Db → Db
  lpop = r.run_lpop

  unfoldable pub zadd : Key → Score → String → Db → Db
  zadd = r.run_zadd

  unfoldable pub zrem : Key → String → Db → Db
  zrem = r.run_zrem

  unfoldable pub sadd : Key → String → Db → Db
  sadd = r.run_sadd

  unfoldable pub srem : Key → String → Db → Db
  srem = r.run_srem

  unfoldable pub set : Key → Value → Db → Db
  set = r.run_set

  unfoldable pub incr : Key → Db → Db
  incr = r.run_incr

  unfoldable pub decr : Key → Db → Db
  decr = r.run_decr

  unfoldable pub setnx : Key → Value → Db → Db
  setnx = r.run_setnx

  unfoldable pub expire : Key → ℕ → Db → Db
  expire = r.run_expire
