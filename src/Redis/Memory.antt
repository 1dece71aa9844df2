-- ===== src/Redis/Memory.antt =====
-- A store that is its own contents.
use nestjs_playground.Prelude.{refl, true, none, some, [], ◌∷◌, ◌++◌}
use nestjs_playground.Model.{increment, decrement}
use nestjs_playground.Redis.Contents.{
  Contents, at_key, at_field, without_member, insert_member, add_text, without_text, rest_of,
  or_else, no_fields,
}
use nestjs_playground.Redis.Commands.{Redis}

-- A new store.
abbrev pub empty_store : Contents
empty_store = record {
  hashes = λ k f. none;
  lists = λ k. [];
  sorted_sets = λ k. [];
  sets = λ k. [];
  strings = λ k. none;
}

instance abbrev pub memory : Redis
memory = record {
  Store = Contents;
  before = λ a b. true;
  contents = λ d. d;
  run_hset = λ k f v d. record d { hashes = at_field d.hashes k f v };
  run_hincr = λ k f d. record d { hashes = at_field d.hashes k f (increment (d.hashes k f)) };
  run_hsetnx = λ k f v d. record d { hashes = at_field d.hashes k f (or_else (d.hashes k f) v) };
  run_del = λ k d. record {
    hashes = no_fields d.hashes k;
    lists = at_key d.lists k [];
    sorted_sets = at_key d.sorted_sets k [];
    sets = at_key d.sets k [];
    strings = at_key d.strings k none;
  };
  run_rpush = λ k v d. record d { lists = at_key d.lists k (d.lists k ++ v ∷ []) };
  run_lpop = λ k d. record d { lists = at_key d.lists k (rest_of (d.lists k)) };
  run_zadd = λ k s m d. record d {
    sorted_sets = at_key d.sorted_sets k (
        insert_member (λ a b. true) (record { member = m; score = s })
          (without_member m (d.sorted_sets k)));
  };
  run_zrem = λ k m d. record d {
    sorted_sets = at_key d.sorted_sets k (without_member m (d.sorted_sets k));
  };
  run_sadd = λ k m d. record d { sets = at_key d.sets k (add_text m (d.sets k)) };
  run_srem = λ k m d. record d { sets = at_key d.sets k (without_text m (d.sets k)) };
  run_set = λ k v d. record d { strings = at_key d.strings k (some v) };
  run_setnx = λ k v d. record d { strings = at_key d.strings k (some (or_else (d.strings k) v)) };
  run_expire = λ k ttl d. d;
  run_incr = λ k d. record d { strings = at_key d.strings k (some (increment (d.strings k))) };
  run_decr = λ k d. record d { strings = at_key d.strings k (some (decrement (d.strings k))) };
  hset_law = λ k f v d. refl;
  hincr_law = λ k f d. refl;
  hsetnx_law = λ k f v d. refl;
  del_law = λ k d. refl;
  rpush_law = λ k v d. refl;
  lpop_law = λ k d. refl;
  zadd_law = λ k s m d. refl;
  zrem_law = λ k m d. refl;
  sadd_law = λ k m d. refl;
  srem_law = λ k m d. refl;
  set_law = λ k v d. refl;
  setnx_law = λ k v d. refl;
  expire_law = λ k ttl d. refl;
  incr_law = λ k d. refl;
  decr_law = λ k d. refl;
}
