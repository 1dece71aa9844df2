-- ===== src/Tests/Locks.antt =====
-- The lock, taken, held and released.
use nestjs_playground.Prelude.{none, some, ◌≡◌, refl, Bool-cases}
use nestjs_playground.Model.{str, String-discrete}
use nestjs_playground.Keys.{Key, Key-discrete, group_aggregation_lock}
use nestjs_playground.Redis.{Db, get, setnx, memory, empty_store}
use nestjs_playground.Lock.{acquire}
use nestjs_playground.Lock.Exclusion.{acquire_excluded}

abbrev lock_key : Key
lock_key = group_aggregation_lock "g1"

abbrev wait : Db → Db
wait d = d

-- A store in which "other" holds the lock.
abbrev taken : Db
taken = setnx lock_key (str "other") empty_store

held : get lock_key taken ≡ some (str "other")
unfolding get setnx Key-discrete String-discrete Bool-cases
held = refl

acquire_excluded_example :
    ((acquire wait lock_key "mine" 30 2 taken).0 ≡ none)
    × (get lock_key (acquire wait lock_key "mine" 30 2 taken).1 ≡ some (str "other"))
acquire_excluded_example =
    acquire_excluded lock_key "mine" 30 wait (str "other") (λ d h. h) 2 taken held
