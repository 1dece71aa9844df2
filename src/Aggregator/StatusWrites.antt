-- ===== src/Aggregator/StatusWrites.antt =====
-- What the scripts do to the status of a group.
use nestjs_playground.Prelude.{
  ℕ, true, ◌≡◌, refl, ◌↔◌, inl, inr, String, Option, some, arith, Bool-cases,
}
use nestjs_playground.Watcher.StateMachine.{GroupStatus, aggregating, completed, failed}
use nestjs_playground.Model.{Value, group_status, is_status, is_status_iff}
use nestjs_playground.Keys.{group_meta, status}
use nestjs_playground.Redis.{Redis, Db, hget, store_laws}
use nestjs_playground.Aggregator.Scripts.{transition, stamp}

module _ ⦃r : Redis⦄ (g : String) where
  abbrev pub status_of : Db → Option Value
  status_of d = hget (group_meta g) status d

  -- A transition takes place exactly when the group has the expected status.
  pub transition_iff :
      (from to : GroupStatus) (now : ℕ) (d : Db)
      → ((transition g from to now d).0 ≡ true) ↔ (status_of d ≡ some (group_status from))
  unfolding transition
  transition_iff from to now d = ground (arith, is_status_iff (status_of d) from)

  stamp_status : (to : GroupStatus) (now : ℕ) (d : Db) → status_of (stamp g to now d) ≡ status_of d
  unfolding stamp
  stamp_status aggregating now d = simp store_laws (ground arith)
  stamp_status completed now d = simp store_laws (ground arith)
  stamp_status failed now d = simp store_laws (ground arith)
  stamp_status _ now d = refl

  pub transition_status :
      (from to : GroupStatus) (now : ℕ) (d : Db)
      → (transition g from to now d).0 ≡ true
      → status_of (transition g from to now d).1 ≡ some (group_status to)
  unfolding transition
  transition_status from to now d h = elim (Bool-cases (is_status (status_of d) from)) [
    | inl e ↦ rw e (rw stamp_status (simp store_laws (ground arith)))
    | inr e ↦ ground arith
  ]
