-- ===== src/Watcher/StateMachine.antt =====
-- libs/bulk-action/src/watcher/StateMachine.ts and model/job-group/type/GroupStatus.ts: the table
-- of transition rules and the four queries over it. `===` on the enum is decidable equality.
pub mod Diagram
use nestjs_playground.Prelude.{
  ℕ, ◌≡◌, Bool, true, false, ◌&&◌, Option, none, some, List, [], ◌∷◌, map, any, find, keep, decides,
}

pub data GroupStatus : Type 0 where
  created dispatched running aggregating completed failed : GroupStatus

unfoldable pub GroupStatus-discrete : Discrete GroupStatus
GroupStatus-discrete = hlevel

abbrev pub same_status : GroupStatus → GroupStatus → Bool
unfolding GroupStatus-discrete
same_status a b = decides (GroupStatus-discrete a b)

pub record TransitionRule : Type 0 where
  pub from : GroupStatus
  pub to : GroupStatus
  pub requires_lock : Bool

abbrev rule : GroupStatus → GroupStatus → Bool → TransitionRule
rule s t l = record { from = s; to = t; requires_lock = l }

pub transition_rules : List TransitionRule
transition_rules =
    rule created dispatched false
    ∷ rule dispatched running false
    ∷ rule running aggregating true
    ∷ rule aggregating completed true
    ∷ rule created failed false
    ∷ rule dispatched failed false
    ∷ rule running failed false
    ∷ rule aggregating failed true
    ∷ []

pub terminal_states : List GroupStatus
terminal_states = completed ∷ failed ∷ []

abbrev matches : GroupStatus → GroupStatus → TransitionRule → Bool
unfolding GroupStatus-discrete
matches s t r = same_status r.from s && same_status r.to t

-- `rule?.requiresLock ?? false`
abbrev lock_of : Option TransitionRule → Bool
lock_of none = false
lock_of (some r) = r.requires_lock

unfoldable pub is_valid_transition : GroupStatus → GroupStatus → Bool
unfolding transition_rules GroupStatus-discrete
is_valid_transition s t = any (matches s t) transition_rules

unfoldable pub requires_lock : GroupStatus → GroupStatus → Bool
unfolding transition_rules GroupStatus-discrete
requires_lock s t = lock_of (find (matches s t) transition_rules)

unfoldable pub get_next_states : GroupStatus → List GroupStatus
unfolding transition_rules GroupStatus-discrete
get_next_states s = map (λ r. r.to) (keep (λ r. same_status r.from s) transition_rules)

-- `Set.has`
unfoldable pub is_terminal : GroupStatus → Bool
unfolding terminal_states GroupStatus-discrete
is_terminal s = any (same_status s) terminal_states
