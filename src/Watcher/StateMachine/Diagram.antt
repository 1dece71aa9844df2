-- ===== src/Watcher/StateMachine/Diagram.antt =====
-- The transition table of StateMachine.ts against the life cycle that libs/bulk-action/src/workflow.md draws: a
-- chain of five statuses, and failure edges by a time-out from DISPATCHED, RUNNING and AGGREGATING. The
-- table has one edge more, from CREATED to FAILED.
use nestjs_playground.Prelude.{
  ℕ, suc, ◌+◌, ◌≤◌, ◌≡◌, refl, sym, subst, ◌≢◌, ◌↔◌, true, any, ◌⊎◌, inl, inr, [], arith,
}
use nestjs_playground.Watcher.StateMachine.{
  GroupStatus, created, dispatched, running, aggregating, completed, failed, same_status,
  is_valid_transition, requires_lock, get_next_states, is_terminal,
}

-- The edges of workflow.md.
pub data Drawn : GroupStatus → GroupStatus → Type 0 where
  draws_dispatch : Drawn created dispatched
  draws_run : Drawn dispatched running
  draws_aggregate : Drawn running aggregating
  draws_complete : Drawn aggregating completed
  dispatched_fails : Drawn dispatched failed
  running_fails : Drawn running failed
  aggregating_fails : Drawn aggregating failed

-- The edges that the code allows: the chain, and a failure edge from every status that is not an end.
pub data Edge : GroupStatus → GroupStatus → Type 0 where
  dispatch : Edge created dispatched
  run : Edge dispatched running
  aggregate : Edge running aggregating
  complete : Edge aggregating completed
  fail : {s : GroupStatus} → s ≢ completed → s ≢ failed → Edge s failed

edge-valid : {s t : GroupStatus} → Edge s t → is_valid_transition s t ≡ true
unfolding is_valid_transition
edge-valid dispatch = refl
edge-valid run = refl
edge-valid aggregate = refl
edge-valid complete = refl
edge-valid (fail {s = created} p q) = refl
edge-valid (fail {s = dispatched} p q) = refl
edge-valid (fail {s = running} p q) = refl
edge-valid (fail {s = aggregating} p q) = refl
edge-valid (fail {s = completed} p q) = absurd (p refl)
edge-valid (fail {s = failed} p q) = absurd (q refl)

valid-edge : (s t : GroupStatus) → is_valid_transition s t ≡ true → Edge s t
unfolding is_valid_transition
valid-edge created dispatched h = dispatch
valid-edge dispatched running h = run
valid-edge running aggregating h = aggregate
valid-edge aggregating completed h = complete
valid-edge created failed h = fail (λ e. cc) (λ e. cc)
valid-edge dispatched failed h = fail (λ e. cc) (λ e. cc)
valid-edge running failed h = fail (λ e. cc) (λ e. cc)
valid-edge aggregating failed h = fail (λ e. cc) (λ e. cc)
valid-edge _ _ h = cc

pub Edge_iff : (s t : GroupStatus) → (is_valid_transition s t ≡ true) ↔ Edge s t
Edge_iff s t = (valid-edge s t, edge-valid)

Drawn-Edge : {s t : GroupStatus} → Drawn s t ⊎ ((s ≡ created) × (t ≡ failed)) → Edge s t
Drawn-Edge (inl draws_dispatch) = dispatch
Drawn-Edge (inl draws_run) = run
Drawn-Edge (inl draws_aggregate) = aggregate
Drawn-Edge (inl draws_complete) = complete
Drawn-Edge (inl dispatched_fails) = fail (λ e. cc) (λ e. cc)
Drawn-Edge (inl running_fails) = fail (λ e. cc) (λ e. cc)
Drawn-Edge (inl aggregating_fails) = fail (λ e. cc) (λ e. cc)
Drawn-Edge {s} {t} (inr (p, q)) =
    subst (λ v. Edge s v) (sym q) (fail (λ e. cc (p, e)) (λ e. cc (p, e)))

Edge-Drawn : {s t : GroupStatus} → Edge s t → Drawn s t ⊎ ((s ≡ created) × (t ≡ failed))
Edge-Drawn dispatch = inl draws_dispatch
Edge-Drawn run = inl draws_run
Edge-Drawn aggregate = inl draws_aggregate
Edge-Drawn complete = inl draws_complete
Edge-Drawn (fail {s = created} p q) = inr (refl, refl)
Edge-Drawn (fail {s = dispatched} p q) = inl dispatched_fails
Edge-Drawn (fail {s = running} p q) = inl running_fails
Edge-Drawn (fail {s = aggregating} p q) = inl aggregating_fails
Edge-Drawn (fail {s = completed} p q) = absurd (p refl)
Edge-Drawn (fail {s = failed} p q) = absurd (q refl)

-- `isValidTransition` accepts exactly the edges that workflow.md draws and one more, from CREATED to FAILED.
pub is_valid_transition_iff :
    (s t : GroupStatus)
    → (is_valid_transition s t ≡ true) ↔ (Drawn s t ⊎ ((s ≡ created) × (t ≡ failed)))
is_valid_transition_iff s t = (λ h. Edge-Drawn (valid-edge s t h), λ e. edge-valid (Drawn-Edge e))

-- `getNextStates` lists exactly the targets that `isValidTransition` accepts.
pub get_next_states_iff :
    (s t : GroupStatus) → any (λ u. same_status u t) (get_next_states s) ≡ is_valid_transition s t
unfolding get_next_states is_valid_transition
get_next_states_iff created t = refl
get_next_states_iff _ t = refl

-- A status is terminal exactly when it has no next status.
pub is_terminal_iff : (s : GroupStatus) → (is_terminal s ≡ true) ↔ (get_next_states s ≡ [])
unfolding is_terminal get_next_states
is_terminal_iff completed = (λ h. refl, λ h. refl)
is_terminal_iff failed = (λ h. refl, λ h. refl)
is_terminal_iff _ = (λ h. cc, λ h. cc)

needs :
    (s t : GroupStatus)
    → requires_lock s t ≡ true
    → Edge s t × ((s ≡ aggregating) ⊎ (t ≡ aggregating))
unfolding requires_lock
needs running aggregating h = (aggregate, inr refl)
needs aggregating completed h = (complete, inl refl)
needs aggregating failed h = (fail (λ e. cc) (λ e. cc), inl refl)
needs created created h = cc
needs dispatched created h = cc
needs completed created h = cc
needs failed created h = cc
needs _ _ h = cc

wants :
    {s t : GroupStatus}
    → Edge s t
    → (s ≡ aggregating) ⊎ (t ≡ aggregating)
    → requires_lock s t ≡ true
unfolding requires_lock
wants dispatch side = ground arith
wants run side = ground arith
wants aggregate side = refl
wants complete side = refl
wants (fail {s = aggregating} p q) side = refl
wants (fail p q) side = ground arith

-- A transition wants the lock exactly when it is an edge that leaves AGGREGATING or enters it.
pub requires_lock_iff :
    (s t : GroupStatus)
    → (requires_lock s t ≡ true) ↔ (Edge s t × ((s ≡ aggregating) ⊎ (t ≡ aggregating)))
requires_lock_iff s t = (needs s t, λ (e, side). wants e side)

-- The transitions that a group makes, oldest last, and how many they are.
pub data Run (s : GroupStatus) : GroupStatus → ℕ → Type 0 where
  here : Run s s 0
  next : {t u : GroupStatus} {n : ℕ} → Run s t n → is_valid_transition t u ≡ true → Run s u (suc n)

rank : GroupStatus → ℕ
rank created = 0
rank dispatched = 1
rank running = 2
rank aggregating = 3
rank completed = 4
rank failed = 4

Edge-rank : {s t : GroupStatus} → Edge s t → suc (rank s) ≤ rank t
unfolding rank
Edge-rank dispatch = omega arith
Edge-rank run = omega arith
Edge-rank aggregate = omega arith
Edge-rank complete = omega arith
Edge-rank (fail {s = created} p q) = omega arith
Edge-rank (fail {s = dispatched} p q) = omega arith
Edge-rank (fail {s = running} p q) = omega arith
Edge-rank (fail {s = aggregating} p q) = omega arith
Edge-rank (fail {s = completed} p q) = absurd (p refl)
Edge-rank (fail {s = failed} p q) = absurd (q refl)

Run-rank : {s t : GroupStatus} {n : ℕ} → Run s t n → n + rank s ≤ rank t
Run-rank here = omega arith
Run-rank (next {t = t} {u = u} r v) = omega (arith, Run-rank r, Edge-rank (valid-edge t u v))

rank-le : (s : GroupStatus) → rank s ≤ 4
unfolding rank
rank-le created = omega arith
rank-le _ = omega arith

-- Every life of a group ends: no chain of valid transitions has more than four steps.
pub Run-le : {s t : GroupStatus} {n : ℕ} → Run s t n → n ≤ 4
Run-le {t} r = omega (arith, Run-rank r, rank-le t)

no_edge : (s t : GroupStatus) → is_terminal s ≡ true → ¬ Edge s t
unfolding is_terminal
no_edge s t h dispatch = cc
no_edge s t h run = cc
no_edge s t h aggregate = cc
no_edge s t h complete = cc
no_edge completed t h (fail p q) = p refl
no_edge failed t h (fail p q) = q refl
no_edge _ t h (fail p q) = cc

-- A group that has reached a terminal status makes no further transition.
pub Run-terminal :
    {s t : GroupStatus} {n : ℕ} → is_terminal s ≡ true → Run s t n → (n ≡ 0) × (t ≡ s)
Run-terminal h here = (refl, refl)
Run-terminal {s} h (next {t = t} {u = u} r v) =
    absurd (no_edge t u (rw (Run-terminal h r).1 h) (valid-edge t u v))
