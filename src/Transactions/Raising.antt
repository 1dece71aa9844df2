-- ===== src/Transactions/Raising.antt =====
-- What a context holds after events were raised (TransactionEventContext.ts).
use nestjs_playground.Prelude.{
  Bool, true, false, if◌then◌else◌, Option, List, [], ◌∷◌, ◌++◌, ◌≡◌, refl, sym, ◌∙◌, append-nil,
  append_assoc,
}
use nestjs_playground.Transactions.{
  TransactionPhase, before_commit, after_commit, after_rollback, Buffer, Context, phase_of,
  events_at, set_events, raise,
}

abbrev is_phase : TransactionPhase → TransactionPhase → Bool
is_phase before_commit before_commit = true
is_phase after_commit after_commit = true
is_phase after_rollback after_rollback = true
is_phase p q = false

module _ {E : Type 0} where
  -- Events raised in turn.
  abbrev pub raise_all : List (E × Option TransactionPhase) → Context E → Context E
  raise_all [] c = c
  raise_all ((event, phase) ∷ rest) c = raise_all rest (raise event phase c)

  -- The events for a phase, in the order in which they were raised.
  abbrev pub raised_for : TransactionPhase → List (E × Option TransactionPhase) → List E
  raised_for p [] = []
  raised_for p ((event, phase) ∷ rest) =
      let later = raised_for p rest in if is_phase (phase_of phase) p then event ∷ later else later

  after_set :
      (p q : TransactionPhase) (event : E) (b : Buffer E) (later : List E)
      → events_at p (set_events q (events_at q b ++ event ∷ []) b) ++ later
        ≡ events_at p b ++ (if is_phase q p then event ∷ later else later)
  after_set before_commit before_commit event b later =
      append_assoc b.at_before_commit (event ∷ []) later
  after_set before_commit after_commit event b later = refl
  after_set before_commit after_rollback event b later = refl
  after_set after_commit before_commit event b later = refl
  after_set after_commit after_commit event b later =
      append_assoc b.at_after_commit (event ∷ []) later
  after_set after_commit after_rollback event b later = refl
  after_set after_rollback before_commit event b later = refl
  after_set after_rollback after_commit event b later = refl
  after_set after_rollback after_rollback event b later =
      append_assoc b.at_after_rollback (event ∷ []) later

  pub events_at-raise_all :
      (p : TransactionPhase) (raised : List (E × Option TransactionPhase)) (c : Context E)
      → events_at p (raise_all raised c).buffer ≡ events_at p c.buffer ++ raised_for p raised
  unfolding raise
  events_at-raise_all p [] c = sym (append-nil (events_at p c.buffer))
  events_at-raise_all p ((event, phase) ∷ rest) c =
      events_at-raise_all p rest (raise event phase c)
      ∙ after_set p (phase_of phase) event c.buffer (raised_for p rest)

  pub emitted-raise_all :
      (raised : List (E × Option TransactionPhase)) (c : Context E)
      → (raise_all raised c).emitted ≡ c.emitted
  unfolding raise
  emitted-raise_all [] c = refl
  emitted-raise_all ((event, phase) ∷ rest) c = emitted-raise_all rest (raise event phase c)
