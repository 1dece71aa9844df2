-- ===== src/Transactions.antt =====
-- libs/event-emitter/src/TransactionEventContext.ts and libs/entity/src/transaction/TransactionService.ts, with
-- `raise` of libs/event-emitter/src/EventEmitterService.ts, which calls `emit` of the package's EventEmitter2.
-- The data source and EventEmitter2 are outside the repository: the first is a parameter with its documented
-- laws; of the second a listener's error is one, and what was emitted is a list.
pub mod Raising
pub mod Phases
use nestjs_playground.Prelude.{
  ℕ, Bool, true, false, String, Option, none, some, List, [], ◌∷◌, ◌++◌, ◌≡◌, refl,
}
use nestjs_playground.Lock.{Outcome, returns, throws}

pub data TransactionPhase : Type 0 where
  before_commit after_commit after_rollback : TransactionPhase

pub record Buffer (E : Type 0) : Type 0 where
  pub at_before_commit : List E
  pub at_after_commit : List E
  pub at_after_rollback : List E

-- The buffer of a context, and what the emitter has been given so far.
pub record Context (E : Type 0) : Type 0 where
  pub buffer : Buffer E
  pub emitted : List E

-- `dataSource.transaction`: the effects on the database of a body that throws are undone; those of one that returns
-- stay, unless the commit fails. Nothing but the database is undone.
pub record DataSource (S : Type 0) : Type 1 where
  pub commit_error : S → Option String
  pub transaction : {A C : Type 0} → (S → C → Outcome A × (S × C)) → S → C → Outcome A × (S × C)
  pub thrown_law :
      {A C : Type 0} (body : S → C → Outcome A × (S × C)) (s : S) (c : C) (e : String) (s' : S)
      (c' : C)
      → body s c ≡ (throws e, (s', c'))
      → transaction body s c ≡ (throws e, (s, c'))
  pub committed_law :
      {A C : Type 0} (body : S → C → Outcome A × (S × C)) (s : S) (c : C) (a : A) (s' : S) (c' : C)
      → body s c ≡ (returns a, (s', c'))
      → commit_error s' ≡ none
      → transaction body s c ≡ (returns a, (s', c'))
  pub failed_law :
      {A C : Type 0} (body : S → C → Outcome A × (S × C)) (s : S) (c : C) (a : A) (s' : S) (c' : C)
      (e : String)
      → body s c ≡ (returns a, (s', c'))
      → commit_error s' ≡ some e
      → transaction body s c ≡ (throws e, (s, c'))

-- The default of `raise`.
abbrev pub phase_of : Option TransactionPhase → TransactionPhase
phase_of none = after_commit
phase_of (some p) = p

module _ {E : Type 0} where
  abbrev pub empty_buffer : Buffer E
  empty_buffer = record { at_before_commit = []; at_after_commit = []; at_after_rollback = [] }

  abbrev pub events_at : TransactionPhase → Buffer E → List E
  events_at before_commit b = b.at_before_commit
  events_at after_commit b = b.at_after_commit
  events_at after_rollback b = b.at_after_rollback

  abbrev pub set_events : TransactionPhase → List E → Buffer E → Buffer E
  set_events before_commit es b = record b { at_before_commit = es }
  set_events after_commit es b = record b { at_after_commit = es }
  set_events after_rollback es b = record b { at_after_rollback = es }

  unfoldable pub raise : E → Option TransactionPhase → Context E → Context E
  raise event phase c = record c {
    buffer =
        set_events (phase_of phase) (events_at (phase_of phase) c.buffer ++ event ∷ []) c.buffer;
  }

  unfoldable pub clear : Context E → Context E
  clear c = record c { buffer = empty_buffer }

  -- The events leave the buffer only when all were emitted.
  abbrev pub flushed :
      TransactionPhase → Context E → Option String × List E → Option String × Context E
  flushed phase c (none, emitted) =
      (none, record { buffer = set_events phase [] c.buffer; emitted = emitted })
  flushed phase c (some e, emitted) = (some e, record c { emitted = emitted })

-- A value or an error, the database and the context.
abbrev pub Result : (E S A : Type 0) → Type 0
Result E S A = Outcome A × (S × Context E)

module _ {E S A : Type 0} where
  -- The end of the callback of the transaction.
  abbrev pub after_before_commit : A → S → Option String × Context E → Result E S A
  after_before_commit a s (none, c) = (returns a, (s, c))
  after_before_commit a s (some e, c) = (throws e, (s, c))

  -- The `catch`: an error of its flush takes the place of the first one.
  abbrev pub after_rolled_back : String → S → Option String × Context E → Result E S A
  after_rolled_back e s (none, c) = (throws e, (s, c))
  after_rolled_back e s (some e', c) = (throws e', (s, c))

  -- The `finally`.
  abbrev pub cleared : Result E S A → Result E S A
  cleared (out, (s, c)) = (out, (s, clear c))

module _ {E : Type 0} (listener_error : E → Option String) where
  -- `forEach` on the events: up to the first whose listener throws, that one included.
  unfoldable pub emit_each : List E → List E → Option String × List E
  emit_each [] emitted = (none, emitted)
  emit_each (event ∷ events) emitted =
      let rest = emit_each events (emitted ++ event ∷ []) in
      elim (listener_error event) [ none ↦ rest | some e ↦ (some e, emitted ++ event ∷ []) ]

  unfoldable pub flush : TransactionPhase → Context E → Option String × Context E
  unfolding emit_each
  flush phase c = flushed phase c (emit_each (events_at phase c.buffer) c.emitted)

  module _ {S A : Type 0} where
    -- The callback of the transaction, after the call of the function.
    unfoldable pub after_fn : Result E S A → Result E S A
    unfolding flush
    after_fn (throws e, world) = (throws e, world)
    after_fn (returns a, (s, c)) = after_before_commit a s (flush before_commit c)

    unfoldable pub after_error : String → S → Context E → Result E S A
    unfolding flush
    after_error e s c = after_rolled_back e s (flush after_rollback c)

    unfoldable pub after_committed : A → S → Option String × Context E → Result E S A
    unfolding after_error
    after_committed a s (none, c) = (returns a, (s, c))
    after_committed a s (some e, c) = after_error e s c

    -- The `try` after the transaction, and the `catch`.
    unfoldable pub after_transaction : Result E S A → Result E S A
    unfolding after_committed
    after_transaction (throws e, (s, c)) = after_error e s c
    after_transaction (returns a, (s, c)) = after_committed a s (flush after_commit c)

    -- With the context that is made for the call.
    unfoldable pub transactional_with_event :
        DataSource S → (S → Context E → Result E S A) → S → List E → Result E S A
    unfolding after_fn after_transaction
    transactional_with_event source fn s emitted = cleared (
        after_transaction (
          source.transaction (λ t d. after_fn (fn t d)) s
            (record { buffer = empty_buffer; emitted = emitted })))
