-- ===== src/Transactions/Phases.antt =====
-- Which events a transaction emits (TransactionService.ts).
use nestjs_playground.Prelude.{
  refl, subst, String, Option, none, some, List, [], ◌∷◌, ◌++◌, ◌≡◌, ap, sym, ◌∙◌, append-nil,
  append_assoc,
}
use nestjs_playground.Lock.{Outcome, returns, throws}
use nestjs_playground.Transactions.Raising.{
  raise_all, raised_for, events_at-raise_all, emitted-raise_all,
}
use nestjs_playground.Transactions.{
  TransactionPhase, before_commit, after_commit, after_rollback, Context, DataSource, empty_buffer,
  events_at, set_events, emit_each, flushed, flush, after_before_commit, after_fn,
  after_rolled_back, after_error, after_committed, after_transaction, cleared,
  transactional_with_event, clear,
}

module _ {E : Type 0} (listener_error : E → Option String) where
  -- No listener of the events throws.
  abbrev pub Quiet : List E → Type 0
  Quiet [] = Unit {0}
  Quiet (e ∷ es) = (listener_error e ≡ none) × Quiet es

  emit_each-Quiet :
      (es emitted : List E) → Quiet es → emit_each listener_error es emitted ≡ (none, emitted ++ es)
  unfolding emit_each
  emit_each-Quiet [] emitted h = ap (λ (xs : List E). (none, xs)) (sym (append-nil emitted))
  emit_each-Quiet (e ∷ es) emitted (h, hs) =
      rw (emit_each, h)
        (emit_each-Quiet es (emitted ++ e ∷ []) hs
          ∙ ap (λ (xs : List E). (none, xs)) (append_assoc emitted (e ∷ []) es))

  stopped :
      (event : E) (later : List E) (error : String) (emitted es : List E)
      → es ≡ event ∷ later
      → listener_error event ≡ some error
      → emit_each listener_error es emitted ≡ (some error, emitted ++ event ∷ [])
  unfolding emit_each
  stopped event later error emitted es h thrown = rw (h, emit_each, thrown)

  flush-Quiet :
      (p : TransactionPhase) (c : Context E)
      → Quiet (events_at p c.buffer)
      → flush listener_error p c ≡ (
        none,
        record { buffer = set_events p [] c.buffer; emitted = c.emitted ++ events_at p c.buffer },
      )
  unfolding flush
  flush-Quiet p c h = ap (flushed p c) (emit_each-Quiet (events_at p c.buffer) c.emitted h)

  module _ {S A : Type 0} (source : DataSource S)
      (fn : S → Context E → Outcome A × (S × Context E)) where
    abbrev pub begun : List E → Context E
    begun emitted = record { buffer = empty_buffer; emitted = emitted }

    abbrev body : S → Context E → Outcome A × (S × Context E)
    body t d = after_fn listener_error (fn t d)

    -- The context when the events for before the commit are emitted.
    abbrev at_commit : Context E → Context E
    at_commit c = record {
      buffer = record c.buffer { at_before_commit = [] };
      emitted = c.emitted ++ c.buffer.at_before_commit;
    }

    body-returns :
        (s s' : S) (emitted : List E) (a : A) (c : Context E)
        → fn s (begun emitted) ≡ (returns a, (s', c))
        → Quiet c.buffer.at_before_commit
        → body s (begun emitted) ≡ (returns a, (s', at_commit c))
    unfolding after_fn
    body-returns s s' emitted a c e h =
        ap (after_fn listener_error) e
        ∙ ap (after_before_commit a s') (flush-Quiet before_commit c h)

    commits :
        (s s' : S) (emitted : List E) (a : A) (c : Context E)
        → fn s (begun emitted) ≡ (returns a, (s', c))
        → source.commit_error s' ≡ none
        → Quiet c.buffer.at_before_commit
        → Quiet c.buffer.at_after_commit
        → transactional_with_event listener_error source fn s emitted ≡ (
          returns a,
          (
            s',
            record {
              buffer = empty_buffer;
              emitted = (c.emitted ++ c.buffer.at_before_commit) ++ c.buffer.at_after_commit;
            },
          ),
        )
    unfolding transactional_with_event after_transaction after_committed clear
    commits s s' emitted a c e ok hb ha =
        ap (λ o. cleared (after_transaction listener_error o))
          (source.committed_law body s (begun emitted) a s' (at_commit c)
            (body-returns s s' emitted a c e hb) ok)
        ∙ ap (λ o. cleared (after_committed listener_error a s' o))
            (flush-Quiet after_commit (at_commit c) ha)

    -- The function raises some events and returns, no listener of those for before and after the commit throws and the
    -- commit succeeds: the value is returned, the database keeps what the function did, the events that were
    -- raised for before the commit are emitted and then those for after it, which is the phase where none
    -- is given, each in the order in which they were raised, none for a roll-back, and the buffer is empty.
    pub transactional_commits :
        (s s' : S) (emitted : List E) (a : A) (raised : List (E × Option TransactionPhase))
        → fn s (begun emitted) ≡ (returns a, (s', raise_all raised (begun emitted)))
        → source.commit_error s' ≡ none
        → Quiet (raised_for before_commit raised)
        → Quiet (raised_for after_commit raised)
        → transactional_with_event listener_error source fn s emitted ≡ (
          returns a,
          (
            s',
            record {
              buffer = empty_buffer;
              emitted =
                  (emitted ++ raised_for before_commit raised) ++ raised_for after_commit raised;
            },
          ),
        )
    transactional_commits s s' emitted a raised e ok hb ha =
        let c = raise_all raised (begun emitted) in
        let before = events_at-raise_all before_commit raised (begun emitted) in
        let after = events_at-raise_all after_commit raised (begun emitted) in
        commits s s' emitted a c e ok (subst Quiet (sym before) hb) (subst Quiet (sym after) ha)
        ∙ rw (before, after, emitted-raise_all raised (begun emitted)) refl

    -- The function throws and no listener of the events for a roll-back does: its error is thrown, the database is as
    -- before, of the events raised only those for a roll-back are emitted, and the buffer is empty.
    pub transactional_rolls_back :
        (s s' : S) (emitted : List E) (error : String) (c : Context E)
        → fn s (begun emitted) ≡ (throws error, (s', c))
        → Quiet c.buffer.at_after_rollback
        → transactional_with_event listener_error source fn s emitted ≡ (
          throws error,
          (s, record { buffer = empty_buffer; emitted = c.emitted ++ c.buffer.at_after_rollback }),
        )
    unfolding transactional_with_event after_transaction after_error after_fn clear
    transactional_rolls_back s s' emitted error c e h =
        ap (λ o. cleared (after_transaction listener_error o))
          (source.thrown_law body s (begun emitted) error s' c (ap (after_fn listener_error) e))
        ∙ ap (λ o. cleared (after_rolled_back error s o)) (flush-Quiet after_rollback c h)

    -- The context when the first listener after the commit has thrown.
    abbrev thrown_at : Context E → E → Context E
    thrown_at c event = record (at_commit c) {
      emitted = (c.emitted ++ c.buffer.at_before_commit) ++ event ∷ [];
    }

    -- The commit succeeds, and the listener of the first event for after the commit throws: although the database keeps
    -- what the function did, that error is thrown, and the events for a roll-back are emitted after it.
    pub transactional_listener_throws :
        (s s' : S) (emitted : List E) (a : A) (c : Context E) (event : E) (later : List E)
        (error : String)
        → fn s (begun emitted) ≡ (returns a, (s', c))
        → source.commit_error s' ≡ none
        → Quiet c.buffer.at_before_commit
        → c.buffer.at_after_commit ≡ event ∷ later
        → listener_error event ≡ some error
        → Quiet c.buffer.at_after_rollback
        → transactional_with_event listener_error source fn s emitted ≡ (
          throws error,
          (
            s',
            record {
              buffer = empty_buffer;
              emitted =
                  ((c.emitted ++ c.buffer.at_before_commit) ++ event ∷ [])
                  ++ c.buffer.at_after_rollback;
            },
          ),
        )
    unfolding transactional_with_event after_transaction after_committed after_error flush clear
    transactional_listener_throws s s' emitted a c event later error e ok hb list thrown hr =
        ap (λ o. cleared (after_transaction listener_error o))
          (source.committed_law body s (begun emitted) a s' (at_commit c)
            (body-returns s s' emitted a c e hb) ok)
        ∙ (ap
              (λ o.
                cleared
                  (after_committed listener_error a s' (flushed after_commit (at_commit c) o)))
              (stopped event later error (at_commit c).emitted c.buffer.at_after_commit list thrown)
            ∙ ap (λ o. cleared (after_rolled_back error s' o))
                (flush-Quiet after_rollback (thrown_at c event) hr))
