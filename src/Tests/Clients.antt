-- ===== src/Tests/Clients.antt =====
-- Retried calls, the two web clients, and transactions with events.
use nestjs_playground.Prelude.{
  ℕ, zero, suc, ◌+◌, ltb, ◌==◌, if◌then◌else◌, Bool-cases, String, Option, none, some, List, [],
  ◌∷◌, ◌≡◌, ◌≢◌, refl, arith,
}
use nestjs_playground.Model.{String-discrete, str_eq-differ}
use nestjs_playground.Redis.{same_text}
use nestjs_playground.Lock.{Outcome, returns, throws}
use nestjs_playground.WebClient.RetryPolicy.{pos, RetryPolicy}
use nestjs_playground.WebClient.RetryExecutor.{
  calculate_delay, execute, world_at, FailedBefore, execute_first_success,
}
use nestjs_playground.WebClient.Builder.{
  Call, call_method, call_body, call_accept, call_header, post_method, from_json, from_text,
  text_html, new_fetch_client, new_got_client, fetch_calls, got_calls,
}
use nestjs_playground.WebClient.Builder.Agreement.{Agree, fetch_calls-got_calls}
use nestjs_playground.Transactions.{
  TransactionPhase, before_commit, after_rollback, Context, DataSource, raise, empty_buffer,
  transactional_with_event,
}
use nestjs_playground.Transactions.Raising.{raise_all}
use nestjs_playground.Transactions.Phases.{
  transactional_commits, transactional_rolls_back, transactional_listener_throws,
}

-- The third call succeeds, and the waits are added up.
abbrev called : ℕ → Outcome String × ℕ
called n = if ltb n 1500 then (throws "refused", n) else (returns "done", n)

abbrev waited : ℕ → ℕ → ℕ
waited ms at = ms + at

abbrev no_random : ℕ → ℕ
no_random n = 0

abbrev policy : RetryPolicy
policy = record {
  max_retries = pos 3;
  delay = pos 1000;
  jitter = pos 0;
  multiplier = pos 0;
  max_delay = pos 0;
}

two_failed : FailedBefore called waited no_random policy 2 0
unfolding calculate_delay
two_failed zero h = ("refused", refl)
two_failed (suc zero) h = ("refused", refl)
two_failed (suc (suc n)) h = absurd (omega (arith, h))

execute_first_success_example :
    execute called waited no_random policy 0
    ≡ (returns "done", (called (world_at called waited no_random policy 2 0)).1)
unfolding calculate_delay
execute_first_success_example =
    execute_first_success called waited no_random policy 3 2 0 "done" refl (omega arith) two_failed
      refl

abbrev request : List Call
request =
    call_method post_method
    ∷ call_header (("X-Id", "1") ∷ [])
    ∷ call_body (from_text "first")
    ∷ call_accept text_html
    ∷ call_body (from_json "{}")
    ∷ []

abbrev host : Option String
host = some "http://host"

not_empty : host ≢ some ""
not_empty h = absurd (str_eq-differ "http://host" "" refl (cc h))

fetch_calls-got_calls_example :
    Agree
      (fetch_calls request (new_fetch_client host 3000))
      (got_calls request (new_got_client host 3000))
fetch_calls-got_calls_example = fetch_calls-got_calls host 3000 request not_empty

-- A database of one number, whose commit fails for 13.
abbrev commit_error_of : ℕ → Option String
commit_error_of n = if n == 13 then some "commit failed" else none

abbrev committed : {A C : Type 0} → ℕ → Option String → A → ℕ → C → Outcome A × (ℕ × C)
committed before none a after c = (returns a, (after, c))
committed before (some e) a after c = (throws e, (before, c))

abbrev ended : {A C : Type 0} → ℕ → Outcome A × (ℕ × C) → Outcome A × (ℕ × C)
ended before (throws e, (after, c)) = (throws e, (before, c))
ended before (returns a, (after, c)) = committed before (commit_error_of after) a after c

abbrev one_number : DataSource ℕ
one_number = record {
  commit_error = commit_error_of;
  transaction = λ {A} {C} body s c. ended s (body s c);
  thrown_law = λ {A} {C} body s c e s' c' h. rw h;
  committed_law = λ {A} {C} body s c a s' c' h p. rw (h, p);
  failed_law = λ {A} {C} body s c a s' c' e h p. rw (h, p);
}

abbrev listener : String → Option String
listener e = if same_text e "broken" then some "listener failed" else none

abbrev world_of : {A : Type 0} → Outcome A → Context String → Outcome A × (ℕ × Context String)
world_of out c = (out, (7, c))

abbrev three_events : List (String × Option TransactionPhase)
three_events =
    ("saving", some before_commit) ∷ ("saved", none) ∷ ("checked", some before_commit) ∷ []

abbrev saves : ℕ → Context String → Outcome String × (ℕ × Context String)
saves s c = world_of (returns "saved") (raise_all three_events c)

abbrev fails : ℕ → Context String → Outcome String × (ℕ × Context String)
fails s c =
    world_of (throws "refused") (raise "saved" none (raise "undone" (some after_rollback) c))

abbrev breaks : ℕ → Context String → Outcome String × (ℕ × Context String)
breaks s c =
    world_of (returns "saved") (raise "broken" none (raise "undone" (some after_rollback) c))

abbrev raised : List String → List String → List String → Context String
raised before after undone = record {
  buffer = record {
    at_before_commit = before;
    at_after_commit = after;
    at_after_rollback = undone;
  };
  emitted = [];
}

abbrev ended_with : List String → Context String
ended_with es = record { buffer = empty_buffer; emitted = es }

fails-raised :
    fails 1 (ended_with []) ≡ world_of (throws "refused") (raised [] ("saved" ∷ []) ("undone" ∷ []))
unfolding raise
fails-raised = refl

breaks-raised :
    breaks 1 (ended_with [])
    ≡ world_of (returns "saved") (raised [] ("broken" ∷ []) ("undone" ∷ []))
unfolding raise
breaks-raised = refl

transactional_commits_example :
    transactional_with_event listener one_number saves 1 []
    ≡ (returns "saved", (7, ended_with ("saving" ∷ "checked" ∷ "saved" ∷ [])))
unfolding String-discrete Bool-cases
transactional_commits_example =
    transactional_commits listener one_number saves 1 7 [] "saved" three_events refl refl
      (refl, (refl, tt)) (refl, tt)

transactional_rolls_back_example :
    transactional_with_event listener one_number fails 1 []
    ≡ (throws "refused", (1, ended_with ("undone" ∷ [])))
unfolding String-discrete Bool-cases
transactional_rolls_back_example =
    transactional_rolls_back listener one_number fails 1 7 [] "refused"
      (raised [] ("saved" ∷ []) ("undone" ∷ [])) fails-raised (refl, tt)

transactional_listener_throws_example :
    transactional_with_event listener one_number breaks 1 []
    ≡ (throws "listener failed", (7, ended_with ("broken" ∷ "undone" ∷ [])))
unfolding String-discrete Bool-cases
transactional_listener_throws_example =
    transactional_listener_throws listener one_number breaks 1 7 [] "saved"
      (raised [] ("broken" ∷ []) ("undone" ∷ [])) "broken" [] "listener failed" breaks-raised refl
      tt refl refl (refl, tt)
