-- ===== src/Tests/Threads.antt =====
-- The theorems on running queries to the end and on waiting, at concrete inputs.
use my_sqloo.Base.{
  Bool, ℕ, ◌≡◌, ◌⊎◌, refl, true, false, none, some, List, [], ◌∷◌, ◌++◌, ◌+◌, ◌≤◌, count, arith,
  get_last?,
}
use my_sqloo.Execute.Ending.{FiniteText, FiniteBound}
use my_sqloo.IQuery.{start, add_query_data, wait}
use my_sqloo.Objects.{query_complete, database_connecting, database_not_connected, State}
use my_sqloo.Outcome.{done, thrown}
use my_sqloo.Queue.{enqueue_query}
use my_sqloo.Settings.{
  connect, has_started, set_should_auto_reconnect, set_multi_statements, already_connected,
}
use my_sqloo.Tests.Fixtures.{test_client, test_query, test_state}
use my_sqloo.Threads.{
  asleep, opening, System, Reach, created, later, calls, connects, sleeps, registers, enqueues,
  marks_waiting, apply,
}
use my_sqloo.IQuery.Abort.{data_of}
use my_sqloo.Threads.Ledger.{Ledger, empty_ledger, book, History, in_hand}
use my_sqloo.Threads.Ledger.Once.{started_once}
use my_sqloo.Threads.Ledger.Order.{Subsequence}
use my_sqloo.Threads.Queues.{queued, refused}
use my_sqloo.Threads.Invariant.{is_born, is_closed, is_notifying}
use my_sqloo.Threads.Started.{connect_once}
use my_sqloo.Threads.Wakeup.{no_lost_wakeup}
use my_sqloo.Waiting.{wait_for_query}
use my_sqloo.Worker.{run_taken}
use my_sqloo.Worker.Reports.{Reported, run_taken-Reported}

-- The client library of the tests returns no result sets and no rows.
test_text : FiniteText test_client 0
test_text = record {
  sets = λ sql w. 0;
  rows = λ r. 0;
  query_sets = λ sql text w. omega arith;
  store_sets = λ sql w. omega arith;
  free_sets = λ sql r w. omega arith;
  next_sets = λ sql w e. cc;
  stored_rows = λ sql w r e. omega arith;
  fetch_rows = λ r r' row e. cc;
}

test_bound : FiniteBound test_client 0
test_bound = record {
  sets = λ stmt w. 0;
  rows = λ stmt w. 0;
  execute_sets = λ stmt w. omega arith;
  metadata_sets = λ stmt w. omega arith;
  store_sets = λ stmt w. omega arith;
  bind_sets = λ stmt w. omega arith;
  fetch_sets = λ stmt w. omega arith;
  free_sets = λ stmt w. omega arith;
  metadata_free_sets = λ stmt r w. omega arith;
  next_sets = λ stmt w e. cc;
  bind_rows = λ stmt w. omega arith;
  fetch_rows = λ stmt w row e. cc;
}

run_taken-Reported_example :
    Reported 11 (run_taken test_client 5 1 11 test_state)
    × (((run_taken test_client 5 1 11 test_state).query_data 11).status ≡ query_complete)
run_taken-Reported_example =
    run_taken-Reported test_client 0 5 test_text test_bound (omega arith) 1 11 test_state

-- A database that was just created.
abbrev new_state : State (List ℕ)
new_state =
    let db = test_state.db in
    record test_state {
      db = record db {
        query_queue = [];
        can_wait = false;
        started_connecting = false;
        waiting_query = none;
        status = database_not_connected;
      };
      queries = λ q. record test_query { running_query_data = []; has_been_started = false };
    }

abbrev connecting_state : State (List ℕ)
connecting_state =
    let db = new_state.db in
    record new_state {
      db = record db { can_wait = true; started_connecting = true; status = database_connecting };
    }

abbrev started_state : State (List ℕ)
started_state = start 1 11 connecting_state

abbrev waiting_state : State (List ℕ)
waiting_state =
    let db = started_state.db in
    record started_state { db = record db { waiting_query = some (1, 11) } }

connect_done : connect new_state.db ≡ done connecting_state.db
unfolding connect has_started
connect_done = refl

start_last : get_last? (started_state.queries 1).running_query_data ≡ some 11
unfolding start add_query_data enqueue_query
start_last = refl

wait_sleeps : wait 1 false started_state ≡ done (waiting_state, true)
unfolding start add_query_data enqueue_query wait wait_for_query
wait_sleeps = refl

abbrev asleep_system : System (List ℕ)
asleep_system = record { shared = waiting_state; main = asleep 1 11 false; thread = opening }

test_Reach : Reach test_client 5 asleep_system
unfolding apply start add_query_data enqueue_query
test_Reach =
    let fresh =
      later (created new_state refl refl) (connects connecting_state.db refl connect_done) in
    let started =
      later (later (later fresh (calls (registers 1 11) refl)) (calls (enqueues 1 11) refl))
        (calls (marks_waiting 1 11) refl) in
    later started (sleeps 1 11 refl start_last wait_sleeps)

no_lost_wakeup_example :
    (((asleep_system.shared.query_data 11).finished ≡ false)
      × (asleep_system.shared.db.waiting_query ≡ some (1, 11))
      × (is_born asleep_system.thread ≡ true)
      × (is_closed asleep_system.thread ≡ false))
    ⊎ (((asleep_system.shared.query_data 11).finished ≡ true)
        × ((false ≡ true) ⊎ (is_notifying asleep_system.thread ≡ true)))
no_lost_wakeup_example = no_lost_wakeup test_client 5 (λ w. refl) test_Reach 1 11 false refl

connect_once_example :
    (connect asleep_system.shared.db ≡ thrown already_connected)
    × ((b : Bool) → set_should_auto_reconnect b asleep_system.shared.db ≡ thrown already_connected)
    × ((b : Bool) → set_multi_statements b asleep_system.shared.db ≡ thrown already_connected)
connect_once_example = connect_once test_client 5 (λ w. refl) test_Reach (λ e. cc)

abbrev one_started : Ledger
one_started = record empty_ledger { started = 11 ∷ [] }

test_History : History test_client 5 asleep_system one_started
unfolding apply book refused start add_query_data enqueue_query
test_History =
    let fresh =
      History.later (History.created new_state refl refl refl refl)
        (connects connecting_state.db refl connect_done) tt in
    let started =
      History.later
        (History.later (History.later fresh (calls (registers 1 11) refl) tt)
          (calls (enqueues 1 11) refl) refl)
        (calls (marks_waiting 1 11) refl) tt in
    History.later started (sleeps 1 11 refl start_last wait_sleeps) tt

started_once_example :
    ((a : ℕ)
      → (count a (11 ∷ []) ≤ 1)
        × (count a (11 ∷ [])
            ≡ queued a waiting_state + (in_hand a opening + (count a [] + count a [])))
        × (count a (data_of [])
            ≡ count a (data_of [])
              + (count a (data_of waiting_state.db.finished_queries) + count a (data_of [])))
        × (count a (data_of []) ≡ count a [] + count a []))
    × Subsequence ([] ++ waiting_state.db.finished_queries) []
started_once_example = started_once test_client 5 (λ w. refl) test_History
