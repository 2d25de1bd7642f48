-- ===== src/Tests.antt =====
-- The theorems at concrete inputs.
mod Fixtures
mod Binds
mod Bindings
mod Callbacks
mod Hooks
mod Lua
mod Stack
mod Threads
use mathlib.Core.List.{Perm}
use my_sqloo.Base.{
  ℕ, zero, suc, ◌+◌, ◌≤◌, ◌<◌, ◌≡◌, ◌≢◌, ◌⊎◌, ◌↔◌, inl, inr, refl, Bool, true, false, Option, none,
  some, List, [], ◌∷◌, ◌++◌, arith, ◌==◌, if◌then◌else◌, count, contains, All, Any, leb,
}
use my_sqloo.BlockingQueue.{swap_to_front_if, remove_if, erase_if}
use my_sqloo.BlockingQueue.Fifo.{Call, puts, takes, run as run_calls, run_fifo}
use my_sqloo.BlockingQueue.Removal.{remove_if_lem, remove_if-append}
use my_sqloo.BlockingQueue.Reorder.{swap_to_front_if-perm, swap_to_front_if_front}
use my_sqloo.Connection.{attempt_connection, open_connection, connect_run}
use my_sqloo.Connection.Outcomes.{NoWait, begun, closed_handle, connect_run_ends}
use my_sqloo.Execute.{execute_inner, run_inner, execute_kind}
use my_sqloo.Execute.Plain.{
  mysql_query, check, check_errno, query_loop, store_round, mysql_store_results, stored_result,
  store_results, store, mysql_next_result, next_outcome, execute_query,
}
use my_sqloo.Execute.Transaction.{
  attempt, run_queries, run_one, complete_query, after_query_error, mysql_autocommit, reset_queries,
  reset_query,
}
use my_sqloo.Execute.Transaction.Atomic.{Settled}
use my_sqloo.Execute.Undo.{execute_kind-undone}
use my_sqloo.IQuery.{abort, set_option, has_option, is_option, option_numeric_fields, option_cache}
use my_sqloo.IQuery.Abort.{Aborts, has_any, data_of, abort_lem, abort_all_queries_lem}
use my_sqloo.Objects.{
  Entry, pill, pair, IQuery, transaction_kind, query_running, query_aborted, query_error,
  database_connected, State,
}
use my_sqloo.Outcome.{Outcome, throw, sql_error, Checked, done, again}
use my_sqloo.QueryData.{
  set_status, push_result, empty_result, has_more_results, clear_result_data, clear_results,
}
use my_sqloo.QueryData.Cursor.{visit, visit_all}
use my_sqloo.Queue.{abort_all_queries}
use my_sqloo.References.{finish_lua_transaction}
use my_sqloo.References.Freed.{Cleared, AllCleared, finish_lua_transaction_lem}
use my_sqloo.Statements.{close_all, free_cached_statements}
use my_sqloo.Statements.History.{
  Call as HandleCall, run as run_handles, caches, frees, frees_unused, frees_cached, all_closed,
  all_taken, Fresh, run_closes_once,
}
use my_sqloo.Statements.Ownership.{stmt_of, owned, Inv}
use my_sqloo.Worker.Rounds.{run_delivers}
use my_sqloo.Worker.{at_pill, run as run_queue}
use Fixtures.{test_client, test_data, test_query, test_handle, test_state, one_row}

abbrev is_big : ℕ → Bool
is_big n = leb 5 n

abbrev numbers : List ℕ
numbers = 2 ∷ 4 ∷ 7 ∷ 9 ∷ []

abbrev calls : List (Call ℕ)
calls = puts 3 ∷ takes ∷ takes ∷ takes ∷ puts 4 ∷ []

run_fifo_example : (run_calls calls (1 ∷ [])).0 ++ (run_calls calls (1 ∷ [])).1 ≡ 1 ∷ 3 ∷ 4 ∷ []
run_fifo_example = run_fifo calls (1 ∷ [])

swap_to_front_if-perm_example : Perm numbers (swap_to_front_if is_big numbers).0
swap_to_front_if-perm_example = swap_to_front_if-perm is_big numbers

swap_to_front_if_front_example :
    (y : ℕ) × (rest : List ℕ) × ((swap_to_front_if is_big numbers).0 ≡ y ∷ rest) × (is_big y ≡ true)
swap_to_front_if_front_example = swap_to_front_if_front is_big numbers (inr (inr (inl refl)))

remove_if_lem_example :
    All (λ x. is_big x ≡ false) (remove_if is_big numbers).0
    × (((remove_if is_big numbers).1 ≡ true) ↔ Any is_big numbers)
    × ((remove_if is_big numbers).1 ≡ false → (remove_if is_big numbers).0 ≡ numbers)
remove_if_lem_example = remove_if_lem is_big numbers

remove_if-append_example :
    (remove_if is_big (numbers ++ 1 ∷ numbers)).0
    ≡ (remove_if is_big numbers).0 ++ 1 ∷ (remove_if is_big numbers).0
remove_if-append_example = remove_if-append is_big numbers numbers 1 refl

visit_all_example :
    ((visit 2 (push_result one_row 5 6 test_data)).0 ≡ (one_row, 5, 6) ∷ [])
    × (has_more_results (visit 2 (push_result one_row 5 6 test_data)).1 ≡ false)
unfolding push_result
visit_all_example = visit_all 2 (push_result one_row 5 6 test_data) (omega arith)

abort_lem_example :
    let (aborted, s') = abort 1 test_state in
    (s'.db.query_queue ≡ pair 2 12 ∷ pill ∷ [])
    × ((a : ℕ)
        → contains a aborted ≡ (if contains a (11 ∷ []) then contains a (11 ∷ 12 ∷ []) else false))
    × Aborts aborted test_state.query_data s'.query_data
    × (s'.db.finished_queries ≡ [])
unfolding erase_if
abort_lem_example = abort_lem 1 test_state

abort_all_queries_lem_example :
    let (canceled, s') = abort_all_queries test_state in
    (canceled ≡ pair 1 11 ∷ pair 2 12 ∷ pill ∷ [])
    × (s'.db.query_queue ≡ [])
    × (s'.db.finished_queries ≡ [])
    × (s'.queries ≡ test_state.queries)
    × Aborts (11 ∷ 12 ∷ []) test_state.query_data s'.query_data
abort_all_queries_lem_example = abort_all_queries_lem test_state

connect_run_ends_example :
    let s' = connect_run test_client (λ s. (run_queue test_client 5 3 s).0) test_state in
    NoWait s'
    × (s'.db.sql ≡ none)
    × (s'.db.disconnected ≡ true)
    × (s'.db.status ≢ database_connected)
    × (s'.world ≡ (
        let (s1, connected) = open_connection test_client test_state in
        let last = (run_queue test_client 5 3 s1).0 in
        let first = begun test_client test_state in
        if connected
        then closed_handle test_client last.db.sql last.world
        else test_client.close 7 (attempt_connection test_client 7 first.db first.world).1))
connect_run_ends_example =
    connect_run_ends test_client (λ s. (run_queue test_client 5 3 s).0) test_state 7 refl

-- The transaction of the data 10 until its second query fails.
abbrev ran : Outcome (Unit {0}) × State (List ℕ)
ran =
    attempt test_client 7 (run_inner test_client 5 7) 10 ((1, 11) ∷ (2, 12) ∷ [])
      (set_status query_running 10 test_state)

ran_fails : ran.0 ≡ throw (sql_error 1064 "failed")
unfolding attempt reset_queries reset_query clear_result_data clear_results mysql_autocommit
    run_queries run_one complete_query after_query_error execute_inner execute_query mysql_query
    check check_errno query_loop store_round mysql_store_results stored_result store_results store
    mysql_next_result next_outcome again push_result empty_result
ran_fails = refl

execute_kind-undone_example :
    let (r, after) = execute_kind test_client 5 7 transaction_kind 0 10 test_state in
    (r ≡ throw (sql_error 1064 "failed"))
    × (after.world ≡ 10 ∷ 20 ∷ ran.1.world)
    × ((after.query_data 10).result_status ≡ query_error)
    × ((a : ℕ)
        → contains a (11 ∷ 12 ∷ []) ≡ true
        → Settled (ran.1.query_data a) (after.query_data a))
execute_kind-undone_example =
    execute_kind-undone test_client 5 7 0 10 1064 "failed" test_state (refl, (refl, tt)) refl
      ran_fails

test_state-Inv : Inv test_state
test_state-Inv = record {
  distinct = λ h. ground arith;
  allocated = λ h e. ground arith;
  single = λ a. ground arith;
}

abbrev handle_calls : List HandleCall
handle_calls =
    caches (some 40) ∷ frees (some 0) ∷ frees_unused ∷ caches (some 41) ∷ frees_cached ∷ []

run_closes_once_example :
    let s' = run_handles test_client handle_calls test_state in
    let gone = all_closed test_client handle_calls test_state in
    (s'.world ≡ close_all test_client gone [])
    × ((a : ℕ)
        → (count a gone ≤ 1)
          × (count a (40 ∷ 41 ∷ []) + count a (50 ∷ []) ≡ count a gone + count a (owned s')))
unfolding stmt_of
run_closes_once_example =
    run_closes_once test_client handle_calls test_state test_state-Inv (λ a. ground arith)

run_delivers_example :
    let (t, stop) = run_queue test_client 5 3 test_state in
    (stop ≡ at_pill)
    × (t.db.query_queue ≡ [])
    × (t.db.finished_queries ≡ pair 1 11 ∷ pair 2 12 ∷ [])
    × ((a : ℕ)
        → (t.query_data a).finished
          ≡ (if contains a (11 ∷ 12 ∷ []) then true else (test_state.query_data a).finished))
run_delivers_example =
    run_delivers test_client 5 3 ((1, 11) ∷ (2, 12) ∷ []) [] test_state refl (omega arith)

-- Each data holds a reference to its table.
abbrev referenced_state : State (List ℕ)
referenced_state = record test_state {
  query_data = λ d. record (test_state.query_data d) { table_reference = d + 1 };
}

finish_lua_transaction_lem_example :
    let x = finish_lua_transaction (λ r log. r ∷ log) 0 10 (referenced_state, []) in
    Cleared (x.0.query_data 10)
    × AllCleared (11 ∷ 12 ∷ []) x.0
    × ((finish_lua_transaction (λ r log. r ∷ log) 0 10 x).1 ≡ x.1)
finish_lua_transaction_lem_example =
    finish_lua_transaction_lem (λ r log. r ∷ log) 0 10 referenced_state []
