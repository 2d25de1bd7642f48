-- ===== src/LuaCallbacks/Dispatch.antt =====
-- Which callbacks run, src/lua/LuaTransaction.cpp, LuaIQuery.cpp and `abortAllQueries` of
-- src/lua/LuaDatabase.cpp.
use my_sqloo.Base.{ℕ, Bool, not, Option, none, some, List, [], ◌∷◌, length, ◌==◌, if◌then◌else◌}
use my_sqloo.Callbacks.{
  Callback, at_reference, at_field, no_callback, push_callback_reference, run_callback, no_run,
  query_failed, transaction_failed, query_succeeded, transaction_succeeded, is_transaction,
}
use my_sqloo.IQuery.{set_callback_data, abort}
use my_sqloo.LuaCallbacks.{
  Engine, Called, Table, tables_argument, own_table_argument, make_call, run_aborted_callback,
  run_error_callback, set_both, run_query_success,
}
use my_sqloo.LuaDatabase.{Host}
use my_sqloo.LuaTransaction.{result_tables, free_all}
use my_sqloo.Objects.{Entry, pill, pair, query_complete, State}
use my_sqloo.Queue.{abort_all_queries}
use my_sqloo.QueryData.{set_status, is_empty}
use my_sqloo.References.{finish_lua_data, finish_lua_transaction}
use my_sqloo.Script.{Script, silently, ◌then_run◌, run_each}

module _ (E : Engine) {World : Type 0} (call : Called E → Host World E.Lua → Host World E.Lua) where
  open E use {Lua, types, atof, of_unsigned, registry, is_function}

  -- The data of its own callback, for each query of a transaction.
  unfoldable pub set_callback_all : List (ℕ × ℕ) → State World → State World
  set_callback_all [] s = s
  set_callback_all ((query, d) ∷ rest) s = set_callback_all rest (set_callback_data query d s)

  abbrev pub set_state : State World → Host World Lua → Host World Lua
  set_state s h = record h { state = s }

  -- `LuaTransaction::runAbortedCallback` and `runErrorCallback`
  unfoldable pub run_transaction_aborted : ℕ → Script (Called E) (Host World Lua)
  run_transaction_aborted d h =
      let v = h.state.query_data d in
      if v.table_reference == 0
      then some ([], h)
      else run_aborted_callback E call d (set_state (set_callback_all v.queries h.state) h)

  unfoldable pub run_transaction_error : ℕ → ℕ → Script (Called E) (Host World Lua)
  run_transaction_error query d h =
      let v = h.state.query_data d in
      if v.table_reference == 0
      then some ([], h)
      else run_error_callback E call query d (set_state (set_callback_all v.queries h.state) h)

  abbrev pub free_all_data : List (ℕ × ℕ) → Host World Lua → Host World Lua
  free_all_data queries h =
      set_both E call (free_all types atof of_unsigned registry queries (h.state, h.lua)) h

  -- `pushCallbackReference` leaves the table of the transaction in place of the table of the results
  -- when it finds the callback in a field (see LuaStack), so that such a callback gets that table.
  unfoldable pub succeed_all : Callback → ℕ → List (Table E) → Script (Called E) (Host World Lua)
  succeed_all no_callback d tables h = some ([], h)
  succeed_all (at_reference at) d tables h =
      let v = h.state.query_data d in
      (make_call E call (at_reference at) v.table_reference (tables_argument tables)
          then_run silently (free_all_data v.queries))
        h
  succeed_all (at_field table name) d tables h =
      let v = h.state.query_data d in
      (make_call E call (at_field table name) v.table_reference own_table_argument
          then_run silently (free_all_data v.queries))
        h

  -- `LuaTransaction::runSuccessCallback`
  unfoldable pub run_transaction_success : ℕ → Script (Called E) (Host World Lua)
  run_transaction_success d h =
      let v = h.state.query_data d in
      if v.table_reference == 0
      then some ([], h)
      else elim (result_tables types atof of_unsigned registry v.queries
          (set_status query_complete d h.state, h.lua)) [
            | none ↦ none
            | some (tables, x) ↦
                succeed_all
                  (push_callback_reference is_function v.success_reference v.table_reference
                    "onSuccess" v.was_first_data x.1)
                  d tables (set_both E call x h)
          ]

  -- `finishLuaQueryData` of the data of a query or of a transaction.
  unfoldable pub finish_callbacks : ℕ → ℕ → Host World Lua → Host World Lua
  finish_callbacks query d h =
      if is_transaction (h.state.queries query).kind
      then set_both E call (finish_lua_transaction registry.reference_free query d (h.state, h.lua))
          h
      else set_both E call (finish_lua_data registry.reference_free query d (h.state, h.lua)) h

  unfoldable pub run_outcome : ℕ → ℕ → Script (Called E) (Host World Lua)
  run_outcome query d h =
      elim (run_callback (h.state.queries query).kind (h.state.query_data d).result_status) [
        | no_run ↦ some ([], h)
        | query_failed ↦ run_error_callback E call query d h
        | transaction_failed ↦ run_transaction_error query d h
        | query_succeeded ↦ run_query_success E call query d h
        | transaction_succeeded ↦ run_transaction_success d h
      ]

  -- `LuaIQuery::runCallback`
  unfoldable pub run_query_callback : ℕ → ℕ → Script (Called E) (Host World Lua)
  run_query_callback query d h =
      (run_outcome query d then_run silently (finish_callbacks query d))
        (set_state (set_callback_data query d h.state) h)

  -- One round of the loops over aborted data.
  unfoldable pub run_abort : ℕ → ℕ → Script (Called E) (Host World Lua)
  run_abort query d h =
      ((if is_transaction (h.state.queries query).kind
            then run_transaction_aborted d
            else run_aborted_callback E call d)
          then_run silently (finish_callbacks query d))
        h

  -- `abort` of a query, and whether anything was aborted.
  unfoldable pub lua_abort : ℕ → Host World Lua → Option (List (Called E) × Host World Lua) × Bool
  lua_abort query h =
      let (aborted, s) = abort query h.state in
      (run_each (run_abort query) aborted (set_state s h), not (is_empty aborted))

  -- `abortAllQueries` of the database. The poison pill has no data to finish.
  unfoldable pub run_abort_entry : Entry → Script (Called E) (Host World Lua)
  run_abort_entry pill h = none
  run_abort_entry (pair query d) h = run_abort query d h

  unfoldable pub lua_abort_all : Host World Lua → Option (List (Called E) × Host World Lua) × ℕ
  lua_abort_all h =
      let (entries, s) = abort_all_queries h.state in
      (run_each run_abort_entry entries (set_state s h), length entries)
