-- ===== src/Tests/Callbacks.antt =====
-- The theorems on running callbacks at concrete inputs.
use my_sqloo.Base.{ℕ, ◌==◌, if◌then◌else◌, ◌≡◌, refl, true, false, some, List, [], ◌∷◌, update_self}
use my_sqloo.IQuery.{set_callback_data}
use my_sqloo.LuaCallbacks.{Engine, Called, raw_get}
use my_sqloo.LuaCallbacks.Dispatch.{run_query_callback}
use my_sqloo.LuaCallbacks.Outcome.{
  Calls, Leaves, PushesCreated, in_callback, created_for, run_query_callback_lem,
}
use my_sqloo.LuaCallbacks.Released.{Released}
use my_sqloo.LuaCallbacks.Rows.{HasRows}
use my_sqloo.LuaData.{contents, contents_with}
use my_sqloo.LuaDatabase.{Host}
use my_sqloo.LuaTransaction.Results.{for_callback}
use my_sqloo.Objects.{query_success, entries, State}
use my_sqloo.QueryData.{has_more_results}
use my_sqloo.References.Freed.{Cleared}
use my_sqloo.Tests.Fixtures.{test_state, test_data}
use my_sqloo.Tests.Lua.{test_types, of_text, of_unsigned, Table, test_registry}

-- Every field of a table is a function.
abbrev test_engine : Engine
test_engine = record {
  Number = ℕ;
  Lua = ℕ × (ℕ → Table);
  types = test_types;
  atof = of_text;
  of_unsigned = of_unsigned;
  registry = test_registry;
  is_function = λ table name lua. true;
  table_now = λ ref pushed lua. lua.1 ref;
}

-- A callback that starts a query with the data 99.
abbrev starts_other :
    Called test_engine → Host (List ℕ) test_engine.Lua → Host (List ℕ) test_engine.Lua
starts_other e h =
    let s = h.state in
    record h {
      state = record s {
        query_data = λ a.
            if a == 99 then record (s.query_data a) { table_reference = 8 } else s.query_data a;
      };
    }

-- The data 11 and 12 hold references, and have succeeded without results.
abbrev succeeded_state : State (List ℕ)
succeeded_state = record test_state {
  query_data = λ d. record test_data {
    table_reference = 3;
    success_reference = 4;
    result_status = query_success;
  };
}

abbrev succeeded : Host (List ℕ) test_engine.Lua
succeeded = record {
  object = record { table_reference = 5; has_on_disconnected = false; db_callback_ran = false };
  state = succeeded_state;
  lua = (20, λ r. []);
}

abbrev two_queries : Host (List ℕ) test_engine.Lua
two_queries = record succeeded {
  state =
      let db = succeeded_state.db in
      record succeeded_state { db = record db { query_queue = entries ((1, 11) ∷ (2, 12) ∷ []) } };
}

no_rows : HasRows test_engine [] []
unfolding raw_get
no_rows = record { size = refl; at_index = λ i. refl }

test_created : PushesCreated test_engine starts_other
test_created = record {
  pushes = λ t lua. update_self lua.1 lua.0 t;
  holds = λ t lua. update_self lua.1 lua.0 t;
}

abbrev in_success : Host (List ℕ) test_engine.Lua
in_success = in_callback test_engine starts_other 1 11 succeeded

success_Leaves : Leaves test_engine starts_other 1 11 [] in_success
unfolding set_callback_data
success_Leaves e u k = record { references = k.references; rows = k.rows; held = k.held }

run_query_callback_lem_example :
    (es : List (Called test_engine)) × (last : Host (List ℕ) test_engine.Lua) × (run_query_callback
        test_engine starts_other 1 11 succeeded
      ≡ some (es, last))
    × Calls test_engine starts_other
        (for_callback test_types of_text of_unsigned 11 (succeeded.state.queries 1))
        (succeeded.state.query_data 11)
        []
        []
        succeeded.lua
        (created_for test_engine starts_other 1 [] in_success).1
        query_success
        es
    × Cleared (last.state.query_data 11)
unfolding contents contents_with has_more_results
run_query_callback_lem_example =
    run_query_callback_lem test_engine starts_other test_created 1 11 succeeded [] [] refl refl
      no_rows success_Leaves
