-- ===== src/Tests/Lua.antt =====
-- The theorems on Lua tables and callbacks at concrete inputs.
use my_sqloo.Base.{
  ◌++◌, ℕ, suc, ◌+◌, ◌^◌, ◌≤◌, ◌<◌, ◌≡◌, refl, Bool, true, false, String, none, some, List, [], ◌∷◌,
  map, length, get_elem?, arith, ◌==◌, if◌then◌else◌, update, update_self,
}
use my_sqloo.Client.{Bytes, Row, Field}
use my_sqloo.IQuery.{has_option}
use my_sqloo.LuaData.{FieldTypes, Key, Cell, DataTable, bit_value, contents}
use my_sqloo.LuaData.Bits.{to_bytes, bit_value-to_bytes, bit_value_fits}
use my_sqloo.LuaData.Rows.{Holds, HoldsRow, contents_lem}
use my_sqloo.LuaDatabase.{Host, Event}
use my_sqloo.LuaDatabase.Once.{Ran, connections, run_thinks, run_thinks_once}
use my_sqloo.LuaTransaction.{Registry, result_tables}
use my_sqloo.LuaTransaction.Queries.{
  LuaTransaction, add_all, clear_queries, get_queries, build_lua_data, data_for, build_lua_data_lem,
}
use my_sqloo.Outcome.{done}
use my_sqloo.LuaTransaction.Results.{expected, first_of, result_tables-expected}
use my_sqloo.Objects.{IQuery, IQueryData}
use my_sqloo.QueryData.{has_more_results}
use my_sqloo.ResultData.{text_row, take, with_columns}
use my_sqloo.Tests.Fixtures.{test_client, test_data, test_query, test_state}

bit_value-to_bytes_example : bit_value (to_bytes 2 513) ≡ 513
bit_value-to_bytes_example = bit_value-to_bytes 2 513 (omega arith) (omega arith)

bit_value_fits_example :
    (bit_value (2 ∷ 1 ∷ []) < 2 ^ 64) × (bit_value (2 ∷ 1 ∷ []) ≡ bit_value (take 8 (2 ∷ 1 ∷ [])))
bit_value_fits_example = bit_value_fits (2 ∷ 1 ∷ []) (omega arith, (omega arith, tt))

abbrev pub test_types : FieldTypes
test_types = record {
  type_float = 4;
  type_double = 5;
  type_longlong = 8;
  type_long = 3;
  type_int24 = 9;
  type_tiny = 1;
  type_short = 2;
  type_bit = 16;
  type_null = 6;
}

abbrev pub of_text : Bytes → ℕ
of_text bytes = length bytes

abbrev pub of_unsigned : ℕ → ℕ
of_unsigned n = n

abbrev pub Table : Type 0
Table = DataTable test_types of_text of_unsigned

-- A BIT column and a column of text, which is null.
abbrev pub bit_row : Row
bit_row = record {
  cell = λ i. if i == 0 then some (2 ∷ 1 ∷ []) else none;
  lengths = λ i. if i == 0 then 2 else 0;
}

abbrev pub field : ℕ → Field
field i =
    if i == 0
    then record { name = "flags"; type = 16; max_length = 2 }
    else record { name = "text"; type = 253; max_length = 9 }

abbrev pub bit_data : IQueryData
bit_data = record test_data {
  results = with_columns test_client field 2 (map (λ raw. text_row raw 2) (bit_row ∷ [])) ∷ [];
  insert_ids = 0 ∷ [];
  affected_rows = 0 ∷ [];
}

abbrev pub called_query : IQuery
called_query = record test_query { callback_query_data = some 11 }

contents_lem_example :
    (t : Table) × (contents test_types of_text of_unsigned called_query bit_data ≡ some t)
    × ((i : ℕ) (raw : Row)
        → get_elem? (bit_row ∷ []) i ≡ some raw
        → (row : List (Key × Cell ℕ)) × Holds t (1 + i) row
          × HoldsRow test_types of_text of_unsigned true test_client field 2 raw row)
unfolding has_option has_more_results
contents_lem_example =
    contents_lem test_types of_text of_unsigned true test_client field 2 called_query (bit_row ∷ [])
      bit_data [] refl refl refl refl

-- Lua as the next reference and the tables at the references.
abbrev pub test_registry : Registry Table (ℕ × (ℕ → Table))
test_registry = record {
  reference_create = λ t lua. (lua.0, (suc lua.0, update lua.1 lua.0 t));
  reference_push = λ ref lua. lua.1 ref;
  reference_free = λ ref lua. lua;
}

-- Query 1 stands in the transaction twice, with the data 11 and 12.
abbrev twice : List (ℕ × ℕ)
twice = (1, 11) ∷ (1, 12) ∷ []

result_tables-expected_example :
    first_of
      (result_tables test_types of_text of_unsigned test_registry twice (test_state, (1, λ r. [])))
    ≡ expected test_types of_text of_unsigned twice test_state.queries test_state.query_data
result_tables-expected_example =
    result_tables-expected test_types of_text of_unsigned test_registry
      (λ t lua. update_self lua.1 lua.0 t) twice test_state (1, λ r. [])

-- The log of the freed references, and a database that is connected.
abbrev test_host : Host (List ℕ) (List ℕ)
test_host = record {
  object = record { table_reference = 5; has_on_disconnected = false; db_callback_ran = false };
  state = test_state;
  lua = [];
}

abbrev free_logged : ℕ → List ℕ → List ℕ
free_logged ref lua = ref ∷ lua

abbrev all_functions : ℕ → String → List ℕ → Bool
all_functions table name lua = true

abbrev no_change : Event → Host (List ℕ) (List ℕ) → Host (List ℕ) (List ℕ)
no_change e h = h

run_thinks_once_example :
    (connections (run_thinks free_logged all_functions no_change 3 (λ i h. h) test_host).0 ≤ 1)
    × (Ran free_logged all_functions no_change test_host
        → connections (run_thinks free_logged all_functions no_change 3 (λ i h. h) test_host).0 ≡ 0)
run_thinks_once_example =
    run_thinks_once free_logged all_functions no_change (λ e h ran. ran) (λ i h. h) (λ i h ran. ran)
      3 test_host

abbrev empty_transaction : LuaTransaction
empty_transaction = record { queries = none; added_query_data = [] }

build_lua_data_lem_example :
    (t : LuaTransaction) × (add_all twice (clear_queries empty_transaction) ≡ done t)
    × (get_queries t ≡ 1 ∷ 1 ∷ [])
    × ((build_lua_data t test_state).0.queries ≡ twice)
    × ((q : ℕ)
        → ((build_lua_data t test_state).1.queries q).running_query_data
          ≡ (test_state.queries q).running_query_data ++ data_for q twice)
build_lua_data_lem_example = build_lua_data_lem empty_transaction twice test_state
