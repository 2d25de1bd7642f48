-- ===== src/Bindings/Results.antt =====
-- The results of a query as Lua reads them, src/lua/LuaQuery.cpp: `getData`, `getNextResults`, and a loop of a
-- script over the result sets of a query.
pub mod Steps
pub mod Round
pub mod Loop
pub mod Read
use my_sqloo.Base.{ℕ, zero, suc, Bool, true, false, String, Option, none, some, List, [], ◌∷◌}
use my_sqloo.Client.{Bytes}
use my_sqloo.IQuery.{query_has_more_results, query_get_next_results, last_insert, affected_rows}
use my_sqloo.LuaData.{FieldTypes, DataTable, create_data_reference, free_data_reference}
use my_sqloo.LuaTransaction.{Registry}
use my_sqloo.Objects.{QueryResultStatus, query_error, State}
use my_sqloo.Outcome.{done, thrown}

abbrev pub is_error : QueryResultStatus → Bool
is_error query_error = true
is_error _ = false

module _ {Number : Type 0} (types : FieldTypes) (atof : Bytes → Number)
    (of_unsigned : ℕ → Number) where
  abbrev pub Table : Type 0
  Table = DataTable types atof of_unsigned

  -- What one round of the loop reads: the table, the insert id and the affected rows.
  abbrev pub Reading : Type 0
  Reading = Option Table × ℕ × ℕ

  module _ {World Lua : Type 0} (registry : Registry (DataTable types atof of_unsigned) Lua) where
    open registry use {reference_create, reference_push, reference_free}

    abbrev push_data :
        Option (ℕ × (State World × Lua)) → Option (Option Table × (State World × Lua))
    push_data none = none
    push_data (some (ref, (s, lua))) = some (some (reference_push ref lua), (s, lua))

    -- `getData`: the table, or nil.
    unfoldable pub lua_get_data :
        ℕ → State World × Lua → Option (Option Table × (State World × Lua))
    lua_get_data query (s, lua) = elim (s.queries query).callback_query_data [
      | none ↦ some (none, (s, lua))
      | some d ↦ elim (is_error (s.query_data d).result_status) [
        | true ↦ some (none, (s, lua))
        | false ↦ push_data (
            create_data_reference types atof of_unsigned reference_create reference_free query d
              (s, lua))
      ]
    ]

    -- `getNextResults`, and the error that it throws.
    unfoldable pub lua_get_next_results :
        ℕ → State World × Lua → Option String × (State World × Lua)
    lua_get_next_results query x =
        let (s, lua) =
          free_data_reference types atof of_unsigned reference_create reference_free query x in
        elim (query_get_next_results query s) [
          | done s' ↦ (none, (s', lua))
          | thrown message ↦ (some message, (s, lua))
        ]

    abbrev pub and_then :
        Reading
        → Option (List Reading × (State World × Lua))
        → Option (List Reading × (State World × Lua))
    and_then r none = none
    and_then r (some (rs, x)) = some (r ∷ rs, x)

    -- `while query:hasMoreResults() do ... query:getNextResults() end`, in at most the given rounds.
    unfoldable pub read_results :
        ℕ → ℕ → State World × Lua → Option (List Reading × (State World × Lua))
    read_results zero query x = some ([], x)
    read_results (suc rounds) query (s, lua) = elim (query_has_more_results query s) [
      | false ↦ some ([], (s, lua))
      | true ↦ elim (lua_get_data query (s, lua)) [
        | none ↦ none
        | some (t, (s', lua')) ↦
            and_then (t, last_insert query s', affected_rows query s')
              (read_results rounds query (lua_get_next_results query (s', lua')).1)
      ]
    ]
