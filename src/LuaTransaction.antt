-- ===== src/LuaTransaction.antt =====
-- The tables of the results of a transaction, in `runSuccessCallback` of src/lua/LuaTransaction.cpp. The Lua
-- state is a parameter, with the registry of references.
pub mod Queries
pub mod Results
use my_sqloo.Base.{
  ℕ, Bool, true, false, Option, none, some, List, [], ◌∷◌, ◌==◌, if◌then◌else◌, String,
}
use my_sqloo.Callbacks.{Callback, at_reference, at_field, no_callback}
use my_sqloo.Client.{Bytes}
use my_sqloo.IQuery.{set_callback_data}
use my_sqloo.LuaData.{FieldTypes, DataTable, create_data_reference, free_data_reference}
use my_sqloo.Objects.{IQueryData, State, query_complete}
use my_sqloo.QueryData.{set_status}

-- The registry of references, as far as it holds tables of data.
pub record Registry (Table Lua : Type 0) : Type 0 where
  pub reference_create : Table → Lua → ℕ × Lua
  pub reference_push : ℕ → Lua → Table
  pub reference_free : ℕ → Lua → Lua

module _ {Number World Lua : Type 0} (types : FieldTypes) (atof : Bytes → Number)
    (of_unsigned : ℕ → Number) (registry : Registry (DataTable types atof of_unsigned) Lua) where
  open registry use {reference_create, reference_push, reference_free}

  -- The loop of `runSuccessCallback`: the tables of the queries, in order.
  unfoldable pub result_tables :
      List (ℕ × ℕ)
      → State World × Lua
      → Option (List (DataTable types atof of_unsigned) × (State World × Lua))
  result_tables [] x = some ([], x)
  result_tables ((query, d) ∷ rest) x =
      let (s, lua) =
        free_data_reference types atof of_unsigned reference_create reference_free query x in
      elim (create_data_reference types atof of_unsigned reference_create reference_free query d
        (set_callback_data query d s, lua)) [
          | none ↦ none
          | some (ref, y) ↦ elim (result_tables rest y) [
            | none ↦ none
            | some (tables, z) ↦ some (reference_push ref y.1 ∷ tables, z)
          ]
        ]

  unfoldable pub free_all : List (ℕ × ℕ) → State World × Lua → State World × Lua
  free_all [] x = x
  free_all ((query, d) ∷ rest) x =
      free_all rest
        (free_data_reference types atof of_unsigned reference_create reference_free query x)
