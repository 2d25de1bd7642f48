-- ===== src/Bindings/Lifetime.antt =====
-- The Lua objects of queries: `query`, `prepare` and `createTransaction` of src/lua/LuaDatabase.cpp, and
-- `onDestroyedByLua` of src/lua/LuaIQuery.cpp and LuaQuery.cpp. The Lua state is a parameter.
pub mod Returned
use my_sqloo.Base.{ℕ, not, String, ◌==◌, if◌then◌else◌}
use my_sqloo.Bindings.{LuaArguments, string_type, check_type}
use my_sqloo.Client.{Bytes}
use my_sqloo.LuaData.{FieldTypes, DataTable, free_data_reference}
use my_sqloo.Creation.{query as new_query, prepare as new_prepared, transaction as new_transaction}
use my_sqloo.IQuery.{set_query}
use my_sqloo.Objects.{IQuery, State}
use my_sqloo.Outcome.{Checked, done}

-- The query and the reference to the table of its database.
pub record LuaIQuery : Type 0 where
  pub query : ℕ
  pub database_reference : ℕ

module _ {World Lua : Type 0} (reference_create : Lua → ℕ × Lua) where
  -- A new query at the address, with its Lua object.
  unfoldable pub wrap : IQuery → ℕ → State World × Lua → LuaIQuery × (State World × Lua)
  wrap q query (s, lua) =
      let (ref, lua') = reference_create lua in
      (record { query = query; database_reference = ref }, (set_query query q s, lua'))

  unfoldable pub lua_query :
      LuaArguments → ℕ → State World × Lua → Checked (LuaIQuery × (State World × Lua))
  unfolding wrap
  lua_query args query x =
      check_type args 2 string_type (done (wrap (new_query (args.get_string 2)) query x))

  unfoldable pub lua_prepare :
      LuaArguments → ℕ → State World × Lua → Checked (LuaIQuery × (State World × Lua))
  unfolding wrap
  lua_prepare args query x =
      check_type args 2 string_type (done (wrap (new_prepared (args.get_string 2)) query x))

  unfoldable pub lua_create_transaction : ℕ → State World × Lua → LuaIQuery × (State World × Lua)
  unfolding wrap
  lua_create_transaction query x = wrap new_transaction query x

module _ {Lua : Type 0} (reference_free : ℕ → Lua → Lua) where
  -- `LuaIQuery::onDestroyedByLua`
  unfoldable pub on_query_destroyed : LuaIQuery → Lua → LuaIQuery × Lua
  on_query_destroyed o lua =
      if not (o.database_reference == 0)
      then (record o { database_reference = 0 }, reference_free o.database_reference lua)
      else (o, lua)

module _ {Number World Lua : Type 0} (types : FieldTypes) (atof : Bytes → Number)
    (of_unsigned : ℕ → Number) (reference_create : DataTable types atof of_unsigned → Lua → ℕ × Lua)
    (reference_free : ℕ → Lua → Lua) where
  -- `LuaQuery::onDestroyedByLua`
  unfoldable pub on_lua_query_destroyed :
      LuaIQuery → State World × Lua → LuaIQuery × (State World × Lua)
  unfolding on_query_destroyed
  on_lua_query_destroyed o (s, lua) =
      let (o', lua') = on_query_destroyed reference_free o lua in
      (
        o',
        free_data_reference types atof of_unsigned reference_create reference_free o.query
            (s, lua'),
      )
