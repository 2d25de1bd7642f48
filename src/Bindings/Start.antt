-- ===== src/Bindings/Start.antt =====
-- `start` of a query as Lua calls it, src/lua/LuaIQuery.cpp, with `buildQueryData` of LuaQuery.cpp,
-- LuaPreparedQuery.cpp and LuaTransaction.cpp. The Lua state is a parameter.
pub mod Balance
use my_sqloo.Base.{ℕ, Bool, String, List, []}
use my_sqloo.Callbacks.{reference_callbacks}
use my_sqloo.Creation.{build_query_data, build_prepared_data}
use my_sqloo.IQuery.{start, set_query}
use my_sqloo.LuaTransaction.Queries.{LuaTransaction, build_lua_data}
use my_sqloo.Objects.{
  query_kind, prepared_kind, transaction_kind, ping_kind, query_complete, Kind, IQueryData, State,
}
use my_sqloo.QueryData.{set_data}

module _ {World : Type 0} where
  -- The data of the class of the query. Lua has no object for a ping.
  unfoldable pub build_data : Kind → LuaTransaction → ℕ → State World → IQueryData × State World
  build_data query_kind t query s = (record build_query_data { status = query_complete }, s)
  build_data prepared_kind t query s =
      let (v, q) = build_prepared_data (s.queries query) in (v, set_query query q s)
  build_data transaction_kind t query s = build_lua_data t s
  build_data ping_kind t query s = (build_query_data, s)

  module _ {Lua : Type 0} (reference_create : Lua → ℕ × Lua)
      (is_function : String → Lua → Bool) where
    -- `d` is the address of the new data.
    unfoldable pub lua_start : LuaTransaction → ℕ → ℕ → State World × Lua → State World × Lua
    lua_start t query d (s, lua) =
        let (v, s') = build_data (s.queries query).kind t query s in
        let (v', lua') = reference_callbacks reference_create is_function v lua in
        (start query d (set_data d v' s'), lua')
