-- ===== src/References.antt =====
-- The Lua references of query data, `finishLuaQueryData` of src/mysql/IQuery.cpp and Transaction.cpp. The
-- Lua state and its `ReferenceFree` are parameters. References are numbers, 0 for none; the counter of
-- freed references, which is only printed, is left out.
pub mod Freed
use my_sqloo.Base.{ℕ, List, [], ◌∷◌, ◌==◌, if◌then◌else◌}
use my_sqloo.IQuery.{finish_query_data}
use my_sqloo.Objects.{Kind, transaction_kind, IQueryData, State}
use my_sqloo.QueryData.{set_data}

unfoldable pub clear_references : IQueryData → IQueryData
clear_references v = record v {
  on_data_reference = 0;
  error_reference = 0;
  abort_reference = 0;
  success_reference = 0;
  table_reference = 0;
}

module _ {Lua : Type 0} (reference_free : ℕ → Lua → Lua) where
  unfoldable pub free_if_set : ℕ → Lua → Lua
  free_if_set ref lua = if ref == 0 then lua else reference_free ref lua

  unfoldable pub free_references : IQueryData → Lua → Lua
  unfolding free_if_set
  free_references v lua = free_if_set v.success_reference (
      free_if_set v.abort_reference (
        free_if_set v.error_reference
          (free_if_set v.on_data_reference (free_if_set v.table_reference lua))))

  module _ {World : Type 0} where
    unfoldable pub finish_lua_data : ℕ → ℕ → State World × Lua → State World × Lua
    unfolding free_references clear_references
    finish_lua_data query d (s, lua) =
        let s' = finish_query_data query d s in
        (set_data d (clear_references (s'.query_data d)) s', free_references (s'.query_data d) lua)

    unfoldable pub finish_lua_all : List (ℕ × ℕ) → State World × Lua → State World × Lua
    finish_lua_all [] x = x
    finish_lua_all ((query, d) ∷ rest) x = finish_lua_all rest (finish_lua_data query d x)

    -- `TransactionData::finishLuaQueryData`
    unfoldable pub finish_lua_transaction : ℕ → ℕ → State World × Lua → State World × Lua
    unfolding finish_lua_all finish_lua_data
    finish_lua_transaction query d x =
        let (s, lua) = finish_lua_data query d x in finish_lua_all (s.query_data d).queries (s, lua)
