-- ===== src/Bindings/Parameters.antt =====
-- The parameters of a prepared query as Lua sets them, src/lua/LuaPreparedQuery.cpp.
pub mod History
pub mod Bound
use my_sqloo.Base.{ℕ, List, [], ◌∷◌}
use my_sqloo.Bindings.{
  LuaArguments, Casts, LuaType, string_type, number_type, bool_type, check_type, settle,
}
use my_sqloo.Execute.Parameters.{set_field, put_new_parameters, clear_parameters}
use my_sqloo.Objects.{FieldValue, double_field, bit_field, string_field, null_field, IQuery}
use my_sqloo.Outcome.{Checked, done}

-- The functions on parameters that Lua can call.
pub data ParameterCall : Type 0 where
  number_call string_call boolean_call null_call put_call clear_call : ParameterCall

module _ (casts : Casts) where
  unfoldable pub lua_set_number : LuaArguments → IQuery → Checked IQuery
  lua_set_number args q =
      let index = casts.to_unsigned (args.get_number 2) in
      check_type args 2 number_type
        (check_type args 3 number_type (set_field index (double_field (args.get_number 3)) q))

  unfoldable pub lua_set_string : LuaArguments → IQuery → Checked IQuery
  lua_set_string args q =
      let index = casts.to_unsigned (args.get_number 2) in
      check_type args 2 number_type
        (check_type args 3 string_type (set_field index (string_field (args.get_bytes 3)) q))

  unfoldable pub lua_set_boolean : LuaArguments → IQuery → Checked IQuery
  lua_set_boolean args q =
      let index = casts.to_unsigned (args.get_number 2) in
      check_type args 2 number_type
        (check_type args 3 bool_type (set_field index (bit_field (args.get_bool 3)) q))

  unfoldable pub lua_set_null : LuaArguments → IQuery → Checked IQuery
  lua_set_null args q =
      let index = casts.to_unsigned (args.get_number 2) in
      check_type args 2 number_type (set_field index null_field q)

  unfoldable pub call_parameter : ParameterCall → LuaArguments → IQuery → Checked IQuery
  call_parameter number_call args q = lua_set_number args q
  call_parameter string_call args q = lua_set_string args q
  call_parameter boolean_call args q = lua_set_boolean args q
  call_parameter null_call args q = lua_set_null args q
  call_parameter put_call args q = done (put_new_parameters q)
  call_parameter clear_call args q = done (clear_parameters q)

  abbrev pub call_parameters : List (ParameterCall × LuaArguments) → IQuery → IQuery
  call_parameters [] q = q
  call_parameters ((call, args) ∷ rest) q =
      call_parameters rest (settle (call_parameter call args q) q)
