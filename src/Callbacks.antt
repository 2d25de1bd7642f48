-- ===== src/Callbacks.antt =====
-- The callbacks of a query: the references of src/lua/LuaIQuery.cpp and LuaObject.cpp, and which callback
-- `runCallback` runs. The Lua state is a parameter, as are `ReferenceCreate` and the test whether a field
-- of the table of the query, or of a referenced table, is a function.
use my_sqloo.Base.{ℕ, Bool, true, false, not, ◌&&◌, String, ◌==◌, if◌then◌else◌}
use my_sqloo.Objects.{
  Kind, transaction_kind, QueryResultStatus, query_none, query_error, query_success, IQueryData,
}

module _ {Lua : Type 0} (reference_create : Lua → ℕ × Lua) (is_function : String → Lua → Bool) where
  unfoldable pub get_function_reference : String → Lua → ℕ × Lua
  get_function_reference name lua = if is_function name lua then reference_create lua else (0, lua)

  -- A reference that is set already is kept.
  unfoldable pub reference_unless_set : ℕ → String → Lua → ℕ × Lua
  unfolding get_function_reference
  reference_unless_set old name lua =
      if old == 0 then get_function_reference name lua else (old, lua)

  unfoldable pub reference_callbacks : IQueryData → Lua → IQueryData × Lua
  unfolding reference_unless_set
  reference_callbacks v lua =
      let (table, lua1) = reference_create lua in
      let (on_success, lua2) = reference_unless_set v.success_reference "onSuccess" lua1 in
      let (on_aborted, lua3) = reference_unless_set v.abort_reference "onAborted" lua2 in
      let (on_data, lua4) = reference_unless_set v.on_data_reference "onData" lua3 in
      let (on_error, lua5) = reference_unless_set v.error_reference "onError" lua4 in
      (
        record v {
          table_reference = table;
          success_reference = on_success;
          abort_reference = on_aborted;
          on_data_reference = on_data;
          error_reference = on_error;
        },
        lua5,
      )

-- What `pushCallbackReference` finds to call.
pub data Callback : Type 0 where
  at_reference : ℕ → Callback
  at_field : ℕ → String → Callback
  no_callback : Callback

unfoldable pub push_callback_reference :
    {Lua : Type 0} → (ℕ → String → Lua → Bool) → ℕ → ℕ → String → Bool → Lua → Callback
push_callback_reference is_function function table name allow_callback lua =
    if not (function == 0)
    then at_reference function
    else if allow_callback && not (table == 0)
    then if is_function table name lua then at_field table name else no_callback
    else no_callback

-- The function that `runCallback` dispatches to.
pub data CallbackRun : Type 0 where
  no_run query_failed transaction_failed query_succeeded transaction_succeeded : CallbackRun

abbrev pub is_transaction : Kind → Bool
is_transaction transaction_kind = true
is_transaction _ = false

unfoldable pub run_callback : Kind → QueryResultStatus → CallbackRun
run_callback kind query_none = no_run
run_callback kind query_error = if is_transaction kind then transaction_failed else query_failed
run_callback kind query_success =
    if is_transaction kind then transaction_succeeded else query_succeeded
