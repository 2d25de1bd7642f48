-- ===== src/LuaCallbacks.antt =====
-- Running the callbacks of a query on the main thread, src/lua/LuaIQuery.cpp, LuaQuery.cpp and
-- LuaTransaction.cpp. The Lua engine is a parameter. A callback is an arbitrary change of the whole
-- state, since it can call the module again; each call is logged with its arguments.
pub mod Dispatch
pub mod Rows
pub mod Outcome
pub mod Kept
pub mod Released
use my_sqloo.Base.{
  ℕ, zero, suc, Bool, true, false, not, String, Option, none, some, List, [], ◌∷◌, ◌++◌, length,
  ◌==◌, if◌then◌else◌,
}
use my_sqloo.Callbacks.{
  Callback, at_reference, at_field, no_callback, push_callback_reference, run_callback, no_run,
  query_failed, transaction_failed, query_succeeded, transaction_succeeded, is_transaction,
}
use my_sqloo.Client.{Bytes}
use my_sqloo.IQuery.{set_callback_data, abort}
use my_sqloo.LuaData.{FieldTypes, Key, Cell, DataTable, create_data_reference, free_data_reference}
use my_sqloo.LuaDatabase.{Host}
use my_sqloo.LuaTransaction.{Registry, result_tables, free_all}
use my_sqloo.Objects.{Entry, pill, pair, query_complete, State}
use my_sqloo.Queue.{abort_all_queries}
use my_sqloo.QueryData.{set_status, is_empty}
use my_sqloo.References.{finish_lua_data, finish_lua_transaction}
use my_sqloo.Script.{Script, skip, silently, ◌then_run◌, run_each}

-- The parts of Lua that the callbacks use.
pub record Engine : Type 1 where
  pub Number : Type 0
  pub Lua : Type 0
  pub types : FieldTypes
  pub atof : Bytes → Number
  pub of_unsigned : ℕ → Number
  pub registry : Registry (DataTable types atof of_unsigned) Lua
  pub is_function : ℕ → String → Lua → Bool
  -- What is in a table now, which was pushed from a reference before, in the first state of Lua. A callback
  -- can get the table from `getData` and change it.
  pub table_now : ℕ → Lua → Lua → DataTable types atof of_unsigned

module _ (E : Engine) where
  open E use {Number, Lua, types, atof, of_unsigned, registry, is_function, table_now}

  abbrev pub RowTable : Type 0
  RowTable = List (Key × Cell Number)

  abbrev pub Table : Type 0
  Table = DataTable types atof of_unsigned

  -- What follows the table of the query in a call.
  pub data Arguments : Type 0 where
    no_arguments : Arguments
    error_arguments : String → String → Arguments
    row_argument : RowTable → Arguments
    table_argument : Table → Arguments
    tables_argument : List Table → Arguments
    own_table_argument : Arguments

  pub record Called : Type 0 where
    pub callback : Callback
    pub table : ℕ
    pub arguments : Arguments

  unfoldable pub raw_get : ℕ → Table → Option RowTable
  raw_get i [] = none
  raw_get i ((j, row) ∷ rest) = let older = raw_get i rest in if j == i then some row else older

  module _ {World : Type 0} (call : Called → Host World Lua → Host World Lua) where
    abbrev pub H : Type 0
    H = Host World Lua

    unfoldable pub make_call : Callback → ℕ → Arguments → Script Called H
    make_call c table args h =
        let e : Called = record { callback = c; table = table; arguments = args } in
        some (e ∷ [], call e h)

    unfoldable pub invoke : Callback → ℕ → Arguments → Script Called H
    invoke no_callback table args h = some ([], h)
    invoke (at_reference ref) table args h = make_call (at_reference ref) table args h
    invoke (at_field ref name) table args h = make_call (at_field ref name) table args h

    unfoldable pub run_aborted_callback : ℕ → Script Called H
    run_aborted_callback d h =
        let v = h.state.query_data d in
        if v.table_reference == 0
        then some ([], h)
        else invoke
            (push_callback_reference is_function v.abort_reference v.table_reference "onAborted"
              v.was_first_data h.lua)
            v.table_reference no_arguments h

    unfoldable pub run_error_callback : ℕ → ℕ → Script Called H
    run_error_callback query d h =
        let v = h.state.query_data d in
        if v.table_reference == 0
        then some ([], h)
        else invoke
            (push_callback_reference is_function v.error_reference v.table_reference "onError"
              v.was_first_data h.lua)
            v.table_reference (error_arguments v.error_text (h.state.queries query).sql) h

    -- The loop over the rows of the table from `index` on, which was pushed from the reference in the state
    -- `pushed`. Each round reads the table as it is then. More rounds than the table has writes are enough,
    -- unless a callback adds rows to it.
    unfoldable pub on_data_rows : ℕ → ℕ → ℕ → Lua → Callback → ℕ → Script Called H
    unfolding raw_get
    on_data_rows zero index ref pushed c d h = none
    on_data_rows (suc rounds) index ref pushed c d h =
        elim (raw_get index (table_now ref pushed h.lua)) [
          | none ↦ some ([], h)
          | some row ↦
              (invoke c (h.state.query_data d).table_reference (row_argument row)
                  then_run on_data_rows rounds (suc index) ref pushed c d)
                h
        ]

    unfoldable pub each_row : Callback → ℕ → ℕ → Script Called H
    each_row no_callback ref d h = some ([], h)
    each_row (at_reference function) ref d h =
        on_data_rows (suc (length (table_now ref h.lua h.lua))) 1 ref h.lua (at_reference function)
          d h
    each_row (at_field table name) ref d h =
        on_data_rows (suc (length (table_now ref h.lua h.lua))) 1 ref h.lua (at_field table name) d
          h

    unfoldable pub run_on_data_callbacks : ℕ → ℕ → Script Called H
    run_on_data_callbacks d ref h =
        let v = h.state.query_data d in
        each_row
          (push_callback_reference is_function v.on_data_reference v.table_reference "onData"
            v.was_first_data h.lua)
          ref d h

    abbrev pub set_both : State World × Lua → H → H
    set_both x h = record h { state = x.0; lua = x.1 }

    unfoldable pub free_query_data : ℕ → H → H
    free_query_data query h =
        set_both
          (free_data_reference types atof of_unsigned registry.reference_create
            registry.reference_free query (h.state, h.lua))
          h

    -- The success callback gets the table at the reference; the table is freed after it only.
    unfoldable pub succeed : Callback → ℕ → ℕ → ℕ → Script Called H
    succeed no_callback query d ref h = some ([], h)
    succeed (at_reference at) query d ref h =
        (make_call (at_reference at) (h.state.query_data d).table_reference
              (table_argument (registry.reference_push ref h.lua))
            then_run silently (free_query_data query))
          h
    succeed (at_field table name) query d ref h =
        (make_call (at_field table name) (h.state.query_data d).table_reference
              (table_argument (registry.reference_push ref h.lua))
            then_run silently (free_query_data query))
          h

    unfoldable pub finish_success : ℕ → ℕ → ℕ → Script Called H
    finish_success query d ref h =
        let v = h.state.query_data d in
        succeed
          (push_callback_reference is_function v.success_reference v.table_reference "onSuccess"
            v.was_first_data h.lua)
          query d ref h

    -- `LuaQuery::runSuccessCallback`
    unfoldable pub run_query_success : ℕ → ℕ → Script Called H
    run_query_success query d h =
        let h' = free_query_data query h in
        elim (create_data_reference types atof of_unsigned registry.reference_create
          registry.reference_free query d (h'.state, h'.lua)) [
            | none ↦ none
            | some (ref, x) ↦
                (run_on_data_callbacks d ref then_run finish_success query d ref) (set_both x h')
          ]
