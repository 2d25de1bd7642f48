-- ===== src/LuaStack.antt =====
-- The stack of Lua values as the code moves it, src/lua/LuaObject.cpp and the functions of
-- src/lua/LuaIQuery.cpp, LuaQuery.cpp and LuaTransaction.cpp that run a callback. The interface `ILuaBase`
-- to Lua is a parameter, with what its header documents of the calls as laws.
pub mod Found
pub mod Reporter
pub mod Arguments
pub mod Balance
use my_sqloo.Base.{
  ℕ, suc, ◌-◌, ◌≡◌, ◌≢◌, Bool, true, false, not, ◌&&◌, String, List, ◌∷◌, ◌++◌, length, ◌==◌,
  if◌then◌else◌,
}
use my_sqloo.Objects.{IQueryData}

-- `ILuaBase`, as far as it is used. `values` is the stack, the value on top first; `heap` is what the
-- references and the tables hold.
pub record LuaBase : Type 1 where
  pub Lua : Type 0
  pub Heap : Type 0
  pub Value : Type 0
  pub values : Lua → List Value
  pub heap : Lua → Heap
  pub referenced : ℕ → Heap → Value
  pub field_of : Value → String → Heap → Value
  pub is_function : Value → Bool
  pub error_reporter : Value
  pub globals : Value
  pub text : String → Value
  -- `Top`
  pub top : Lua → ℕ
  -- `Push` of a position that is counted from the top.
  pub push_from_top : ℕ → Lua → Lua
  -- `Pop`, `Remove` and `Insert` at a position from the bottom.
  pub pop : ℕ → Lua → Lua
  pub remove : ℕ → Lua → Lua
  pub insert : ℕ → Lua → Lua
  pub reference_push : ℕ → Lua → Lua
  -- `PushCFunction` of the error reporter, `PushSpecial` of the globals and `PushString`.
  pub push_reporter : Lua → Lua
  pub push_globals : Lua → Lua
  pub push_string : String → Lua → Lua
  -- `GetField` of the value on top.
  pub get_field : String → Lua → Lua
  -- `IsType` of the value on top.
  pub is_type_function : Lua → Bool
  pub call : ℕ → ℕ → Lua → Lua
  pub pcall : ℕ → ℕ → ℕ → Lua → ℕ × Lua

module _ (L : LuaBase) where
  open L use {
    Lua, Heap, Value, values, heap, referenced, field_of, is_function, error_reporter, globals,
    text, top, push_from_top, pop, remove, insert, reference_push, push_reporter, push_globals,
    push_string, get_field, is_type_function, call, pcall,
  }

  -- The state has this heap, and the values on its stack.
  abbrev pub HasStack : Heap → List Value → Lua → Type 0
  HasStack h xs l = (heap l ≡ h) × (values l ≡ xs)

  -- What the header of `ILuaBase` documents. The position of a value from the bottom is the number of values
  -- below it and one.
  pub record Documented : Type 0 where
    pub top_law : (h : Heap) (xs : List Value) (l : Lua) → HasStack h xs l → top l ≡ length xs
    pub push_from_top_law :
        (h : Heap) (xs ys : List Value) (x : Value) (l : Lua)
        → HasStack h (xs ++ x ∷ ys) l
        → HasStack h (x ∷ xs ++ x ∷ ys) (push_from_top (suc (length xs)) l)
    pub pop_law :
        (h : Heap) (xs ys : List Value) (l : Lua)
        → HasStack h (xs ++ ys) l
        → HasStack h ys (pop (length xs) l)
    pub remove_law :
        (h : Heap) (xs ys : List Value) (x : Value) (l : Lua)
        → HasStack h (xs ++ x ∷ ys) l
        → HasStack h (xs ++ ys) (remove (suc (length ys)) l)
    pub insert_law :
        (h : Heap) (xs ys : List Value) (x : Value) (l : Lua)
        → HasStack h (x ∷ xs ++ ys) l
        → HasStack h (xs ++ x ∷ ys) (insert (suc (length ys)) l)
    pub reference_push_law :
        (h : Heap) (xs : List Value) (ref : ℕ) (l : Lua)
        → HasStack h xs l
        → HasStack h (referenced ref h ∷ xs) (reference_push ref l)
    pub push_reporter_law :
        (h : Heap) (xs : List Value) (l : Lua)
        → HasStack h xs l
        → HasStack h (error_reporter ∷ xs) (push_reporter l)
    pub push_globals_law :
        (h : Heap) (xs : List Value) (l : Lua)
        → HasStack h xs l
        → HasStack h (globals ∷ xs) (push_globals l)
    pub push_string_law :
        (h : Heap) (xs : List Value) (s : String) (l : Lua)
        → HasStack h xs l
        → HasStack h (text s ∷ xs) (push_string s l)
    pub get_field_law :
        (h : Heap) (xs : List Value) (x : Value) (name : String) (l : Lua)
        → HasStack h (x ∷ xs) l
        → HasStack h (field_of x name h ∷ x ∷ xs) (get_field name l)
    pub is_function_law :
        (h : Heap) (xs : List Value) (x : Value) (l : Lua)
        → HasStack h (x ∷ xs) l
        → is_type_function l ≡ is_function x
    -- The function and its arguments are popped. A call can change the heap.
    pub call_law :
        (args rest : List Value) (f : Value) (l : Lua)
        → values l ≡ args ++ f ∷ rest
        → values (call (length args) 0 l) ≡ rest
    pub pcall_law :
        (args rest : List Value) (f : Value) (handler : ℕ) (l : Lua)
        → values l ≡ args ++ f ∷ rest
        → let r = pcall (length args) 0 handler l in
          (r.0 ≡ 0 → values r.1 ≡ rest)
          × (r.0 ≢ 0 → (message : Value) × (values r.1 ≡ message ∷ rest))

  -- `LuaObject::pushCallbackReference`: the branch for a field of the table, and the function.
  unfoldable pub push_field_callback : ℕ → String → Lua → Bool × Lua
  push_field_callback table name l =
      let field = get_field name (reference_push table l) in
      let l' = remove (top field - 2) field in
      if is_type_function l' then (true, l') else (false, pop 1 l')

  unfoldable pub push_callback_on_stack : ℕ → ℕ → String → Bool → Lua → Bool × Lua
  push_callback_on_stack function table name allow_callback l =
      if not (function == 0)
      then (true, reference_push function l)
      else if allow_callback && not (table == 0)
      then push_field_callback table name l
      else (false, l)

  -- The branch of `pcallWithErrorReporter` for an error while running.
  unfoldable pub report_stack_trace : Lua → Lua
  report_stack_trace l =
      let l' = get_field "ErrorNoHalt" (push_globals l) in
      if is_type_function l' then pop 2 (call 1 0 (push_from_top 3 l')) else pop 3 l'

  unfoldable pub pcall_with_error_reporter : ℕ → Lua → Lua
  pcall_with_error_reporter nargs l =
      let reporter = push_reporter l in
      let handler = (top reporter - nargs) - 1 in
      let r = pcall nargs 0 handler (insert handler reporter) in
      pop 1 (if r.0 == 2 then report_stack_trace r.1 else r.1)

  -- What is pushed after the callback that was found, and the call, or the state as it is without one.
  abbrev pub when_found : Bool × Lua → (Lua → Lua) → Lua
  when_found (true, l) f = f l
  when_found (false, l) f = l

  -- `LuaIQuery::runAbortedCallback`
  unfoldable pub aborted_on_stack : IQueryData → Lua → Lua
  aborted_on_stack v l =
      if v.table_reference == 0
      then l
      else when_found
          (push_callback_on_stack v.abort_reference v.table_reference "onAborted" v.was_first_data
            l)
          (λ l'. pcall_with_error_reporter 1 (reference_push v.table_reference l'))

  -- `LuaIQuery::runErrorCallback` of a query with this text: the arguments, and the call.
  unfoldable pub failure_arguments : String → IQueryData → Lua → Lua
  failure_arguments sql v l =
      push_string sql (push_string v.error_text (reference_push v.table_reference l))

  unfoldable pub error_on_stack : String → IQueryData → Lua → Lua
  error_on_stack sql v l =
      if v.table_reference == 0
      then l
      else when_found
          (push_callback_on_stack v.error_reference v.table_reference "onError" v.was_first_data l)
          (λ l'. pcall_with_error_reporter 3 (failure_arguments sql v l'))

  -- `LuaTransaction::runSuccessCallback` from the table of the results on top: the arguments, and the call.
  unfoldable pub transaction_arguments : IQueryData → Lua → Lua
  transaction_arguments v l = push_from_top 3 (reference_push v.table_reference l)

  unfoldable pub transaction_success_on_stack : IQueryData → Lua → Lua
  transaction_success_on_stack v l = pop 1 (
      when_found
        (push_callback_on_stack v.success_reference v.table_reference "onSuccess" v.was_first_data
          l)
        (λ l'. pcall_with_error_reporter 2 (transaction_arguments v l')))

  -- `LuaQuery::runSuccessCallback` from the callback for success on, with the reference of the results.
  unfoldable pub success_arguments : IQueryData → ℕ → Lua → Lua
  success_arguments v ref l = reference_push ref (reference_push v.table_reference l)

  unfoldable pub query_success_on_stack : IQueryData → ℕ → Lua → Lua
  query_success_on_stack v ref l =
      when_found
        (push_callback_on_stack v.success_reference v.table_reference "onSuccess" v.was_first_data
          l)
        (λ l'. pcall_with_error_reporter 2 (success_arguments v ref l'))
