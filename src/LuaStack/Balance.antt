-- ===== src/LuaStack/Balance.antt =====
-- The stack after running a callback, src/lua/LuaIQuery.cpp, LuaQuery.cpp and LuaTransaction.cpp.
use my_sqloo.Base.{
  ℕ, suc, not, ◌&&◌, ◌≡◌, ◌∙◌, refl, ap, Bool, true, false, String, List, [], ◌∷◌, ◌++◌, length,
  ◌==◌, if◌then◌else◌, ◌⊎◌, inl, inr,
}
use my_sqloo.Callbacks.{Callback, at_reference, at_field, no_callback}
use my_sqloo.LuaCallbacks.Rows.{is_called}
use my_sqloo.LuaStack.{
  LuaBase, HasStack, Documented, push_callback_on_stack, pcall_with_error_reporter, when_found,
  failure_arguments, transaction_arguments, success_arguments, aborted_on_stack, error_on_stack,
  query_success_on_stack, transaction_success_on_stack,
}
use my_sqloo.LuaStack.Arguments.{
  found, below_found, failure_arguments_lem, success_arguments_lem, transaction_arguments-below,
}
use my_sqloo.LuaStack.Found.{found_values, looked_up, push_callback_on_stack_lem}
use my_sqloo.LuaStack.Reporter.{left_over, pcall_with_error_reporter_lem, pop_lem, protected_call}
use my_sqloo.Objects.{IQueryData}

-- `PCall` succeeds, or fails with an error of the function that it calls.
abbrev pub Completes : LuaBase → Type 0
Completes L =
    (nargs handler : ℕ) (l : L.Lua) → let r = L.pcall nargs 0 handler l in (r.0 ≡ 0) ⊎ (r.0 ≡ 2)

module _ (L : LuaBase) (D : Documented L) (completes : Completes L) where
  open L use {
    Lua, Heap, Value, values, heap, referenced, text, reference_push, insert, push_reporter,
  }

  left_over_nothing : (code : ℕ) → (code ≡ 0) ⊎ (code ≡ 2) → left_over L D code ≡ []
  left_over_nothing code (inl e) = rw (e) refl
  left_over_nothing code (inr e) = rw (e) refl

  pub reporter_balance :
      (args rest : List Value) (f : Value) (l : Lua)
      → values l ≡ args ++ f ∷ rest
      → values (pcall_with_error_reporter L (length args) l) ≡ rest
  reporter_balance args rest f l e =
      pcall_with_error_reporter_lem L D args rest f l e
      ∙ ap (λ xs. xs ++ rest)
          (left_over_nothing (protected_call L D (length args) rest l).0 (
            completes (length args) (suc (length rest))
              (insert (suc (length rest)) (push_reporter l))))

  when_found_balance :
      (c : Callback) (r : Bool × Lua) (run : Lua → Lua) (h : Heap) (ys : List Value)
      → r.0 ≡ is_called c
      → HasStack L h (found_values L c h ++ ys) r.1
      → ((f : Value) (l : Lua) → HasStack L h (f ∷ ys) l → values (run l) ≡ ys)
      → values (when_found L r run) ≡ ys
  when_found_balance (at_reference ref) (true, l) run h ys e s ran = ran (referenced ref h) l s
  when_found_balance (at_field table name) (true, l) run h ys e s ran =
      ran (looked_up L table name h) l s
  when_found_balance no_callback (false, l) run h ys e s ran = s.1
  when_found_balance (at_reference ref) (false, l) run h ys e s ran = cc e
  when_found_balance (at_field table name) (false, l) run h ys e s ran = cc e
  when_found_balance no_callback (true, l) run h ys e s ran = cc e

  push_balance :
      (function : ℕ) (name : String) (v : IQueryData) (run : Lua → Lua) (h : Heap) (x : Value)
      (rest : List Value) (l : Lua)
      → HasStack L h (x ∷ rest) l
      → ((f below : Value) (l' : Lua)
          → HasStack L h (f ∷ below ∷ rest) l'
          → values (run l') ≡ below ∷ rest)
      → values (
          when_found L
            (push_callback_on_stack L function v.table_reference name v.was_first_data l)
            run)
        ≡ below_found L function v h x ∷ rest
  push_balance function name v run h x rest l s ran =
      let r = push_callback_on_stack L function v.table_reference name v.was_first_data l in
      let (flag, after) =
        push_callback_on_stack_lem L D function v.table_reference name v.was_first_data h x rest l
          s in
      let below = below_found L function v h x in
      when_found_balance (found L function name v h l) r run h (below ∷ rest) flag after
        (λ f. ran f below)

  no_table :
      (none_set allow no_table' : Bool) (own x : Value) (rest : List Value) (l l' : Lua)
      → let ys = (if none_set && allow && not no_table' then own else x) ∷ rest in
        values l ≡ x ∷ rest → values l' ≡ ys → values (if no_table' then l else l') ≡ ys
  no_table true true true own x rest l l' e e' = e
  no_table true false true own x rest l l' e e' = e
  no_table false allow true own x rest l l' e e' = e
  no_table none_set allow false own x rest l l' e e' = e'

  aborted_balance :
      (v : IQueryData) (h : Heap) (x : Value) (rest : List Value) (l : Lua)
      → HasStack L h (x ∷ rest) l
      → values (aborted_on_stack L v l) ≡ below_found L v.abort_reference v h x ∷ rest
  unfolding aborted_on_stack
  aborted_balance v h x rest l s =
      let own = referenced v.table_reference h in
      let run : Lua → Lua =
        λ l'. pcall_with_error_reporter L 1 (reference_push v.table_reference l') in
      no_table (v.abort_reference == 0) v.was_first_data (v.table_reference == 0) own x rest l
        (when_found L
          (push_callback_on_stack L v.abort_reference v.table_reference "onAborted" v.was_first_data
            l)
          run)
        s.1
        (push_balance v.abort_reference "onAborted" v run h x rest l s (λ f below l' s'.
          reporter_balance (own ∷ []) (below ∷ rest) f (reference_push v.table_reference l')
            (D.reference_push_law h (f ∷ below ∷ rest) v.table_reference l' s').1))

  error_balance :
      (sql : String) (v : IQueryData) (h : Heap) (x : Value) (rest : List Value) (l : Lua)
      → HasStack L h (x ∷ rest) l
      → values (error_on_stack L sql v l) ≡ below_found L v.error_reference v h x ∷ rest
  unfolding error_on_stack
  error_balance sql v h x rest l s =
      let own = referenced v.table_reference h in
      let run : Lua → Lua = λ l'. pcall_with_error_reporter L 3 (failure_arguments L sql v l') in
      no_table (v.error_reference == 0) v.was_first_data (v.table_reference == 0) own x rest l
        (when_found L
          (push_callback_on_stack L v.error_reference v.table_reference "onError" v.was_first_data
            l)
          run)
        s.1
        (push_balance v.error_reference "onError" v run h x rest l s (λ f below l' s'.
          reporter_balance (text sql ∷ text v.error_text ∷ own ∷ []) (below ∷ rest) f
            (failure_arguments L sql v l')
            (failure_arguments_lem L D sql v h (f ∷ below ∷ rest) l' s').1))

  success_balance :
      (ref : ℕ) (v : IQueryData) (h : Heap) (x : Value) (rest : List Value) (l : Lua)
      → HasStack L h (x ∷ rest) l
      → values (query_success_on_stack L v ref l) ≡ below_found L v.success_reference v h x ∷ rest
  unfolding query_success_on_stack
  success_balance ref v h x rest l s =
      push_balance v.success_reference "onSuccess" v
        (λ l'. pcall_with_error_reporter L 2 (success_arguments L v ref l')) h x rest l s
        (λ f below l' s'.
          reporter_balance (referenced ref h ∷ referenced v.table_reference h ∷ []) (below ∷ rest) f
            (success_arguments L v ref l')
            (success_arguments_lem L D v ref h (f ∷ below ∷ rest) l' s').1)

  transaction_balance :
      (v : IQueryData) (h : Heap) (x : Value) (rest : List Value) (l : Lua)
      → HasStack L h (x ∷ rest) l
      → values (transaction_success_on_stack L v l) ≡ rest
  unfolding transaction_success_on_stack
  transaction_balance v h x rest l s =
      let run : Lua → Lua = λ l'. pcall_with_error_reporter L 2 (transaction_arguments L v l') in
      pop_lem L D (below_found L v.success_reference v h x ∷ []) rest
        (when_found L
          (push_callback_on_stack L v.success_reference v.table_reference "onSuccess"
            v.was_first_data l)
          run)
        (push_balance v.success_reference "onSuccess" v run h x rest l s (λ f below l' s'.
          reporter_balance (below ∷ referenced v.table_reference h ∷ []) (below ∷ rest) f
            (transaction_arguments L v l')
            (transaction_arguments-below L D v h f below rest l' s').1))

  -- When `PCall` returns 0 or 2: the callbacks for an abort, for an error and for the success of a query
  -- leave as many values on the stack as there were, whether a callback is found or not and whether it
  -- fails or not. The one on top is the table of the query where this table was looked into, and else the
  -- caller's. The callback for the success of a transaction pops the table of the results, and all
  -- below is kept.
  pub callbacks_balance :
      (sql : String) (v : IQueryData) (ref : ℕ) (h : Heap) (x : Value) (rest : List Value) (l : Lua)
      → HasStack L h (x ∷ rest) l
      → (values (aborted_on_stack L v l) ≡ below_found L v.abort_reference v h x ∷ rest)
        × (values (error_on_stack L sql v l) ≡ below_found L v.error_reference v h x ∷ rest)
        × (values (query_success_on_stack L v ref l)
            ≡ below_found L v.success_reference v h x ∷ rest)
        × (values (transaction_success_on_stack L v l) ≡ rest)
  callbacks_balance sql v ref h x rest l s = (
    aborted_balance v h x rest l s,
    error_balance sql v h x rest l s,
    success_balance ref v h x rest l s,
    transaction_balance v h x rest l s,
  )
