-- ===== src/LuaStack/Arguments.antt =====
-- The stack at the calls of the callbacks of src/lua/LuaIQuery.cpp, LuaQuery.cpp and LuaTransaction.cpp.
use my_sqloo.Base.{
  ℕ, ◌≡◌, ◌∙◌, refl, subst, sym, Bool, true, false, not, ◌&&◌, String, List, [], ◌∷◌, ◌++◌, ◌==◌,
  if◌then◌else◌,
}
use my_sqloo.Callbacks.{Callback, at_reference, at_field, no_callback, push_callback_reference}
use my_sqloo.LuaCallbacks.Rows.{is_called}
use my_sqloo.LuaStack.{
  LuaBase, HasStack, Documented, push_callback_on_stack, failure_arguments, success_arguments,
  transaction_arguments,
}
use my_sqloo.LuaStack.Found.{found_values, looked_up, is_consulted, push_callback_on_stack_lem}
use my_sqloo.Objects.{IQueryData}

module _ (L : LuaBase) where
  open L use {Lua, Heap, Value, referenced, is_function}

  -- What `pushCallbackReference` finds for query data.
  abbrev pub found : ℕ → String → IQueryData → Heap → Lua → Callback
  found function name v h l =
      push_callback_reference (λ t field l'. is_function (looked_up L t field h)) function
        v.table_reference name v.was_first_data l

  -- The value of the caller under it.
  abbrev pub below_found : ℕ → IQueryData → Heap → Value → Value
  below_found function v h x =
      if is_consulted function v.table_reference v.was_first_data
      then referenced v.table_reference h
      else x

  abbrev pub stack_with : ℕ → String → IQueryData → Heap → Value → List Value → Lua → List Value
  stack_with function name v h x rest l =
      found_values L (found function name v h l) h ++ below_found function v h x ∷ rest

module _ (L : LuaBase) (D : Documented L) where
  open L use {Lua, Heap, Value, referenced, is_function, text, reference_push, push_string}

  pub failure_arguments_lem :
      (sql : String) (v : IQueryData) (h : Heap) (xs : List Value) (l : Lua)
      → HasStack L h xs l
      → HasStack L h
          (text sql ∷ text v.error_text ∷ referenced v.table_reference h ∷ xs)
          (failure_arguments L sql v l)
  unfolding failure_arguments
  failure_arguments_lem sql v h xs l s =
      let own = reference_push v.table_reference l in
      D.push_string_law h (text v.error_text ∷ referenced v.table_reference h ∷ xs) sql
        (push_string v.error_text own)
        (D.push_string_law h (referenced v.table_reference h ∷ xs) v.error_text own
          (D.reference_push_law h xs v.table_reference l s))

  pub success_arguments_lem :
      (v : IQueryData) (ref : ℕ) (h : Heap) (xs : List Value) (l : Lua)
      → HasStack L h xs l
      → HasStack L h
          (referenced ref h ∷ referenced v.table_reference h ∷ xs)
          (success_arguments L v ref l)
  unfolding success_arguments
  success_arguments_lem v ref h xs l s =
      D.reference_push_law h (referenced v.table_reference h ∷ xs) ref
        (reference_push v.table_reference l) (D.reference_push_law h xs v.table_reference l s)

  -- The value below the function is copied.
  pub transaction_arguments-below :
      (v : IQueryData) (h : Heap) (f below : Value) (rest : List Value) (l : Lua)
      → HasStack L h (f ∷ below ∷ rest) l
      → HasStack L h
          (below ∷ referenced v.table_reference h ∷ f ∷ below ∷ rest)
          (transaction_arguments L v l)
  unfolding transaction_arguments
  transaction_arguments-below v h f below rest l s =
      let own = referenced v.table_reference h in
      D.push_from_top_law h (own ∷ f ∷ []) rest below (reference_push v.table_reference l)
        (D.reference_push_law h (f ∷ below ∷ rest) v.table_reference l s)

  -- The second argument, for each way in which the callback is found.
  abbrev pub handed : Callback → Value → Value → Value
  handed (at_field table name) own results = own
  handed _ own results = results

  below-handed :
      (none_set allow no_table b : Bool) (function table : ℕ) (name : String) (own results : Value)
      → let c =
          if not none_set
          then at_reference function
          else if allow && not no_table
          then if b then at_field table name else no_callback
          else no_callback in
        is_called c ≡ true
        → (if none_set && allow && not no_table then own else results) ≡ handed c own results
  below-handed false allow no_table b function table name own results e = refl
  below-handed true false no_table b function table name own results e = refl
  below-handed true true true b function table name own results e = refl
  below-handed true true false true function table name own results e = refl
  below-handed true true false false function table name own results e = cc e

  with_found :
      (c : Callback) (v : IQueryData) (h : Heap) (below : Value) (rest : List Value) (l : Lua)
      → is_called c ≡ true
      → HasStack L h (found_values L c h ++ below ∷ rest) l
      → HasStack L h
          (below ∷ referenced v.table_reference h ∷ found_values L c h ++ below ∷ rest)
          (transaction_arguments L v l)
  with_found (at_reference ref) v h below rest l e s =
      transaction_arguments-below v h (referenced ref h) below rest l s
  with_found (at_field table name) v h below rest l e s =
      transaction_arguments-below v h (looked_up L table name h) below rest l s
  with_found no_callback v h below rest l e s = cc e

  -- With the table of the results on top, and a callback for success found: the arguments of the callback
  -- are the table of the transaction and the table of the results when the callback is at a reference, but
  -- twice the table of the transaction when the callback was found in a field of that table.
  pub transaction_arguments_lem :
      (v : IQueryData) (h : Heap) (results : Value) (rest : List Value) (l : Lua)
      → HasStack L h (results ∷ rest) l
      → let own = referenced v.table_reference h in
        let c = found L v.success_reference "onSuccess" v h l in
        let r =
          push_callback_on_stack L v.success_reference v.table_reference "onSuccess"
            v.was_first_data l in
        r.0 ≡ true
        → HasStack L h
            (handed c own results ∷ own ∷ found_values L c h ++ handed c own results ∷ rest)
            (transaction_arguments L v r.1)
  unfolding push_callback_reference
  transaction_arguments_lem v h results rest l s e =
      let own = referenced v.table_reference h in
      let function = v.success_reference in
      let c = found L function "onSuccess" v h l in
      let r = push_callback_on_stack L function v.table_reference "onSuccess" v.was_first_data l in
      let (flag, after) =
        push_callback_on_stack_lem L D function v.table_reference "onSuccess" v.was_first_data h
          results rest l s in
      let called = sym flag ∙ e in
      subst
        (λ below.
          HasStack L h (below ∷ own ∷ found_values L c h ++ below ∷ rest)
            (transaction_arguments L v r.1))
        (below-handed (function == 0) v.was_first_data (v.table_reference == 0)
          (is_function (looked_up L v.table_reference "onSuccess" h)) function v.table_reference
          "onSuccess" own results called)
        (with_found c v h (below_found L function v h results) rest r.1 called after)
