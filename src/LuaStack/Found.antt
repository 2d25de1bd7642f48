-- ===== src/LuaStack/Found.antt =====
-- What `pushCallbackReference` of src/lua/LuaObject.cpp leaves on the stack.
use my_sqloo.Base.{
  ℕ, suc, ◌-◌, ◌≡◌, ◌∙◌, refl, ap, subst, Bool, true, false, not, ◌&&◌, String, List, [], ◌∷◌, ◌++◌,
  length, arith, ◌==◌, if◌then◌else◌,
}
use my_sqloo.Callbacks.{Callback, at_reference, at_field, no_callback, push_callback_reference}
use my_sqloo.LuaCallbacks.Rows.{is_called}
use my_sqloo.LuaStack.{LuaBase, HasStack, Documented, push_field_callback, push_callback_on_stack}

-- The table is consulted.
abbrev pub is_consulted : ℕ → ℕ → Bool → Bool
is_consulted function table allow_callback = (function == 0) && allow_callback && not (table == 0)

module _ (L : LuaBase) where
  open L use {Heap, Value, referenced, field_of}

  -- The value that is looked up in the table.
  abbrev pub looked_up : ℕ → String → Heap → Value
  looked_up table name h = field_of (referenced table h) name h

  -- The value that stands for what was found.
  abbrev pub found_values : Callback → Heap → List Value
  found_values (at_reference ref) h = referenced ref h ∷ []
  found_values (at_field table name) h = looked_up table name h ∷ []
  found_values no_callback h = []

module _ (L : LuaBase) (D : Documented L) where
  open L use {
    Lua, Heap, Value, referenced, is_function, top, pop, remove, reference_push, get_field,
    is_type_function,
  }

  kept_if_function :
      (b : Bool) (h : Heap) (x : Value) (ys : List Value) (l : Lua)
      → HasStack L h (x ∷ ys) l
      → is_type_function l ≡ b
      → let r : Bool × Lua = if is_type_function l then (true, l) else (false, pop 1 l) in
        (r.0 ≡ b) × HasStack L h ((if b then x ∷ [] else []) ++ ys) r.1
  kept_if_function true h x ys l s e = rw (e) (refl, s)
  kept_if_function false h x ys l s e = rw (e) (refl, D.pop_law h (x ∷ []) ys l s)

  push_field_callback_lem :
      (table : ℕ) (name : String) (h : Heap) (x : Value) (rest : List Value) (l : Lua)
      → HasStack L h (x ∷ rest) l
      → let b = is_function (looked_up L table name h) in
        let r = push_field_callback L table name l in
        (r.0 ≡ b)
        × HasStack L h
            ((if b then looked_up L table name h ∷ [] else []) ++ referenced table h ∷ rest)
            r.1
  unfolding push_field_callback
  push_field_callback_lem table name h x rest l s =
      let t = referenced table h in
      let found = looked_up L table name h in
      let field = get_field name (reference_push table l) in
      let s1 =
        D.get_field_law h (x ∷ rest) t name (reference_push table l)
          (D.reference_push_law h (x ∷ rest) table l s) in
      let at' : suc (length rest) ≡ top field - 2 =
        omega (arith, D.top_law h (found ∷ t ∷ x ∷ rest) field s1) in
      let s2 =
        subst (λ i. HasStack L h (found ∷ t ∷ rest) (remove i field)) at'
          (D.remove_law h (found ∷ t ∷ []) rest x field s1) in
      kept_if_function (is_function found) h found (t ∷ rest) (remove (top field - 2) field) s2
        (D.is_function_law h (t ∷ rest) found (remove (top field - 2) field) s2)

  -- The three tests, as Booleans.
  abbrev found_by : Bool → Bool → Bool → ℕ → ℕ → String → Heap → Callback
  found_by none_set allow no_table function table name h =
      if not none_set
      then at_reference function
      else if allow && not no_table
      then if is_function (looked_up L table name h) then at_field table name else no_callback
      else no_callback

  abbrev pushed_by : Bool → Bool → Bool → ℕ → ℕ → String → Lua → Bool × Lua
  pushed_by none_set allow no_table function table name l =
      if not none_set
      then (true, reference_push function l)
      else if allow && not no_table
      then push_field_callback L table name l
      else (false, l)

  as_found :
      (b : Bool) (table : ℕ) (name : String) (h : Heap)
      → let c = if b then at_field table name else no_callback in
        (b ≡ is_called c) × ((if b then looked_up L table name h ∷ [] else []) ≡ found_values L c h)
  as_found true table name h = (refl, refl)
  as_found false table name h = (refl, refl)

  found_by_cases :
      (none_set allow no_table : Bool) (function table : ℕ) (name : String) (h : Heap) (x : Value)
      (rest : List Value) (l : Lua)
      → HasStack L h (x ∷ rest) l
      → let c = found_by none_set allow no_table function table name h in
        let r = pushed_by none_set allow no_table function table name l in
        (r.0 ≡ is_called c)
        × HasStack L h
            (found_values L c h
              ++ (if none_set && allow && not no_table then referenced table h else x) ∷ rest)
            r.1
  found_by_cases false allow no_table function table name h x rest l s =
      (refl, D.reference_push_law h (x ∷ rest) function l s)
  found_by_cases true false no_table function table name h x rest l s = (refl, s)
  found_by_cases true true true function table name h x rest l s = (refl, s)
  found_by_cases true true false function table name h x rest l s =
      let (flag, (same, after)) = push_field_callback_lem table name h x rest l s in
      let (called, pushed) = as_found (is_function (looked_up L table name h)) table name h in
      (flag ∙ called, (same, after ∙ ap (λ xs. xs ++ referenced table h ∷ rest) pushed))

  -- With a value of the caller on the stack, `pushCallbackReference` answers that it found a callback
  -- exactly when `push_callback_reference` of Callbacks does, and leaves the function that it found on top
  -- and nothing without one. Where it looked into the table of the query, that table is in place of the
  -- value that the caller had on top, and else this value is kept; all below is kept.
  pub push_callback_on_stack_lem :
      (function table : ℕ) (name : String) (allow_callback : Bool) (h : Heap) (x : Value)
      (rest : List Value) (l : Lua)
      → HasStack L h (x ∷ rest) l
      → let c =
          push_callback_reference
            (λ t field l'. is_function (looked_up L t field h))
            function
            table
            name
            allow_callback
            l in
        let r = push_callback_on_stack L function table name allow_callback l in
        (r.0 ≡ is_called c)
        × HasStack L h
            (found_values L c h
              ++ (if is_consulted function table allow_callback then referenced table h else x)
                ∷ rest)
            r.1
  unfolding push_callback_on_stack push_callback_reference
  push_callback_on_stack_lem function table name allow_callback h x rest l s =
      found_by_cases (function == 0) allow_callback (table == 0) function table name h x rest l s
