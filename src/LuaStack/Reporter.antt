-- ===== src/LuaStack/Reporter.antt =====
-- `pcallWithErrorReporter` of src/lua/LuaObject.cpp, for every code that `PCall` can return.
use mathlib.Core.List.{append_assoc}
use my_sqloo.Base.{
  ℕ, suc, ◌-◌, ◌≡◌, ◌≢◌, ◌∙◌, refl, ap, subst, sym, Bool, true, false, ◌||◌, List, [], ◌∷◌, ◌++◌,
  length, length-append, arith, ◌==◌, ==_iff, if◌then◌else◌,
}
use my_sqloo.LuaStack.{LuaBase, HasStack, Documented, report_stack_trace, pcall_with_error_reporter}

module _ (L : LuaBase) (D : Documented L) where
  open L use {
    Lua, Value, values, heap, field_of, is_function, error_reporter, globals, top, push_from_top,
    pop, insert, push_reporter, push_globals, get_field, is_type_function, call, pcall,
  }

  pub pop_lem :
      (xs ys : List Value) (l : Lua) → values l ≡ xs ++ ys → values (pop (length xs) l) ≡ ys
  pop_lem xs ys l e = (D.pop_law (heap l) xs ys l (refl, e)).1

  reported :
      (b : Bool) (h : L.Heap) (field message : Value) (rest : List Value) (l : Lua)
      → HasStack L h (field ∷ globals ∷ message ∷ rest) l
      → values (if b then pop 2 (call 1 0 (push_from_top 3 l)) else pop 3 l) ≡ rest
  reported true h field message rest l s =
      pop_lem (globals ∷ message ∷ []) rest (call 1 0 (push_from_top 3 l)) (
        D.call_law (message ∷ []) (globals ∷ message ∷ rest) field (push_from_top 3 l)
          (D.push_from_top_law h (field ∷ globals ∷ []) rest message l s).1)
  reported false h field message rest l s = pop_lem (field ∷ globals ∷ message ∷ []) rest l s.1

  report_stack_trace_lem :
      (message : Value) (rest : List Value) (l : Lua)
      → values l ≡ message ∷ rest
      → values (report_stack_trace L l) ≡ rest
  unfolding report_stack_trace
  report_stack_trace_lem message rest l e =
      let l' = get_field "ErrorNoHalt" (push_globals l) in
      reported (is_type_function l') (heap l) (field_of globals "ErrorNoHalt" (heap l)) message rest
        l'
        (D.get_field_law (heap l) (message ∷ rest) globals "ErrorNoHalt" (push_globals l)
          (D.push_globals_law (heap l) (message ∷ rest) l (refl, e)))

  -- The value that stays on the stack after a code that the function does not know.
  abbrev pub left_over : ℕ → List Value
  left_over code = if (code == 0) || (code == 2) then [] else error_reporter ∷ []

  -- The protected call that is made with these values below the function.
  abbrev pub protected_call : ℕ → List Value → Lua → ℕ × Lua
  protected_call nargs rest l =
      let handler = suc (length rest) in pcall nargs 0 handler (insert handler (push_reporter l))

  after_call :
      (zero two : Bool) (rest : List Value) (l : Lua)
      → (zero ≡ true → (two ≡ false) × (values l ≡ error_reporter ∷ rest))
      → (zero ≡ false → (message : Value) × (values l ≡ message ∷ error_reporter ∷ rest))
      → values (pop 1 (if two then report_stack_trace L l else l))
        ≡ (if zero || two then [] else error_reporter ∷ []) ++ rest
  after_call true true rest l ok error = cc ((ok refl).0)
  after_call true false rest l ok error = pop_lem (error_reporter ∷ []) rest l (ok refl).1
  after_call false true rest l ok error =
      let (message, e) = error refl in
      pop_lem (error_reporter ∷ []) rest (report_stack_trace L l)
        (report_stack_trace_lem message (error_reporter ∷ rest) l e)
  after_call false false rest l ok error =
      let (message, e) = error refl in pop_lem (message ∷ []) (error_reporter ∷ rest) l e

  zero→not_two : (code : ℕ) → (code == 0) ≡ true → (code == 2) ≡ false
  zero→not_two code e = ground arith

  not_zero : (code : ℕ) → (code == 0) ≡ false → code ≢ 0
  not_zero code e z = ground arith

  pub pcall_with_error_reporter_lem :
      (args rest : List Value) (f : Value) (l : Lua)
      → values l ≡ args ++ f ∷ rest
      → values (pcall_with_error_reporter L (length args) l)
        ≡ left_over (protected_call (length args) rest l).0 ++ rest
  unfolding pcall_with_error_reporter
  pcall_with_error_reporter_lem args rest f l e =
      let reporter = push_reporter l in
      let s = D.push_reporter_law (heap l) (args ++ f ∷ rest) l (refl, e) in
      let at' : suc (length rest) ≡ (top reporter - length args) - 1 = omega (
        arith,
        D.top_law (heap l) (error_reporter ∷ args ++ f ∷ rest) reporter s,
        length-append args (f ∷ rest),
      ) in
      let inserted = insert (suc (length rest)) reporter in
      let s2 =
        D.insert_law (heap l) (args ++ f ∷ []) rest error_reporter reporter
          (s.0, s.1 ∙ ap (λ xs. error_reporter ∷ xs) (sym (append_assoc args (f ∷ []) rest))) in
      let (ok, error) =
        D.pcall_law args (error_reporter ∷ rest) f (suc (length rest)) inserted
          (s2.1 ∙ append_assoc args (f ∷ []) (error_reporter ∷ rest)) in
      let r = protected_call (length args) rest l in
      subst
        (λ handler.
          let r' = pcall (length args) 0 handler (insert handler reporter) in
          values (pop 1 (if r'.0 == 2 then report_stack_trace L r'.1 else r'.1))
          ≡ left_over r.0 ++ rest)
        at'
        (after_call (r.0 == 0) (r.0 == 2) rest r.1
          (λ z. (zero→not_two r.0 z, ok ((==_iff r.0 0).0 z))) (λ z. error (not_zero r.0 z)))
