-- ===== src/Tests/Stack.antt =====
-- The theorems on the stack of Lua values at a concrete stack. The function at reference 5 fails.
use my_sqloo.Base.{
  ℕ, zero, suc, ◌+◌, ◌-◌, ◌≡◌, ◌≢◌, ◌∙◌, refl, ap, sym, Bool, true, false, List, [], ◌∷◌, ◌++◌,
  length, length-append, arith, ltb, ◌==◌, ◌⊎◌, inl, inr,
}
use my_sqloo.Callbacks.{push_callback_reference}
use my_sqloo.LuaStack.{
  LuaBase, HasStack, Documented, push_callback_on_stack, push_field_callback, transaction_arguments,
  aborted_on_stack, error_on_stack, query_success_on_stack, transaction_success_on_stack,
}
use my_sqloo.LuaStack.Arguments.{transaction_arguments_lem}
use my_sqloo.LuaStack.Balance.{Completes, callbacks_balance}
use my_sqloo.LuaStack.Found.{push_callback_on_stack_lem}
use my_sqloo.Objects.{IQueryData}
use my_sqloo.Tests.Fixtures.{test_data}

abbrev drop : ℕ → List ℕ → List ℕ
drop zero xs = xs
drop (suc n) [] = []
drop (suc n) (x ∷ xs) = drop n xs

abbrev erase_at : ℕ → List ℕ → List ℕ
erase_at n [] = []
erase_at zero (x ∷ xs) = xs
erase_at (suc n) (x ∷ xs) = x ∷ erase_at n xs

abbrev insert_at : ℕ → ℕ → List ℕ → List ℕ
insert_at zero y xs = y ∷ xs
insert_at (suc n) y [] = y ∷ []
insert_at (suc n) y (x ∷ xs) = x ∷ insert_at n y xs

abbrev value_at : ℕ → List ℕ → ℕ
value_at n [] = 0
value_at zero (x ∷ xs) = x
value_at (suc n) (x ∷ xs) = value_at n xs

abbrev insert_top : ℕ → List ℕ → List ℕ
insert_top at' [] = []
insert_top at' (x ∷ xs) = insert_at (suc (length xs) - at') x xs

-- A call fails with a message in place of the values that are popped.
abbrev call_with : Bool → List ℕ → ℕ × List ℕ
call_with true rest = (2, 6 ∷ rest)
call_with false rest = (0, rest)

abbrev test_stack : LuaBase
test_stack = record {
  Lua = List ℕ;
  Heap = ℕ;
  Value = ℕ;
  values = λ l. l;
  heap = λ l. 0;
  referenced = λ ref h. 100 + ref;
  field_of = λ table name h. 1000 + table;
  is_function = λ x. ltb 1000 x;
  error_reporter = 7;
  globals = 8;
  text = λ s. 9;
  top = λ l. length l;
  push_from_top = λ k l. value_at (k - 1) l ∷ l;
  pop = drop;
  remove = λ at' l. erase_at (length l - at') l;
  insert = insert_top;
  reference_push = λ ref l. (100 + ref) ∷ l;
  push_reporter = λ l. 7 ∷ l;
  push_globals = λ l. 8 ∷ l;
  push_string = λ s l. 9 ∷ l;
  get_field = λ name l. (1000 + value_at 0 l) ∷ l;
  is_type_function = λ l. ltb 1000 (value_at 0 l);
  call = λ nargs results l. drop (suc nargs) l;
  pcall = λ nargs results handler l. call_with (value_at nargs l == 105) (drop (suc nargs) l);
}

drop_lem : (xs ys : List ℕ) → drop (length xs) (xs ++ ys) ≡ ys
drop_lem [] ys = refl
drop_lem (x ∷ xs) ys = drop_lem xs ys

drop-suc : (xs ys : List ℕ) (y : ℕ) → drop (suc (length xs)) (xs ++ y ∷ ys) ≡ ys
drop-suc [] ys y = refl
drop-suc (x ∷ xs) ys y = drop-suc xs ys y

erase_at_lem : (xs ys : List ℕ) (y : ℕ) → erase_at (length xs) (xs ++ y ∷ ys) ≡ xs ++ ys
erase_at_lem [] ys y = refl
erase_at_lem (x ∷ xs) ys y = ap (λ rest. x ∷ rest) (erase_at_lem xs ys y)

insert_at_lem : (xs ys : List ℕ) (y : ℕ) → insert_at (length xs) y (xs ++ ys) ≡ xs ++ y ∷ ys
insert_at_lem [] ys y = refl
insert_at_lem (x ∷ xs) ys y = ap (λ rest. x ∷ rest) (insert_at_lem xs ys y)

value_at_lem : (xs ys : List ℕ) (y : ℕ) → value_at (length xs) (xs ++ y ∷ ys) ≡ y
value_at_lem [] ys y = refl
value_at_lem (x ∷ xs) ys y = value_at_lem xs ys y

-- The documented behaviour, on these lists.
remove_at :
    (xs ys : List ℕ) (x : ℕ) (l : List ℕ)
    → l ≡ xs ++ x ∷ ys
    → test_stack.remove (suc (length ys)) l ≡ xs ++ ys
remove_at xs ys x l e =
    let at' : length xs ≡ length (xs ++ x ∷ ys) - suc (length ys) =
      omega (arith, length-append xs (x ∷ ys)) in
    ap (λ l'. erase_at (length l' - suc (length ys)) l') e
    ∙ sym (ap (λ i. erase_at i (xs ++ x ∷ ys)) at')
    ∙ erase_at_lem xs ys x

inserted_at :
    (xs ys : List ℕ) (x : ℕ) (l : List ℕ)
    → l ≡ x ∷ xs ++ ys
    → test_stack.insert (suc (length ys)) l ≡ xs ++ x ∷ ys
inserted_at xs ys x l e =
    let at' : length xs ≡ suc (length (xs ++ ys)) - suc (length ys) =
      omega (arith, length-append xs ys) in
    ap (insert_top (suc (length ys))) e
    ∙ sym (ap (λ i. insert_at i x (xs ++ ys)) at')
    ∙ insert_at_lem xs ys x

pushed_at :
    (xs ys : List ℕ) (x : ℕ) (l : List ℕ)
    → l ≡ xs ++ x ∷ ys
    → test_stack.push_from_top (suc (length xs)) l ≡ x ∷ xs ++ x ∷ ys
pushed_at xs ys x l e =
    let at' : length xs ≡ suc (length xs) - 1 = omega arith in
    ap (λ l'. value_at (suc (length xs) - 1) l' ∷ l') e
    ∙ ap (λ y. y ∷ xs ++ x ∷ ys)
        (sym (ap (λ i. value_at i (xs ++ x ∷ ys)) at') ∙ value_at_lem xs ys x)

called_with :
    (b : Bool) (rest' rest : List ℕ)
    → rest' ≡ rest
    → let r = call_with b rest' in
      (r.0 ≡ 0 → r.1 ≡ rest) × (r.0 ≢ 0 → (message : ℕ) × (r.1 ≡ message ∷ rest))
called_with true rest' rest e = (λ two. ground arith, λ two. (6, ap (λ l. 6 ∷ l) e))
called_with false rest' rest e = (λ z. e, λ nz. elim (nz refl) [ ])

test_stack-Documented : Documented test_stack
test_stack-Documented = record {
  top_law = λ h xs l s. ap length s.1;
  push_from_top_law = λ h xs ys x l s. (s.0, pushed_at xs ys x l s.1);
  pop_law = λ h xs ys l s. (s.0, ap (drop (length xs)) s.1 ∙ drop_lem xs ys);
  remove_law = λ h xs ys x l s. (s.0, remove_at xs ys x l s.1);
  insert_law = λ h xs ys x l s. (s.0, inserted_at xs ys x l s.1);
  reference_push_law = λ h xs ref l s. (s.0, ap (λ l'. (100 + ref) ∷ l') s.1);
  push_reporter_law = λ h xs l s. (s.0, ap (λ l'. 7 ∷ l') s.1);
  push_globals_law = λ h xs l s. (s.0, ap (λ l'. 8 ∷ l') s.1);
  push_string_law = λ h xs text l s. (s.0, ap (λ l'. 9 ∷ l') s.1);
  get_field_law = λ h xs x name l s. (s.0, ap (λ l'. (1000 + value_at 0 l') ∷ l') s.1);
  is_function_law = λ h xs x l s. ap (λ l'. ltb 1000 (value_at 0 l')) s.1;
  call_law = λ args rest f l e. ap (drop (suc (length args))) e ∙ drop-suc args rest f;
  pcall_law = λ args rest f handler l e.
      called_with (value_at (length args) l == 105) (drop (suc (length args)) l) rest
        (ap (drop (suc (length args))) e ∙ drop-suc args rest f);
}

-- Data that was started first, with a callback for errors set and the others looked up in the table.
abbrev callback_data : IQueryData
callback_data = record test_data { table_reference = 3; error_reference = 5; was_first_data = true }

push_callback_on_stack_lem_example :
    let r = push_callback_on_stack test_stack 0 3 "onSuccess" true (55 ∷ 44 ∷ []) in
    (r.0 ≡ true) × HasStack test_stack 0 (1103 ∷ 103 ∷ 44 ∷ []) r.1
unfolding push_callback_reference
push_callback_on_stack_lem_example =
    push_callback_on_stack_lem test_stack test_stack-Documented 0 3 "onSuccess" true 0 55 (44 ∷ [])
      (55 ∷ 44 ∷ []) (refl, refl)

transaction_arguments_lem_example :
    let r = push_callback_on_stack test_stack 0 3 "onSuccess" true (55 ∷ 44 ∷ []) in
    HasStack test_stack 0
      (103 ∷ 103 ∷ 1103 ∷ 103 ∷ 44 ∷ [])
      (transaction_arguments test_stack callback_data r.1)
unfolding push_callback_reference push_callback_on_stack push_field_callback
transaction_arguments_lem_example =
    transaction_arguments_lem test_stack test_stack-Documented callback_data 0 55 (44 ∷ [])
      (55 ∷ 44 ∷ []) (refl, refl) refl

call_completes : (b : Bool) (rest : List ℕ) → let r = call_with b rest in (r.0 ≡ 0) ⊎ (r.0 ≡ 2)
call_completes true rest = inr refl
call_completes false rest = inl refl

test_stack-Completes : Completes test_stack
test_stack-Completes nargs handler l = call_completes (value_at nargs l == 105) (drop (suc nargs) l)

callbacks_balance_example :
    (aborted_on_stack test_stack callback_data (55 ∷ 44 ∷ []) ≡ 103 ∷ 44 ∷ [])
    × (error_on_stack test_stack "SELECT 1" callback_data (55 ∷ 44 ∷ []) ≡ 55 ∷ 44 ∷ [])
    × (query_success_on_stack test_stack callback_data 20 (55 ∷ 44 ∷ []) ≡ 103 ∷ 44 ∷ [])
    × (transaction_success_on_stack test_stack callback_data (55 ∷ 44 ∷ []) ≡ 44 ∷ [])
callbacks_balance_example =
    callbacks_balance test_stack test_stack-Documented test_stack-Completes "SELECT 1" callback_data
      20 0 55 (44 ∷ []) (55 ∷ 44 ∷ []) (refl, refl)
