-- ===== src/Bindings/Parameters/History.antt =====
-- The calls of src/lua/LuaPreparedQuery.cpp as logs: each set of parameters is the log of the calls that were
-- accepted for it, and the last call for an index counts.
use my_sqloo.Base.{
  ℕ, zero, suc, ◌≡◌, ◌∙◌, refl, ap, Bool, true, false, String, Option, none, some, List, [], ◌∷◌,
  ◌++◌, ◌==◌, ltb, if◌then◌else◌, arith, Bool-cases, inl, inr,
}
use my_sqloo.Bindings.{LuaArguments, Casts, string_type, number_type, bool_type, settle}
use my_sqloo.Bindings.Parameters.{
  ParameterCall, number_call, string_call, boolean_call, null_call, put_call, clear_call,
  call_parameter, call_parameters, lua_set_number, lua_set_string, lua_set_boolean, lua_set_null,
}
use my_sqloo.Creation.{prepare}
use my_sqloo.Execute.Parameters.{
  find, assign, assign_last, set_field, put_new_parameters, clear_parameters, keep_last,
}
use my_sqloo.Execute.Parameters.Binds.{find-assign}
use my_sqloo.Objects.{
  FieldValue, double_field, bit_field, string_field, null_field, PreparedQueryField, Parameters,
  IQuery,
}
use my_sqloo.Outcome.{thrown}

-- The accepted calls for one set, the last one first.
abbrev pub History : Type 0
History = List (ℕ × FieldValue)

abbrev pub lookup : ℕ → History → Option FieldValue
lookup i [] = none
lookup i ((j, value) ∷ rest) = let older = lookup i rest in if j == i then some value else older

abbrev pub log_last : ℕ × FieldValue → List History → List History
log_last e [] = []
log_last e (h ∷ []) = (e ∷ h) ∷ []
log_last e (h ∷ h' ∷ rest) = h ∷ log_last e (h' ∷ rest)

-- The value that a call sets; none for an argument of a wrong type.
abbrev pub value_of : ParameterCall → LuaArguments → Option FieldValue
value_of number_call args =
    if args.is_type 3 number_type then some (double_field (args.get_number 3)) else none
value_of string_call args =
    if args.is_type 3 string_type then some (string_field (args.get_bytes 3)) else none
value_of boolean_call args =
    if args.is_type 3 bool_type then some (bit_field (args.get_bool 3)) else none
value_of null_call args = some null_field
value_of put_call args = none
value_of clear_call args = none

abbrev pub logged : Option FieldValue → ℕ → List History → List History
logged none i hs = hs
logged (some value) i hs = if i == 0 then hs else log_last (i, value) hs

module _ (casts : Casts) where
  abbrev pub log_call : ParameterCall → LuaArguments → List History → List History
  log_call put_call args hs = hs ++ ([] ∷ [])
  log_call clear_call args hs = [] ∷ []
  log_call call args hs =
      if args.is_type 2 number_type
      then logged (value_of call args) (casts.to_unsigned (args.get_number 2)) hs
      else hs

  abbrev pub log_calls : List (ParameterCall × LuaArguments) → List History → List History
  log_calls [] hs = hs
  log_calls ((call, args) ∷ rest) hs = log_calls rest (log_call call args hs)

abbrev pub field_at : ℕ → Option FieldValue → Option PreparedQueryField
field_at i none = none
field_at i (some value) = some (record { index = i; value = value })

unfoldable pub Agrees : Parameters → History → Type 0
Agrees map h = (i : ℕ) → find i map ≡ field_at i (lookup i h)

-- The sets of parameters hold, at each index, what was logged last for it.
unfoldable pub Represents : List Parameters → List History → Type 0
Represents [] [] = Unit
Represents [] (h ∷ hs) = ⊥
Represents (m ∷ ms) [] = ⊥
Represents (m ∷ ms) (h ∷ hs) = Agrees m h × Represents ms hs

assign-Agrees :
    (i : ℕ) (value : FieldValue) (map : Parameters) (h : History)
    → Agrees map h
    → Agrees (assign i (record { index = i; value = value }) map) ((i, value) ∷ h)
unfolding Agrees
assign-Agrees i value map h agrees j =
    let field : PreparedQueryField = record { index = i; value = value } in
    let found = find-assign i j field map in
    elim (Bool-cases (i == j)) [
      | inl e ↦
          let same : i ≡ j = ground (arith, e) in
          rw e (
            found
            ∙ ap (λ b. if b then some field else find j map) e
            ∙ ap (λ k. some (record { index = k; value = value })) same)
      | inr e ↦ rw e (found ∙ ap (λ b. if b then some field else find j map) e ∙ agrees j)
    ]

assign_last-Represents :
    (i : ℕ) (value : FieldValue) (ms : List Parameters) (hs : List History)
    → Represents ms hs
    → Represents (assign_last i (record { index = i; value = value }) ms) (log_last (i, value) hs)
unfolding Represents assign_last
assign_last-Represents i value [] [] r = r
assign_last-Represents i value [] (h ∷ hs) r = absurd r
assign_last-Represents i value (m ∷ ms) [] r = absurd r
assign_last-Represents i value (m ∷ []) (h ∷ []) (a, r) = (assign-Agrees i value m h a, r)
assign_last-Represents i value (m ∷ []) (h ∷ h' ∷ hs) (a, r) = absurd r
assign_last-Represents i value (m ∷ m' ∷ ms) (h ∷ []) (a, r) = absurd r
assign_last-Represents i value (m ∷ m' ∷ ms) (h ∷ h' ∷ hs) (a, r) =
    (a, assign_last-Represents i value (m' ∷ ms) (h' ∷ hs) r)

empty-Agrees : Agrees [] []
unfolding Agrees find
empty-Agrees i = refl

-- A new prepared query has one set, which is empty.
pub prepare-Represents : (sql : String) → Represents (prepare sql).parameters ([] ∷ [])
unfolding Represents prepare
prepare-Represents sql = (empty-Agrees, tt)

put-Represents :
    (ms : List Parameters) (hs : List History)
    → Represents ms hs
    → Represents (ms ++ ([] ∷ [])) (hs ++ ([] ∷ []))
unfolding Represents
put-Represents [] [] r = (empty-Agrees, r)
put-Represents [] (h ∷ hs) r = absurd r
put-Represents (m ∷ ms) [] r = absurd r
put-Represents (m ∷ ms) (h ∷ hs) (a, r) = (a, put-Represents ms hs r)

-- What a query keeps after its parameters were handed to new data.
abbrev pub keep_log : List History → List History
keep_log [] = []
keep_log (h ∷ []) = h ∷ []
keep_log (h ∷ h' ∷ rest) = keep_log (h' ∷ rest)

pub keep_last-Represents :
    (ms : List Parameters) (hs : List History)
    → Represents ms hs
    → Represents (keep_last ms) (keep_log hs)
unfolding Represents keep_last
keep_last-Represents [] [] r = r
keep_last-Represents [] (h ∷ hs) r = absurd r
keep_last-Represents (m ∷ ms) [] r = absurd r
keep_last-Represents (m ∷ []) (h ∷ []) r = r
keep_last-Represents (m ∷ []) (h ∷ h' ∷ hs) (a, r) = absurd r
keep_last-Represents (m ∷ m' ∷ ms) (h ∷ []) (a, r) = absurd r
keep_last-Represents (m ∷ m' ∷ ms) (h ∷ h' ∷ hs) (a, r) = keep_last-Represents (m' ∷ ms) (h' ∷ hs) r

abbrev RepresentsAt : IQuery → List History → Type 0
RepresentsAt q hs = Represents q.parameters hs

set_field-Represents :
    (i : ℕ) (value : FieldValue) (q : IQuery) (hs : List History)
    → RepresentsAt q hs
    → RepresentsAt (settle (set_field i value q) q) (logged (some value) i hs)
unfolding set_field
set_field-Represents zero value q hs r = r
set_field-Represents (suc i) value q hs r =
    let positive : ltb (suc i) 1 ≡ false = ground arith in
    let nonzero : (suc i == 0) ≡ false = ground arith in
    rw (positive, nonzero) (assign_last-Represents (suc i) value q.parameters hs r)

-- The two checks of the types of the arguments.
checked :
    (index_typed value_typed : Bool) (m m' : String) (i : ℕ) (value : FieldValue) (q : IQuery)
    (hs : List History)
    → RepresentsAt q hs
    → RepresentsAt
        (settle
          (if index_typed
            then (if value_typed then set_field i value q else thrown m')
            else thrown m)
          q)
        (if index_typed then logged (if value_typed then some value else none) i hs else hs)
checked false typed m m' i value q hs r = r
checked true false m m' i value q hs r = r
checked true true m m' i value q hs r = set_field-Represents i value q hs r

module _ (casts : Casts) where
  call-Represents :
      (call : ParameterCall) (args : LuaArguments) (q : IQuery) (hs : List History)
      → RepresentsAt q hs
      → RepresentsAt (settle (call_parameter casts call args q) q) (log_call casts call args hs)
  unfolding call_parameter lua_set_number lua_set_string lua_set_boolean lua_set_null
      put_new_parameters clear_parameters Represents
  call-Represents number_call args q hs r =
      checked (args.is_type 2 number_type) (args.is_type 3 number_type)
        (args.bad_argument 2 number_type) (args.bad_argument 3 number_type)
        (casts.to_unsigned (args.get_number 2)) (double_field (args.get_number 3)) q hs r
  call-Represents string_call args q hs r =
      checked (args.is_type 2 number_type) (args.is_type 3 string_type)
        (args.bad_argument 2 number_type) (args.bad_argument 3 string_type)
        (casts.to_unsigned (args.get_number 2)) (string_field (args.get_bytes 3)) q hs r
  call-Represents boolean_call args q hs r =
      checked (args.is_type 2 number_type) (args.is_type 3 bool_type)
        (args.bad_argument 2 number_type) (args.bad_argument 3 bool_type)
        (casts.to_unsigned (args.get_number 2)) (bit_field (args.get_bool 3)) q hs r
  call-Represents null_call args q hs r =
      checked (args.is_type 2 number_type) true (args.bad_argument 2 number_type) ""
        (casts.to_unsigned (args.get_number 2)) null_field q hs r
  call-Represents put_call args q hs r = put-Represents q.parameters hs r
  call-Represents clear_call args q hs r = (empty-Agrees, tt)

  pub calls-Represents :
      (calls : List (ParameterCall × LuaArguments)) (q : IQuery) (hs : List History)
      → RepresentsAt q hs
      → RepresentsAt (call_parameters casts calls q) (log_calls casts calls hs)
  calls-Represents [] q hs r = r
  calls-Represents ((call, args) ∷ rest) q hs r =
      calls-Represents rest (settle (call_parameter casts call args q) q)
        (log_call casts call args hs) (call-Represents call args q hs r)
