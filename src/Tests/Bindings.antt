-- ===== src/Tests/Bindings.antt =====
-- The theorems on the functions that Lua calls, at concrete inputs.
use my_sqloo.Base.{
  ℕ, ◌⊎◌, inr, suc, ◌^◌, ◌<◌, ◌≡◌, refl, Bool, true, false, Option, none, some, List, [], ◌∷◌,
  length, get_elem?, arith, ◌==◌, if◌then◌else◌, ◌%◌, ◌+◌, String, update_self, count,
}
use my_sqloo.Bindings.{LuaArguments, Casts, string_type, number_type, bool_type}
use my_sqloo.Bindings.Configure.{
  SslModes, Setter, ssl_mode_setter, read_timeout_setter, cache_setter,
}
use my_sqloo.Bindings.Configured.{Sound, Kept, set_all, set_all-Sound}
use my_sqloo.Bindings.Options.{call_options, call_options_lem}
use my_sqloo.Bindings.Parameters.{
  ParameterCall, number_call, put_call, string_call, call_parameters,
}
use my_sqloo.Bindings.Parameters.Bound.{bound_value, call_parameters-bound}
use my_sqloo.Bindings.Parameters.History.{
  History, Represents, lookup, log_calls, keep_log, prepare-Represents,
}
use my_sqloo.Bindings.Results.{read_results}
use my_sqloo.Bindings.Results.Read.{read_all}
use my_sqloo.Bindings.Lifetime.{LuaIQuery, wrap, on_lua_query_destroyed}
use my_sqloo.Bindings.Lifetime.Returned.{object_returned}
use my_sqloo.Bindings.Start.{lua_start}
use my_sqloo.Bindings.Start.Balance.{Registered, one, held, lua_start-balanced}
use my_sqloo.Client.{Bind}
use my_sqloo.Creation.{prepare, build_prepared_data}
use my_sqloo.Execute.Parameters.{generate_binds}
use my_sqloo.IQuery.{query_has_more_results, has_option, is_option, option_cache}
use my_sqloo.LuaTransaction.Queries.{LuaTransaction}
use my_sqloo.Objects.{Parameters, State, IQuery, pair}
use my_sqloo.References.{finish_lua_data}
use my_sqloo.Outcome.{ok}
use my_sqloo.Tests.Fixtures.{one_row, test_client, test_data, test_database, test_query, test_state}
use my_sqloo.Tests.Lua.{Table, of_text, of_unsigned, test_registry, test_types}

abbrev test_casts : Casts
test_casts = record { to_int = λ x. x % 2 ^ 32; to_unsigned = λ x. x % 2 ^ 32 }

abbrev test_modes : SslModes
test_modes = record { disabled = 1; verify_identity = 5 }

-- A call with numbers only.
abbrev numbers : ℕ → ℕ → LuaArguments
numbers first second = record {
  top = 3;
  is_type = λ i type. elim type [ string_type ↦ false | number_type ↦ true | bool_type ↦ false ];
  get_string = λ i. "";
  get_bytes = λ i. [];
  get_number = λ i. if i == 2 then first else second;
  get_bool = λ i. false;
  bad_argument = λ i type. "bad argument";
}

abbrev setter_calls : List (Setter × LuaArguments)
setter_calls =
    (ssl_mode_setter, numbers 3 0)
    ∷ (ssl_mode_setter, numbers 6 0)
    ∷ (read_timeout_setter, numbers 60 0)
    ∷ (cache_setter, numbers 1 0)
    ∷ []

set_all-Sound_example :
    Sound test_modes (set_all test_casts test_modes setter_calls test_database)
    × Kept test_database (set_all test_casts test_modes setter_calls test_database)
set_all-Sound_example =
    set_all-Sound test_casts test_modes (λ x. omega arith) (omega arith) (omega arith) setter_calls
      test_database
      (record {
        mode = λ m h. absurd (ground (arith, h));
        read = omega arith;
        write = omega arith;
        connect = omega arith;
      })

-- Two sets of parameters; the string is refused.
abbrev parameter_calls : List (ParameterCall × LuaArguments)
parameter_calls =
    (number_call, numbers 1 7)
    ∷ (put_call, numbers 0 0)
    ∷ (number_call, numbers 2 8)
    ∷ (number_call, numbers 2 9)
    ∷ (string_call, numbers 1 0)
    ∷ []

call_parameters-bound_example :
    let (v, left) =
      build_prepared_data (call_parameters test_casts parameter_calls (prepare "INSERT")) in
    let logs = log_calls test_casts parameter_calls ([] ∷ []) in
    Represents v.parameters logs
    × Represents left.parameters (keep_log logs)
    × ((k count : ℕ) (h : History) (binds : List Bind)
        → get_elem? logs k ≡ some h
        → suc count < 2 ^ 32
        → length binds ≡ count
        → (m : Parameters) × (get_elem? v.parameters k ≡ some m)
          × (bound : List Bind) × (generate_binds test_client m count binds ≡ ok bound)
          × ((p : ℕ) → p < count → get_elem? bound p ≡ some (bound_value (lookup (suc p) h))))
call_parameters-bound_example =
    call_parameters-bound test_client test_casts parameter_calls (prepare "INSERT") ([] ∷ [])
      (prepare-Represents "INSERT")

abbrev new_query : IQuery
new_query = record test_query { options = 14 }

abbrev option_call : ℕ → Bool → LuaArguments
option_call option flag =
    let args = numbers option 0 in
    record args {
      is_type =
          λ i type. elim type [ string_type ↦ false | number_type ↦ i == 2 | bool_type ↦ i == 3 ];
      get_bool = λ i. flag;
    }

-- The third names no option, and the last has a number where a Boolean is expected.
abbrev option_calls : List LuaArguments
option_calls =
    option_call 1 true
    ∷ option_call 8 false
    ∷ option_call 5 true
    ∷ (let args = numbers 8 0 in record args { is_type = λ i type. i == 2 })
    ∷ []

call_options_lem_example :
    ((call_options test_casts option_calls new_query).options < 16)
    × (has_option (call_options test_casts option_calls new_query) option_cache ≡ false)
unfolding is_option has_option
call_options_lem_example =
    call_options_lem test_casts option_calls option_cache new_query (omega arith) refl

-- Query 1 in the callback of data with two result sets.
abbrev read_state : State (List ℕ)
read_state = record test_state {
  queries = λ q. record test_query { callback_query_data = some 11 };
  query_data = λ d. record test_data {
    results = one_row ∷ one_row ∷ [];
    insert_ids = 4 ∷ 5 ∷ [];
    affected_rows = 1 ∷ 2 ∷ [];
  };
}

abbrev two_readings : List (Option Table × ℕ × ℕ)
two_readings = (some [], 4, 1) ∷ (some [], 5, 2) ∷ []

-- As in onSuccess, the table of the first result set is referenced.
abbrev stored_state : State (List ℕ)
stored_state = record read_state {
  queries = λ q. record test_query { callback_query_data = some 11; data_reference = 5 };
}

read_all_example :
    (x : State (List ℕ) × (ℕ × (ℕ → Table))) × (read_results test_types of_text of_unsigned
        test_registry 3 1
        (stored_state, (6, λ r. []))
      ≡ some (two_readings, x))
    × (query_has_more_results 1 x.0 ≡ false)
    × (((x.0.queries 1).data_reference ≡ 0) ⊎ (two_readings ≡ []))
unfolding my_sqloo.LuaData.data_rows my_sqloo.LuaData.contents my_sqloo.LuaData.contents_with
    my_sqloo.QueryData.has_more_results
read_all_example =
    read_all test_types of_text of_unsigned test_registry (λ t lua. update_self lua.1 lua.0 t) 3 1
      11 stored_state (6, λ r. []) (one_row ∷ one_row ∷ []) (4 ∷ 5 ∷ []) (1 ∷ 2 ∷ []) two_readings
      (record { called = refl; alive = refl; fine = refl }) (inr ([], refl, refl)) refl refl refl
      (omega arith) refl

-- The two queries of the queue, without the pill.
abbrev queued_state : State (List ℕ)
queued_state = record test_state {
  db = record test_database { query_queue = pair 1 11 ∷ pair 2 12 ∷ [] };
}

abbrev remove_one : ℕ → List ℕ → List ℕ
remove_one x [] = []
remove_one x (y ∷ ys) = let rest = remove_one x ys in if y == x then ys else y ∷ rest

count-remove_one :
    (x : ℕ) (xs : List ℕ) (r : ℕ)
    → 0 < count x xs
    → count r (remove_one x xs) + (if x == r then 1 else 0) ≡ count r xs
count-remove_one x [] r h = absurd (omega (arith, h))
count-remove_one x (y ∷ ys) r h = ground (arith, count-remove_one x ys r)

-- Lua as the last reference and the live ones.
abbrev live_registry : Registered (ℕ × List ℕ)
live_registry = record {
  reference_create = λ lua. (suc lua.0, (suc lua.0, suc lua.0 ∷ lua.1));
  reference_free = λ x lua. (lua.0, remove_one x lua.1);
  live = λ lua. lua.1;
  not_zero = λ lua. ground arith;
  created = λ lua r. ground arith;
  freed = λ x lua r h. count-remove_one x lua.1 r h;
}

abbrev all_fields : String → ℕ × List ℕ → Bool
all_fields name lua = true

abbrev no_queries : LuaTransaction
no_queries = record { queries = none; added_query_data = [] }

lua_start-balanced_example :
    let (s', lua') =
      lua_start live_registry.reference_create all_fields no_queries 1 20 (test_state, (0, [])) in
    ((r : ℕ) → count r lua'.1 ≡ held r (s'.query_data 20) + 0)
    × ((later : ℕ × List ℕ) (others : ℕ → ℕ)
        → ((r : ℕ) → count r later.1 ≡ held r (s'.query_data 20) + others r)
        → (r : ℕ)
        → count r (finish_lua_data live_registry.reference_free 1 20 (s', later)).1.1 ≡ others r)
lua_start-balanced_example =
    lua_start-balanced live_registry all_fields no_queries 1 20 test_state (0, [])

-- The object of query 1, with a reference to the table of its database and one to its data.
abbrev held_state : State (List ℕ)
held_state = record test_state { queries = λ q. record test_query { data_reference = 2 } }

abbrev create_any : Table → ℕ × List ℕ → ℕ × (ℕ × List ℕ)
create_any t lua = live_registry.reference_create lua

abbrev held_object : LuaIQuery
held_object = record { query = 1; database_reference = 1 }

object_returned_example :
    let (made, y) =
      wrap live_registry.reference_create (prepare "SELECT 1") 5 (test_state, (7, [])) in
    let (o, z) =
      on_lua_query_destroyed test_types of_text of_unsigned create_any live_registry.reference_free
        held_object
        (held_state, (2, 2 ∷ 1 ∷ [])) in
    ((r : ℕ) → count r y.1.1 ≡ one r made.database_reference + 0)
    × ((r : ℕ) → count r z.1.1 ≡ 0)
    × (o.database_reference ≡ 0)
    × ((z.0.queries 1).data_reference ≡ 0)
object_returned_example =
    object_returned test_types of_text of_unsigned live_registry create_any (prepare "SELECT 1") 5
      (test_state, (7, [])) held_object held_state (2, 2 ∷ 1 ∷ []) (λ r. 0) (λ r. ground arith)
