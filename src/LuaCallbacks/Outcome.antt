-- ===== src/LuaCallbacks/Outcome.antt =====
-- Which callbacks run for a query that is done, and with what, src/lua/LuaIQuery.cpp and LuaQuery.cpp.
use my_sqloo.Base.{
  ℕ, suc, ◌+◌, ◌≡◌, ◌∙◌, refl, ap, sym, subst, update_self, false, some, List, [], ◌∷◌, ◌++◌, map,
  length, get_elem?, arith, ◌==◌, if◌then◌else◌, Bool-cases, inl, inr, is_some,
}
use my_sqloo.Callbacks.{
  Callback, at_reference, at_field, no_callback, push_callback_reference, run_callback,
  is_transaction, CallbackRun, no_run, query_failed, query_succeeded,
}
use my_sqloo.IQuery.{set_callback_data}
use my_sqloo.LuaCallbacks.{
  Engine, RowTable, Table, raw_get, Arguments, error_arguments, table_argument, Called, invoke,
  make_call, run_error_callback, each_row, run_on_data_callbacks, free_query_data, succeed,
  finish_success, run_query_success, set_both,
}
use my_sqloo.LuaCallbacks.Dispatch.{run_outcome, run_query_callback, finish_callbacks, set_state}
use my_sqloo.LuaCallbacks.Rows.{is_called, HasRows, Intact, row_call, on_data_rows_lem}
use my_sqloo.LuaData.{contents, free_data_reference, set_data_reference}
use my_sqloo.LuaDatabase.{Host}
use my_sqloo.LuaTransaction.Results.{contents-same, for_callback, free_lem, created_lem}
use my_sqloo.Objects.{
  IQuery, IQueryData, Kind, QueryResultStatus, query_none, query_error, query_success, State,
}
use my_sqloo.References.Freed.{
  SameReferences, SameReferences-refl, Cleared, finish_lua_data-Cleared_self,
  finish_lua_transaction_lem,
}
use my_sqloo.Script.{then_run_some, then_silently, run_after, called_before}

abbrev plain_run : QueryResultStatus → CallbackRun
plain_run query_none = no_run
plain_run query_error = query_failed
plain_run query_success = query_succeeded

module _ (E : Engine) {World : Type 0} (call : Called E → Host World E.Lua → Host World E.Lua) where
  open E use {Lua, types, atof, of_unsigned, registry, is_function, table_now}

  one_on :
      (t : Table E) (rs : List (RowTable E))
      → HasRows E t rs
      → (i : ℕ) → raw_get E (1 + i) t ≡ get_elem? rs i
  one_on t rs has i =
      let same : 1 + i ≡ suc i = omega arith in ap (λ k. raw_get E k t) same ∙ has.at_index i

  each_row_lem :
      (c : Callback) (v : IQueryData) (t : Table E) (rs : List (RowTable E)) (d ref : ℕ)
      (h : Host World Lua)
      → HasRows E t rs
      → ((e : Called E) (u : Host World Lua)
          → Intact E v d ref h.lua t u
          → Intact E v d ref h.lua t (call e u))
      → Intact E v d ref h.lua t h
      → (es : List (Called E)) × (last : Host World Lua) × (each_row E call c ref d h
          ≡ some (es, last))
        × (es ≡ (if is_called c then map (λ r. row_call E c v r) rs else []))
        × Intact E v d ref h.lua t last
  unfolding each_row
  each_row_lem no_callback v t rs d ref h has leaves intact = ([], h, refl, refl, intact)
  each_row_lem (at_reference at') v t rs d ref h has leaves intact =
      let size = ap length intact.rows in
      on_data_rows_lem E call (at_reference at') v d ref h.lua t leaves refl rs
        (suc (length (table_now ref h.lua h.lua))) 1 h (omega (arith, has.size, size)) intact
        (one_on t rs has)
  each_row_lem (at_field table name) v t rs d ref h has leaves intact =
      let size = ap length intact.rows in
      on_data_rows_lem E call (at_field table name) v d ref h.lua t leaves refl rs
        (suc (length (table_now ref h.lua h.lua))) 1 h (omega (arith, has.size, size)) intact
        (one_on t rs has)

  -- The call of onSuccess.
  abbrev pub success_call : Callback → IQueryData → Table E → Called E
  success_call c v t = record {
    callback = c;
    table = v.table_reference;
    arguments = table_argument t;
  }

  succeed_lem :
      (c : Callback) (v : IQueryData) (query d ref : ℕ) (t : Table E) (h : Host World Lua)
      → (h.state.query_data d).table_reference ≡ v.table_reference
      → registry.reference_push ref h.lua ≡ t
      → (es : List (Called E)) × (last : Host World Lua) × (succeed E call c query d ref h
          ≡ some (es, last))
        × (es ≡ (if is_called c then success_call c v t ∷ [] else []))
  unfolding succeed make_call run_after called_before
  succeed_lem no_callback v query d ref t h same held = ([], h, refl, refl)
  succeed_lem (at_reference at') v query d ref t h same held = (
    _,
    _,
    refl,
    (λ i.
        record { callback = at_reference at'; table = same i; arguments = table_argument (held i) }
        ∷ []),
  )
  succeed_lem (at_field table name) v query d ref t h same held = (
    _,
    _,
    refl,
    (λ i.
        record {
          callback = at_field table name;
          table = same i;
          arguments = table_argument (held i);
        }
        ∷ []),
  )

  abbrev pub on_data : IQueryData → Lua → Callback
  on_data v lua =
      push_callback_reference is_function v.on_data_reference v.table_reference "onData"
        v.was_first_data lua

  abbrev pub on_success : IQueryData → Lua → Callback
  on_success v lua =
      push_callback_reference is_function v.success_reference v.table_reference "onSuccess"
        v.was_first_data lua

  abbrev pub on_error : IQueryData → Lua → Callback
  on_error v lua =
      push_callback_reference is_function v.error_reference v.table_reference "onError"
        v.was_first_data lua

  abbrev pub error_call : Callback → IQuery → IQueryData → Called E
  error_call c q v = record {
    callback = c;
    table = v.table_reference;
    arguments = error_arguments v.error_text q.sql;
  }

  -- The calls for a query that is no transaction, by the status of its result. A failed query calls its
  -- onError with its error, if it has one in the state `lua`. A successful one calls its onData for each row,
  -- in order, if it has one in the state `pushed`, and then its onSuccess with the table `t`, if it has
  -- one in the state that the calls of onData left. All get the table of the query.
  pub Calls :
      IQuery
      → IQueryData
      → List (RowTable E)
      → Table E
      → Lua
      → Lua
      → QueryResultStatus
      → List (Called E)
      → Type 0
  Calls q v rs t lua pushed query_none es = es ≡ []
  Calls q v rs t lua pushed query_error es = es ≡ (
      if v.table_reference == 0
      then []
      else if is_called (on_error v lua)
      then error_call (on_error v lua) q v ∷ []
      else [])
  Calls q v rs t lua pushed query_success es =
      (lua' : Lua) × (es
        ≡ (if is_called (on_data v pushed)
            then map (λ r. row_call E (on_data v pushed) v r) rs
            else [])
          ++ (if is_called (on_success v lua')
              then success_call (on_success v lua') v t ∷ []
              else []))

  invoke_lem :
      (c : Callback) (table : ℕ) (args : Arguments E) (h : Host World Lua)
      → (es : List (Called E)) × (last : Host World Lua) × (invoke E call c table args h
          ≡ some (es, last))
        × (es ≡ (
            if is_called c
            then record { callback = c; table = table; arguments = args } ∷ []
            else []))
  unfolding invoke make_call
  invoke_lem no_callback table args h = ([], h, refl, refl)
  invoke_lem (at_reference ref) table args h = (_, _, refl, refl)
  invoke_lem (at_field at' name) table args h = (_, _, refl, refl)

  error_lem :
      (query d : ℕ) (h : Host World Lua) (t : Table E) (rs : List (RowTable E)) (pushed : Lua)
      → (es : List (Called E)) × (last : Host World Lua) × (run_error_callback E call query d h
          ≡ some (es, last))
        × Calls (h.state.queries query) (h.state.query_data d) rs t h.lua pushed query_error es
  unfolding run_error_callback Calls
  error_lem query d h t rs pushed =
      let v = h.state.query_data d in
      let args = error_arguments v.error_text (h.state.queries query).sql in
      let (es, last, ran, all) = invoke_lem (on_error v h.lua) v.table_reference args h in
      elim (Bool-cases (v.table_reference == 0)) [
        | inl e ↦ ([], h, rw (e, run_error_callback) refl, rw e refl)
        | inr e ↦ (es, last, rw (e, run_error_callback) ran, rw e all)
      ]

  on_data_ran :
      (d ref : ℕ) (h : Host World Lua) (es : List (Called E)) (last : Host World Lua)
      → each_row E call (on_data (h.state.query_data d) h.lua) ref d h ≡ some (es, last)
      → run_on_data_callbacks E call d ref h ≡ some (es, last)
  unfolding run_on_data_callbacks
  on_data_ran d ref h es last e = e

  finish_ran :
      (query d ref : ℕ) (h : Host World Lua) (es : List (Called E)) (last : Host World Lua)
      → succeed E call
          (push_callback_reference is_function
            (h.state.query_data d).success_reference
            (h.state.query_data d).table_reference
            "onSuccess"
            (h.state.query_data d).was_first_data
            h.lua)
          query
          d
          ref
          h
        ≡ some (es, last)
      → finish_success E call query d ref h ≡ some (es, last)
  unfolding finish_success
  finish_ran query d ref h es last e = e

  free_called :
      (query a : ℕ) (s : State World) (lua : Lua)
      → ((free_data_reference types atof of_unsigned registry.reference_create
            registry.reference_free query
            (s, lua)).0.queries
          a).callback_query_data
        ≡ (s.queries a).callback_query_data
  unfolding free_data_reference
  free_called query a s lua = ground arith

  free_query_lem :
      (query : ℕ) (h : Host World Lua)
      → let u = (free_query_data E call query h).state in
        ((u.queries query).data_reference ≡ 0)
        × ((a : ℕ) → (u.queries a).options ≡ (h.state.queries a).options)
        × (u.query_data ≡ h.state.query_data)
        × ((a : ℕ) → (u.queries a).callback_query_data ≡ (h.state.queries a).callback_query_data)
  unfolding free_query_data
  free_query_lem query h =
      let (clear, options, same) = free_lem types atof of_unsigned registry query h.state h.lua in
      (clear, options, same, λ a. free_called query a h.state h.lua)

  -- The reference that is created for the table of results, and the state of Lua after it.
  abbrev pub created_for : ℕ → Table E → Host World Lua → ℕ × Lua
  created_for query t h = registry.reference_create t (free_query_data E call query h).lua

  -- The callbacks keep the references of the data and the table of its results.
  abbrev pub Leaves : ℕ → ℕ → Table E → Host World Lua → Type 0
  Leaves query d t h =
      let (ref, pushed) = created_for query t h in
      (e : Called E) (u : Host World Lua)
      → Intact E (h.state.query_data d) d ref pushed t u
      → Intact E (h.state.query_data d) d ref pushed t (call e u)

  -- A reference that was just created pushes the table it was created for, which is then what is in it.
  pub record PushesCreated : Type 0 where
    pub pushes :
        (t : Table E) (lua : Lua)
        → registry.reference_push
            (registry.reference_create t lua).0
            (registry.reference_create t lua).1
          ≡ t
    pub holds :
        (t : Table E) (lua : Lua)
        → let (ref, pushed) = registry.reference_create t lua in table_now ref pushed pushed ≡ t

  success_lem :
      PushesCreated
      → (query d : ℕ) (h : Host World Lua) (t : Table E) (rs : List (RowTable E))
      → contents types atof of_unsigned (h.state.queries query) (h.state.query_data d) ≡ some t
      → HasRows E t rs
      → Leaves query d t h
      → (es : List (Called E)) × (last : Host World Lua) × (run_query_success E call query d h
          ≡ some (es, last))
        × Calls
            (h.state.queries query)
            (h.state.query_data d)
            rs
            t
            h.lua
            (created_for query t h).1
            query_success
            es
  unfolding run_query_success Calls
  success_lem law query d h t rs e has leaves =
      let h' = free_query_data E call query h in
      let (clear, options, same, called) = free_query_lem query h in
      let q = h.state.queries query in
      let v = h.state.query_data d in
      let given : contents types atof of_unsigned (h'.state.queries query) (h'.state.query_data d)
          ≡ some t =
        contents-same types atof of_unsigned (h'.state.queries query) q (h'.state.query_data d)
          (options query) (ap is_some (called query))
        ∙ ap (λ f. contents types atof of_unsigned q (f d)) same
        ∙ e in
      let made =
        created_lem types atof of_unsigned registry query d h'.state h'.lua t clear given in
      let (ref, lua') = registry.reference_create t h'.lua in
      let s' =
        set_data_reference types atof of_unsigned registry.reference_create registry.reference_free
          query ref h'.state in
      let h2 = set_both E call (s', lua') h' in
      let before : Intact E v d ref lua' t h2 = record {
        references = subst (λ f. SameReferences v (f d)) (sym same) (SameReferences-refl v);
        rows = law.holds t h'.lua;
        held = law.pushes t h'.lua;
      } in
      let (es, mid, ran, all, after) =
        each_row_lem (on_data (h'.state.query_data d) lua') v t rs d ref h2 has leaves before in
      let w = mid.state.query_data d in
      let (es', last, ran', all') =
        succeed_lem (on_success w mid.lua) v query d ref t mid after.references.table after.held in
      let same_data : on_data (h'.state.query_data d) lua' ≡ on_data v lua' =
        ap (λ f. on_data (f d) lua') same in
      let refs = after.references in
      let same_success : on_success w mid.lua ≡ on_success v mid.lua = λ i.
        push_callback_reference is_function (refs.on_success i) (refs.table i) "onSuccess"
          (refs.first i) mid.lua in
      let rows =
        all ∙ ap (λ c. if is_called c then map (λ r. row_call E c v r) rs else []) same_data in
      let success =
        all' ∙ ap (λ c. if is_called c then success_call c v t ∷ [] else []) same_success in
      (
        es ++ es',
        last,
        rw (run_query_success, made)
            (then_run_some (run_on_data_callbacks E call d ref) (finish_success E call query d ref)
              h2 mid last es es' (on_data_ran d ref h2 es mid ran)
              (finish_ran query d ref mid es' last ran')),
        (mid.lua, λ i. rows i ++ success i),
      )

  dispatch_lem :
      (kind : Kind) (status status' : QueryResultStatus)
      → is_transaction kind ≡ false
      → status ≡ status'
      → run_callback kind status ≡ plain_run status'
  unfolding run_callback
  dispatch_lem kind status query_none plain e = ap (run_callback kind) e
  dispatch_lem kind status query_error plain e = ap (run_callback kind) e ∙ rw plain refl
  dispatch_lem kind status query_success plain e = ap (run_callback kind) e ∙ rw plain refl

  -- Running the outcome calls what `Calls` says.
  outcome_lem :
      PushesCreated
      → (query d : ℕ) (h : Host World Lua) (t : Table E) (rs : List (RowTable E))
      → is_transaction (h.state.queries query).kind ≡ false
      → contents types atof of_unsigned (h.state.queries query) (h.state.query_data d) ≡ some t
      → HasRows E t rs
      → Leaves query d t h
      → (status : QueryResultStatus) → (h.state.query_data d).result_status ≡ status
      → (es : List (Called E)) × (last : Host World Lua) × (run_outcome E call query d h
          ≡ some (es, last))
        × Calls
            (h.state.queries query)
            (h.state.query_data d)
            rs
            t
            h.lua
            (created_for query t h).1
            status
            es
  unfolding run_outcome Calls
  outcome_lem law query d h t rs plain e has leaves query_none s =
      let chosen = dispatch_lem (h.state.queries query).kind _ query_none plain s in
      ([], h, rw (run_outcome, chosen) refl, refl)
  outcome_lem law query d h t rs plain e has leaves query_error s =
      let chosen = dispatch_lem (h.state.queries query).kind _ query_error plain s in
      let (es, last, ran, calls) = error_lem query d h t rs (created_for query t h).1 in
      (es, last, rw (run_outcome, chosen) ran, calls)
  outcome_lem law query d h t rs plain e has leaves query_success s =
      let chosen = dispatch_lem (h.state.queries query).kind _ query_success plain s in
      let (es, last, ran, calls) = success_lem law query d h t rs e has leaves in
      (es, last, rw (run_outcome, chosen) ran, calls)

  called_query :
      (query d : ℕ) (s : State World)
      → (set_callback_data query d s).queries query
        ≡ for_callback types atof of_unsigned d (s.queries query)
  unfolding set_callback_data
  called_query query d s = update_self s.queries query _

  pub finish_callbacks-Cleared :
      (query d : ℕ) (h : Host World Lua)
      → Cleared ((finish_callbacks E call query d h).state.query_data d)
  unfolding finish_callbacks
  finish_callbacks-Cleared query d h =
      let free = registry.reference_free in
      elim (Bool-cases (is_transaction (h.state.queries query).kind)) [
        | inl e ↦ rw e (finish_lua_transaction_lem free query d h.state h.lua).0
        | inr e ↦ rw e (finish_lua_data-Cleared_self free query d h.state h.lua)
      ]

  -- The state in which the callbacks run: the query has the data as its callback data.
  abbrev pub in_callback : ℕ → ℕ → Host World Lua → Host World Lua
  in_callback query d h = set_state E call (set_callback_data query d h.state) h

  -- Let a reference that was just created push the table it was created for, let the query be no
  -- transaction, let the table `t` of its results be built, with the rows `rs`, and let each callback
  -- keep the references of the data and this table. Then the callbacks of the query run to the end, the
  -- calls are those of `Calls` for the status of its result, and the data holds no reference afterwards.
  pub run_query_callback_lem :
      PushesCreated
      → (query d : ℕ) (h : Host World Lua) (t : Table E) (rs : List (RowTable E))
      → is_transaction (h.state.queries query).kind ≡ false
      → contents types atof of_unsigned
          (for_callback types atof of_unsigned d (h.state.queries query))
          (h.state.query_data d)
        ≡ some t
      → HasRows E t rs
      → Leaves query d t (in_callback query d h)
      → (es : List (Called E)) × (last : Host World Lua) × (run_query_callback E call query d h
          ≡ some (es, last))
        × Calls
            (for_callback types atof of_unsigned d (h.state.queries query))
            (h.state.query_data d)
            rs
            t
            h.lua
            (created_for query t (in_callback query d h)).1
            (h.state.query_data d).result_status
            es
        × Cleared (last.state.query_data d)
  unfolding run_query_callback set_callback_data
  run_query_callback_lem law query d h t rs plain e has leaves =
      let v = h.state.query_data d in
      let h1 = in_callback query d h in
      let same = called_query query d h.state in
      let (es, mid, ran, calls) =
        outcome_lem law query d h1 t rs (ap (λ q. is_transaction q.kind) same ∙ plain)
          (ap (λ q. contents types atof of_unsigned q v) same ∙ e) has leaves v.result_status
          refl in
      (
        es,
        finish_callbacks E call query d mid,
        then_silently (run_outcome E call query d) (finish_callbacks E call query d) h1 mid es ran,
        subst (λ q. Calls q v rs t h.lua (created_for query t h1).1 v.result_status es) same calls,
        finish_callbacks-Cleared query d mid,
      )
