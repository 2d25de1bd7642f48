-- ===== src/Execute/Frame/Prepared.antt =====
-- Running a prepared query leaves alone what `executeStatement` of src/mysql/PreparedQuery.cpp and the
-- functions it calls do not write.
use my_sqloo.Base.{
  Bool-cases, Option-cases, inl, inr, ◌==◌, ℕ, zero, suc, refl, Bool, true, false, Option, none,
  some, List, [], ◌∷◌, not,
}
use my_sqloo.Client.{
  Client, Next, next_found, next_none, next_failed, fetched, fetch_failed, no_data, Fetch, Bind,
}
use my_sqloo.Connection.{is_retriable_error}
use my_sqloo.Execute.Parameters.{generate_binds, no_binds}
use my_sqloo.Execute.Prepared.{
  stmt_check, checked, finally_do, push_prepared, push_ids, store_next, execute_bound,
  stmt_next_outcome, store_prepared, mysql_stmt_next, result_loop, run_parameters, run_statement,
  closing, valid_cached, cache_for, mysql_stmt_init, new_statement, prepare_new, with_statement,
  after_error, execute_prepared,
}
use my_sqloo.IQuery.{set_query}
use my_sqloo.Objects.{Parameters, ResultData, ResultDataRow, State}
use my_sqloo.Outcome.{
  Action, Exception, sql_error, std_error, out_of_fuel, pure, modify, again, Outcome-cases, ◌>>=◌,
  ◌>>◌,
}
use my_sqloo.Preserve.{Preserves, Preserves->>=, Preserves-catch, Preserves-if, Preserves-again}
use my_sqloo.ResultData.{
  call, from_statement, fetch_bound_rows, row_outcome, add_row, bind_outcome, bound_rows,
  add_columns,
}
use my_sqloo.Statements.{cache_statement}
use my_sqloo.Execute.Frame.{IsStable, if_keeps, then-Preserves, both-Preserves}

module _ (C : Client) where
  open C use {World, Res}

  module _ (P : State World → Type 0) (st : IsStable P) where
    pub stmt_check-Preserves : (stmt : ℕ) (failed : Bool) → Preserves P (stmt_check C stmt failed)
    unfolding stmt_check
    stmt_check-Preserves stmt true s p = p
    stmt_check-Preserves stmt false s p = p

    pub checked-Preserves : (stmt : ℕ) (f : World → Bool × World) → Preserves P (checked C stmt f)
    checked-Preserves stmt f =
        (then-Preserves C P st) f (stmt_check C stmt) (stmt_check-Preserves stmt)

    pub finally_do-Preserves :
        {A : Type 0} (f : World → World) (m : Action (State World) A)
        → Preserves P m
        → Preserves P (finally_do C f m)
    finally_do-Preserves f m h s p = st.world (f (m s).1.world) (m s).1 (h s p)

    pub row_outcome-Preserves :
        (later : Action (State World) (List ResultDataRow)) (stmt count : ℕ) (r : Fetch)
        → Preserves P later
        → Preserves P (row_outcome C later stmt count r)
    unfolding row_outcome
    row_outcome-Preserves later stmt count (fetched row) h =
        Preserves->>= P later (add_row C count row) h (λ rows s p. p)
    row_outcome-Preserves later stmt count fetch_failed h = λ s p. p
    row_outcome-Preserves later stmt count no_data h = λ s p. p

    pub fetch_bound_rows-Preserves :
        (fuel stmt count : ℕ) → Preserves P (fetch_bound_rows C fuel stmt count)
    unfolding fetch_bound_rows
    fetch_bound_rows-Preserves zero stmt count = λ s p. p
    fetch_bound_rows-Preserves (suc fuel) stmt count =
        let later = fetch_bound_rows C fuel stmt count in
        (then-Preserves C P st) (C.stmt_fetch stmt) (row_outcome C later stmt count) (λ r.
          row_outcome-Preserves later stmt count r (fetch_bound_rows-Preserves fuel stmt count))

    pub bind_outcome-Preserves :
        (fuel stmt count : ℕ) (failed : Bool) → Preserves P (bind_outcome C fuel stmt count failed)
    unfolding bind_outcome
    bind_outcome-Preserves fuel stmt count true = λ s p. p
    bind_outcome-Preserves fuel stmt count false = fetch_bound_rows-Preserves fuel stmt count

    pub from_statement-Preserves :
        (fuel stmt : ℕ) (meta : Res) → Preserves P (from_statement C fuel stmt meta)
    unfolding from_statement
    from_statement-Preserves fuel stmt meta s =
        let count = C.stmt_field_count stmt s.world in
        Preserves->>= P (bound_rows C fuel stmt count) (add_columns C meta count)
          (Preserves-if P (count == 0) (pure [])
            (call C (C.stmt_bind_result stmt) >>= bind_outcome C fuel stmt count) (λ t q. q)
            ((then-Preserves C P st) (C.stmt_bind_result stmt) (bind_outcome C fuel stmt count)
              (bind_outcome-Preserves fuel stmt count)))
          (λ rows t q. q) s

    pub push_prepared-Preserves : (d : ℕ) (r : ResultData) → Preserves P (push_prepared C d r)
    unfolding push_prepared
    push_prepared-Preserves d r s p = st.value d _ s refl refl p

    pub store_prepared-Preserves :
        (fuel stmt d : ℕ) (meta : Option Res) → Preserves P (store_prepared C fuel stmt d meta)
    unfolding store_prepared
    store_prepared-Preserves fuel stmt d none = λ s p. st.value d _ s refl refl p
    store_prepared-Preserves fuel stmt d (some meta) =
        let rows = from_statement C fuel stmt meta >>= push_prepared C d in
        let freeing = finally_do C (C.stmt_free_result stmt) rows in
        finally_do-Preserves (C.free_result meta)
          (checked C stmt (C.stmt_store_result stmt) >> freeing)
          ((both-Preserves C P st) (checked C stmt (C.stmt_store_result stmt)) freeing
            (checked-Preserves stmt (C.stmt_store_result stmt))
            (finally_do-Preserves (C.stmt_free_result stmt) rows (
              Preserves->>= P (from_statement C fuel stmt meta) (push_prepared C d)
                (from_statement-Preserves fuel stmt meta) (push_prepared-Preserves d))))

    pub stmt_next_outcome-Preserves :
        (stmt : ℕ) (n : Next) → Preserves P (stmt_next_outcome C stmt n)
    unfolding stmt_next_outcome
    stmt_next_outcome-Preserves stmt next_found = λ s p. p
    stmt_next_outcome-Preserves stmt next_none = λ s p. p
    stmt_next_outcome-Preserves stmt next_failed = λ s p. p

    pub store_next-Preserves : (fuel stmt d : ℕ) → Preserves P (store_next C fuel stmt d)
    unfolding store_next
    store_next-Preserves fuel stmt d =
        (both-Preserves C P st) (modify (push_ids C stmt d))
          (call C (C.stmt_result_metadata stmt) >>= store_prepared C fuel stmt d)
          (λ s p. st.value d _ s refl refl p)
          ((then-Preserves C P st) (C.stmt_result_metadata stmt) (store_prepared C fuel stmt d)
            (store_prepared-Preserves fuel stmt d))

    pub result_loop-Preserves :
        (rounds fuel stmt d : ℕ) → Preserves P (result_loop C rounds fuel stmt d)
    unfolding result_loop mysql_stmt_next
    result_loop-Preserves zero fuel stmt d = λ s p. p
    result_loop-Preserves (suc rounds) fuel stmt d =
        let loop = result_loop C rounds fuel stmt d in
        let next = mysql_stmt_next C stmt in
        (both-Preserves C P st) (store_next C fuel stmt d) (next >>= again loop)
          (store_next-Preserves fuel stmt d)
          (Preserves->>= P next (again loop)
            ((then-Preserves C P st) (C.stmt_next_result stmt) (stmt_next_outcome C stmt)
              (stmt_next_outcome-Preserves stmt))
            (λ more. Preserves-again P loop more (result_loop-Preserves rounds fuel stmt d)))

    pub execute_bound-Preserves :
        (fuel stmt d : ℕ) (binds : List Bind) → Preserves P (execute_bound C fuel stmt d binds)
    unfolding execute_bound
    execute_bound-Preserves fuel stmt d binds =
        let execute = checked C stmt (C.stmt_execute stmt) in
        let loop = result_loop C fuel fuel stmt d in
        (both-Preserves C P st) (checked C stmt (C.stmt_bind_param stmt binds)) (execute >> loop)
          (checked-Preserves stmt (C.stmt_bind_param stmt binds))
          ((both-Preserves C P st) execute loop (checked-Preserves stmt (C.stmt_execute stmt))
            (result_loop-Preserves fuel fuel stmt d))

    pub run_parameters-Preserves :
        (fuel stmt d count : ℕ) (maps : List Parameters) (binds : List Bind)
        → Preserves P (run_parameters C fuel stmt d count maps binds)
    unfolding run_parameters
    run_parameters-Preserves fuel stmt d count [] binds = λ s p. p
    run_parameters-Preserves fuel stmt d count (map ∷ maps) binds = λ s p.
        elim (Outcome-cases (generate_binds C map count binds)) [
          | inl (binds', e) ↦
              rw (e, run_parameters)
                ((both-Preserves C P st) (execute_bound C fuel stmt d binds')
                  (run_parameters C fuel stmt d count maps binds')
                  (execute_bound-Preserves fuel stmt d binds')
                  (run_parameters-Preserves fuel stmt d count maps binds') s p)
          | inr (x, e) ↦ rw (e, run_parameters) p
        ]

    pub run_statement-Preserves : (fuel stmt d : ℕ) → Preserves P (run_statement C fuel stmt d)
    unfolding run_statement
    run_statement-Preserves fuel stmt d s =
        let count = C.stmt_param_count stmt s.world in
        run_parameters-Preserves fuel stmt d count (s.query_data d).parameters (no_binds count) s

    pub closing-Preserves :
        (stmt : ℕ) (m : Action (State World) (Unit {0}))
        → Preserves P m
        → Preserves P (closing C stmt m)
    unfolding closing
    closing-Preserves stmt m h s p =
        let t = (m s).1 in
        (if_keeps C P st) (not t.db.cache_prepared_statements)
          (record t { world = C.stmt_close stmt t.world }) t
          (st.world (C.stmt_close stmt t.world) t (h s p)) (h s p)

    pub cache_for-keeps : (query stmt : ℕ) (s : State World) → P s → P (cache_for C query stmt s)
    unfolding cache_for
    cache_for-keeps query stmt s p =
        let (handle, s') = cache_statement (some stmt) s in
        let cached = record (s'.queries query) { cached_statement = some handle } in
        (if_keeps C P st) s.db.cache_prepared_statements (set_query query cached s') s
          (st.query query cached s' (st.cached (some stmt) s p)) p

    pub prepare_new-Preserves : (stmt query : ℕ) → Preserves P (prepare_new C stmt query)
    unfolding prepare_new
    prepare_new-Preserves stmt query s =
        let sql = (s.queries query).sql in
        let preparing = checked C stmt (C.stmt_prepare stmt sql) in
        let attr : Action (State World) (Unit {0}) =
          modify (λ (t : State World). record t { world = C.stmt_attr_set stmt t.world }) in
        (both-Preserves C P st) attr (preparing >> modify (cache_for C query stmt))
          (λ t q. st.world (C.stmt_attr_set stmt t.world) t q)
          ((both-Preserves C P st) preparing (modify (cache_for C query stmt))
            (checked-Preserves stmt (C.stmt_prepare stmt sql)) (cache_for-keeps query stmt))
          s

    pub new_statement-Preserves : (sql : ℕ) (o : Option ℕ) → Preserves P (new_statement C sql o)
    unfolding new_statement
    new_statement-Preserves sql none = λ s p. p
    new_statement-Preserves sql (some stmt) = λ s p. p

    pub with_statement-Preserves :
        (fuel sql query d : ℕ) → Preserves P (with_statement C fuel sql query d)
    unfolding with_statement mysql_stmt_init
    with_statement-Preserves fuel sql query d = λ s p.
        let fresh =
          λ (stmt : ℕ). closing C stmt (prepare_new C stmt query >> run_statement C fuel stmt d) in
        elim (Option-cases (valid_cached C query s)) [
          | inl e ↦
              rw (e, with_statement)
                (Preserves->>= P (mysql_stmt_init C sql) fresh
                  ((then-Preserves C P st) (C.stmt_init sql) (new_statement C sql)
                    (new_statement-Preserves sql))
                  (λ stmt.
                    closing-Preserves stmt (prepare_new C stmt query >> run_statement C fuel stmt d)
                      ((both-Preserves C P st) (prepare_new C stmt query)
                        (run_statement C fuel stmt d) (prepare_new-Preserves stmt query)
                        (run_statement-Preserves fuel stmt d)))
                  s p)
          | inr (stmt, e) ↦
              rw (e, with_statement)
                (closing-Preserves stmt (run_statement C fuel stmt d)
                  (run_statement-Preserves fuel stmt d) s p)
        ]

    pub after_error-Preserves : (query : ℕ) (e : Exception) → Preserves P (after_error C query e)
    unfolding after_error
    after_error-Preserves query (sql_error code message) = λ s p.
        elim (Bool-cases (is_retriable_error C.codes code)) [
          | inl e ↦ rw e (st.freed (s.queries query).cached_statement s p)
          | inr e ↦ rw e p
        ]
    after_error-Preserves query (std_error message) = λ s p. p
    after_error-Preserves query out_of_fuel = λ s p. p

    pub execute_prepared-Preserves :
        (fuel sql query d : ℕ) → Preserves P (execute_prepared C fuel sql query d)
    unfolding execute_prepared
    execute_prepared-Preserves fuel sql query d =
        Preserves-catch P (with_statement C fuel sql query d) (after_error C query)
          (with_statement-Preserves fuel sql query d) (after_error-Preserves query)
