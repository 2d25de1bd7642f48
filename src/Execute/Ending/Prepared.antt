-- ===== src/Execute/Ending/Prepared.antt =====
-- `executeStatement` of src/mysql/PreparedQuery.cpp ends.
use my_sqloo.Base.{
  ℕ, zero, suc, ◌<◌, ◌≡◌, ◌≢◌, refl, ap, ◌∙◌, Bool, true, Option, none, some, String, List, [], ◌∷◌,
  arith, Option-cases, inl, inr,
}
use my_sqloo.Client.{Client, Next, next_found, next_none, next_failed, Bind}
use my_sqloo.Execute.Ending.{FiniteBound}
use my_sqloo.Execute.Ending.Plain.{call-Total}
use my_sqloo.Execute.Parameters.{generate_binds, no_binds}
use my_sqloo.Execute.Prepared.{
  checked, finally_do, push_prepared, push_ids, push_result_only, store_prepared, stmt_next_outcome,
  mysql_stmt_next, store_next, result_loop, execute_bound, run_parameters, run_statement, closing,
  valid_cached, cache_for, new_statement, mysql_stmt_init, prepare_new, with_statement, after_error,
  execute_prepared,
}
use my_sqloo.Objects.{State, Parameters}
use my_sqloo.Outcome.{
  Action, Exception, Outcome-cases, throw, sql_error, std_error, out_of_fuel, modify, again, ◌>>=◌,
  ◌>>◌,
}
use my_sqloo.QueryData.{empty_result}
use my_sqloo.ResultData.{call, bound_rows, add_columns, from_statement}
use my_sqloo.Total.{Total, Anything, Anywhere, Ends, Total->>=, Total-again, Total-catch}
use my_sqloo.Execute.Ending.Calls.{
  generate_from-fueled, finally_do-Total, checked-Total, modify-Total, failure-Total,
}
use my_sqloo.Execute.Ending.Rows.{Left, bound_rows-Total}

module _ (C : Client) (limit : ℕ) (finite : FiniteBound C limit) (stmt : ℕ) where
  open C use {
    World, Res, stmt_field_count, stmt_store_result, stmt_free_result, free_result,
    stmt_result_metadata, stmt_next_result, stmt_bind_param, stmt_execute,
  }

  abbrev Kept : ℕ → State World → Type 0
  Kept n = Left C limit finite stmt n

  from_statement-Total :
      (fuel n : ℕ) (meta : Res)
      → limit < fuel
      → Total (Kept n) (from_statement C fuel stmt meta) (λ r. Kept n)
  unfolding from_statement add_columns
  from_statement-Total fuel n meta h = record {
    fueled = λ s p. (whole (stmt_field_count stmt s.world)).fueled s p;
    returned = λ s p a e. (whole (stmt_field_count stmt s.world)).returned s p a e;
  }
    where
      whole :
          (count : ℕ)
          → Total (Kept n) (bound_rows C fuel stmt count >>= add_columns C meta count) (λ r. Kept n)
      whole count =
          Total->>= (Kept n) (bound_rows C fuel stmt count) (λ rows. Kept n)
            (add_columns C meta count) (λ r. Kept n)
            (bound_rows-Total C limit finite stmt fuel n count h)
            (λ rows. record { fueled = λ s p k. cc; returned = λ s p a e. p })

  store_prepared-Total :
      (fuel d n : ℕ) (o : Option Res)
      → limit < fuel
      → Total (Kept n) (store_prepared C fuel stmt d o) (λ u. Kept n)
  unfolding store_prepared push_prepared
  store_prepared-Total fuel d n none h =
      modify-Total C (Kept n) (Kept n) (push_result_only C d empty_result) (λ s p. p)
  store_prepared-Total fuel d n (some meta) h =
      let storing = checked C stmt (stmt_store_result stmt) in
      let reading = from_statement C fuel stmt meta >>= push_prepared C d in
      let inner = finally_do C (stmt_free_result stmt) reading in
      finally_do-Total C (Kept n) (free_result meta) (storing >> inner) (λ u. Kept n) (λ u. Kept n)
        (λ u s p. omega (arith, finite.metadata_free_sets stmt meta s.world))
        (Total->>= (Kept n) storing (λ u. Kept n) (λ u. inner) (λ u. Kept n)
          (checked-Total C (Kept n) (Kept n) stmt (stmt_store_result stmt)
            (λ s p. omega (arith, finite.store_sets stmt s.world)))
          (λ u.
            finally_do-Total C (Kept n) (stmt_free_result stmt) reading (λ v. Kept n) (λ v. Kept n)
              (λ v s p. omega (arith, finite.free_sets stmt s.world))
              (Total->>= (Kept n) (from_statement C fuel stmt meta) (λ r. Kept n)
                (push_prepared C d) (λ v. Kept n) (from_statement-Total fuel n meta h)
                (λ r. record { fueled = λ s p k. cc; returned = λ s p a e. p }))))

  store_next-Total :
      (fuel d n : ℕ) → limit < fuel → Total (Kept n) (store_next C fuel stmt d) (λ u. Kept n)
  unfolding store_next
  store_next-Total fuel d n h =
      let ids = modify (push_ids C stmt d) in
      let meta = call C (stmt_result_metadata stmt) in
      Total->>= (Kept n) ids (λ u. Kept n) (λ u. meta >>= store_prepared C fuel stmt d)
        (λ u. Kept n) (modify-Total C (Kept n) (Kept n) (push_ids C stmt d) (λ s p. p))
        (λ u.
          Total->>= (Kept n) meta (λ o. Kept n) (store_prepared C fuel stmt d) (λ v. Kept n)
            (call-Total C (Kept n) (stmt_result_metadata stmt) (λ o. Kept n)
              (λ s p. omega (arith, finite.metadata_sets stmt s.world)))
            (λ o. store_prepared-Total fuel d n o h))

  abbrev More : ℕ → Bool → State World → Type 0
  More n more s = more ≡ true → Kept n s

  stmt_next_outcome-Total :
      (n : ℕ) (next : Next)
      → Total (λ s. next ≡ next_found → Kept n s) (stmt_next_outcome C stmt next) (More n)
  unfolding stmt_next_outcome
  stmt_next_outcome-Total n next_found = record {
    fueled = λ s p k. cc;
    returned = λ s p a e h. p refl;
  }
  stmt_next_outcome-Total n next_none = record { fueled = λ s p k. cc; returned = λ s p a e h. cc }
  stmt_next_outcome-Total n next_failed = failure-Total C _ stmt (More n)

  result_loop-Total :
      (rounds fuel d : ℕ)
      → limit < fuel
      → Total (Kept rounds) (result_loop C rounds fuel stmt d) Anything
  unfolding result_loop mysql_stmt_next
  result_loop-Total zero fuel d h = record {
    fueled = λ s p. absurd (omega arith);
    returned = λ s p a e. tt;
  }
  result_loop-Total (suc rounds) fuel d h =
      let loop = result_loop C rounds fuel stmt d in
      let next = mysql_stmt_next C stmt in
      Total->>= (Kept (suc rounds)) (store_next C fuel stmt d) (λ u. Kept (suc rounds))
        (λ u. next >>= again loop) Anything (store_next-Total fuel d (suc rounds) h)
        (λ u.
          Total->>= (Kept (suc rounds)) next (More rounds) (again loop) Anything
            (Total->>= (Kept (suc rounds)) (call C (stmt_next_result stmt))
              (λ f s. f ≡ next_found → Kept rounds s) (stmt_next_outcome C stmt) (More rounds)
              (call-Total C (Kept (suc rounds)) (stmt_next_result stmt)
                (λ f s. f ≡ next_found → Kept rounds s)
                (λ s p e. omega (arith, finite.next_sets stmt s.world e)))
              (stmt_next_outcome-Total rounds))
            (λ more.
              Total-again (Kept rounds) loop (More rounds) more (λ s p. p refl)
                (result_loop-Total rounds fuel d h)))

  execute_bound-Ends :
      (fuel d : ℕ) (binds : List Bind) → limit < fuel → Ends (execute_bound C fuel stmt d binds)
  unfolding execute_bound
  execute_bound-Ends fuel d binds h =
      let execute = checked C stmt (stmt_execute stmt) in
      let loop = result_loop C fuel fuel stmt d in
      Total->>= Anywhere (checked C stmt (stmt_bind_param stmt binds)) (λ u. Anywhere)
        (λ u. execute >> loop) Anything
        (checked-Total C Anywhere Anywhere stmt (stmt_bind_param stmt binds) (λ s p. tt))
        (λ u.
          Total->>= Anywhere execute (λ v. Kept fuel) (λ v. loop) Anything
            (checked-Total C Anywhere (Kept fuel) stmt (stmt_execute stmt)
              (λ s p. omega (arith, finite.execute_sets stmt s.world)))
            (λ v. result_loop-Total fuel fuel d h))

  run_parameters-Ends :
      (fuel d count : ℕ) (maps : List Parameters) (binds : List Bind)
      → limit < fuel
      → Ends (run_parameters C fuel stmt d count maps binds)
  unfolding run_parameters generate_binds
  run_parameters-Ends fuel d count [] binds h = record {
    fueled = λ s p k. cc;
    returned = λ s p a e. tt;
  }
  run_parameters-Ends fuel d count (map ∷ maps) binds h =
      elim (Outcome-cases (generate_binds C map count binds)) [
        | inl (binds', e) ↦
            let rest = run_parameters C fuel stmt d count maps binds' in
            let whole : Ends (execute_bound C fuel stmt d binds' >> rest) =
              Total->>= Anywhere (execute_bound C fuel stmt d binds') Anything (λ u. rest) Anything
                (execute_bound-Ends fuel d binds' h)
                (λ u. run_parameters-Ends fuel d count maps binds' h) in
            record {
              fueled = λ s p. rw (e, run_parameters) (whole.fueled s p);
              returned = λ s p a k. tt;
            }
        | inr (x, e) ↦
            let fueled = generate_from-fueled C count count 1 map binds in
            record {
              fueled = λ s p.
                  rw (e, run_parameters)
                    (λ k. let same : x ≡ out_of_fuel = cc in fueled (e ∙ ap throw same));
              returned = λ s p a k. tt;
            }
      ]

  run_statement-Ends : (fuel d : ℕ) → limit < fuel → Ends (run_statement C fuel stmt d)
  unfolding run_statement
  run_statement-Ends fuel d h = record {
    fueled = λ s p.
        let count = C.stmt_param_count stmt s.world in
        (run_parameters-Ends fuel d count (s.query_data d).parameters (no_binds count) h).fueled s
          p;
    returned = λ s p a e. tt;
  }

  closing-Ends : (m : Action (State World) (Unit {0})) → Ends m → Ends (closing C stmt m)
  unfolding closing
  closing-Ends m h = record { fueled = λ s p. h.fueled s p; returned = λ s p a e. tt }

  prepare_new-Ends : (query : ℕ) → Ends (prepare_new C stmt query)
  unfolding prepare_new
  prepare_new-Ends query = record {
    fueled = λ s p. (whole (s.queries query).sql).fueled s p;
    returned = λ s p a e. tt;
  }
    where
      attr : Action (State World) (Unit {0})
      attr = modify (λ (t : State World). record t { world = C.stmt_attr_set stmt t.world })

      whole :
          (text : String)
          → Ends (
              attr
              >> (checked C stmt (C.stmt_prepare stmt text) >> modify (cache_for C query stmt)))
      whole text =
          let preparing = checked C stmt (C.stmt_prepare stmt text) in
          Total->>= Anywhere attr Anything (λ u. preparing >> modify (cache_for C query stmt))
            Anything
            (modify-Total C Anywhere Anywhere
              (λ (t : State World). record t { world = C.stmt_attr_set stmt t.world }) (λ s p. tt))
            (λ u.
              Total->>= Anywhere preparing Anything (λ v. modify (cache_for C query stmt)) Anything
                (checked-Total C Anywhere Anywhere stmt (C.stmt_prepare stmt text) (λ s p. tt))
                (λ v. modify-Total C Anywhere Anywhere (cache_for C query stmt) (λ s p. tt)))

module _ (C : Client) (limit : ℕ) (finite : FiniteBound C limit) where
  open C use {World, codes, stmt_init}

  new_statement-Ends : (sql : ℕ) (o : Option ℕ) → Ends (new_statement C sql o)
  unfolding new_statement
  new_statement-Ends sql none = record { fueled = λ s p k. cc; returned = λ s p a e. tt }
  new_statement-Ends sql (some stmt) = record { fueled = λ s p k. cc; returned = λ s p a e. tt }

  with_statement-Ends :
      (fuel sql query d : ℕ) → limit < fuel → Ends (with_statement C fuel sql query d)
  unfolding with_statement mysql_stmt_init
  with_statement-Ends fuel sql query d h =
      let fresh =
        λ (stmt : ℕ). closing C stmt (prepare_new C stmt query >> run_statement C fuel stmt d) in
      let cached = λ (stmt : ℕ).
        closing-Ends C limit finite stmt (run_statement C fuel stmt d)
          (run_statement-Ends C limit finite stmt fuel d h) in
      let new : Ends (mysql_stmt_init C sql >>= fresh) =
        Total->>= Anywhere (mysql_stmt_init C sql) Anything fresh Anything
          (Total->>= Anywhere (call C (stmt_init sql)) Anything (new_statement C sql) Anything
            (call-Total C Anywhere (stmt_init sql) Anything (λ s p. tt)) (new_statement-Ends sql))
          (λ stmt.
            closing-Ends C limit finite stmt
              (prepare_new C stmt query >> run_statement C fuel stmt d)
              (Total->>= Anywhere (prepare_new C stmt query) Anything
                (λ u. run_statement C fuel stmt d) Anything
                (prepare_new-Ends C limit finite stmt query)
                (λ u. run_statement-Ends C limit finite stmt fuel d h))) in
      record {
        fueled = λ s p. elim (Option-cases (valid_cached C query s)) [
          | inl e ↦ rw (e, with_statement) (new.fueled s p)
          | inr (stmt, e) ↦ rw (e, with_statement) ((cached stmt).fueled s p)
        ];
        returned = λ s p a e. tt;
      }

  after_error-Ends : (query : ℕ) (e : Exception) → e ≢ out_of_fuel → Ends (after_error C query e)
  unfolding after_error
  after_error-Ends query (sql_error code message) h = record {
    fueled = λ s p k. cc;
    returned = λ s p a e. tt;
  }
  after_error-Ends query (std_error message) h = record {
    fueled = λ s p k. cc;
    returned = λ s p a e. tt;
  }
  after_error-Ends query out_of_fuel h = absurd (h refl)

  -- With more fuel than result sets and rows, a prepared query ends: it returns or throws an error.
  pub execute_prepared-Ends :
      (fuel sql query d : ℕ) → limit < fuel → Ends (execute_prepared C fuel sql query d)
  unfolding execute_prepared
  execute_prepared-Ends fuel sql query d h =
      Total-catch Anywhere (with_statement C fuel sql query d) Anything (after_error C query)
        (with_statement-Ends fuel sql query d h) (after_error-Ends query)
