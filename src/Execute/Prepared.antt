-- ===== src/Execute/Prepared.antt =====
-- Prepared queries, src/mysql/PreparedQuery.cpp: `executeStatement` and its wrappers that throw.
use my_sqloo.Base.{
  ℕ, zero, suc, Bool, true, false, not, Option, none, some, List, [], ◌∷◌, ◌++◌, if◌then◌else◌,
}
use my_sqloo.Client.{Client, Bind, Next, next_found, next_none, next_failed}
use my_sqloo.Connection.{is_retriable_error}
use my_sqloo.IQuery.{set_query}
use my_sqloo.Objects.{Parameters, ResultData, query_success, State}
use my_sqloo.Outcome.{
  Action, Exception, ok, throw, sql_error, out_of_fuel, pure, catch, modify, again, ◌>>=◌, ◌>>◌,
}
use my_sqloo.QueryData.{set_data, empty_result}
use my_sqloo.ResultData.{call, stmt_failure, from_statement}
use my_sqloo.Statements.{is_valid, cache_statement, free_statement}
use my_sqloo.Execute.Parameters.{generate_binds, no_binds}
use my_sqloo.Execute.Plain.{sql_failure}

module _ (C : Client) where
  open C use {
    World, Res, codes, errno, error as mysql_error, free_result, stmt_init, stmt_attr_set,
    stmt_prepare, stmt_close, stmt_param_count, stmt_bind_param, stmt_execute, stmt_affected_rows,
    stmt_insert_id, stmt_result_metadata, stmt_store_result, stmt_free_result, stmt_next_result,
  }

  -- Throws if the call before it has failed.
  unfoldable pub stmt_check : ℕ → Bool → Action (State World) (Unit {0})
  stmt_check stmt true = stmt_failure C stmt
  stmt_check stmt false = pure tt

  -- A call on a statement that throws if it fails.
  abbrev pub checked : ℕ → (World → Bool × World) → Action (State World) (Unit {0})
  checked stmt f = call C f >>= stmt_check stmt

  -- The clean-up `f` runs after `m`, however `m` ends.
  abbrev pub finally_do :
      {A : Type 0} → (World → World) → Action (State World) A → Action (State World) A
  finally_do f m s = let (r, s') = m s in (r, record s' { world = f s'.world })

  abbrev pub push_result_only : ℕ → ResultData → State World → State World
  push_result_only d result s =
      let data' = s.query_data d in
      set_data d (record data' { results = data'.results ++ (result ∷ []) }) s

  abbrev pub push_ids : ℕ → ℕ → State World → State World
  push_ids stmt d s =
      let data' = s.query_data d in
      set_data d
        (record data' {
          affected_rows = data'.affected_rows ++ (stmt_affected_rows stmt s.world ∷ []);
          insert_ids = data'.insert_ids ++ (stmt_insert_id stmt s.world ∷ []);
          result_status = query_success;
        })
        s

  unfoldable pub push_prepared : ℕ → ResultData → Action (State World) (Unit {0})
  push_prepared d result s = (ok tt, push_result_only d result s)

  -- The part of the loop that stores a result set which has metadata.
  unfoldable pub store_prepared : ℕ → ℕ → ℕ → Option Res → Action (State World) (Unit {0})
  store_prepared fuel stmt d none = modify (push_result_only d empty_result)
  store_prepared fuel stmt d (some meta) = finally_do (free_result meta) (
      checked stmt (stmt_store_result stmt)
      >> finally_do (stmt_free_result stmt) (from_statement C fuel stmt meta >>= push_prepared d))

  unfoldable pub stmt_next_outcome : ℕ → Next → Action (State World) Bool
  stmt_next_outcome stmt next_found = pure true
  stmt_next_outcome stmt next_none = pure false
  stmt_next_outcome stmt next_failed = stmt_failure C stmt

  unfoldable pub mysql_stmt_next : ℕ → Action (State World) Bool
  unfolding stmt_next_outcome
  mysql_stmt_next stmt = call C (stmt_next_result stmt) >>= stmt_next_outcome stmt

  -- The body of the loop over the result sets.
  unfoldable pub store_next : ℕ → ℕ → ℕ → Action (State World) (Unit {0})
  store_next fuel stmt d =
      modify (push_ids stmt d)
      >> (call C (stmt_result_metadata stmt) >>= store_prepared fuel stmt d)

  -- The loop over the result sets of one execution.
  unfoldable pub result_loop : ℕ → ℕ → ℕ → ℕ → Action (State World) (Unit {0})
  unfolding again
  result_loop zero fuel stmt d s = (throw out_of_fuel, s)
  result_loop (suc rounds) fuel stmt d s =
      (store_next fuel stmt d >> (mysql_stmt_next stmt >>= again (result_loop rounds fuel stmt d)))
        s

  unfoldable pub execute_bound : ℕ → ℕ → ℕ → List Bind → Action (State World) (Unit {0})
  execute_bound fuel stmt d binds =
      checked stmt (stmt_bind_param stmt binds)
      >> (checked stmt (stmt_execute stmt) >> result_loop fuel fuel stmt d)

  -- One execution for each set of parameters.
  unfoldable pub run_parameters :
      ℕ → ℕ → ℕ → ℕ → List Parameters → List Bind → Action (State World) (Unit {0})
  run_parameters fuel stmt d count [] binds s = (ok tt, s)
  run_parameters fuel stmt d count (map ∷ maps) binds s = elim (generate_binds C map count binds) [
    | throw e ↦ (throw e, s)
    | ok binds' ↦
        (execute_bound fuel stmt d binds' >> run_parameters fuel stmt d count maps binds') s
  ]

  unfoldable pub run_statement : ℕ → ℕ → ℕ → Action (State World) (Unit {0})
  run_statement fuel stmt d s =
      let count = stmt_param_count stmt s.world in
      run_parameters fuel stmt d count (s.query_data d).parameters (no_binds count) s

  -- `stmtClose`
  unfoldable pub closing : ℕ → Action (State World) (Unit {0}) → Action (State World) (Unit {0})
  closing stmt m s =
      let (r, s') = m s in
      (
        r,
        if not s'.db.cache_prepared_statements
            then record s' { world = stmt_close stmt s'.world }
            else s',
      )

  -- The statement of the query, if it is cached and still valid.
  unfoldable pub valid_cached : ℕ → State World → Option ℕ
  valid_cached query s = elim (s.queries query).cached_statement [
    | none ↦ none
    | some handle ↦ if is_valid (s.handles handle) then (s.handles handle).stmt else none
  ]

  unfoldable pub cache_for : ℕ → ℕ → State World → State World
  cache_for query stmt s =
      let (handle, s') = cache_statement (some stmt) s in
      let cached =
        set_query query (record (s'.queries query) { cached_statement = some handle }) s' in
      if s.db.cache_prepared_statements then cached else s

  unfoldable pub new_statement : ℕ → Option ℕ → Action (State World) ℕ
  new_statement sql none = sql_failure C sql
  new_statement sql (some stmt) = pure stmt

  unfoldable pub mysql_stmt_init : ℕ → Action (State World) ℕ
  unfolding new_statement
  mysql_stmt_init sql = call C (stmt_init sql) >>= new_statement sql

  -- `mysqlStmtPrepare` on a new statement, and its place in the cache.
  unfoldable pub prepare_new : ℕ → ℕ → Action (State World) (Unit {0})
  prepare_new stmt query s =
      (modify (λ (t : State World). record t { world = stmt_attr_set stmt t.world })
          >> (checked stmt (stmt_prepare stmt (s.queries query).sql)
              >> modify (cache_for query stmt)))
        s

  unfoldable pub with_statement : ℕ → ℕ → ℕ → ℕ → Action (State World) (Unit {0})
  with_statement fuel sql query d s = elim (valid_cached query s) [
    | some stmt ↦ closing stmt (run_statement fuel stmt d) s
    | none ↦
        (mysql_stmt_init sql >>= λ stmt.
        closing stmt (prepare_new stmt query >> run_statement fuel stmt d))
          s
  ]

  -- `catch (const MySQLException &error)`
  unfoldable pub after_error : ℕ → Exception → Action (State World) (Unit {0})
  after_error query (sql_error code message) s = (
    throw (sql_error code message),
    if is_retriable_error codes code
        then free_statement (s.queries query).cached_statement s
        else s,
  )
  after_error query e s = (throw e, s)

  unfoldable pub execute_prepared : ℕ → ℕ → ℕ → ℕ → Action (State World) (Unit {0})
  execute_prepared fuel sql query d = catch (with_statement fuel sql query d) (after_error query)
