-- ===== src/Execute/Transaction.antt =====
-- `Transaction::executeStatement` of src/mysql/Transaction.cpp. How a query of the transaction runs is
-- a parameter, since that is a virtual call.
pub mod Atomic
use my_sqloo.Base.{ℕ, Bool, true, false, String, List, [], ◌∷◌, if◌then◌else◌}
use my_sqloo.Client.{Client}
use my_sqloo.Execute.Plain.{sql_failure}
use my_sqloo.Objects.{
  QueryStatus, query_running, query_complete, query_aborted, query_none, query_error, query_success,
  IQueryData, State,
}
use my_sqloo.Outcome.{Action, Exception, ok, throw, sql_error, pure, catch, modify, ◌>>=◌, ◌>>◌}
use my_sqloo.QueryData.{
  set_status, set_result_status, set_error, clear_result_data, emplace_empty_result_data,
}
use my_sqloo.ResultData.{call}

abbrev pub Queries : Type 0
Queries = List (ℕ × ℕ)

unfoldable pub is_complete : QueryStatus → Bool
is_complete query_complete = true
is_complete _ = false

unfoldable pub is_running_status : QueryStatus → Bool
is_running_status query_running = true
is_running_status _ = false

module _ {World : Type 0} where
  -- The first loop: status, result status, error and results of one query are cleared.
  unfoldable pub reset_query : ℕ → State World → State World
  reset_query d s =
      clear_result_data d
        (set_error "" d (set_result_status query_none d (set_status query_running d s)))

  unfoldable pub reset_queries : Queries → State World → State World
  reset_queries [] s = s
  reset_queries ((query, d) ∷ rest) s = reset_queries rest (reset_query d s)

  -- After `executeStatement` of a query has returned.
  unfoldable pub complete_query : ℕ → Action (State World) (Unit {0})
  complete_query d s = (ok tt, set_result_status query_success d (set_status query_complete d s))

  -- The loop of the handler, for one query.
  unfoldable pub fail_query : ℕ → State World → State World
  unfolding is_complete is_running_status
  fail_query d s =
      let s' = set_result_status query_error d s in
      if is_complete (s.query_data d).status
      then s
      else if is_running_status (s'.query_data d).status
      then set_status query_aborted d (emplace_empty_result_data d s')
      else set_status query_complete d s'

  unfoldable pub fail_queries : Queries → State World → State World
  fail_queries [] s = s
  fail_queries ((query, d) ∷ rest) s = fail_queries rest (fail_query d s)

module _ (C : Client) (sql : ℕ) where
  open C use {World, autocommit, commit, rollback}

  unfoldable pub mysql_autocommit : Bool → Action (State World) (Unit {0})
  mysql_autocommit mode = do
    failed ← call C (autocommit sql mode)
    if failed then sql_failure C sql else pure tt

  unfoldable pub mysql_commit : Action (State World) (Unit {0})
  mysql_commit = do failed ← call C (commit sql); if failed then sql_failure C sql else pure tt

  -- A call of `mysql_autocommit` whose result is ignored.
  unfoldable pub restore_autocommit : State World → State World
  restore_autocommit s = record s { world = (autocommit sql true s.world).1 }

  -- `catch (const MySQLException &error)` of the loop over the queries.
  unfoldable pub after_query_error : ℕ → Exception → Action (State World) (Unit {0})
  after_query_error d (sql_error code message) s =
      (throw (sql_error code message), set_result_status query_error d (set_error message d s))
  after_query_error d e s = (throw e, s)

  unfoldable pub end_transaction : ℕ → Action (State World) (Unit {0})
  end_transaction d s = (ok tt, restore_autocommit (set_result_status query_success d s))

  -- What the handler does before it rethrows.
  unfoldable pub undo : ℕ → Queries → State World → State World
  undo d queries s =
      let failed = set_result_status query_error d s in
      fail_queries queries
        (restore_autocommit (record failed { world = rollback sql failed.world }))

  unfoldable pub after_error : ℕ → Queries → Exception → Action (State World) (Unit {0})
  after_error d queries (sql_error code message) s =
      (throw (sql_error code message), undo d queries s)
  after_error d queries e s = (throw e, s)

  module _ (run_query : ℕ → ℕ → Action (State World) (Unit {0})) where
    unfoldable pub run_one : ℕ → ℕ → Action (State World) (Unit {0})
    run_one query d = catch (run_query query d >> complete_query d) (after_query_error d)

    unfoldable pub run_queries : Queries → Action (State World) (Unit {0})
    run_queries [] = pure tt
    run_queries ((query, d) ∷ rest) = run_one query d >> run_queries rest

    -- The `try` block.
    unfoldable pub attempt : ℕ → Queries → Action (State World) (Unit {0})
    attempt d queries =
        modify (reset_queries queries)
        >> (mysql_autocommit false >> (run_queries queries >> (mysql_commit >> end_transaction d)))

    unfoldable pub execute_transaction : ℕ → Action (State World) (Unit {0})
    execute_transaction d s =
        let s' = set_status query_running d s in
        let queries = (s'.query_data d).queries in
        catch (attempt d queries) (after_error d queries) s'
