-- ===== src/Execute/Undo.antt =====
-- How a transaction of src/mysql/Transaction.cpp ends when its queries are run by the code of
-- src/mysql/Query.cpp, PreparedQuery.cpp and PingQuery.cpp.
use my_sqloo.Base.{ℕ, ◌≡◌, ap, refl, String, true, false, contains}
use my_sqloo.Client.{Client}
use my_sqloo.Execute.{execute_inner, run_inner, execute_kind}
use my_sqloo.Execute.Frame.{IsStable, execute_query-Preserves, execute_ping-Preserves}
use my_sqloo.Execute.Frame.Prepared.{execute_prepared-Preserves}
use my_sqloo.Execute.Frame.View.{View, view, view-IsStable}
use my_sqloo.Execute.Transaction.{attempt}
use my_sqloo.Execute.Transaction.Atomic.{
  data_of, Distinct, Settled, KeepsStatus, transaction_undone,
}
use my_sqloo.Objects.{
  Kind, query_kind, prepared_kind, transaction_kind, ping_kind, query_running, query_error, State,
}
use my_sqloo.Outcome.{throw, sql_error}
use my_sqloo.Preserve.{Preserves}
use my_sqloo.QueryData.{set_status}

module _ (C : Client) (fuel sql : ℕ) where
  open C use {World, autocommit, rollback}

  pub execute_inner-Preserves :
      (P : State World → Type 0) (st : IsStable P) (k : Kind) (query d : ℕ)
      → Preserves P (execute_inner C fuel sql k query d)
  unfolding execute_inner
  execute_inner-Preserves P st query_kind query d = execute_query-Preserves C P st fuel sql query d
  execute_inner-Preserves P st prepared_kind query d =
      execute_prepared-Preserves C P st fuel sql query d
  execute_inner-Preserves P st transaction_kind query d =
      execute_query-Preserves C P st fuel sql query d
  execute_inner-Preserves P st ping_kind query d = execute_ping-Preserves C P st sql query

  run_inner-KeepsStatus : KeepsStatus (run_inner C fuel sql)
  run_inner-KeepsStatus query d a s =
      ap (λ (v : View). v.status a)
        (execute_inner-Preserves _ (view-IsStable (view s)) (s.queries query).kind query d s refl)

  -- Let an attempt to run a transaction throw an error of the client library, whose queries have
  -- distinct data that is not the data of the transaction itself. Then the transaction throws the
  -- same error, the client library was told to roll back and then to turn autocommit on again, and
  -- nothing else since the throw, the result of the transaction is an error, and each of its queries
  -- that was still running is aborted with an error and an empty result, while the data of each
  -- query that was complete is left as it was.
  pub execute_kind-undone :
      (query d code : ℕ) (message : String) (s : State World)
      → let begun = set_status query_running d s in
        let qs = (begun.query_data d).queries in
        Distinct (data_of qs)
        → contains d (data_of qs) ≡ false
        → (attempt C sql (run_inner C fuel sql) d qs begun).0 ≡ throw (sql_error code message)
        → let t = (attempt C sql (run_inner C fuel sql) d qs begun).1 in
          let (r, after) = execute_kind C fuel sql transaction_kind query d s in
          (r ≡ throw (sql_error code message))
          × (after.world ≡ (autocommit sql true (rollback sql t.world)).1)
          × ((after.query_data d).result_status ≡ query_error)
          × ((a : ℕ)
              → contains a (data_of qs) ≡ true
              → Settled (t.query_data a) (after.query_data a))
  unfolding execute_kind
  execute_kind-undone query d code message s =
      transaction_undone C sql (run_inner C fuel sql) run_inner-KeepsStatus d code message s
