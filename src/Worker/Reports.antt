-- ===== src/Worker/Reports.antt =====
-- What `runQuery` of src/mysql/Database.cpp leaves in the data of its query.
use my_sqloo.Base.{
  ℕ, ◌<◌, ◌≡◌, ◌≢◌, ◌⊎◌, refl, ap, Bool, true, false, ◌&&◌, String, arith, Bool-cases, inl, inr,
}
use my_sqloo.Client.{Client}
use my_sqloo.Connection.{attempt_reconnect, is_retriable_error}
use my_sqloo.Execute.{execute_statement}
use my_sqloo.Execute.Ending.{FiniteText, FiniteBound}
use my_sqloo.Execute.Ending.Kinds.{execute_kind-Ends}
use my_sqloo.Objects.{query_error, query_success, query_running, query_complete, State}
use my_sqloo.QueryData.{set_status}
use my_sqloo.Outcome.{Exception, Outcome, ok, throw, sql_error, std_error, out_of_fuel}
use my_sqloo.Statements.{free_cached_statements}
use my_sqloo.Worker.{
  handle_of, report_error, retry_after, handle_error, conclude, run_query_with, run_query,
  run_taken,
}

-- The data says whether the query succeeded or failed.
abbrev pub Reported : {World : Type 0} → ℕ → State World → Type 0
Reported d s =
    ((s.query_data d).result_status ≡ query_success)
    ⊎ ((s.query_data d).result_status ≡ query_error)

module _ (C : Client) (limit fuel : ℕ) (text : FiniteText C limit) (bound : FiniteBound C limit)
    (enough : limit < fuel) where
  open C use {World, codes}

  execute_statement-fueled :
      (sql query d : ℕ) (s : State World)
      → (execute_statement C fuel sql query d s).0 ≢ throw out_of_fuel
  unfolding execute_statement
  execute_statement-fueled sql query d s =
      (execute_kind-Ends C limit fuel text bound enough sql (s.queries query).kind query d).fueled s
        tt

  report_error-Reported :
      (d : ℕ) (message : String) (s : State World) → Reported d (report_error C fuel d message s)
  unfolding report_error
  report_error-Reported d message s = inr (ground arith)

  module _ (next : State World → State World) (d : ℕ)
      (again : (s : State World) → Reported d (next s)) where
    retry_after-Reported :
        (message : String) (s : State World) → Reported d (retry_after C fuel next d message s)
    unfolding retry_after
    retry_after-Reported message s =
        let s' = (attempt_reconnect C s).1 in
        elim (Bool-cases (attempt_reconnect C s).0) [
          | inl e ↦ rw e (again (free_cached_statements C s'))
          | inr e ↦ rw e (report_error-Reported d message s')
        ]

    handle_error-Reported :
        (retry : Bool) (e : Exception) (s : State World)
        → e ≢ out_of_fuel
        → Reported d (handle_error C fuel retry next d e s)
    unfolding handle_error
    handle_error-Reported retry (sql_error code message) s h =
        elim (Bool-cases (retry && is_retriable_error codes code)) [
          | inl e ↦ rw e (retry_after-Reported message s)
          | inr e ↦ rw e (report_error-Reported d message s)
        ]
    handle_error-Reported retry (std_error message) s h = report_error-Reported d message s
    handle_error-Reported retry out_of_fuel s h = absurd (h refl)

    conclude-Reported :
        (retry : Bool) (r : Outcome (Unit {0})) (s : State World)
        → r ≢ throw out_of_fuel
        → Reported d (conclude C fuel retry next d r s)
    unfolding conclude
    conclude-Reported retry (ok u) s h = inl (ground arith)
    conclude-Reported retry (throw e) s h = handle_error-Reported retry e s (λ k. h (ap throw k))

    run_query_with-Reported :
        (retry : Bool) (query : ℕ) (s : State World)
        → Reported d (run_query_with C fuel retry next query d s)
    unfolding run_query_with
    run_query_with-Reported retry query s =
        let ran = execute_statement C fuel (handle_of s.db.sql) query d s in
        conclude-Reported retry ran.0 ran.1
          (execute_statement-fueled (handle_of s.db.sql) query d s)

  conclude-false-Reported :
      (next : State World → State World) (d : ℕ) (r : Outcome (Unit {0})) (s : State World)
      → r ≢ throw out_of_fuel
      → Reported d (conclude C fuel false next d r s)
  unfolding conclude handle_error
  conclude-false-Reported next d (ok u) s h = inl (ground arith)
  conclude-false-Reported next d (throw (sql_error code message)) s h =
      report_error-Reported d message s
  conclude-false-Reported next d (throw (std_error message)) s h = report_error-Reported d message s
  conclude-false-Reported next d (throw out_of_fuel) s h = absurd (h refl)

  run_once-Reported :
      (next : State World → State World) (query d : ℕ) (s : State World)
      → Reported d (run_query_with C fuel false next query d s)
  unfolding run_query_with
  run_once-Reported next query d s =
      let ran = execute_statement C fuel (handle_of s.db.sql) query d s in
      conclude-false-Reported next d ran.0 ran.1
        (execute_statement-fueled (handle_of s.db.sql) query d s)

  pub run_query-Reported :
      (retry : Bool) (query d : ℕ) (s : State World) → Reported d (run_query C fuel retry query d s)
  unfolding run_query
  run_query-Reported true query d s =
      run_query_with-Reported (run_query_with C fuel false (λ s. s) query d) d
        (run_once-Reported (λ s. s) query d) true query s
  run_query-Reported false query d s = run_once-Reported (λ s. s) query d s

  -- Let the results of the client library come to an end within a limit, and let the fuel be above it.
  -- Then running what was taken from the queue, with its retry, completes: the data has the status
  -- complete, and its result status says that the query succeeded or that it failed.
  pub run_taken-Reported :
      (query d : ℕ) (s : State World)
      → let t = run_taken C fuel query d s in
        Reported d t × ((t.query_data d).status ≡ query_complete)
  unfolding run_taken
  run_taken-Reported query d s =
      let run = run_query C fuel s.db.should_auto_reconnect query d in
      let u = set_status query_running d s in
      let reported = run_query-Reported s.db.should_auto_reconnect query d u in
      (
        elim reported [ inl e ↦ inl (ground (arith, e)) | inr e ↦ inr (ground (arith, e)) ],
        ground arith,
      )
