-- ===== src/Worker/Frame.antt =====
-- What the part of the database thread that runs a query leaves alone, src/mysql/Database.cpp.
use my_sqloo.Base.{
  ℕ, ◌≡◌, refl, ◌∙◌, Bool, true, false, ◌&&◌, Option, none, some, List, [], ◌∷◌, String, arith,
  Bool-cases, inl, inr,
}
use my_sqloo.Client.{Client}
use my_sqloo.Connection.{attempt_reconnect, is_retriable_error}
use my_sqloo.Execute.{execute_kind, execute_statement, run_inner}
use my_sqloo.Execute.Frame.{
  attempt_reconnect-keeps, execute_query-Preserves, execute_ping-Preserves,
}
use my_sqloo.Execute.Frame.Delivery.{
  Delivery, delivery, flags-delivery, delivery-IsStable, execute_transaction-Seen,
}
use my_sqloo.Execute.Frame.Prepared.{execute_prepared-Preserves}
use my_sqloo.Execute.Undo.{execute_inner-Preserves}
use my_sqloo.Objects.{
  Kind, query_kind, prepared_kind, transaction_kind, ping_kind, query_running, query_complete,
  query_success, State,
}
use my_sqloo.Outcome.{Exception, Outcome, ok, throw, sql_error, std_error, out_of_fuel}
use my_sqloo.Preserve.{Preserves}
use my_sqloo.QueryData.{set_status, set_result_status}
use my_sqloo.Statements.{
  is_valid, close_handle, close_round, close_handles, free_unused_statements,
  free_cached_statements,
}
use my_sqloo.Worker.{
  handle_of, report_error, retry_after, handle_error, conclude, run_query_with, run_query,
  run_taken,
}

module _ (C : Client) where
  open C use {World, codes}

  close_handle-delivery :
      (o : Option ℕ) (h : ℕ) (s : State World) → delivery (close_handle C o h s) ≡ delivery s
  unfolding close_handle
  close_handle-delivery none h s = refl
  close_handle-delivery (some stmt) h s = refl

  close_round-delivery : (h : ℕ) (s : State World) → delivery (close_round C h s) ≡ delivery s
  unfolding close_round
  close_round-delivery h s = elim (Bool-cases (is_valid (s.handles h))) [
    | inl e ↦ rw e (close_handle-delivery (s.handles h).stmt h s)
    | inr e ↦ rw e refl
  ]

  close_handles-delivery :
      (hs : List ℕ) (s : State World) → delivery (close_handles C hs s) ≡ delivery s
  unfolding close_handles
  close_handles-delivery [] s = refl
  close_handles-delivery (h ∷ hs) s =
      close_handles-delivery hs (close_round C h s) ∙ (close_round-delivery h s)

  pub free_cached_statements-delivery :
      (s : State World) → delivery (free_cached_statements C s) ≡ delivery s
  unfolding free_cached_statements free_unused_statements
  free_cached_statements-delivery s = close_handles-delivery s.db.cached_statements s

  module _ (fuel : ℕ) (x : Delivery) where
    abbrev Seen : State World → Type 0
    Seen s = delivery s ≡ x

    execute_kind-Seen :
        (sql : ℕ) (k : Kind) (query d : ℕ) → Preserves Seen (execute_kind C fuel sql k query d)
    unfolding execute_kind
    execute_kind-Seen sql query_kind query d =
        execute_query-Preserves C Seen (delivery-IsStable x) fuel sql query d
    execute_kind-Seen sql prepared_kind query d =
        execute_prepared-Preserves C Seen (delivery-IsStable x) fuel sql query d
    execute_kind-Seen sql ping_kind query d =
        execute_ping-Preserves C Seen (delivery-IsStable x) sql query
    execute_kind-Seen sql transaction_kind query d =
        execute_transaction-Seen C sql (run_inner C fuel sql) x
          (λ q a s.
            execute_inner-Preserves C fuel sql Seen (delivery-IsStable x) (s.queries q).kind q a s)
          d

    report_error-Seen :
        (d : ℕ) (message : String) (s : State World)
        → Seen s
        → Seen (report_error C fuel d message s)
    unfolding report_error
    report_error-Seen d message s h =
        flags-delivery s (report_error C fuel d message s) refl (λ a. ground arith) ∙ h

    module _ (next : State World → State World)
        (keeps : (s : State World) → Seen s → Seen (next s)) where
      retry_after-Seen :
          (d : ℕ) (message : String) (s : State World)
          → Seen s
          → Seen (retry_after C fuel next d message s)
      unfolding retry_after
      retry_after-Seen d message s h =
          let s' = (attempt_reconnect C s).1 in
          let h' = attempt_reconnect-keeps C Seen (delivery-IsStable x) s h in
          elim (Bool-cases (attempt_reconnect C s).0) [
            | inl e ↦
                rw e (keeps (free_cached_statements C s') (free_cached_statements-delivery s' ∙ h'))
            | inr e ↦ rw e (report_error-Seen d message s' h')
          ]

      handle_error-Seen :
          (retry : Bool) (d : ℕ) (e : Exception) (s : State World)
          → Seen s
          → Seen (handle_error C fuel retry next d e s)
      unfolding handle_error
      handle_error-Seen retry d (sql_error code message) s h =
          elim (Bool-cases (retry && is_retriable_error codes code)) [
            | inl e ↦ rw e (retry_after-Seen d message s h)
            | inr e ↦ rw e (report_error-Seen d message s h)
          ]
      handle_error-Seen retry d (std_error message) s h = report_error-Seen d message s h
      handle_error-Seen retry d out_of_fuel s h = h

      conclude-Seen :
          (retry : Bool) (d : ℕ) (r : Outcome (Unit {0})) (s : State World)
          → Seen s
          → Seen (conclude C fuel retry next d r s)
      unfolding conclude
      conclude-Seen retry d (ok u) s h =
          flags-delivery s (set_result_status query_success d s) refl (λ a. ground arith) ∙ h
      conclude-Seen retry d (throw e) s h = handle_error-Seen retry d e s h

      run_query_with-Seen :
          (retry : Bool) (query d : ℕ) (s : State World)
          → Seen s
          → Seen (run_query_with C fuel retry next query d s)
      unfolding run_query_with execute_statement
      run_query_with-Seen retry query d s h =
          let sql = handle_of s.db.sql in
          let ran = execute_kind C fuel sql (s.queries query).kind query d s in
          conclude-Seen retry d ran.0 ran.1
            (execute_kind-Seen sql (s.queries query).kind query d s h)

    run_query-Seen :
        (retry : Bool) (query d : ℕ) (s : State World)
        → Seen s
        → Seen (run_query C fuel retry query d s)
    unfolding run_query
    run_query-Seen false query d s h = run_query_with-Seen (λ s. s) (λ s p. p) false query d s h
    run_query-Seen true query d s h =
        run_query_with-Seen _ (λ s p. run_query_with-Seen (λ s. s) (λ s p. p) false query d s p)
          true query d s h

  -- Running a query of any kind leaves the queues, the flags and the waits alone.
  pub run_taken-delivery :
      (fuel query d : ℕ) (s : State World) → delivery (run_taken C fuel query d s) ≡ delivery s
  unfolding run_taken
  run_taken-delivery fuel query d s =
      let begun = set_status query_running d s in
      let u = run_query C fuel s.db.should_auto_reconnect query d begun in
      flags-delivery u (set_status query_complete d u) refl (λ a. ground arith)
      ∙ run_query-Seen fuel (delivery s) s.db.should_auto_reconnect query d begun
          (flags-delivery s begun refl (λ a. ground arith))
