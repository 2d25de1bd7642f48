-- ===== src/Execute/Frame/Delivery.antt =====
-- What the queues and the waits see of the state while the database thread runs a query of any kind,
-- transactions of src/mysql/Transaction.cpp included.
use mathlib.Core.Path.{fun_ext}
use my_sqloo.Base.{ℕ, ◌≡◌, refl, ap, ◌∙◌, Bool, false, Option, List, [], ◌∷◌, arith, if◌then◌else◌}
use my_sqloo.Client.{Client}
use my_sqloo.Execute.Frame.{IsStable, then-Preserves, both-Preserves}
use my_sqloo.Execute.Frame.View.{
  View, view, set_data-view, cache_statement-view, free_statement-view,
}
use my_sqloo.Execute.Transaction.{
  Queries, reset_query, reset_queries, fail_query, fail_queries, complete_query, mysql_autocommit,
  mysql_commit, restore_autocommit, after_query_error, end_transaction, undo, after_error, run_one,
  run_queries, attempt, execute_transaction,
}
use my_sqloo.Execute.Plain.{sql_failure}
use my_sqloo.Objects.{Database, Entry, State, query_running, query_error}
use my_sqloo.Outcome.{Action, Exception, sql_error, std_error, out_of_fuel, pure, ◌>>◌}
use my_sqloo.Preserve.{Preserves, Preserves-catch, Preserves-if}
use my_sqloo.QueryData.{
  set_status, set_result_status, clear_result_data, clear_results, emplace_empty_result_data,
  push_result,
}

pub record Delivery : Type 0 where
  pub finished : ℕ → Bool
  pub finished_queries : List Entry
  pub query_queue : List Entry
  pub waiting_query : Option (ℕ × ℕ)
  pub can_wait : Bool
  pub started_connecting : Bool

abbrev of_view : View → Delivery
of_view v = record {
  finished = v.finished;
  finished_queries = v.finished_queries;
  query_queue = v.query_queue;
  waiting_query = v.waiting_query;
  can_wait = v.can_wait;
  started_connecting = v.started_connecting;
}

module _ {World : Type 0} where
  abbrev pub delivery : State World → Delivery
  delivery s = of_view (view s)

  -- The `finished` flags and the database decide it.
  pub flags-delivery :
      (s t : State World)
      → t.db ≡ s.db
      → ((a : ℕ) → (t.query_data a).finished ≡ (s.query_data a).finished)
      → delivery t ≡ delivery s
  flags-delivery s t db flags = λ i. record {
    finished = fun_ext flags i;
    finished_queries = let d : Database = db i in d.finished_queries;
    query_queue = let d : Database = db i in d.query_queue;
    waiting_query = let d : Database = db i in d.waiting_query;
    can_wait = let d : Database = db i in d.can_wait;
    started_connecting = let d : Database = db i in d.started_connecting;
  }

  pub delivery-IsStable : (x : Delivery) → IsStable (λ (s : State World). delivery s ≡ x)
  delivery-IsStable x = record {
    world = λ w s h. h;
    value = λ d v s h k e. ap of_view (set_data-view d v s h k) ∙ e;
    query = λ q v s h. h;
    handle = λ sql s h. h;
    cached = λ o s h. ap of_view (cache_statement-view o s) ∙ h;
    freed = λ o s h. ap of_view (free_statement-view o s) ∙ h;
  }

  reset_query-delivery : (d : ℕ) (s : State World) → delivery (reset_query d s) ≡ delivery s
  unfolding reset_query clear_result_data clear_results
  reset_query-delivery d s = flags-delivery s (reset_query d s) refl λ a. ground arith

  reset_queries-delivery :
      (qs : Queries) (s : State World) → delivery (reset_queries qs s) ≡ delivery s
  unfolding reset_queries
  reset_queries-delivery [] s = refl
  reset_queries-delivery ((query, d) ∷ rest) s =
      reset_queries-delivery rest (reset_query d s) ∙ reset_query-delivery d s

  fail_query-delivery : (d : ℕ) (s : State World) → delivery (fail_query d s) ≡ delivery s
  unfolding fail_query emplace_empty_result_data push_result
  fail_query-delivery d s = flags-delivery s (fail_query d s) (ground arith) λ a. ground arith

  fail_queries-delivery :
      (qs : Queries) (s : State World) → delivery (fail_queries qs s) ≡ delivery s
  unfolding fail_queries
  fail_queries-delivery [] s = refl
  fail_queries-delivery ((query, d) ∷ rest) s =
      fail_queries-delivery rest (fail_query d s) ∙ fail_query-delivery d s

module _ (C : Client) (sql : ℕ) where
  open C use {World, autocommit, commit, rollback}

  abbrev thrown_if : Bool → Action (State World) (Unit {0})
  thrown_if failed = if failed then sql_failure C sql else pure tt

  module _ (run_query : ℕ → ℕ → Action (State World) (Unit {0})) (x : Delivery) where
    abbrev Seen : State World → Type 0
    Seen s = delivery s ≡ x

    set_data-Seen :
        (s t : State World)
        → t.db ≡ s.db
        → ((a : ℕ) → (t.query_data a).finished ≡ (s.query_data a).finished)
        → Seen s
        → Seen t
    set_data-Seen s t db flags h = flags-delivery s t db flags ∙ h

    mysql_autocommit-Seen : (mode : Bool) → Preserves Seen (mysql_autocommit C sql mode)
    unfolding mysql_autocommit
    mysql_autocommit-Seen mode =
        then-Preserves C Seen (delivery-IsStable x) (autocommit sql mode) (thrown_if)
          λ failed. Preserves-if Seen failed (sql_failure C sql) (pure tt) (λ s h. h) (λ s h. h)

    mysql_commit-Seen : Preserves Seen (mysql_commit C sql)
    unfolding mysql_commit
    mysql_commit-Seen =
        then-Preserves C Seen (delivery-IsStable x) (commit sql) (thrown_if)
          λ failed. Preserves-if Seen failed (sql_failure C sql) (pure tt) (λ s h. h) (λ s h. h)

    complete_query-Seen : (d : ℕ) → Preserves Seen (complete_query d)
    unfolding complete_query
    complete_query-Seen d s h = set_data-Seen s (complete_query d s).1 refl (λ a. ground arith) h

    after_query_error-Seen : (d : ℕ) (e : Exception) → Preserves Seen (after_query_error C sql d e)
    unfolding after_query_error
    after_query_error-Seen d (sql_error code message) s h =
        set_data-Seen s (after_query_error C sql d (sql_error code message) s).1 refl
          (λ a. ground arith) h
    after_query_error-Seen d (std_error message) s h = h
    after_query_error-Seen d out_of_fuel s h = h

    end_transaction-Seen : (d : ℕ) → Preserves Seen (end_transaction C sql d)
    unfolding end_transaction restore_autocommit
    end_transaction-Seen d s h =
        set_data-Seen s (end_transaction C sql d s).1 refl (λ a. ground arith) h

    after_error-Seen :
        (d : ℕ) (qs : Queries) (e : Exception) → Preserves Seen (after_error C sql d qs e)
    unfolding after_error undo restore_autocommit
    after_error-Seen d qs (sql_error code message) s h =
        let failed = set_result_status query_error d s in
        let ready =
          restore_autocommit C sql (record failed { world = rollback sql failed.world }) in
        fail_queries-delivery qs ready ∙ set_data-Seen s ready refl (λ a. ground arith) h
    after_error-Seen d qs (std_error message) s h = h
    after_error-Seen d qs out_of_fuel s h = h

    module _ (keeps : (query d : ℕ) → Preserves Seen (run_query query d)) where
      run_queries-Seen : (qs : Queries) → Preserves Seen (run_queries C sql run_query qs)
      unfolding run_queries run_one
      run_queries-Seen [] = λ s h. h
      run_queries-Seen ((query, d) ∷ rest) =
          both-Preserves C Seen (delivery-IsStable x) (run_one C sql run_query query d)
            (run_queries C sql run_query rest)
            (Preserves-catch Seen (run_query query d >> complete_query d)
              (after_query_error C sql d)
              (both-Preserves C Seen (delivery-IsStable x) (run_query query d) (complete_query d)
                (keeps query d) (complete_query-Seen d))
              (after_query_error-Seen d))
            (run_queries-Seen rest)

      attempt-Seen : (d : ℕ) (qs : Queries) → Preserves Seen (attempt C sql run_query d qs)
      unfolding attempt
      attempt-Seen d qs s h =
          let st = delivery-IsStable x in
          let last = mysql_commit C sql >> end_transaction C sql d in
          let ran = run_queries C sql run_query qs >> last in
          both-Preserves C Seen st (mysql_autocommit C sql false) ran (mysql_autocommit-Seen false)
            (both-Preserves C Seen st (run_queries C sql run_query qs) last (run_queries-Seen qs) (
              both-Preserves C Seen st (mysql_commit C sql) (end_transaction C sql d)
                mysql_commit-Seen (end_transaction-Seen d)))
            (reset_queries qs s) (reset_queries-delivery qs s ∙ h)

      pub execute_transaction-Seen :
          (d : ℕ) → Preserves Seen (execute_transaction C sql run_query d)
      unfolding execute_transaction
      execute_transaction-Seen d s h =
          let begun = set_status query_running d s in
          let qs = (begun.query_data d).queries in
          Preserves-catch Seen (attempt C sql run_query d qs) (after_error C sql d qs)
            (attempt-Seen d qs) (after_error-Seen d qs) begun
            (set_data-Seen s begun refl (λ a. ground arith) h)
