-- ===== src/Execute/Ending/Kinds.antt =====
-- Queries of every kind end: the virtual call of `executeStatement` in src/mysql/Database.cpp.
use my_sqloo.Base.{ℕ, ◌<◌, ◌≢◌, refl, Bool, true, false, [], ◌∷◌, if◌then◌else◌}
use my_sqloo.Client.{Client}
use my_sqloo.Execute.{execute_inner, run_inner, execute_kind}
use my_sqloo.Execute.Ending.{FiniteText, FiniteBound}
use my_sqloo.Execute.Ending.Plain.{call-Total, execute_query-Ends}
use my_sqloo.Execute.Ending.Prepared.{execute_prepared-Ends}
use my_sqloo.Execute.Plain.{execute_ping, sql_failure}
use my_sqloo.Execute.Transaction.{
  Queries, reset_queries, complete_query, mysql_autocommit, mysql_commit, after_query_error,
  end_transaction, after_error, run_one, run_queries, attempt, execute_transaction,
}
use my_sqloo.Objects.{
  Kind, query_kind, prepared_kind, transaction_kind, ping_kind, query_running, State,
}
use my_sqloo.Outcome.{Action, Exception, sql_error, std_error, out_of_fuel, pure, modify, ◌>>◌}
use my_sqloo.QueryData.{set_status}
use my_sqloo.Total.{Anything, Anywhere, Ends, Total->>=, Total-catch}

module _ {S : Type 0} where
  -- Two calls in a row.
  >>-Ends :
      {B : Type 0} (m : Action S (Unit {0})) (k : Action S B) → Ends m → Ends k → Ends (m >> k)
  >>-Ends m k hm hk = Total->>= Anywhere m Anything (λ u. k) Anything hm (λ u. hk)

module _ (C : Client) (sql : ℕ) where
  open C use {World, autocommit, commit}

  thrown_if-Ends :
      (failed : Bool) → Ends (if failed then sql_failure C {A = Unit {0}} sql else pure tt)
  thrown_if-Ends true = record { fueled = λ s p k. cc; returned = λ s p a e. tt }
  thrown_if-Ends false = record { fueled = λ s p k. cc; returned = λ s p a e. tt }

  mysql_autocommit-Ends : (mode : Bool) → Ends (mysql_autocommit C sql mode)
  unfolding mysql_autocommit
  mysql_autocommit-Ends mode =
      Total->>= Anywhere _ Anything _ Anything
        (call-Total C Anywhere (autocommit sql mode) Anything (λ s p. tt)) thrown_if-Ends

  mysql_commit-Ends : Ends (mysql_commit C sql)
  unfolding mysql_commit
  mysql_commit-Ends =
      Total->>= Anywhere _ Anything _ Anything
        (call-Total C Anywhere (commit sql) Anything (λ s p. tt)) thrown_if-Ends

  complete_query-Ends : (d : ℕ) → Ends (complete_query {World = World} d)
  unfolding complete_query
  complete_query-Ends d = record { fueled = λ s p k. cc; returned = λ s p a e. tt }

  after_query_error-Ends :
      (d : ℕ) (e : Exception) → e ≢ out_of_fuel → Ends (after_query_error C sql d e)
  unfolding after_query_error
  after_query_error-Ends d (sql_error code message) h = record {
    fueled = λ s p k. cc;
    returned = λ s p a e. tt;
  }
  after_query_error-Ends d (std_error message) h = record {
    fueled = λ s p k. cc;
    returned = λ s p a e. tt;
  }
  after_query_error-Ends d out_of_fuel h = absurd (h refl)

  after_error-Ends :
      (d : ℕ) (qs : Queries) (e : Exception) → e ≢ out_of_fuel → Ends (after_error C sql d qs e)
  unfolding after_error
  after_error-Ends d qs (sql_error code message) h = record {
    fueled = λ s p k. cc;
    returned = λ s p a e. tt;
  }
  after_error-Ends d qs (std_error message) h = record {
    fueled = λ s p k. cc;
    returned = λ s p a e. tt;
  }
  after_error-Ends d qs out_of_fuel h = absurd (h refl)

  module _ (run_query : ℕ → ℕ → Action (State World) (Unit {0}))
      (ends : (query d : ℕ) → Ends (run_query query d)) where
    run_queries-Ends : (qs : Queries) → Ends (run_queries C sql run_query qs)
    unfolding run_queries run_one
    run_queries-Ends [] = record { fueled = λ s p k. cc; returned = λ s p a e. tt }
    run_queries-Ends ((query, d) ∷ rest) =
        >>-Ends (run_one C sql run_query query d) (run_queries C sql run_query rest)
          (Total-catch Anywhere (run_query query d >> complete_query d) Anything
            (after_query_error C sql d)
            (>>-Ends (run_query query d) (complete_query d) (ends query d) (complete_query-Ends d))
            (after_query_error-Ends d))
          (run_queries-Ends rest)

    attempt-Ends : (d : ℕ) (qs : Queries) → Ends (attempt C sql run_query d qs)
    unfolding attempt end_transaction
    attempt-Ends d qs =
        let last : Ends (end_transaction C sql d) = record {
          fueled = λ s p k. cc;
          returned = λ s p a e. tt;
        } in
        let committed = mysql_commit C sql >> end_transaction C sql d in
        let ran = run_queries C sql run_query qs >> committed in
        let begun = mysql_autocommit C sql false >> ran in
        >>-Ends (modify (reset_queries qs)) begun
          (record { fueled = λ s p k. cc; returned = λ s p a e. tt })
          (>>-Ends (mysql_autocommit C sql false) ran (mysql_autocommit-Ends false) (
            >>-Ends (run_queries C sql run_query qs) committed (run_queries-Ends qs)
              (>>-Ends (mysql_commit C sql) (end_transaction C sql d) mysql_commit-Ends last)))

    execute_transaction-Ends : (d : ℕ) → Ends (execute_transaction C sql run_query d)
    unfolding execute_transaction
    execute_transaction-Ends d = record {
      fueled = λ s p.
          let begun = set_status query_running d s in
          let qs = (begun.query_data d).queries in
          (Total-catch Anywhere (attempt C sql run_query d qs) Anything (after_error C sql d qs)
              (attempt-Ends d qs) (after_error-Ends d qs)).fueled
            begun tt;
      returned = λ s p a e. tt;
    }

module _ (C : Client) (limit fuel : ℕ) (text : FiniteText C limit) (bound : FiniteBound C limit)
    (enough : limit < fuel) (sql : ℕ) where
  execute_ping-Ends : (query : ℕ) → Ends (execute_ping C sql query)
  unfolding execute_ping
  execute_ping-Ends query = record { fueled = λ s p k. cc; returned = λ s p a e. tt }

  execute_inner-Ends : (k : Kind) (query d : ℕ) → Ends (execute_inner C fuel sql k query d)
  unfolding execute_inner
  execute_inner-Ends prepared_kind query d =
      execute_prepared-Ends C limit bound fuel sql query d enough
  execute_inner-Ends ping_kind query d = execute_ping-Ends query
  execute_inner-Ends query_kind query d = execute_query-Ends C limit text sql fuel query d enough
  execute_inner-Ends transaction_kind query d =
      execute_query-Ends C limit text sql fuel query d enough

  run_inner-Ends : (query d : ℕ) → Ends (run_inner C fuel sql query d)
  run_inner-Ends query d = record {
    fueled = λ s p. (execute_inner-Ends (s.queries query).kind query d).fueled s p;
    returned = λ s p a e. tt;
  }

  -- A query of any kind ends within its fuel.
  pub execute_kind-Ends : (k : Kind) (query d : ℕ) → Ends (execute_kind C fuel sql k query d)
  unfolding execute_kind
  execute_kind-Ends query_kind query d = execute_query-Ends C limit text sql fuel query d enough
  execute_kind-Ends prepared_kind query d =
      execute_prepared-Ends C limit bound fuel sql query d enough
  execute_kind-Ends ping_kind query d = execute_ping-Ends query
  execute_kind-Ends transaction_kind query d =
      execute_transaction-Ends C sql (run_inner C fuel sql) run_inner-Ends d
