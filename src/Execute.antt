-- ===== src/Execute.antt =====
-- How each kind of query runs on the database thread: `executeStatement` of src/mysql/Query.cpp,
-- PingQuery.cpp, PreparedQuery.cpp and Transaction.cpp. A loop over result sets takes fuel.
pub mod Plain
pub mod Parameters
pub mod Frame
pub mod Prepared
pub mod Transaction
pub mod Undo
pub mod Ending
use my_sqloo.Base.{ℕ, List, [], ◌∷◌}
use my_sqloo.Client.{Client}
use my_sqloo.Objects.{Kind, query_kind, prepared_kind, transaction_kind, ping_kind, IQuery, State}
use my_sqloo.Outcome.{Action}
use Plain.{execute_query, execute_ping}
use Prepared.{execute_prepared}
use Transaction.{execute_transaction}

module _ (C : Client) (fuel : ℕ) (sql : ℕ) where
  open C use {World}

  -- The queries of a transaction are instances of `Query` or of its subclasses.
  unfoldable pub execute_inner : Kind → ℕ → ℕ → Action (State World) (Unit {0})
  execute_inner prepared_kind query d = execute_prepared C fuel sql query d
  execute_inner ping_kind query d = execute_ping C sql query
  execute_inner _ query d = execute_query C fuel sql query d

  abbrev pub run_inner : ℕ → ℕ → Action (State World) (Unit {0})
  run_inner query d s = execute_inner (s.queries query).kind query d s

  unfoldable pub execute_kind : Kind → ℕ → ℕ → Action (State World) (Unit {0})
  execute_kind query_kind query d = execute_query C fuel sql query d
  execute_kind prepared_kind query d = execute_prepared C fuel sql query d
  execute_kind ping_kind query d = execute_ping C sql query
  execute_kind transaction_kind query d = execute_transaction C sql run_inner d

  -- The virtual call `query->executeStatement(*this, m_sql, data)`.
  unfoldable pub execute_statement : ℕ → ℕ → Action (State World) (Unit {0})
  execute_statement query d s = execute_kind (s.queries query).kind query d s
