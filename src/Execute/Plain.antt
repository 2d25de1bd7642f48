-- ===== src/Execute/Plain.antt =====
-- `executeStatement` of src/mysql/Query.cpp and PingQuery.cpp, with the wrappers of IQuery.cpp that
-- throw.
use my_sqloo.Base.{ℕ, zero, suc, Bool, true, false, not, String, Option, none, some, if◌then◌else◌}
use my_sqloo.Client.{Client, Next, next_found, next_none, next_failed}
use my_sqloo.Connection.{attempt_reconnect}
use my_sqloo.IQuery.{set_query}
use my_sqloo.Objects.{ResultData, State}
use my_sqloo.Outcome.{
  Action, ok, throw, sql_error, out_of_fuel, pure, raise, modify, again, ◌>>=◌, ◌>>◌,
}
use my_sqloo.QueryData.{set_data, push_result, empty_result}
use my_sqloo.ResultData.{call, from_result}
use my_sqloo.Base.{◌==◌}

module _ (C : Client) where
  open C use {
    World, Res, real_query, errno, error as mysql_error, store_result, free_result, next_result,
    insert_id, affected_rows, ping,
  }

  -- `throw MySQLException(mysql_errno(sql), mysql_error(sql))`
  abbrev pub sql_failure : {A : Type 0} → ℕ → Action (State World) A
  sql_failure sql s = (throw (sql_error (errno sql s.world) (mysql_error sql s.world)), s)

  -- Throws if the call before it has failed.
  unfoldable pub check : ℕ → Bool → Action (State World) (Unit {0})
  check sql true = sql_failure sql
  check sql false = pure tt

  -- Throws if the client library has an error; a result of null or a failed step without one is
  -- passed on.
  unfoldable pub check_errno : {A : Type 0} → ℕ → A → Action (State World) A
  check_errno sql a s = if errno sql s.world == 0 then (ok a, s) else sql_failure sql s

  unfoldable pub mysql_query : ℕ → String → Action (State World) (Unit {0})
  mysql_query sql query = call C (real_query sql query) >>= check sql

  unfoldable pub stored_result : ℕ → Option Res → Action (State World) (Option Res)
  stored_result sql none = check_errno sql none
  stored_result sql (some res) = pure (some res)

  unfoldable pub mysql_store_results : ℕ → Action (State World) (Option Res)
  unfolding stored_result check_errno
  mysql_store_results sql = call C (store_result sql) >>= stored_result sql

  unfoldable pub next_outcome : ℕ → Next → Action (State World) Bool
  next_outcome sql next_found = pure true
  next_outcome sql next_none = pure false
  next_outcome sql next_failed = check_errno sql false

  unfoldable pub mysql_next_result : ℕ → Action (State World) Bool
  unfolding next_outcome check_errno
  mysql_next_result sql = call C (next_result sql) >>= next_outcome sql

  -- Stores a result set with the insert id and the affected rows.
  unfoldable pub store : ℕ → ℕ → ResultData → State World → State World
  store sql d result s =
      set_data d
        (push_result result (insert_id sql s.world) (affected_rows sql s.world) (s.query_data d)) s

  unfoldable pub store_and_free : ℕ → ℕ → Res → ResultData → State World → State World
  unfolding store
  store_and_free sql d res result s =
      let s' = store sql d result s in record s' { world = free_result res s'.world }

  -- The body of the loop, up to `mysql_free_result`.
  unfoldable pub store_results : ℕ → ℕ → ℕ → Option Res → Action (State World) (Unit {0})
  store_results fuel sql d none = modify (store sql d empty_result)
  store_results fuel sql d (some res) = elim (from_result C fuel res) [
    | none ↦ raise out_of_fuel
    | some result ↦ modify (store_and_free sql d res result)
  ]

  -- The body of the loop over the result sets of a query.
  unfoldable pub store_round : ℕ → ℕ → ℕ → Action (State World) (Unit {0})
  store_round fuel sql d = mysql_store_results sql >>= store_results fuel sql d

  -- The loop over the result sets of a query.
  unfoldable pub query_loop : ℕ → ℕ → ℕ → ℕ → Action (State World) (Unit {0})
  unfolding again
  query_loop zero fuel sql d s = (throw out_of_fuel, s)
  query_loop (suc rounds) fuel sql d s =
      (store_round fuel sql d >> (mysql_next_result sql >>= again (query_loop rounds fuel sql d))) s

  unfoldable pub execute_query : ℕ → ℕ → ℕ → ℕ → Action (State World) (Unit {0})
  execute_query fuel sql query d s =
      (mysql_query sql (s.queries query).sql >> query_loop fuel fuel sql d) s

  abbrev pub set_ping : ℕ → Bool → State World → State World
  set_ping query success s = set_query query (record (s.queries query) { ping_success = success }) s

  unfoldable pub execute_ping : ℕ → ℕ → Action (State World) (Unit {0})
  execute_ping sql query s =
      let (failed, w) = ping sql s.world in
      let pinged = record s { world = w } in
      let (reconnected, s') = attempt_reconnect C pinged in
      (ok tt, if not failed then set_ping query true pinged else set_ping query reconnected s')
