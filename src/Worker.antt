-- ===== src/Worker.antt =====
-- The database thread of src/mysql/Database.cpp: `runQuery` and the loop `run` over the queue.
pub mod Frame
pub mod Rounds
pub mod Reports
use my_sqloo.Base.{
  ℕ, zero, suc, Bool, true, false, ◌&&◌, Option, none, some, ◌==◌, if◌then◌else◌, String,
}
use my_sqloo.BlockingQueue.{take}
use my_sqloo.Client.{Client}
use my_sqloo.Connection.{is_retriable_error, attempt_reconnect}
use my_sqloo.Execute.{execute_statement}
use my_sqloo.Objects.{pill, pair, query_running, query_complete, query_error, query_success, State}
use my_sqloo.Outcome.{Exception, Outcome, ok, throw, sql_error, std_error, out_of_fuel}
use my_sqloo.QueryData.{set_status, set_result_status, set_finished, set_error}
use my_sqloo.Queue.{put_finished}
use my_sqloo.Statements.{free_cached_statements, free_unused_statements}
use my_sqloo.Waiting.{set_waiting}

-- A handle where the program has no null check; the null pointer is 0.
abbrev pub handle_of : Option ℕ → ℕ
handle_of none = 0
handle_of (some sql) = sql

-- Whether the pair is the one that is waited on.
unfoldable pub is_waiting : Option (ℕ × ℕ) → ℕ → ℕ → Bool
is_waiting none query d = false
is_waiting (some (query', d')) query d = query' == query && d' == d

-- How the loop stopped: at the pill, on an empty queue, or after the rounds that it was given.
pub data Stop : Type 0 where
  at_pill on_empty after_rounds : Stop

module _ (C : Client) (fuel : ℕ) where
  open C use {World, codes}

  unfoldable pub report_error : ℕ → String → State World → State World
  report_error d message s = set_error message d (set_result_status query_error d s)

  -- The retry of `runQuery`, where `again` is the call that does not retry.
  unfoldable pub retry_after : (State World → State World) → ℕ → String → State World → State World
  unfolding report_error
  retry_after again d message s =
      let (reconnected, s') = attempt_reconnect C s in
      if reconnected then again (free_cached_statements C s') else report_error d message s'

  -- The handlers of `runQuery`.
  unfoldable pub handle_error :
      Bool → (State World → State World) → ℕ → Exception → State World → State World
  handle_error retry again d (sql_error code message) s =
      if retry && is_retriable_error codes code
      then retry_after again d message s
      else report_error d message s
  handle_error retry again d (std_error message) s = report_error d message s
  handle_error retry again d out_of_fuel s = s

  -- Success keeps the state with the status set; a throw goes to the handlers.
  unfoldable pub conclude :
      Bool → (State World → State World) → ℕ → Outcome (Unit {0}) → State World → State World
  conclude retry again d (ok _) s = set_result_status query_success d s
  conclude retry again d (throw e) s = handle_error retry again d e s

  unfoldable pub run_query_with :
      Bool → (State World → State World) → ℕ → ℕ → State World → State World
  run_query_with retry again query d s =
      let (r, s') = execute_statement C fuel (handle_of s.db.sql) query d s in
      conclude retry again d r s'

  unfoldable pub run_query : Bool → ℕ → ℕ → State World → State World
  unfolding run_query_with
  run_query false query d = run_query_with false (λ s. s) query d
  run_query true query d = run_query_with true (run_query_with false (λ s. s) query d) query d

  -- The part of the loop that holds the query mutex.
  unfoldable pub run_taken : ℕ → ℕ → State World → State World
  run_taken query d s =
      set_status query_complete d
        (run_query s.db.should_auto_reconnect query d (set_status query_running d s))

  -- The part of the loop that holds the wait mutex.
  unfoldable pub finish_taken : ℕ → ℕ → State World → State World
  unfolding is_waiting
  finish_taken query d s =
      let s' = set_finished true d s in
      if is_waiting s'.db.waiting_query query d then set_waiting none s' else s'

  -- One round of the loop of `run`, after `take`.
  unfoldable pub process : ℕ → ℕ → State World → State World
  unfolding run_taken finish_taken
  process query d s =
      free_unused_statements C
        (finish_taken query d (put_finished (pair query d) (run_taken query d s)))

  unfoldable pub run : ℕ → State World → State World × Stop
  run zero s = (s, after_rounds)
  run (suc rounds) s = elim (take s.db.query_queue) [
    | none ↦ (s, on_empty)
    | some (front, rest) ↦
        let db = s.db in
        let s' = record s { db = record db { query_queue = rest } } in
        elim front [
          | pill ↦ (free_cached_statements C s', at_pill)
          | pair query d ↦ run rounds (process query d s')
        ]
  ]
