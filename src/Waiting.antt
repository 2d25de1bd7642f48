-- ===== src/Waiting.antt =====
-- Waiting for one query, src/mysql/Database.cpp: `waitForQuery` on the main thread, and the ways in
-- which the database thread ends the wait. Each function holds `m_queryWaitMutex`.
use my_sqloo.Base.{ℕ, Bool, true, false, not, String, Option, none, some, if◌then◌else◌}
use my_sqloo.Objects.{pair, query_error, query_complete, State}
use my_sqloo.QueryData.{set_status, set_result_status, set_finished, set_error}
use my_sqloo.Queue.{put_finished}

abbrev pub lost : String
lost = "The database of the query you were waiting on was disconnected."

abbrev pub cannot_wait : String
cannot_wait = "Can not wait on query, database is not connected or connection failed."

module _ {World : Type 0} where
  unfoldable pub fail_waiting_query : ℕ → ℕ → String → State World → State World
  fail_waiting_query query d reason s = put_finished (pair query d) (
      set_finished true d
        (set_status query_complete d (set_result_status query_error d (set_error reason d s))))

  abbrev pub set_waiting : Option (ℕ × ℕ) → State World → State World
  set_waiting waiting s = let db = s.db in record s { db = record db { waiting_query = waiting } }

  abbrev pub set_can_wait : Bool → State World → State World
  set_can_wait b s = let db = s.db in record s { db = record db { can_wait = b } }

  -- `true`: the thread that waits is notified.
  unfoldable pub end_wait : Option (ℕ × ℕ) → State World → State World × Bool
  unfolding fail_waiting_query
  end_wait none s = (s, false)
  end_wait (some (query, d)) s = (set_waiting none (fail_waiting_query query d lost s), true)

  unfoldable pub abort_waiting_query : State World → State World × Bool
  abort_waiting_query s = end_wait s.db.waiting_query (set_can_wait false s)

  -- `true`: the caller now sleeps until the data is finished.
  unfoldable pub wait_for_query : ℕ → ℕ → State World → State World × Bool
  unfolding fail_waiting_query
  wait_for_query query d s =
      if not s.db.can_wait
      then (fail_waiting_query query d cannot_wait s, false)
      else if (s.query_data d).finished
      then (s, false)
      else (set_waiting (some (query, d)) s, true)
