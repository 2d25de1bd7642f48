-- ===== src/Ping.antt =====
-- `ping`, `disconnect` and the state queries of src/mysql/Database.cpp that the main thread calls.
use my_sqloo.Base.{ℕ, Bool, true, ◌&&◌}
use my_sqloo.BlockingQueue.{remove_if}
use my_sqloo.Creation.{new_iquery, build_query_data}
use my_sqloo.IQuery.{start, wait, has_data, finish_query_data, set_query}
use my_sqloo.Objects.{ping_kind, Database, DatabaseStatus, State}
use my_sqloo.Outcome.{Checked}
use my_sqloo.QueryData.{set_data}
use my_sqloo.Queue.{shutdown}

unfoldable pub was_disconnected : Database → Bool
was_disconnected db = db.disconnected

unfoldable pub status : Database → DatabaseStatus
status db = db.status

module _ {World : Type 0} where
  -- `ping` up to the wait; `query` and `d` are the addresses of the new objects.
  unfoldable pub begin_ping : ℕ → ℕ → State World → Checked (State World × Bool)
  unfolding start wait build_query_data new_iquery
  begin_ping query d s =
      wait query true
        (start query d (set_data d build_query_data (set_query query (new_iquery ping_kind "") s)))

  -- The rest of `ping`, after the wait.
  unfoldable pub end_ping : ℕ → ℕ → State World → Bool × State World
  unfolding has_data remove_if finish_query_data
  end_ping query d s =
      let db = s.db in
      let s' = record s {
        db = record db { finished_queries = (remove_if (has_data d) db.finished_queries).0 };
      } in
      let t = finish_query_data query d s' in ((t.queries query).ping_success, t)

  -- `true`: the caller joins the database thread, if it can be joined.
  unfoldable pub disconnect : Bool → Bool → State World → State World × Bool
  unfolding shutdown
  disconnect wait_for joinable s = (shutdown s, wait_for && joinable)
