-- ===== src/Queue.antt =====
-- The two queues of src/mysql/Database.cpp: queries that wait for the database thread, and queries
-- whose callbacks wait for the main thread.
use my_sqloo.Base.{ℕ, true, List, [], ◌∷◌}
use my_sqloo.BlockingQueue.{put, size, clear}
use my_sqloo.Objects.{Entry, pill, pair, query_waiting, query_aborted, State}
use my_sqloo.QueryData.{set_status, set_finished}

module _ {World : Type 0} where
  abbrev pub put_query : Entry → State World → State World
  put_query e s =
      let db = s.db in record s { db = record db { query_queue = put e db.query_queue } }

  abbrev pub put_finished : Entry → State World → State World
  put_finished e s =
      let db = s.db in record s { db = record db { finished_queries = put e db.finished_queries } }

  unfoldable pub enqueue_query : ℕ → ℕ → State World → State World
  enqueue_query query d s = set_status query_waiting d (put_query (pair query d) s)

  unfoldable pub queue_size : State World → ℕ
  unfolding size
  queue_size s = size s.db.query_queue

  -- The poison pill, which ends the database thread.
  unfoldable pub shutdown : State World → State World
  shutdown s = put_query pill s

  -- The loop of `abortAllQueries` over the entries that were taken.
  unfoldable pub mark_aborted : List Entry → State World → State World
  mark_aborted [] s = s
  mark_aborted (pill ∷ es) s = mark_aborted es s
  mark_aborted (pair query d ∷ es) s =
      mark_aborted es (set_finished true d (set_status query_aborted d s))

  unfoldable pub abort_all_queries : State World → List Entry × State World
  unfolding clear mark_aborted
  abort_all_queries s =
      let db = s.db in
      let (canceled, rest) = clear db.query_queue in
      (canceled, mark_aborted canceled (record s { db = record db { query_queue = rest } }))

  unfoldable pub take_finished_queries : State World → List Entry × State World
  unfolding clear
  take_finished_queries s =
      let db = s.db in
      let (finished, rest) = clear db.finished_queries in
      (finished, record s { db = record db { finished_queries = rest } })
