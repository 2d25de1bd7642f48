-- ===== src/Threads.antt =====
-- The main thread and the database thread of src/mysql/Database.cpp, interleaved. A step is what one
-- thread does under a mutex, or between two of them; running a query is one step, since it touches
-- nothing that a wait reads. The functions of the main thread are sequences of calls, each at most one region
-- under a mutex; a run may make the calls in any order, so that those of the program are among its runs. The
-- condition variable is a flag of the thread that sleeps on it.
pub mod Invariant
pub mod Effects
pub mod Wakeup
pub mod Started
pub mod Queues
pub mod Ledger
use my_sqloo.Base.{
  ℕ, ◌≡◌, Bool, true, false, not, ◌&&◌, Option, none, some, List, [], ◌∷◌, map, refl, if◌then◌else◌,
  is_some, get_last?,
}
use my_sqloo.BlockingQueue.{take, remove_if}
use my_sqloo.Client.{Client}
use my_sqloo.Connection.{open_connection, close_connection, end_thread}
use my_sqloo.IQuery.{
  add_query_data, set_query, swap_query, abort_one, has_data, wait, finish_query_data, start,
  abort_each,
}
use my_sqloo.Objects.{Entry, pill, pair, query_waiting, Database, State}
use my_sqloo.Outcome.{done}
use my_sqloo.Ping.{end_ping}
use my_sqloo.QueryData.{set_status}
use my_sqloo.Queue.{
  put_finished, put_query, shutdown, enqueue_query, abort_all_queries, take_finished_queries,
}
use my_sqloo.Settings.{connect}
use my_sqloo.Statements.{free_unused_statements, free_cached_statements}
use my_sqloo.Worker.{run_taken, finish_taken}

-- The main thread runs Lua, or sleeps in `waitForQuery` until it is notified.
pub data MainPc : Type 0 where
  awake : MainPc
  asleep : ℕ → ℕ → Bool → MainPc

-- Where `connectRun` stands, and `run` inside it.
pub data ThreadPc : Type 0 where
  unborn opening taking : ThreadPc
  running ran delivered : ℕ → ℕ → ThreadPc
  notifying collecting leaving closing ending ended : ThreadPc

pub record System (World : Type 0) : Type 0 where
  pub shared : State World
  pub main : MainPc
  pub thread : ThreadPc

-- What the main thread calls while it is awake, other than `connect` and a `wait` that sleeps.
pub data Call : Type 0 where
  -- `start`: addQueryData, the `put` of enqueueQuery, and what follows it.
  registers enqueues marks_waiting : ℕ → ℕ → Call
  -- `swapToFrontIf` before a wait, a round of `abort`, and the removal at the end of `ping`.
  swaps removes drops_finished : ℕ → Call
  aborts_all takes_finished : Call
  finishes : ℕ → ℕ → Call
  shuts_down : Call

unfoldable pub notify : MainPc → MainPc
notify awake = awake
notify (asleep query d notified) = asleep query d true

module _ {World : Type 0} where
  unfoldable pub apply : Call → State World → State World
  unfolding abort_all_queries take_finished_queries finish_query_data shutdown
  apply (registers query d) s = add_query_data query d s
  apply (enqueues query d) s = put_query (pair query d) s
  apply (marks_waiting query d) s =
      let s' = set_status query_waiting d s in
      set_query query (record (s'.queries query) { has_been_started = true }) s'
  apply (swaps d) s = swap_query d s
  apply (removes d) s = (abort_one d s).0
  apply (drops_finished d) s =
      let db = s.db in
      record s {
        db = record db { finished_queries = (remove_if (has_data d) db.finished_queries).0 };
      }
  apply aborts_all s = (abort_all_queries s).1
  apply takes_finished s = (take_finished_queries s).1
  apply (finishes query d) s = finish_query_data query d s
  apply shuts_down s = shutdown s

  abbrev pub set_queue : List Entry → State World → State World
  set_queue rest s = let db = s.db in record s { db = record db { query_queue = rest } }

  -- `abortWaitingQuery` notifies if it found a query that is waited on.
  unfoldable pub announce : State World → State World → MainPc → MainPc
  announce before after main =
      if is_some before.db.waiting_query && not (is_some after.db.waiting_query)
      then notify main
      else main

  abbrev pub apply_all : List Call → State World → State World
  apply_all [] s = s
  apply_all (c ∷ cs) s = apply_all cs (apply c s)

  -- The functions of the program as sequences of calls.
  start-apply_all :
      (query d : ℕ) (s : State World)
      → start query d s
        ≡ apply_all (registers query d ∷ enqueues query d ∷ marks_waiting query d ∷ []) s
  unfolding start enqueue_query apply
  start-apply_all query d s = refl

  abort_each-apply_all :
      (ds : List ℕ) (s : State World) → (abort_each ds s).1 ≡ apply_all (map (λ d. removes d) ds) s
  unfolding abort_each apply
  abort_each-apply_all [] s = refl
  abort_each-apply_all (d ∷ ds) s = abort_each-apply_all ds (abort_one d s).0

  end_ping-apply_all :
      (query d : ℕ) (s : State World)
      → (end_ping query d s).1 ≡ apply_all (drops_finished d ∷ finishes query d ∷ []) s
  unfolding end_ping apply
  end_ping-apply_all query d s = refl

module _ (C : Client) (fuel : ℕ) where
  open C use {World}

  pub data Step (s : System World) : System World → Type 0 where
    calls : (c : Call) → s.main ≡ awake → Step s (record s { shared = apply c s.shared })
    connects :
        (db : Database)
        → s.main ≡ awake
        → connect s.shared.db ≡ done db
        → Step s (record { shared = record s.shared { db = db }; main = awake; thread = opening })
    returns :
        (query : ℕ) {u : State World}
        → s.main ≡ awake
        → wait query false s.shared ≡ done (u, false)
        → Step s (record s { shared = u })
    sleeps :
        (query d : ℕ) {u : State World}
        → s.main ≡ awake
        → get_last? (s.shared.queries query).running_query_data ≡ some d
        → wait query false s.shared ≡ done (u, true)
        → Step s (record s { shared = u; main = asleep query d false })
    -- The predicate of the condition variable is tested after a notification, or spuriously.
    wakes :
        (query d : ℕ) (notified : Bool)
        → s.main ≡ asleep query d notified
        → (s.shared.query_data d).finished ≡ true
        → Step s (record s { main = awake })
    sleeps_on :
        (query d : ℕ) (notified : Bool)
        → s.main ≡ asleep query d notified
        → (s.shared.query_data d).finished ≡ false
        → Step s (record s { main = asleep query d false })
    opens :
        s.thread ≡ opening
        → Step s (record {
          shared = (open_connection C s.shared).0;
          main = announce s.shared (open_connection C s.shared).0 s.main;
          thread = if (open_connection C s.shared).1 then taking else ending;
        })
    takes :
        (query d : ℕ) {rest : List Entry}
        → s.thread ≡ taking
        → take s.shared.db.query_queue ≡ some (pair query d, rest)
        → Step s (record s { shared = set_queue rest s.shared; thread = running query d })
    takes_pill :
        {rest : List Entry}
        → s.thread ≡ taking
        → take s.shared.db.query_queue ≡ some (pill, rest)
        → Step s (record s { shared = set_queue rest s.shared; thread = leaving })
    runs :
        (query d : ℕ)
        → s.thread ≡ running query d
        → Step s (record s { shared = run_taken C fuel query d s.shared; thread = ran query d })
    delivers :
        (query d : ℕ)
        → s.thread ≡ ran query d
        → Step s
            (record s { shared = put_finished (pair query d) s.shared; thread = delivered query d })
    finishes_round :
        (query d : ℕ)
        → s.thread ≡ delivered query d
        → Step s (record s { shared = finish_taken C fuel query d s.shared; thread = notifying })
    notifies :
        s.thread ≡ notifying → Step s (record s { main = notify s.main; thread = collecting })
    collects :
        s.thread ≡ collecting
        → Step s (record s { shared = free_unused_statements C s.shared; thread = taking })
    leaves :
        s.thread ≡ leaving
        → Step s (record s { shared = free_cached_statements C s.shared; thread = closing })
    closes :
        s.thread ≡ closing
        → Step s (record {
          shared = close_connection C s.shared;
          main = announce s.shared (close_connection C s.shared) s.main;
          thread = ending;
        })
    ends : s.thread ≡ ending → Step s (record s { shared = end_thread C s.shared; thread = ended })

  -- A database that was just created, with the program awake.
  pub data Reach : System World → Type 0 where
    created :
        (s : State World)
        → s.db.can_wait ≡ false
        → s.db.started_connecting ≡ false
        → Reach (record { shared = s; main = awake; thread = unborn })
    later : {s t : System World} → Reach s → Step s t → Reach t
