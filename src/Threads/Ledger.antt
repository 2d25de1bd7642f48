-- ===== src/Threads/Ledger.antt =====
-- A book over the steps of the two threads of src/mysql/Database.cpp: what was started, what became of it, and
-- what was put into the queue of finished queries.
pub mod Order
pub mod Once
use my_sqloo.Base.{
  ℕ, ◌≡◌, Bool, true, false, not, none, some, List, [], ◌∷◌, ◌++◌, contains, ◌==◌, if◌then◌else◌,
}
use my_sqloo.Client.{Client}
use my_sqloo.Connection.{open_connection}
use my_sqloo.BlockingQueue.{erase_if}
use my_sqloo.IQuery.{abort_one, has_data}
use my_sqloo.IQuery.Abort.{data_of}
use my_sqloo.Objects.{Entry, pair, State}
use my_sqloo.Threads.{
  Call, registers, enqueues, marks_waiting, swaps, removes, drops_finished, aborts_all,
  takes_finished, finishes, shuts_down, MainPc, awake, ThreadPc, unborn, running, ran, System, Step,
  calls, connects, returns, sleeps, wakes, sleeps_on, opens, takes, takes_pill, runs, delivers,
  finishes_round, notifies, collects, leaves, closes, ends,
}
use my_sqloo.Threads.Queues.{refused, waiting_entries, opening_entries}

-- The data that was started, aborted, processed by the thread, and failed by a wait; the entries that were put
-- into the queue of finished queries, and those that the main thread took out of it, to run their callbacks or,
-- in `ping`, to drop them.
pub record Ledger : Type 0 where
  pub started : List ℕ
  pub aborted : List ℕ
  pub processed : List ℕ
  pub failed : List ℕ
  pub emitted : List Entry
  pub taken : List Entry
  pub dropped : List Entry

abbrev pub empty_ledger : Ledger
empty_ledger = record {
  started = [];
  aborted = [];
  processed = [];
  failed = [];
  emitted = [];
  taken = [];
  dropped = [];
}

abbrev pub book_failed : List Entry → Ledger → Ledger
book_failed es l = record l { failed = l.failed ++ data_of es; emitted = l.emitted ++ es }

module _ {World : Type 0} where
  abbrev pub book_call : Call → State World → Ledger → Ledger
  book_call (registers query d) s l = l
  book_call (enqueues query d) s l = record l { started = l.started ++ (d ∷ []) }
  book_call (marks_waiting query d) s l = l
  book_call (swaps d) s l = l
  book_call (removes d) s l = record l {
    aborted = l.aborted ++ (if (abort_one d s).1 then d ∷ [] else []);
  }
  book_call (drops_finished d) s l = record l {
    dropped = l.dropped ++ erase_if (λ e. not (has_data d e)) s.db.finished_queries;
  }
  book_call aborts_all s l = record l { aborted = l.aborted ++ data_of s.db.query_queue }
  book_call takes_finished s l = record l { taken = l.taken ++ s.db.finished_queries }
  book_call (finishes query d) s l = l
  book_call shuts_down s l = l

-- A query is started with new data.
abbrev pub FreshCall : Call → Ledger → Type 0
FreshCall (registers query d) l = Unit
FreshCall (enqueues query d) l = contains d l.started ≡ false
FreshCall (marks_waiting query d) l = Unit
FreshCall (swaps d) l = Unit
FreshCall (removes d) l = Unit
FreshCall (drops_finished d) l = Unit
FreshCall aborts_all l = Unit
FreshCall takes_finished l = Unit
FreshCall (finishes query d) l = Unit
FreshCall shuts_down l = Unit

module _ (C : Client) (fuel : ℕ) where
  open C use {World}

  unfoldable pub book : {s t : System World} → Step C fuel s t → Ledger → Ledger
  book {s} (calls c e) l = book_call c s.shared l
  book (connects db e h) l = l
  book {s} (returns query e h) l = book_failed (refused query s.shared) l
  book {s} (sleeps query d e last h) l = book_failed (refused query s.shared) l
  book (wakes query d notified e h) l = l
  book (sleeps_on query d notified e h) l = l
  book {s} (opens e) l =
      book_failed (opening_entries (open_connection C s.shared).1 s.shared.db.waiting_query) l
  book (takes query d e h) l = l
  book (takes_pill e h) l = l
  book (runs query d e) l = l
  book (delivers query d e) l = record l {
    processed = l.processed ++ (d ∷ []);
    emitted = l.emitted ++ (pair query d ∷ []);
  }
  book (finishes_round query d e) l = l
  book (notifies e) l = l
  book (collects e) l = l
  book (leaves e) l = l
  book {s} (closes e) l = book_failed (waiting_entries s.shared.db.waiting_query) l
  book (ends e) l = l

  abbrev pub Fresh : {s t : System World} → Step C fuel s t → Ledger → Type 0
  Fresh (calls c e) l = FreshCall c l
  Fresh _ l = Unit

  -- A run of the two threads from a new database, with its book.
  pub data History : System World → Ledger → Type 0 where
    created :
        (s : State World)
        → s.db.query_queue ≡ []
        → s.db.finished_queries ≡ []
        → s.db.can_wait ≡ false
        → s.db.started_connecting ≡ false
        → History (record { shared = s; main = awake; thread = unborn }) empty_ledger
    later :
        {s t : System World} {l : Ledger}
        → History s l
        → (step : Step C fuel s t) → Fresh step l
        → History t (book step l)

-- Whether the thread holds the data.
abbrev pub in_hand : ℕ → ThreadPc → ℕ
in_hand a (running query d) = if d == a then 1 else 0
in_hand a (ran query d) = if d == a then 1 else 0
in_hand a _ = 0
