-- ===== src/IQuery.antt =====
-- src/mysql/IQuery.cpp: what every query does on the main thread. `Query` adds the access to the
-- results of the data that the last callback was about.
pub mod Options
pub mod Abort
use Prim.Native.Nat.{bit_and, bit_or}
use my_sqloo.Base.{
  ℕ, ◌-◌, ◌^◌, Bool, true, false, not, ◌||◌, ◌&&◌, String, Option, none, some, List, [], ◌∷◌, ◌++◌,
  ◌==◌, if◌then◌else◌, update, get_last?, erase,
}
use my_sqloo.BlockingQueue.{swap_to_front_if, remove_if}
use my_sqloo.Objects.{
  IQuery, IQueryData, Entry, pill, pair, query_aborted, QueryResultStatus, query_none, State,
  QueryStatus,
}
use my_sqloo.Outcome.{Checked, done, thrown}
use my_sqloo.QueryData.{
  set_data, set_status, set_finished, is_empty, has_more_results, get_next_results,
  get_last_insert_id, get_affected_rows,
}
use my_sqloo.Queue.{enqueue_query}
use my_sqloo.Waiting.{wait_for_query}

abbrev pub option_numeric_fields : ℕ
option_numeric_fields = 1

abbrev pub option_named_fields : ℕ
option_named_fields = 2

abbrev pub option_interpret_data : ℕ
option_interpret_data = 4

abbrev pub option_cache : ℕ
option_cache = 8

-- The options of a new query.
unfoldable pub default_options : ℕ
default_options = bit_or (bit_or option_named_fields option_interpret_data) option_cache

-- `~option` on a 32-bit word; options are below 2 ^ 31.
unfoldable pub complement : ℕ → ℕ
complement option = 2 ^ 32 - 1 - option

unfoldable pub is_option : ℕ → Bool
is_option option =
    option == option_numeric_fields
    || (option == option_named_fields
        || (option == option_interpret_data || option == option_cache))

unfoldable pub set_option : ℕ → Bool → IQuery → Checked IQuery
unfolding complement is_option
set_option option enabled q =
    if not (is_option option)
    then thrown "Invalid Option"
    else done (record q {
      options = if enabled then bit_or q.options option else bit_and q.options (complement option);
    })

unfoldable pub has_option : IQuery → ℕ → Bool
has_option q option = not (bit_and q.options option == 0)

unfoldable pub is_running : IQuery → Bool
is_running q = not (is_empty q.running_query_data)

-- The fast path drops the front only, the slow path every occurrence.
unfoldable pub without_data : ℕ → List ℕ → List ℕ
without_data d [] = []
without_data d (front ∷ rest) = if front == d then rest else erase d (front ∷ rest)

abbrev pub is_aborted : QueryStatus → Bool
is_aborted query_aborted = true
is_aborted _ = false

module _ {World : Type 0} where
  abbrev pub set_query : ℕ → IQuery → State World → State World
  set_query query q s = record s { queries = update s.queries query q }

  unfoldable pub set_callback_data : ℕ → ℕ → State World → State World
  set_callback_data query d s =
      set_query query (record (s.queries query) { callback_query_data = some d }) s

  unfoldable pub get_result_status : ℕ → State World → QueryResultStatus
  get_result_status query s = elim (s.queries query).callback_query_data [
    | none ↦ query_none
    | some d ↦ (s.query_data d).result_status
  ]

  unfoldable pub error : ℕ → State World → String
  error query s = elim (s.queries query).callback_query_data [
    | none ↦ ""
    | some d ↦ (s.query_data d).error_text
  ]

  unfoldable pub add_query_data : ℕ → ℕ → State World → State World
  add_query_data query d s =
      let s' =
        if not (s.queries query).has_been_started
        then set_data d (record (s.query_data d) { was_first_data = true }) s
        else s in
      let q = s'.queries query in
      set_query query (record q { running_query_data = q.running_query_data ++ (d ∷ []) }) s'

  unfoldable pub start : ℕ → ℕ → State World → State World
  unfolding add_query_data enqueue_query
  start query d s =
      let s' = enqueue_query query d (add_query_data query d s) in
      set_query query (record (s'.queries query) { has_been_started = true }) s'

  unfoldable pub finish_query_data : ℕ → ℕ → State World → State World
  unfolding without_data
  finish_query_data query d s =
      let q = s.queries query in
      set_query query (record q { running_query_data = without_data d q.running_query_data }) s

-- `p.second == data`; the poison pill holds no data.
unfoldable pub has_data : ℕ → Entry → Bool
has_data d pill = false
has_data d (pair query d') = d' == d

module _ {World : Type 0} where
  -- One round of the loop of `abort`, and whether the data was still queued.
  unfoldable pub abort_one : ℕ → State World → State World × Bool
  unfolding has_data remove_if
  abort_one d s =
      let db = s.db in
      let (queue, was_removed) = remove_if (has_data d) db.query_queue in
      let s' = record s { db = record db { query_queue = queue } } in
      (if was_removed then set_finished true d (set_status query_aborted d s') else s', was_removed)

  -- The loop over a copy of the running data; the data that was aborted.
  unfoldable pub abort_each : List ℕ → State World → List ℕ × State World
  abort_each [] s = ([], s)
  abort_each (d ∷ ds) s =
      let (s', was_removed) = abort_one d s in
      let (aborted, last) = abort_each ds s' in (if was_removed then d ∷ aborted else aborted, last)

  unfoldable pub abort : ℕ → State World → List ℕ × State World
  unfolding abort_each
  abort query s = abort_each (s.queries query).running_query_data s

  unfoldable pub swap_query : ℕ → State World → State World
  unfolding has_data swap_to_front_if
  swap_query d s =
      let db = s.db in
      record s { db = record db { query_queue = (swap_to_front_if (has_data d) db.query_queue).0 } }

  -- The flag says that the caller sleeps until the data is finished.
  unfoldable pub wait : ℕ → Bool → State World → Checked (State World × Bool)
  unfolding swap_query wait_for_query
  wait query should_swap s = elim (get_last? (s.queries query).running_query_data) [
    | none ↦ thrown "Query not started"
    | some last ↦ done (wait_for_query query last (if should_swap then swap_query last s else s))
  ]

  unfoldable pub query_has_more_results : ℕ → State World → Bool
  query_has_more_results query s = elim (s.queries query).callback_query_data [
    | none ↦ false
    | some d ↦
        if is_aborted (s.query_data d).status then false else has_more_results (s.query_data d)
  ]

  unfoldable pub query_get_next_results : ℕ → State World → Checked (State World)
  query_get_next_results query s = elim (s.queries query).callback_query_data [
    | none ↦ thrown "Query not completed yet"
    | some d ↦
        let (data', found) = get_next_results (s.query_data d) in
        if not found
        then thrown "Query doesn't have any more results"
        else done (set_data d data' s)
  ]

  unfoldable pub last_insert : ℕ → State World → ℕ
  last_insert query s = elim (s.queries query).callback_query_data [
    | none ↦ 0
    | some d ↦ get_last_insert_id (s.query_data d)
  ]

  unfoldable pub affected_rows : ℕ → State World → ℕ
  affected_rows query s = elim (s.queries query).callback_query_data [
    | none ↦ 0
    | some d ↦ get_affected_rows (s.query_data d)
  ]
