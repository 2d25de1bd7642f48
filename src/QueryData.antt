-- ===== src/QueryData.antt =====
-- Query data of src/mysql/IQuery.h, IQuery.cpp and Query.h: setters on the data at an address, and the
-- cursor over the result sets of a query.
pub mod Cursor
use my_sqloo.Base.{
  ℕ, Bool, true, false, not, ◌&&◌, String, List, [], ◌∷◌, ◌++◌, if◌then◌else◌, update,
}
use my_sqloo.Objects.{IQueryData, QueryStatus, QueryResultStatus, ResultData, State}

module _ {World : Type 0} where
  -- A write through the shared pointer `d`.
  abbrev pub set_data : ℕ → IQueryData → State World → State World
  set_data d v s = record s { query_data = update s.query_data d v }

  abbrev pub set_status : QueryStatus → ℕ → State World → State World
  set_status status d s = set_data d (record (s.query_data d) { status = status }) s

  abbrev pub set_result_status : QueryResultStatus → ℕ → State World → State World
  set_result_status status d s = set_data d (record (s.query_data d) { result_status = status }) s

  abbrev pub set_finished : Bool → ℕ → State World → State World
  set_finished finished d s = set_data d (record (s.query_data d) { finished = finished }) s

  abbrev pub set_error : String → ℕ → State World → State World
  set_error err d s = set_data d (record (s.query_data d) { error_text = err }) s

abbrev pub is_empty {ℓ} : {A : Type ℓ} → List A → Bool
is_empty [] = true
is_empty (x ∷ xs) = false

-- `front()`, or a default on an empty sequence.
abbrev front_or : ℕ → List ℕ → ℕ
front_or d [] = d
front_or d (x ∷ xs) = x

abbrev pop_front {ℓ} : {A : Type ℓ} → List A → List A
pop_front [] = []
pop_front (x ∷ xs) = xs

unfoldable pub get_last_insert_id : IQueryData → ℕ
get_last_insert_id d = front_or 0 d.insert_ids

unfoldable pub get_affected_rows : IQueryData → ℕ
get_affected_rows d = front_or 0 d.affected_rows

unfoldable pub has_more_results : IQueryData → Bool
has_more_results d =
    not (is_empty d.insert_ids) && not (is_empty d.affected_rows) && not (is_empty d.results)

unfoldable pub get_next_results : IQueryData → IQueryData × Bool
unfolding has_more_results
get_next_results d = if not (has_more_results d) then (d, false) else (
  record d {
    results = pop_front d.results;
    insert_ids = pop_front d.insert_ids;
    affected_rows = pop_front d.affected_rows;
  },
  true,
)

-- `Query::emplaceEmptyResultData` on the data, with `ResultData()`.
unfoldable pub empty_result : ResultData
empty_result = record { column_count = 0; columns = []; column_types = []; rows = [] }

unfoldable pub push_result : ResultData → ℕ → ℕ → IQueryData → IQueryData
push_result result insert_id affected d = record d {
  results = d.results ++ (result ∷ []);
  insert_ids = d.insert_ids ++ (insert_id ∷ []);
  affected_rows = d.affected_rows ++ (affected ∷ []);
}

unfoldable pub clear_results : IQueryData → IQueryData
clear_results d = record d { results = []; insert_ids = []; affected_rows = [] }

module _ {World : Type 0} where
  unfoldable pub clear_result_data : ℕ → State World → State World
  unfolding clear_results
  clear_result_data d s = set_data d (clear_results (s.query_data d)) s

  unfoldable pub emplace_empty_result_data : ℕ → State World → State World
  unfolding push_result empty_result
  emplace_empty_result_data d s = set_data d (push_result empty_result 0 0 (s.query_data d)) s
