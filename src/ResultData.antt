-- ===== src/ResultData.antt =====
-- src/mysql/ResultData.cpp: the rows of a result set, copied out of the client library. The loops over
-- rows take fuel.
use my_sqloo.Base.{
  ℕ, zero, suc, Bool, true, false, Option, none, some, List, [], ◌∷◌, ◌==◌, if◌then◌else◌,
}
use my_sqloo.Client.{Client, Bytes, Field, Row, BoundRow, Fetch, fetched, fetch_failed, no_data}
use my_sqloo.Objects.{ResultData, ResultDataRow, State}
use my_sqloo.Outcome.{Action, ok, throw, sql_error, out_of_fuel, pure, ◌>>=◌}

-- The values at 0 up to n - 1, as a loop over the columns fills them in.
abbrev pub tabulate {ℓ} : {A : Type ℓ} → ℕ → (ℕ → A) → List A
tabulate zero f = []
tabulate (suc n) f = f 0 ∷ tabulate n (λ i. f (suc i))

-- `std::string(p, n)`
abbrev pub take : ℕ → Bytes → Bytes
take zero xs = []
take (suc n) [] = []
take (suc n) (x ∷ xs) = x ∷ take n xs

unfoldable pub row_value : Option Bytes → ℕ → Bytes
row_value none length = []
row_value (some bytes) length = take length bytes

unfoldable pub row_null : Option Bytes → ℕ → Bool
row_null none length = length == 0
row_null (some bytes) length = false

-- `ResultDataRow(lengths, row, columnCount)`
unfoldable pub text_row : Row → ℕ → ResultDataRow
unfolding row_value row_null
text_row row column_count = record {
  values = tabulate column_count (λ i. row_value (row.cell i) (row.lengths i));
  null_fields = tabulate column_count (λ i. row_null (row.cell i) (row.lengths i));
}

-- `ResultDataRow(statement, bind, columnCount)`
unfoldable pub bound_row : BoundRow → ℕ → ResultDataRow
bound_row row column_count = record {
  values =
      tabulate column_count (λ i. if row.is_null i then [] else take (row.length i) (row.buffer i));
  null_fields = tabulate column_count row.is_null;
}

module _ (C : Client) where
  open C use {
    World, Res, num_fields, fetch_field_direct, fetch_fields, fetch_row, stmt_field_count,
    stmt_bind_result, stmt_fetch, stmt_error, stmt_errno,
  }

  -- Reads rows until the client library has no further one; `none` if the fuel runs out.
  unfoldable pub fetch_rows : ℕ → Res → ℕ → Option (List ResultDataRow)
  fetch_rows zero res column_count = none
  fetch_rows (suc fuel) res column_count = elim (fetch_row res) [
    | none ↦ some []
    | some (row, rest) ↦ elim (fetch_rows fuel rest column_count) [
      | none ↦ none
      | some rows ↦ some (text_row row column_count ∷ rows)
    ]
  ]

  unfoldable pub with_columns : (ℕ → Field) → ℕ → List ResultDataRow → ResultData
  with_columns field column_count rows = record {
    column_count = column_count;
    columns = tabulate column_count (λ i. (field i).name);
    column_types = tabulate column_count (λ i. (field i).type);
    rows = rows;
  }

  -- `ResultData(MYSQL_RES *)`
  unfoldable pub from_result : ℕ → Res → Option ResultData
  unfolding with_columns
  from_result fuel res =
      let count = num_fields res in
      if count == 0
      then some (with_columns (fetch_field_direct res) count [])
      else elim (fetch_rows fuel res count) [
        | none ↦ none
        | some rows ↦ some (with_columns (fetch_field_direct res) count rows)
      ]

  abbrev pub stmt_failure : {A : Type 0} → ℕ → Action (State World) A
  stmt_failure stmt s = (throw (sql_error (stmt_errno stmt s.world) (stmt_error stmt s.world)), s)

  -- A call of the client library.
  abbrev pub call : {A : Type 0} → (World → A × World) → Action (State World) A
  call f s = let (a, w) = f s.world in (ok a, record s { world = w })

  unfoldable pub add_row :
      ℕ → BoundRow → List ResultDataRow → Action (State World) (List ResultDataRow)
  unfolding bound_row
  add_row column_count row rows s = (ok (bound_row row column_count ∷ rows), s)

  -- `mysqlStmtFetch` and what the loop over the rows does with it; `later` is the rest of the loop.
  unfoldable pub row_outcome :
      Action (State World) (List ResultDataRow)
      → ℕ
      → ℕ
      → Fetch
      → Action (State World) (List ResultDataRow)
  unfolding add_row
  row_outcome later stmt column_count (fetched row) = later >>= add_row column_count row
  row_outcome later stmt column_count fetch_failed = stmt_failure stmt
  row_outcome later stmt column_count no_data = pure []

  unfoldable pub fetch_bound_rows : ℕ → ℕ → ℕ → Action (State World) (List ResultDataRow)
  unfolding row_outcome
  fetch_bound_rows zero stmt column_count s = (throw out_of_fuel, s)
  fetch_bound_rows (suc fuel) stmt column_count s =
      (call (stmt_fetch stmt)
          >>= row_outcome (fetch_bound_rows fuel stmt column_count) stmt column_count)
        s

  unfoldable pub bind_outcome : ℕ → ℕ → ℕ → Bool → Action (State World) (List ResultDataRow)
  bind_outcome fuel stmt column_count true = stmt_failure stmt
  bind_outcome fuel stmt column_count false = fetch_bound_rows fuel stmt column_count

  unfoldable pub bound_rows : ℕ → ℕ → ℕ → Action (State World) (List ResultDataRow)
  unfolding bind_outcome
  bound_rows fuel stmt column_count =
      if column_count == 0
      then pure []
      else call (stmt_bind_result stmt) >>= bind_outcome fuel stmt column_count

  unfoldable pub add_columns : Res → ℕ → List ResultDataRow → Action (State World) ResultData
  unfolding with_columns
  add_columns meta column_count rows s =
      (ok (with_columns (fetch_fields meta) column_count rows), s)

  -- `ResultData(MYSQL_STMT *, MYSQL_RES *)`
  unfoldable pub from_statement : ℕ → ℕ → Res → Action (State World) ResultData
  unfolding bound_rows add_columns
  from_statement fuel stmt meta s =
      let count = stmt_field_count stmt s.world in
      (bound_rows fuel stmt count >>= add_columns meta count) s
