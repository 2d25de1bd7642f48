-- ===== src/LuaData/Rows.antt =====
-- What the Lua tables of a result set hold, src/lua/LuaQuery.cpp.
use my_sqloo.Base.{
  some-injective, ℕ, zero, suc, ◌+◌, ◌<◌, ◌≡◌, ◌≢◌, ◌∙◌, refl, ap, sym, subst, Bool, true, String,
  Option, some, ◌≤◌, List, [], ◌∷◌, map, get_elem?, arith, is_some,
}
use my_sqloo.Client.{Client, Bytes, Row, Field}
use my_sqloo.Objects.{ResultData, ResultDataRow, IQuery, IQueryData}
use my_sqloo.IQuery.{has_option, option_numeric_fields}
use my_sqloo.QueryData.{has_more_results}
use my_sqloo.LuaData.{
  FieldTypes, Key, key_of, Cell, convert, row_table, data_rows, DataTable, contents, contents_with,
}
use my_sqloo.ResultData.{tabulate, row_value, row_null, text_row, with_columns}

-- What a table holds at a key: the value of the last write to it.
pub data Holds {K V : Type 0} : List (K × V) → K → V → Type 0 where
  last_write : {k : K} {v : V} {t : List (K × V)} → Holds ((k, v) ∷ t) k v
  earlier_write :
      {k k' : K} {v v' : V} {t : List (K × V)} → k' ≢ k → Holds t k v → Holds ((k', v') ∷ t) k v

module _ {Number : Type 0} (types : FieldTypes) (atof : Bytes → Number) (of_unsigned : ℕ → Number)
    (numeric : Bool) where
  abbrev cell : ℕ → Bytes → Bool → Cell Number
  cell = convert types atof of_unsigned

  table_of :
      (n column : ℕ) (value : ℕ → Bytes) (name : ℕ → String) (type : ℕ → ℕ) (null : ℕ → Bool)
      → List (Key × Cell Number)
      → Option (List (Key × Cell Number))
  table_of n column value name type null table =
      row_table types atof of_unsigned numeric column (tabulate n value) (tabulate n name)
        (tabulate n type) (tabulate n null) table

  column_key :
      (column j : ℕ) (name : String)
      → key_of numeric (column + suc j) name ≡ key_of numeric (suc column + j) name
  column_key column j name =
      let same : column + suc j ≡ suc column + j = omega arith in
      ap (λ c. key_of numeric c name) same

  first_key :
      (column : ℕ) (name : String) → key_of numeric (column + 0) name ≡ key_of numeric column name
  first_key column name =
      let same : column + 0 ≡ column = omega arith in ap (λ c. key_of numeric c name) same

  row_total :
      (n column : ℕ) (value : ℕ → Bytes) (name : ℕ → String) (type : ℕ → ℕ) (null : ℕ → Bool)
      (table : List (Key × Cell Number))
      → (t : List (Key × Cell Number)) × (table_of n column value name type null table ≡ some t)
  unfolding table_of row_table
  row_total zero column value name type null table = (table, refl)
  row_total (suc n) column value name type null table =
      row_total n (suc column) (λ i. value (suc i)) (λ i. name (suc i)) (λ i. type (suc i))
        (λ i. null (suc i))
        ((key_of numeric column (name 0), cell (type 0) (value 0) (null 0)) ∷ table)

  -- A write stays while no later column has its key.
  row_keeps :
      (n column : ℕ) (value : ℕ → Bytes) (name : ℕ → String) (type : ℕ → ℕ) (null : ℕ → Bool)
      (table t : List (Key × Cell Number)) (k : Key) (v : Cell Number)
      → table_of n column value name type null table ≡ some t
      → ((j : ℕ) → j < n → key_of numeric (column + j) (name j) ≢ k)
      → Holds table k v
      → Holds t k v
  unfolding table_of row_table
  row_keeps zero column value name type null table t k v e other h =
      subst (λ x. Holds x k v) (some-injective e) h
  row_keeps (suc n) column value name type null table t k v e other h =
      row_keeps n (suc column) (λ i. value (suc i)) (λ i. name (suc i)) (λ i. type (suc i))
        (λ i. null (suc i))
        ((key_of numeric column (name 0), cell (type 0) (value 0) (null 0)) ∷ table) t k v e
        (λ j below same. other (suc j) (omega arith) (column_key column j (name (suc j)) ∙ same))
        (earlier_write (λ same. other 0 (omega arith) (first_key column (name 0) ∙ same)) h)

  row-Holds :
      (n column : ℕ) (value : ℕ → Bytes) (name : ℕ → String) (type : ℕ → ℕ) (null : ℕ → Bool)
      (table t : List (Key × Cell Number)) (i : ℕ)
      → table_of n column value name type null table ≡ some t
      → i < n
      → ((j : ℕ)
          → i < j
          → j < n
          → key_of numeric (column + j) (name j) ≢ key_of numeric (column + i) (name i))
      → Holds t (key_of numeric (column + i) (name i)) (cell (type i) (value i) (null i))
  unfolding table_of row_table
  row-Holds zero column value name type null table t i e below other = absurd (omega arith)
  row-Holds (suc n) column value name type null table t zero e below other =
      row_keeps n (suc column) (λ i. value (suc i)) (λ i. name (suc i)) (λ i. type (suc i))
        (λ i. null (suc i))
        ((key_of numeric column (name 0), cell (type 0) (value 0) (null 0)) ∷ table) t
        (key_of numeric (column + 0) (name 0)) (cell (type 0) (value 0) (null 0)) e
        (λ j later same.
          other (suc j) (omega arith) (omega arith) (column_key column j (name (suc j)) ∙ same))
        (rw (first_key column (name 0)) last_write)
  row-Holds (suc n) column value name type null table t (suc i) e below other =
      rw (column_key column i (name (suc i))) (
        row-Holds n (suc column) (λ i. value (suc i)) (λ i. name (suc i)) (λ i. type (suc i))
          (λ i. null (suc i))
          ((key_of numeric column (name 0), cell (type 0) (value 0) (null 0)) ∷ table) t i e
          (omega arith)
          (λ j later last same.
            other (suc j) (omega arith) (omega arith) (
              column_key column j (name (suc j))
              ∙ same
              ∙ sym (column_key column i (name (suc i))))))

module _ {Number : Type 0} (types : FieldTypes) (atof : Bytes → Number) (of_unsigned : ℕ → Number)
    (numeric : Bool) (C : Client) (field : ℕ → Field) (n : ℕ) where
  -- The table of a row holds each cell at the key of its column, unless a later column has that key.
  pub HoldsRow : Row → List (Key × Cell Number) → Type 0
  HoldsRow row t =
      (i : ℕ)
      → i < n
      → ((j : ℕ)
          → i < j
          → j < n
          → key_of numeric (1 + j) (field j).name ≢ key_of numeric (1 + i) (field i).name)
      → Holds t (key_of numeric (1 + i) (field i).name) (
          convert types atof of_unsigned (field i).type (row_value (row.cell i) (row.lengths i))
            (row_null (row.cell i) (row.lengths i)))

  row_table_lem :
      (row : Row)
      → (t : List (Key × Cell Number)) × (row_table types atof of_unsigned numeric 1
            (text_row row n).values
            (with_columns C field n []).columns
            (with_columns C field n []).column_types
            (text_row row n).null_fields
            []
          ≡ some t)
        × HoldsRow row t
  unfolding HoldsRow text_row with_columns table_of
  row_table_lem row =
      let value = λ (i : ℕ). row_value (row.cell i) (row.lengths i) in
      let null = λ (i : ℕ). row_null (row.cell i) (row.lengths i) in
      let name = λ (i : ℕ). (field i).name in
      let type = λ (i : ℕ). (field i).type in
      let (t, e) = row_total types atof of_unsigned numeric n 1 value name type null [] in
      (
        t,
        e,
        λ i below other.
            row-Holds types atof of_unsigned numeric n 1 value name type null [] t i e below other,
      )

  first_or_later :
      (t : DataTable types atof of_unsigned) (raw : Row) (raws : List Row) (first : ℕ)
      (v : List (Key × Cell Number))
      → Holds t (suc first) v
      → HoldsRow raw v
      → ((i : ℕ) (raw' : Row)
          → get_elem? raws i ≡ some raw'
          → (x : List (Key × Cell Number)) × Holds t (1 + (suc first + i)) x × HoldsRow raw' x)
      → (i : ℕ) (raw' : Row) → get_elem? (raw ∷ raws) i ≡ some raw'
      → (x : List (Key × Cell Number)) × Holds t (1 + (first + i)) x × HoldsRow raw' x
  first_or_later t raw raws first v h good later zero raw' e =
      let same : suc first ≡ 1 + (first + 0) = omega arith in
      (v, subst (λ k. Holds t k v) same h, subst (λ r. HoldsRow r v) (some-injective e) good)
  first_or_later t raw raws first v h good later (suc i) raw' e =
      let (x, at', good') = later i raw' e in
      let same : 1 + (suc first + i) ≡ 1 + (first + suc i) = omega arith in
      (x, subst (λ k. Holds t k x) same at', good')

  -- The tables of the rows from row `first` on, behind what the table held before.
  data_rows_lem :
      (rows : List ResultDataRow) (raws : List Row) (first : ℕ)
      (table : DataTable types atof of_unsigned)
      → (t : DataTable types atof of_unsigned) × (data_rows types atof of_unsigned numeric
            (with_columns C field n rows)
            first
            (map (λ raw. text_row raw n) raws)
            table
          ≡ some t)
        × ((k : ℕ) (v : List (Key × Cell Number)) → k ≤ first → Holds table k v → Holds t k v)
        × ((i : ℕ) (raw : Row)
            → get_elem? raws i ≡ some raw
            → (v : List (Key × Cell Number)) × Holds t (1 + (first + i)) v × HoldsRow raw v)
  unfolding data_rows with_columns
  data_rows_lem rows [] first table = (table, refl, λ k v below h. h, λ i raw e. cc)
  data_rows_lem rows (raw ∷ raws) first table =
      let (v, e, good) = row_table_lem raw in
      let (t, e', keeps, holds) = data_rows_lem rows raws (suc first) ((suc first, v) ∷ table) in
      (
        t,
        rw (e, data_rows) e',
        λ k x below h. keeps k x (omega arith) (earlier_write (λ same. omega arith) h),
        first_or_later t raw raws first v (keeps (suc first) v (omega arith) last_write) good holds,
      )

  -- Let the query have callback data, with a result set of text that was read from the client library
  -- as the first of its results. Then the new table of `createDataReference` is built without a read
  -- behind the end of a sequence, and holds for each row, at its number counted from 1, a table. That
  -- holds for each column, at its key, the conversion of the cell, unless a later column has that key.
  pub contents_lem :
      (q : IQuery) (raws : List Row) (v : IQueryData) (rest : List ResultData)
      → has_option q option_numeric_fields ≡ numeric
      → is_some q.callback_query_data ≡ true
      → has_more_results v ≡ true
      → v.results ≡ with_columns C field n (map (λ raw. text_row raw n) raws) ∷ rest
      → (t : DataTable types atof of_unsigned) × (contents types atof of_unsigned q v ≡ some t)
        × ((i : ℕ) (raw : Row)
            → get_elem? raws i ≡ some raw
            → (row : List (Key × Cell Number)) × Holds t (1 + i) row × HoldsRow raw row)
  unfolding contents contents_with with_columns
  contents_lem q raws v rest option called more e =
      let rows = map (λ raw. text_row raw n) raws in
      let (t, done', keeps, holds) = data_rows_lem rows raws 0 [] in
      (
        t,
        rw (called, more, e, option) done',
        λ i raw h.
            let (row, at', good) = holds i raw h in
            let same : 0 + i ≡ i = omega arith in
            (row, subst (λ x. Holds t (1 + x) row) same at', good),
      )
