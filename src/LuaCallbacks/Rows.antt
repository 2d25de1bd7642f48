-- ===== src/LuaCallbacks/Rows.antt =====
-- The onData callbacks see each row once, in order, src/lua/LuaQuery.cpp.
use my_sqloo.Base.{
  ℕ, zero, suc, ◌+◌, ◌≤◌, ◌<◌, ◌≡◌, ◌∙◌, refl, ap, sym, some-injective, Bool, true, false, Option,
  none, some, List, [], ◌∷◌, map, length, get_elem?, arith, ◌&&◌, if◌then◌else◌, Option-cases, inl,
  inr, is_some,
}
use my_sqloo.Callbacks.{Callback, at_reference, at_field, no_callback}
use my_sqloo.LuaCallbacks.{
  Engine, RowTable, Table, Arguments, row_argument, Called, raw_get, make_call, invoke,
  on_data_rows,
}
use my_sqloo.LuaData.{row_table, data_rows, contents, contents_with}
use my_sqloo.IQuery.{has_option, option_numeric_fields}
use my_sqloo.QueryData.{has_more_results}
use my_sqloo.LuaDatabase.{Host}
use my_sqloo.Objects.{ResultData, ResultDataRow, IQuery, IQueryData}
use my_sqloo.References.Freed.{SameReferences}
use my_sqloo.Script.{Script, run_after, called_before, ◌then_run◌}

abbrev pub is_called : Callback → Bool
is_called no_callback = false
is_called (at_reference ref) = true
is_called (at_field table name) = true

module _ (E : Engine) where
  open E use {types, atof, of_unsigned}

  added_fresh :
      (first k : ℕ) (v : RowTable E) (table : Table E)
      → suc first < k
      → raw_get E k table ≡ none
      → raw_get E k ((suc first, v) ∷ table) ≡ none
  unfolding raw_get
  added_fresh first k v table h e = ground (arith, e)

  added_older :
      (first k : ℕ) (v : RowTable E) (table : Table E)
      → k ≤ first
      → raw_get E k ((suc first, v) ∷ table) ≡ raw_get E k table
  unfolding raw_get
  added_older first k v table h = ground arith

  added_now :
      (first : ℕ) (v : RowTable E) (table : Table E)
      → raw_get E (suc first) ((suc first, v) ∷ table) ≡ some v
  unfolding raw_get
  added_now first v table = ground arith

  first_or_later :
      (first : ℕ) (t : Table E) (v : RowTable E) (rs : List (RowTable E))
      → raw_get E (suc first) t ≡ some v
      → ((i : ℕ) → raw_get E (suc (suc first + i)) t ≡ get_elem? rs i)
      → (i : ℕ) → raw_get E (suc (first + i)) t ≡ get_elem? (v ∷ rs) i
  first_or_later first t v rs now later zero =
      let same : suc (first + 0) ≡ suc first = omega arith in ap (λ k. raw_get E k t) same ∙ now
  first_or_later first t v rs now later (suc i) =
      let same : suc (first + suc i) ≡ suc (suc first + i) = omega arith in
      ap (λ k. raw_get E k t) same ∙ later i

  data_rows-raw_get :
      (numeric : Bool) (result : ResultData) (rows : List ResultDataRow) (first : ℕ)
      (table t : Table E)
      → data_rows types atof of_unsigned numeric result first rows table ≡ some t
      → ((k : ℕ) → first < k → raw_get E k table ≡ none)
      → (rs : List (RowTable E)) × (length t ≡ length table + length rs)
        × ((i : ℕ) → raw_get E (suc (first + i)) t ≡ get_elem? rs i)
        × ((k : ℕ) → k ≤ first → raw_get E k t ≡ raw_get E k table)
  unfolding data_rows
  data_rows-raw_get numeric result [] first table t e fresh =
      let same = some-injective e in
      (
        [],
        omega (arith, ap length same),
        λ i. ap (raw_get E (suc (first + i))) (sym same) ∙ fresh (suc (first + i)) (omega arith),
        λ k h. ap (raw_get E k) (sym same),
      )
  data_rows-raw_get numeric result (row ∷ rows) first table t e fresh =
      elim (Option-cases (
        row_table types atof of_unsigned numeric 1 row.values result.columns result.column_types
          row.null_fields [])) [
            | inl bad ↦ let broken : none ≡ some t = sym (rw (data_rows, bad) refl) ∙ e in cc
            | inr (v, good) ↦
                let here : data_rows types atof of_unsigned numeric result (suc first) rows
                      ((suc first, v) ∷ table)
                    ≡ some t =
                  sym (rw (data_rows, good) refl) ∙ e in
                let (rs, size, later, older) =
                  data_rows-raw_get numeric result rows (suc first) ((suc first, v) ∷ table) t here
                    (λ k h. added_fresh first k v table h (fresh k (omega arith))) in
                (
                  v ∷ rs,
                  omega (arith, size),
                  first_or_later first t v rs
                      (older (suc first) (omega arith) ∙ added_now first v table) later,
                  λ k h. older k (omega arith) ∙ added_older first k v table h,
                )
          ]

  -- The rows of a table of results, in order.
  pub record HasRows (t : Table E) (rs : List (RowTable E)) : Type 0 where
    pub size : length t ≡ length rs
    pub at_index : (i : ℕ) → raw_get E (suc i) t ≡ get_elem? rs i

  with_contents :
      (has_more numeric : Bool) (results : List ResultData) (t : Table E)
      → (if has_more
          then elim results as (λ _. Option (Table E)) [
            | [] ↦ none
            | result ∷ rest ↦ data_rows types atof of_unsigned numeric result 0 result.rows []
          ]
          else some [])
        ≡ some t
      → (rs : List (RowTable E)) × HasRows t rs
  unfolding raw_get
  with_contents true numeric [] t e = cc
  with_contents true numeric (result ∷ rest) t e =
      let (rs, size, rows, older) =
        data_rows-raw_get numeric result result.rows 0 [] t e (λ k h. refl) in
      (
        rs,
        record {
          size = omega (arith, size);
          at_index = λ i.
              let same : i ≡ 0 + i = omega arith in ap (λ k. raw_get E (suc k) t) same ∙ rows i;
        },
      )
  with_contents false numeric results t e =
      let same = some-injective e in
      (
        [],
        record { size = sym (ap length same); at_index = λ i. ap (raw_get E (suc i)) (sym same) },
      )

  pub contents-HasRows :
      (q : IQuery) (v : IQueryData) (t : Table E)
      → contents types atof of_unsigned q v ≡ some t
      → (rs : List (RowTable E)) × HasRows t rs
  unfolding contents contents_with
  contents-HasRows q v t e =
      with_contents (is_some q.callback_query_data && has_more_results v)
        (has_option q option_numeric_fields) v.results t e

  pub called_invoke :
      {World : Type 0} (call : Called E → Host World E.Lua → Host World E.Lua) (c : Callback)
      (table : ℕ) (args : Arguments E) (h : Host World E.Lua)
      → is_called c ≡ true
      → invoke E call c table args h ≡ make_call E call c table args h
  unfolding invoke
  called_invoke call no_callback table args h e = cc
  called_invoke call (at_reference ref) table args h e = refl
  called_invoke call (at_field ref name) table args h e = refl

  -- A call, and then a script.
  one_more :
      {World : Type 0} (call : Called E → Host World E.Lua → Host World E.Lua) (c : Callback)
      (table : ℕ) (args : Arguments E) (h : Host World E.Lua)
      → is_called c ≡ true
      → (es : List (Called E)) (last : Host World E.Lua) (q : Script (Called E) (Host World E.Lua))
      → q (call (record { callback = c; table = table; arguments = args }) h) ≡ some (es, last)
      → (invoke E call c table args then_run q) h
        ≡ some ((record { callback = c; table = table; arguments = args }) ∷ es, last)
  unfolding make_call run_after called_before
  one_more call c table args h called es last q e =
      rw (called_invoke call c table args h called, make_call) (rw e refl)

  -- The references of the data are those of `v`, and the table `t` stands at the reference, and in the
  -- table that was pushed from it before.
  pub record Intact {World : Type 0} (v : IQueryData) (d ref : ℕ) (pushed : E.Lua) (t : Table E)
      (h : Host World E.Lua) : Type 0 where
    pub references : SameReferences v (h.state.query_data d)
    pub rows : E.table_now ref pushed h.lua ≡ t
    pub held : E.registry.reference_push ref h.lua ≡ t

  -- The call of onData for a row.
  abbrev pub row_call : Callback → IQueryData → RowTable E → Called E
  row_call c v r = record { callback = c; table = v.table_reference; arguments = row_argument r }

  pub on_data_rows_lem :
      {World : Type 0} (call : Called E → Host World E.Lua → Host World E.Lua) (c : Callback)
      (v : IQueryData) (d ref : ℕ) (pushed : E.Lua) (t : Table E)
      → ((e : Called E) (h : Host World E.Lua)
          → Intact v d ref pushed t h
          → Intact v d ref pushed t (call e h))
      → is_called c ≡ true
      → (rs : List (RowTable E)) (rounds index : ℕ) (h : Host World E.Lua) → length rs < rounds
      → Intact v d ref pushed t h
      → ((i : ℕ) → raw_get E (index + i) t ≡ get_elem? rs i)
      → (es : List (Called E)) × (last : Host World E.Lua) × (on_data_rows E call rounds index ref
            pushed c d h
          ≡ some (es, last))
        × (es ≡ map (λ r. row_call c v r) rs)
        × Intact v d ref pushed t last
  unfolding on_data_rows
  on_data_rows_lem call c v d ref pushed t leaves called rs zero index h more intact get =
      absurd (omega arith)
  on_data_rows_lem call c v d ref pushed t leaves called [] (suc rounds) index h more intact get =
      let here : raw_get E index (E.table_now ref pushed h.lua) ≡ none =
        let same : index ≡ index + 0 = omega arith in
        ap (raw_get E index) intact.rows ∙ ap (λ k. raw_get E k t) same ∙ get 0 in
      ([], h, rw (on_data_rows, here) refl, refl, intact)
  on_data_rows_lem call c v d ref pushed t leaves called (r ∷ rs) (suc rounds) index h more intact
        get =
      let here : raw_get E index (E.table_now ref pushed h.lua) ≡ some r =
        let same : index ≡ index + 0 = omega arith in
        ap (raw_get E index) intact.rows ∙ ap (λ k. raw_get E k t) same ∙ get 0 in
      let args = row_argument r in
      let table = (h.state.query_data d).table_reference in
      let e : Called E = record { callback = c; table = table; arguments = args } in
      let (es, last, ran, all, kept) =
        on_data_rows_lem call c v d ref pushed t leaves called rs rounds (suc index) (call e h)
          (omega arith) (leaves e h intact)
          (λ i.
            let same : suc index + i ≡ index + suc i = omega arith in
            ap (λ k. raw_get E k t) same ∙ get (suc i)) in
      (
        e ∷ es,
        last,
        rw (on_data_rows, here) (one_more call c table args h called es last _ ran),
        (λ i. record { callback = c; table = intact.references.table i; arguments = args } ∷ all i),
        kept,
      )
