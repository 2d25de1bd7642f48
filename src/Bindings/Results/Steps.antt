-- ===== src/Bindings/Results/Steps.antt =====
-- getData and getNextResults on a query that can be read, src/lua/LuaQuery.cpp and src/mysql/Query.cpp.
use my_sqloo.Base.{
  ℕ, ◌≡◌, ◌∙◌, refl, ap, sym, Bool, true, false, Option, none, some, List, [], ◌∷◌, arith, ◌==◌,
  Bool-cases, inl, inr, some-injective, Option-cases,
}
use my_sqloo.Bindings.Results.{is_error, lua_get_data, lua_get_next_results}
use my_sqloo.Client.{Bytes}
use my_sqloo.IQuery.{query_get_next_results, is_aborted, has_option, option_numeric_fields}
use my_sqloo.LuaData.{
  FieldTypes, DataTable, contents, contents_with, data_rows, set_data_reference,
  create_data_reference, free_data_reference,
}
use my_sqloo.LuaTransaction.{Registry}
use my_sqloo.LuaTransaction.Results.{created_lem, prepend}
use my_sqloo.Objects.{IQueryData, ResultData, State}
use my_sqloo.Outcome.{done}
use my_sqloo.QueryData.{set_data, has_more_results, get_next_results as next_of}
use my_sqloo.QueryData.Cursor.{Visit}

-- The query is in the callback of the data, which was neither aborted nor failed.
pub record Opened {World : Type 0} (query d : ℕ) (s : State World) : Type 0 where
  pub called : (s.queries query).callback_query_data ≡ some d
  pub alive : is_aborted (s.query_data d).status ≡ false
  pub fine : is_error (s.query_data d).result_status ≡ false

-- And no table of the query is referenced.
pub record Readable {World : Type 0} (query d : ℕ) (s : State World) : Type 0 where
  pub called : (s.queries query).callback_query_data ≡ some d
  pub alive : is_aborted (s.query_data d).status ≡ false
  pub fine : is_error (s.query_data d).result_status ≡ false
  pub unreferenced : (s.queries query).data_reference ≡ 0

module _ {Number : Type 0} (types : FieldTypes) (atof : Bytes → Number)
    (of_unsigned : ℕ → Number) where
  abbrev pub Table : Type 0
  Table = DataTable types atof of_unsigned

  -- The table of a result set.
  abbrev pub table_of : Bool → ResultData → Option Table
  table_of numeric r = data_rows types atof of_unsigned numeric r 0 r.rows []

  abbrev pub reading : Visit → Table → Option Table × ℕ × ℕ
  reading (r, i, a) t = (some t, i, a)

  abbrev pub readings : Bool → List Visit → Option (List (Option Table × ℕ × ℕ))
  readings numeric [] = some []
  readings numeric ((r, i, a) ∷ rest) = elim (table_of numeric r) [
    | none ↦ none
    | some t ↦ prepend (some (some t, i, a)) (readings numeric rest)
  ]

  pub readings-cons :
      (b : Bool) (r : ResultData) (i a : ℕ) (rest : List Visit) (all : List (Option Table × ℕ × ℕ))
      → readings b ((r, i, a) ∷ rest) ≡ some all
      → (t : Table) × (ts : List (Option Table × ℕ × ℕ)) × (table_of b r ≡ some t)
        × (readings b rest ≡ some ts)
        × ((some t, i, a) ∷ ts ≡ all)
  readings-cons b r i a rest all h = elim (Option-cases (table_of b r)) [
    | inl e ↦
        let failed : readings b ((r, i, a) ∷ rest) ≡ none = rw (readings, e) refl in
        absurd (ground (arith, sym failed ∙ h))
    | inr (t, e) ↦ elim (Option-cases (readings b rest)) [
      | inl f ↦
          let failed : readings b ((r, i, a) ∷ rest) ≡ none = rw (readings, e, f) refl in
          absurd (ground (arith, sym failed ∙ h))
      | inr (ts, f) ↦
          let built : readings b ((r, i, a) ∷ rest) ≡ some ((some t, i, a) ∷ ts) =
            rw (readings, e, f) refl in
          (t, ts, e, f, some-injective (sym built ∙ h))
    ]
  ]

  module _ {World Lua : Type 0} (registry : Registry (DataTable types atof of_unsigned) Lua) where
    open registry use {reference_create, reference_push, reference_free}

    abbrev pub numeric : ℕ → State World → Bool
    numeric query s = has_option (s.queries query) option_numeric_fields

    -- The state after a table of the data was referenced, and after the next result set was chosen.
    abbrev pub referenced : ℕ → ℕ → State World → State World
    referenced query ref s =
        set_data_reference types atof of_unsigned reference_create reference_free query ref s

    pub lua_get_data-called :
        (query d ref : ℕ) (s s' : State World) (lua lua' : Lua)
        → (s.queries query).callback_query_data ≡ some d
        → is_error (s.query_data d).result_status ≡ false
        → create_data_reference types atof of_unsigned reference_create reference_free query d
            (s, lua)
          ≡ some (ref, (s', lua'))
        → lua_get_data types atof of_unsigned registry query (s, lua)
          ≡ some (some (reference_push ref lua'), (s', lua'))
    unfolding lua_get_data
    lua_get_data-called query d ref s s' lua lua' called fine created =
        rw (called, fine, created) refl

    pub lua_get_data-Readable :
        (query d : ℕ) (s : State World) (lua : Lua) (t : Table)
        → Readable query d s
        → contents types atof of_unsigned (s.queries query) (s.query_data d) ≡ some t
        → ((u : Table) (l : Lua)
            → reference_push (reference_create u l).0 (reference_create u l).1 ≡ u)
        → let (ref, lua') = reference_create t lua in
          lua_get_data types atof of_unsigned registry query (s, lua)
          ≡ some (some t, (referenced query ref s, lua'))
    lua_get_data-Readable query d s lua t v h push =
        let (ref, lua') = reference_create t lua in
        let s' = referenced query ref s in
        lua_get_data-called query d ref s s' lua lua' v.called v.fine
          (created_lem types atof of_unsigned registry query d s lua t v.unreferenced h)
        ∙ (λ i. some (some (push t lua i), (s', lua')))

    pub contents-called :
        (query d : ℕ) (s : State World) (r : ResultData) (rs : List ResultData) (i a : ℕ)
        (is as' : List ℕ)
        → (s.queries query).callback_query_data ≡ some d
        → (s.query_data d).results ≡ r ∷ rs
        → (s.query_data d).insert_ids ≡ i ∷ is
        → (s.query_data d).affected_rows ≡ a ∷ as'
        → contents types atof of_unsigned (s.queries query) (s.query_data d)
          ≡ table_of (numeric query s) r
    unfolding contents contents_with has_more_results has_option
    contents-called query d s r rs i a is as' called p q e = rw (called, p, q, e) refl

    freed_lem :
        (query : ℕ) (x : State World × Lua)
        → let u =
            (free_data_reference types atof of_unsigned reference_create reference_free query
              x).0 in
          ((u.queries query).data_reference ≡ 0)
          × ((u.queries query).options ≡ (x.0.queries query).options)
          × ((u.queries query).callback_query_data ≡ (x.0.queries query).callback_query_data)
          × (u.query_data ≡ x.0.query_data)
    unfolding free_data_reference
    freed_lem query (s, lua) = elim (Bool-cases ((s.queries query).data_reference == 0)) [
      | inl e ↦ rw (free_data_reference, e) (ground (arith, e), refl, refl, refl)
      | inr e ↦ rw (free_data_reference, e) (ground arith, ground arith, ground arith, refl)
    ]

    next-called :
        (query d : ℕ) (v : IQueryData) (s : State World)
        → (s.queries query).callback_query_data ≡ some d
        → next_of (s.query_data d) ≡ (v, true)
        → query_get_next_results query s ≡ done (set_data d v s)
    unfolding query_get_next_results
    next-called query d v s called e = rw (query_get_next_results, called, e) refl

    -- The next result set is chosen, and no table is referenced.
    pub lua_get_next_results-Readable :
        (query d : ℕ) (v : IQueryData) (x : State World × Lua)
        → (x.0.queries query).callback_query_data ≡ some d
        → next_of (x.0.query_data d) ≡ (v, true)
        → is_aborted v.status ≡ false
        → is_error v.result_status ≡ false
        → let s' = (lua_get_next_results types atof of_unsigned registry query x).1.0 in
          Readable query d s'
          × (s'.query_data d ≡ v)
          × ((s'.queries query).options ≡ (x.0.queries query).options)
    unfolding lua_get_next_results
    lua_get_next_results-Readable query d v x called e alive fine =
        let (u, lua) =
          free_data_reference types atof of_unsigned reference_create reference_free query x in
        let (unreferenced, options, same, same_data) = freed_lem query x in
        let next =
          next-called query d v u (same ∙ called) (ap (λ f. next_of (f d)) same_data ∙ e) in
        let self : (d == d) ≡ true = ground arith in
        rw (lua_get_next_results, next, self)
          (
            record {
              called = same ∙ called;
              alive = rw self alive;
              fine = rw self fine;
              unreferenced = unreferenced;
            },
            refl,
            options,
          )
