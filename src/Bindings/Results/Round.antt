-- ===== src/Bindings/Results/Round.antt =====
-- One round of reading the result sets of a query, src/lua/LuaQuery.cpp and src/mysql/Query.cpp.
use Prim.Native.Nat.{bit_and}
use my_sqloo.Base.{
  ℕ, suc, ◌≡◌, ◌∙◌, refl, ap, true, false, not, Option, some, List, [], ◌∷◌, arith, ◌==◌,
  some-injective,
}
use my_sqloo.Bindings.Results.{lua_get_data, lua_get_next_results, and_then, read_results}
use my_sqloo.Bindings.Results.Steps.{
  Readable, Table, table_of, referenced, numeric, lua_get_data-Readable, contents-called,
  lua_get_next_results-Readable,
}
use my_sqloo.Client.{Bytes}
use my_sqloo.IQuery.{query_has_more_results, last_insert, affected_rows, is_aborted, has_option}
use my_sqloo.LuaData.{FieldTypes, DataTable}
use my_sqloo.LuaTransaction.{Registry}
use my_sqloo.Objects.{IQueryData, ResultData, State}
use my_sqloo.QueryData.{
  has_more_results, get_next_results as next_of, get_last_insert_id, get_affected_rows,
}
use my_sqloo.QueryData.Cursor.{zip3}

pub next_lem :
    (w : IQueryData) (r : ResultData) (rs : List ResultData) (i a : ℕ) (is as' : List ℕ)
    → w.results ≡ r ∷ rs
    → w.insert_ids ≡ i ∷ is
    → w.affected_rows ≡ a ∷ as'
    → next_of w ≡ (record w { results = rs; insert_ids = is; affected_rows = as' }, true)
unfolding next_of has_more_results
next_lem w r rs i a is as' p q e = rw (p, q, e) refl

pub nothing_left :
    (w : IQueryData) (rs : List ResultData) (is as' : List ℕ)
    → w.results ≡ rs
    → w.insert_ids ≡ is
    → w.affected_rows ≡ as'
    → zip3 rs is as' ≡ []
    → has_more_results w ≡ false
unfolding has_more_results
nothing_left w rs is as' p q e h = ground (arith, p, q, e, h)

module _ {Number : Type 0} (types : FieldTypes) (atof : Bytes → Number)
    (of_unsigned : ℕ → Number) where
  module _ {World Lua : Type 0} (registry : Registry (DataTable types atof of_unsigned) Lua) where
    open registry use {reference_create, reference_push, reference_free}

    referenced-called :
        (query ref : ℕ) (s : State World)
        → ((referenced types atof of_unsigned registry query ref s).queries
            query).callback_query_data
          ≡ (s.queries query).callback_query_data
    referenced-called query ref s = ground arith

    referenced-options :
        (query ref : ℕ) (s : State World)
        → ((referenced types atof of_unsigned registry query ref s).queries query).options
          ≡ (s.queries query).options
    referenced-options query ref s = ground arith

    -- What the query says of its first result set.
    pub more_lem :
        (query d : ℕ) (s : State World) (r : ResultData) (rs : List ResultData) (i a : ℕ)
        (is as' : List ℕ)
        → (s.queries query).callback_query_data ≡ some d
        → is_aborted (s.query_data d).status ≡ false
        → (s.query_data d).results ≡ r ∷ rs
        → (s.query_data d).insert_ids ≡ i ∷ is
        → (s.query_data d).affected_rows ≡ a ∷ as'
        → (query_has_more_results query s ≡ true)
          × (last_insert query s ≡ i)
          × (affected_rows query s ≡ a)
    unfolding query_has_more_results last_insert affected_rows get_last_insert_id get_affected_rows
        has_more_results
    more_lem query d s r rs i a is as' called alive p q e = (
      rw (query_has_more_results, called, alive, p, q, e) refl,
      rw (last_insert, called, q) refl,
      rw (affected_rows, called, e) refl,
    )

    pub round_with :
        (rounds query : ℕ) (s s' : State World) (lua lua' : Lua)
        (t : Option (Table types atof of_unsigned))
        → query_has_more_results query s ≡ true
        → lua_get_data types atof of_unsigned registry query (s, lua) ≡ some (t, (s', lua'))
        → read_results types atof of_unsigned registry (suc rounds) query (s, lua)
          ≡ and_then types atof of_unsigned registry
              (t, last_insert query s', affected_rows query s')
              (read_results types atof of_unsigned registry rounds query
                (lua_get_next_results types atof of_unsigned registry query (s', lua')).1)
    unfolding read_results
    round_with rounds query s s' lua lua' t more got = rw (read_results, more, got) refl

    -- One round: the table of the first result set is read, and the next result set is chosen.
    round :
        (rounds query d : ℕ) (s : State World) (lua : Lua) (r : ResultData) (rs : List ResultData)
        (i a : ℕ) (is as' : List ℕ) (t : (Table types atof of_unsigned))
        → Readable query d s
        → (s.query_data d).results ≡ r ∷ rs
        → (s.query_data d).insert_ids ≡ i ∷ is
        → (s.query_data d).affected_rows ≡ a ∷ as'
        → ((u : (Table types atof of_unsigned)) (l : Lua)
            → reference_push (reference_create u l).0 (reference_create u l).1 ≡ u)
        → table_of types atof of_unsigned (numeric types atof of_unsigned registry query s) r
          ≡ some t
        → let x : State World × Lua = (
          referenced types atof of_unsigned registry query (reference_create t lua).0 s,
          (reference_create t lua).1,
        ) in
          read_results types atof of_unsigned registry (suc rounds) query (s, lua)
          ≡ and_then types atof of_unsigned registry
              (some t, i, a)
              (read_results types atof of_unsigned registry rounds query
                (lua_get_next_results types atof of_unsigned registry query x).1)
    round rounds query d s lua r rs i a is as' t v p q e push h =
        let (ref, lua') = reference_create t lua in
        let s' = referenced types atof of_unsigned registry query ref s in
        let called' : (s'.queries query).callback_query_data ≡ some d =
          referenced-called query ref s ∙ v.called in
        let (more, _, _) = more_lem query d s r rs i a is as' v.called v.alive p q e in
        let (_, last, affected) = more_lem query d s' r rs i a is as' called' v.alive p q e in
        let filled =
          contents-called types atof of_unsigned registry query d s r rs i a is as' v.called p q e
          ∙ h in
        let rest =
          read_results types atof of_unsigned registry rounds query
            (lua_get_next_results types atof of_unsigned registry query (s', lua')).1 in
        round_with rounds query s s' lua lua' (some t) more
          (lua_get_data-Readable types atof of_unsigned registry query d s lua t v filled push)
        ∙ (λ k. and_then types atof of_unsigned registry (some t, last k, affected k) rest)

    pub stopped :
        (rounds query d : ℕ) (s : State World) (lua : Lua)
        (all : List (Option (Table types atof of_unsigned) × ℕ × ℕ))
        → Readable query d s
        → has_more_results (s.query_data d) ≡ false
        → some [] ≡ some all
        → (x : State World × Lua) × (read_results types atof of_unsigned registry
              (suc rounds)
              query
              (s, lua)
            ≡ some (all, x))
          × (query_has_more_results query x.0 ≡ false)
          × ((x.0.queries query).data_reference ≡ 0)
    unfolding read_results query_has_more_results
    stopped rounds query d s lua all v none_left e =
        let over : query_has_more_results query s ≡ false =
          rw (query_has_more_results, v.called, v.alive, none_left) refl in
        (
          (s, lua),
          rw (read_results, over) (ap (λ l. some (l, (s, lua))) (some-injective e)),
          over,
          v.unreferenced,
        )

    pub numeric-same :
        (query : ℕ) (s s' : State World)
        → (s'.queries query).options ≡ (s.queries query).options
        → numeric types atof of_unsigned registry query s'
          ≡ numeric types atof of_unsigned registry query s
    unfolding has_option
    numeric-same query s s' e = λ k. not (bit_and (e k) 1 == 0)

    -- The round, and what holds of the state before the next one.
    abbrev pub Advanced :
        ℕ
        → ℕ
        → ℕ
        → State World × Lua
        → State World × Lua
        → List ResultData
        → List ℕ
        → List ℕ
        → Option (Table types atof of_unsigned) × ℕ × ℕ
        → Type 0
    Advanced rounds query d (s, lua) y rs is as' first =
        (read_results types atof of_unsigned registry (suc rounds) query (s, lua)
          ≡ and_then types atof of_unsigned registry first
              (read_results types atof of_unsigned registry rounds query y))
        × Readable query d y.0
        × ((y.0.query_data d).results ≡ rs)
        × ((y.0.query_data d).insert_ids ≡ is)
        × ((y.0.query_data d).affected_rows ≡ as')
        × (numeric types atof of_unsigned registry query y.0
            ≡ numeric types atof of_unsigned registry query s)

    pub advanced :
        (rounds query d : ℕ) (s : State World) (lua : Lua) (r : ResultData) (rs : List ResultData)
        (i a : ℕ) (is as' : List ℕ) (t : (Table types atof of_unsigned))
        → Readable query d s
        → (s.query_data d).results ≡ r ∷ rs
        → (s.query_data d).insert_ids ≡ i ∷ is
        → (s.query_data d).affected_rows ≡ a ∷ as'
        → ((u : (Table types atof of_unsigned)) (l : Lua)
            → reference_push (reference_create u l).0 (reference_create u l).1 ≡ u)
        → table_of types atof of_unsigned (numeric types atof of_unsigned registry query s) r
          ≡ some t
        → (y : State World × Lua) × Advanced rounds query d (s, lua) y rs is as' (some t, i, a)
    advanced rounds query d s lua r rs i a is as' t v p q e push h =
        let (ref, lua') = reference_create t lua in
        let s' = referenced types atof of_unsigned registry query ref s in
        let w = s.query_data d in
        let w' = record w { results = rs; insert_ids = is; affected_rows = as' } in
        let (readable, same, options) =
          lua_get_next_results-Readable types atof of_unsigned registry query d w' (s', lua')
            (referenced-called query ref s ∙ v.called) (next_lem w r rs i a is as' p q e) v.alive
            v.fine in
        (
          (lua_get_next_results types atof of_unsigned registry query (s', lua')).1,
          (
            round rounds query d s lua r rs i a is as' t v p q e push h,
            readable,
            ap (λ (z : IQueryData). z.results) same,
            ap (λ (z : IQueryData). z.insert_ids) same,
            ap (λ (z : IQueryData). z.affected_rows) same,
            numeric-same query s
                (lua_get_next_results types atof of_unsigned registry query (s', lua')).1.0
                (options ∙ referenced-options query ref s),
          ),
        )
