-- ===== src/Bindings/Results/Read.antt =====
-- Reading the result sets of a query one after the other, src/lua/LuaQuery.cpp and src/mysql/Query.cpp.
use my_sqloo.Base.{
  ℕ, ◌⊎◌, inl, inr, sym, Bool-cases, ==_iff, ◌==◌, some-injective, zero, suc, ◌<◌, ◌≡◌, ◌∙◌, refl,
  ap, false, Option, some, List, [], ◌∷◌, length, arith,
}
use my_sqloo.Bindings.Results.{and_then, read_results, lua_get_next_results}
use my_sqloo.Bindings.Results.Loop.{read_unreferenced}
use my_sqloo.Bindings.Results.Round.{
  Advanced, nothing_left, round_with, more_lem, next_lem, numeric-same,
}
use my_sqloo.Bindings.Results.Steps.{
  Opened, Readable, Table, readings, readings-cons, numeric, lua_get_data-called, contents-called,
  lua_get_next_results-Readable,
}
use my_sqloo.Client.{Bytes}
use my_sqloo.IQuery.{query_has_more_results}
use my_sqloo.LuaData.{FieldTypes, DataTable, contents, create_data_reference}
use my_sqloo.LuaTransaction.{Registry}
use my_sqloo.Objects.{IQueryData, ResultData, State}
use my_sqloo.QueryData.{has_more_results}
use my_sqloo.QueryData.Cursor.{zip3}

module _ {Number : Type 0} (types : FieldTypes) (atof : Bytes → Number)
    (of_unsigned : ℕ → Number) where
  module _ {World Lua : Type 0} (registry : Registry (DataTable types atof of_unsigned) Lua) where
    open registry use {reference_create, reference_push, reference_free}

    -- A table that is referenced is the one that getData gives.
    kept_reference :
        (query d : ℕ) (s : State World) (lua : Lua)
        → ((s.queries query).data_reference == 0) ≡ false
        → create_data_reference types atof of_unsigned reference_create reference_free query d
            (s, lua)
          ≡ some ((s.queries query).data_reference, (s, lua))
    unfolding create_data_reference
    kept_reference query d s lua e = rw (create_data_reference, e) refl

    -- No table of the query is referenced, or the table of its current result set is.
    abbrev pub IsCurrent : ℕ → ℕ → State World → Lua → Type 0
    IsCurrent query d s lua =
        ((s.queries query).data_reference ≡ 0)
        ⊎ ((t : Table types atof of_unsigned) × (contents types atof of_unsigned (s.queries query)
                (s.query_data d)
              ≡ some t)
            × (reference_push (s.queries query).data_reference lua ≡ t))

    -- The conclusion of the loop.
    abbrev pub Reads :
        ℕ → ℕ → State World × Lua → List (Option (Table types atof of_unsigned) × ℕ × ℕ) → Type 0
    Reads rounds query x all =
        (y : State World × Lua) × (read_results types atof of_unsigned registry rounds query x
          ≡ some (all, y))
        × (query_has_more_results query y.0 ≡ false)
        × (((y.0.queries query).data_reference ≡ 0) ⊎ (all ≡ []))

    stopped_at_once :
        (rounds query d : ℕ) (s : State World) (lua : Lua)
        (all : List (Option (Table types atof of_unsigned) × ℕ × ℕ))
        → Opened query d s
        → has_more_results (s.query_data d) ≡ false
        → some [] ≡ some all
        → Reads (suc rounds) query (s, lua) all
    unfolding read_results query_has_more_results
    stopped_at_once rounds query d s lua all v none_left e =
        let over : query_has_more_results query s ≡ false =
          rw (query_has_more_results, v.called, v.alive, none_left) refl in
        (
          (s, lua),
          rw (read_results, over) (ap (λ l. some (l, (s, lua))) (some-injective e)),
          over,
          inr (sym (some-injective e)),
        )

    -- The first round when a table is referenced.
    first_stored :
        (rounds query d : ℕ) (s : State World) (lua : Lua) (r : ResultData) (rs : List ResultData)
        (i a : ℕ) (is as' : List ℕ) (t : Table types atof of_unsigned)
        → Opened query d s
        → (s.query_data d).results ≡ r ∷ rs
        → (s.query_data d).insert_ids ≡ i ∷ is
        → (s.query_data d).affected_rows ≡ a ∷ as'
        → ((s.queries query).data_reference == 0) ≡ false
        → reference_push (s.queries query).data_reference lua ≡ t
        → (y : State World × Lua) × Advanced types atof of_unsigned registry rounds query d
            (s, lua)
            y
            rs
            is
            as'
            (some t, i, a)
    first_stored rounds query d s lua r rs i a is as' t v p q e set' pushed =
        let w = s.query_data d in
        let w' = record w { results = rs; insert_ids = is; affected_rows = as' } in
        let (readable, same, options) =
          lua_get_next_results-Readable types atof of_unsigned registry query d w' (s, lua) v.called
            (next_lem w r rs i a is as' p q e) v.alive v.fine in
        let (more, last, affected) =
          more_lem types atof of_unsigned registry query d s r rs i a is as' v.called v.alive p q
            e in
        let got =
          lua_get_data-called types atof of_unsigned registry query d
            (s.queries query).data_reference s s lua lua v.called v.fine
            (kept_reference query d s lua set')
          ∙ (λ k. some (some (pushed k), (s, lua))) in
        let y = (lua_get_next_results types atof of_unsigned registry query (s, lua)).1 in
        (
          y,
          (
            round_with types atof of_unsigned registry rounds query s s lua lua (some t) more got
                ∙ (λ k.
                    and_then types atof of_unsigned registry (some t, last k, affected k)
                      (read_results types atof of_unsigned registry rounds query y)),
            readable,
            ap (λ (z : IQueryData). z.results) same,
            ap (λ (z : IQueryData). z.insert_ids) same,
            ap (λ (z : IQueryData). z.affected_rows) same,
            numeric-same types atof of_unsigned registry query s y.0 options,
          ),
        )

    unreferenced_Reads :
        (push_create : (u : Table types atof of_unsigned) (l : Lua)
          → reference_push (reference_create u l).0 (reference_create u l).1 ≡ u)
        (rounds query d : ℕ) (s : State World) (lua : Lua) (rs : List ResultData) (is as' : List ℕ)
        (all : List (Option (Table types atof of_unsigned) × ℕ × ℕ))
        → Readable query d s
        → (s.query_data d).results ≡ rs
        → (s.query_data d).insert_ids ≡ is
        → (s.query_data d).affected_rows ≡ as'
        → length rs < rounds
        → readings types atof of_unsigned
            (numeric types atof of_unsigned registry query s)
            (zip3 rs is as')
          ≡ some all
        → Reads rounds query (s, lua) all
    unreferenced_Reads push rounds query d s lua rs is as' all v p q e enough h =
        let (x, read, over, free) =
          read_unreferenced types atof of_unsigned registry push rounds query d s lua rs is as' all
            v p q e enough h in
        (x, read, over, inl free)

    stored_Reads :
        (push_create : (u : Table types atof of_unsigned) (l : Lua)
          → reference_push (reference_create u l).0 (reference_create u l).1 ≡ u)
        (rounds query d : ℕ) (s : State World) (lua : Lua) (rs : List ResultData) (is as' : List ℕ)
        (all : List (Option (Table types atof of_unsigned) × ℕ × ℕ))
        (t : Table types atof of_unsigned)
        → Opened query d s
        → contents types atof of_unsigned (s.queries query) (s.query_data d) ≡ some t
        → reference_push (s.queries query).data_reference lua ≡ t
        → ((s.queries query).data_reference == 0) ≡ false
        → (s.query_data d).results ≡ rs
        → (s.query_data d).insert_ids ≡ is
        → (s.query_data d).affected_rows ≡ as'
        → length rs < rounds
        → readings types atof of_unsigned
            (numeric types atof of_unsigned registry query s)
            (zip3 rs is as')
          ≡ some all
        → Reads rounds query (s, lua) all
    stored_Reads push zero query d s lua rs is as' all t v f u set' p q e enough h =
        absurd (omega arith)
    stored_Reads push (suc rounds) query d s lua [] is as' all t v f u set' p q e enough h =
        stopped_at_once rounds query d s lua all v
          (nothing_left (s.query_data d) [] is as' p q e refl) h
    stored_Reads push (suc rounds) query d s lua (r ∷ rs) [] as' all t v f u set' p q e enough h =
        stopped_at_once rounds query d s lua all v
          (nothing_left (s.query_data d) (r ∷ rs) [] as' p q e refl) h
    stored_Reads push (suc rounds) query d s lua (r ∷ rs) (i ∷ is) [] all t v f u set' p q e enough
          h =
        stopped_at_once rounds query d s lua all v
          (nothing_left (s.query_data d) (r ∷ rs) (i ∷ is) [] p q e refl) h
    stored_Reads push (suc rounds) query d s lua (r ∷ rs) (i ∷ is) (a ∷ as') all t v f u set' p q e
          enough h =
        let (t', ts, here, later, same_all) =
          readings-cons types atof of_unsigned (numeric types atof of_unsigned registry query s) r i
            a (zip3 rs is as') all h in
        let same_table : t ≡ t' = some-injective (
          sym f
          ∙ contents-called types atof of_unsigned registry query d s r rs i a is as' v.called p q e
          ∙ here) in
        let (y, (step, v', p', q', e', same)) =
          first_stored rounds query d s lua r rs i a is as' t' v p q e set' (u ∙ same_table) in
        let (x, read, over, freed) =
          read_unreferenced types atof of_unsigned registry push rounds query d y.0 y.1 rs is as' ts
            v' p' q' e' (omega (arith, enough))
            (ap (λ b. readings types atof of_unsigned b (zip3 rs is as')) same ∙ later) in
        (
          x,
          step
              ∙ ap (and_then types atof of_unsigned registry (some t', i, a)) read
              ∙ ap (λ l. some (l, x)) same_all,
          over,
          inl freed,
        )

    -- Let a reference that was just created push the table it was created for. In the callback of data that
    -- was neither aborted nor failed, where the query references no table or, as in onSuccess, the table of its
    -- current result set, with more rounds than result sets, the loop reads the table of each result set
    -- with the insert id and the affected rows at its place, in order, once each, if those tables are
    -- built. Then the query has no more results, and if anything was read it references no table.
    pub read_all :
        (push_create : (u : Table types atof of_unsigned) (l : Lua)
          → reference_push (reference_create u l).0 (reference_create u l).1 ≡ u)
        (rounds query d : ℕ) (s : State World) (lua : Lua) (rs : List ResultData) (is as' : List ℕ)
        (all : List (Option (Table types atof of_unsigned) × ℕ × ℕ))
        → Opened query d s
        → IsCurrent query d s lua
        → (s.query_data d).results ≡ rs
        → (s.query_data d).insert_ids ≡ is
        → (s.query_data d).affected_rows ≡ as'
        → length rs < rounds
        → readings types atof of_unsigned
            (numeric types atof of_unsigned registry query s)
            (zip3 rs is as')
          ≡ some all
        → Reads rounds query (s, lua) all
    read_all push rounds query d s lua rs is as' all v current p q e enough h =
        let readable : (s.queries query).data_reference ≡ 0 → Readable query d s =
          λ z. record { called = v.called; alive = v.alive; fine = v.fine; unreferenced = z } in
        elim (Bool-cases ((s.queries query).data_reference == 0)) [
          | inl z ↦
              unreferenced_Reads push rounds query d s lua rs is as' all
                (readable ((==_iff (s.queries query).data_reference 0).0 z)) p q e enough h
          | inr set' ↦ elim current [
            | inl z ↦
                unreferenced_Reads push rounds query d s lua rs is as' all (readable z) p q e enough
                  h
            | inr (t, f, u) ↦
                stored_Reads push rounds query d s lua rs is as' all t v f u set' p q e enough h
          ]
        ]
