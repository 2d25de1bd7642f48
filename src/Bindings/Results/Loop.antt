-- ===== src/Bindings/Results/Loop.antt =====
-- The rounds of reading result sets when no table is referenced, src/lua/LuaQuery.cpp and src/mysql/Query.cpp.
use my_sqloo.Base.{
  ℕ, zero, suc, ◌<◌, ◌≡◌, ◌∙◌, refl, ap, false, Option, some, List, [], ◌∷◌, length, arith,
}
use my_sqloo.Bindings.Results.{and_then, read_results}
use my_sqloo.Bindings.Results.Round.{advanced, stopped, nothing_left}
use my_sqloo.Bindings.Results.Steps.{Readable, Table, readings, readings-cons, numeric}
use my_sqloo.Client.{Bytes}
use my_sqloo.IQuery.{query_has_more_results}
use my_sqloo.LuaData.{FieldTypes, DataTable}
use my_sqloo.LuaTransaction.{Registry}
use my_sqloo.Objects.{ResultData, State}
use my_sqloo.QueryData.Cursor.{zip3}

module _ {Number : Type 0} (types : FieldTypes) (atof : Bytes → Number)
    (of_unsigned : ℕ → Number) where
  module _ {World Lua : Type 0} (registry : Registry (DataTable types atof of_unsigned) Lua) where
    open registry use {reference_create, reference_push, reference_free}

    -- The loop from a round on at which no table is referenced.
    pub read_unreferenced :
        (push_create : (u : Table types atof of_unsigned) (l : Lua)
          → reference_push (reference_create u l).0 (reference_create u l).1 ≡ u)
        (rounds query d : ℕ) (s : State World) (lua : Lua) (rs : List ResultData) (is as' : List ℕ)
        (all : List (Option (Table types atof of_unsigned) × ℕ × ℕ))
        → Readable query d s
        → (s.query_data d).results ≡ rs
        → (s.query_data d).insert_ids ≡ is
        → (s.query_data d).affected_rows ≡ as'
        → length rs < rounds
        → readings types atof of_unsigned
            (numeric types atof of_unsigned registry query s)
            (zip3 rs is as')
          ≡ some all
        → (x : State World × Lua) × (read_results types atof of_unsigned registry rounds query
              (s, lua)
            ≡ some (all, x))
          × (query_has_more_results query x.0 ≡ false)
          × ((x.0.queries query).data_reference ≡ 0)
    read_unreferenced push zero query d s lua rs is as' all v p q e enough h = absurd (omega arith)
    read_unreferenced push (suc rounds) query d s lua [] is as' all v p q e enough h =
        stopped types atof of_unsigned registry rounds query d s lua all v
          (nothing_left (s.query_data d) [] is as' p q e refl) h
    read_unreferenced push (suc rounds) query d s lua (r ∷ rs) [] as' all v p q e enough h =
        stopped types atof of_unsigned registry rounds query d s lua all v
          (nothing_left (s.query_data d) (r ∷ rs) [] as' p q e refl) h
    read_unreferenced push (suc rounds) query d s lua (r ∷ rs) (i ∷ is) [] all v p q e enough h =
        stopped types atof of_unsigned registry rounds query d s lua all v
          (nothing_left (s.query_data d) (r ∷ rs) (i ∷ is) [] p q e refl) h
    read_unreferenced push (suc rounds) query d s lua (r ∷ rs) (i ∷ is) (a ∷ as') all v p q e enough
          h =
        let (t, ts, here, later, same_all) =
          readings-cons types atof of_unsigned (numeric types atof of_unsigned registry query s) r i
            a (zip3 rs is as') all h in
        let (y, (step, v', p', q', e', same)) =
          advanced types atof of_unsigned registry rounds query d s lua r rs i a is as' t v p q e
            push here in
        let (x, read, over, freed) =
          read_unreferenced push rounds query d y.0 y.1 rs is as' ts v' p' q' e'
            (omega (arith, enough))
            (ap (λ b. readings types atof of_unsigned b (zip3 rs is as')) same ∙ later) in
        (
          x,
          step
              ∙ ap (and_then types atof of_unsigned registry (some t, i, a)) read
              ∙ ap (λ l. some (l, x)) same_all,
          over,
          freed,
        )
