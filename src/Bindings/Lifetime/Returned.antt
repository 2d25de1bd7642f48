-- ===== src/Bindings/Lifetime/Returned.antt =====
-- The references that the Lua object of a query holds, and that its end gives back, src/lua/LuaDatabase.cpp and
-- src/lua/LuaQuery.cpp.
use my_sqloo.Base.{ℕ, ◌+◌, ◌≤◌, ◌≡◌, ◌∙◌, refl, ap, arith, ◌==◌, count, Bool-cases, inl, inr}
use my_sqloo.Bindings.Lifetime.{LuaIQuery, wrap, on_query_destroyed, on_lua_query_destroyed}
use my_sqloo.Bindings.Start.Balance.{Registered, one, create_lem, free_lem}
use my_sqloo.Client.{Bytes}
use my_sqloo.LuaData.{FieldTypes, DataTable, free_data_reference}
use my_sqloo.Objects.{IQuery, State}
use my_sqloo.References.{free_if_set}

module _ {Lua : Type 0} (reference_free : ℕ → Lua → Lua) where
  destroyed_lem :
      (o : LuaIQuery) (lua : Lua)
      → ((on_query_destroyed reference_free o lua).1
          ≡ free_if_set reference_free o.database_reference lua)
        × ((on_query_destroyed reference_free o lua).0.database_reference ≡ 0)
  unfolding on_query_destroyed free_if_set
  destroyed_lem o lua = elim (Bool-cases (o.database_reference == 0)) [
    | inl e ↦ rw (on_query_destroyed, free_if_set, e) (refl, ground (arith, e))
    | inr e ↦ rw (on_query_destroyed, free_if_set, e) (refl, refl)
  ]

module _ {Number World Lua : Type 0} (types : FieldTypes) (atof : Bytes → Number)
    (of_unsigned : ℕ → Number) (R : Registered Lua)
    (reference_create : DataTable types atof of_unsigned → Lua → ℕ × Lua) where
  open R use {reference_free, live}

  data_freed_lem :
      (query : ℕ) (s : State World) (lua : Lua)
      → let (u, lua') =
          free_data_reference types atof of_unsigned reference_create reference_free query
            (s, lua) in
        (lua' ≡ free_if_set reference_free (s.queries query).data_reference lua)
        × ((u.queries query).data_reference ≡ 0)
  unfolding free_data_reference free_if_set
  data_freed_lem query s lua = elim (Bool-cases ((s.queries query).data_reference == 0)) [
    | inl e ↦ rw (free_data_reference, free_if_set, e) (refl, ground (arith, e))
    | inr e ↦ rw (free_data_reference, free_if_set, e) (refl, ground arith)
  ]

  -- A new Lua object of a query adds the reference to its database to what is live in Lua, and nothing
  -- else. When Lua destroys an object whose references are live besides others, they are freed, each once,
  -- the others stay live, and neither the object nor its query holds a reference any more.
  pub object_returned :
      (q : IQuery) (query : ℕ) (x : State World × Lua) (o : LuaIQuery) (s : State World) (lua : Lua)
      (others : ℕ → ℕ)
      → ((r : ℕ)
          → count r (live lua)
            ≡ one r o.database_reference + (one r (s.queries o.query).data_reference + others r))
      → let (made, y) = wrap R.reference_create q query x in
        let (o', z) =
          on_lua_query_destroyed types atof of_unsigned reference_create reference_free o
            (s, lua) in
        ((r : ℕ) → count r (live y.1) ≡ one r made.database_reference + count r (live x.1))
        × ((r : ℕ) → count r (live z.1) ≡ others r)
        × (o'.database_reference ≡ 0)
        × ((z.0.queries o.query).data_reference ≡ 0)
  unfolding wrap on_lua_query_destroyed
  object_returned q query x o s lua others h =
      let lua1 = (on_query_destroyed reference_free o lua).1 in
      let data_reference = (s.queries o.query).data_reference in
      let (first, cleared) = destroyed_lem reference_free o lua in
      let (second, cleared') = data_freed_lem o.query s lua1 in
      let one_freed : (r : ℕ)
          → count r (live lua1) + one r o.database_reference ≡ count r (live lua) =
        λ r.
          ap (λ l. count r (live l) + one r o.database_reference) first
          ∙ free_lem R o.database_reference r lua (omega (arith, h o.database_reference)) in
      let enough : one data_reference data_reference ≤ count data_reference (live lua1) =
        omega (arith, one_freed data_reference, h data_reference) in
      (
        λ r. create_lem R r x.1,
        λ r. omega (
          arith,
          one_freed r,
          h r,
          ap (λ l. count r (live l)) second,
          free_lem R data_reference r lua1 enough,
        ),
        cleared,
        cleared',
      )
