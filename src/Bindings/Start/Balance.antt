-- ===== src/Bindings/Start/Balance.antt =====
-- The references that a started query holds in Lua, and that its end gives back, src/lua/LuaIQuery.cpp and
-- src/mysql/IQuery.cpp.
use my_sqloo.Base.{
  ℕ, ◌+◌, ◌≤◌, ◌<◌, ◌≡◌, refl, Bool, true, false, String, List, [], ◌∷◌, arith, ◌==◌, if◌then◌else◌,
  count, Bool-cases, Option-cases, inl, inr,
}
use my_sqloo.Bindings.Start.{build_data, lua_start}
use my_sqloo.Callbacks.{reference_callbacks, reference_unless_set, get_function_reference}
use my_sqloo.Creation.{new_data, build_query_data, build_prepared_data, build_transaction_data}
use my_sqloo.IQuery.{start, add_query_data, finish_query_data}
use my_sqloo.LuaTransaction.Queries.{LuaTransaction, build_lua_data}
use my_sqloo.Objects.{
  query_kind, prepared_kind, transaction_kind, ping_kind, Kind, IQueryData, State,
}
use my_sqloo.Queue.{enqueue_query}
use my_sqloo.QueryData.{set_data}
use my_sqloo.References.{free_if_set, free_references, finish_lua_data}
use my_sqloo.References.Freed.{Cleared}

-- The registry of Lua: which references are live, each as often as it was created and not freed.
pub record Registered (Lua : Type 0) : Type 0 where
  pub reference_create : Lua → ℕ × Lua
  pub reference_free : ℕ → Lua → Lua
  pub live : Lua → List ℕ
  pub not_zero : (lua : Lua) → ((reference_create lua).0 == 0) ≡ false
  pub created :
      (lua : Lua) (r : ℕ)
      → count r (live (reference_create lua).1)
        ≡ (if (reference_create lua).0 == r then 1 else 0) + count r (live lua)
  pub freed :
      (x : ℕ) (lua : Lua) (r : ℕ)
      → 0 < count x (live lua)
      → count r (live (reference_free x lua)) + (if x == r then 1 else 0) ≡ count r (live lua)

-- Whether a field of the data is the reference.
abbrev pub one : ℕ → ℕ → ℕ
one r x = if x == 0 then 0 else if x == r then 1 else 0

abbrev pub held_each : ℕ → List ℕ → ℕ
held_each r [] = 0
held_each r (x ∷ xs) = one r x + held_each r xs

-- How often the data holds the reference.
abbrev pub held : ℕ → IQueryData → ℕ
held r v = held_each r (
    v.table_reference ∷ v.on_data_reference ∷ v.error_reference ∷ v.abort_reference
    ∷ v.success_reference ∷ [])

module _ {Lua : Type 0} (R : Registered Lua) where
  open R use {reference_create, reference_free, live, not_zero, created, freed}

  pub create_lem :
      (r : ℕ) (lua : Lua)
      → count r (live (reference_create lua).1)
        ≡ one r (reference_create lua).0 + count r (live lua)
  create_lem r lua = rw (not_zero lua) (created lua r)

  unless_set_lem :
      (is_function : String → Lua → Bool) (old : ℕ) (name : String) (r : ℕ) (lua : Lua)
      → old ≡ 0
      → let (x, lua') = reference_unless_set reference_create is_function old name lua in
        count r (live lua') ≡ one r x + count r (live lua)
  unfolding reference_unless_set get_function_reference
  unless_set_lem is_function old name r lua e = elim (Bool-cases (is_function name lua)) [
    | inl f ↦ rw (reference_unless_set, e, f) (create_lem r lua)
    | inr f ↦ rw (reference_unless_set, e, f) (omega arith)
  ]

  reference_callbacks_lem :
      (is_function : String → Lua → Bool) (v : IQueryData) (lua : Lua) (r : ℕ)
      → Cleared v
      → let (v', lua') = reference_callbacks reference_create is_function v lua in
        count r (live lua') ≡ held r v' + count r (live lua)
  unfolding reference_callbacks
  reference_callbacks_lem is_function v lua r c =
      let get = reference_unless_set reference_create is_function in
      let lua1 = (reference_create lua).1 in
      let lua2 = (get v.success_reference "onSuccess" lua1).1 in
      let lua3 = (get v.abort_reference "onAborted" lua2).1 in
      let lua4 = (get v.on_data_reference "onData" lua3).1 in
      omega (
        arith,
        create_lem r lua,
        unless_set_lem is_function v.success_reference "onSuccess" r lua1 c.on_success,
        unless_set_lem is_function v.abort_reference "onAborted" r lua2 c.on_aborted,
        unless_set_lem is_function v.on_data_reference "onData" r lua3 c.on_data,
        unless_set_lem is_function v.error_reference "onError" r lua4 c.on_error,
      )

  pub free_lem :
      (x r : ℕ) (lua : Lua)
      → one x x ≤ count x (live lua)
      → count r (live (free_if_set reference_free x lua)) + one r x ≡ count r (live lua)
  unfolding free_if_set
  free_lem x r lua h = elim (Bool-cases (x == 0)) [
    | inl e ↦ rw (free_if_set, e) (omega arith)
    | inr e ↦
        let self : (x == x) ≡ true = ground arith in
        let here : 0 < count x (live lua) = ground (arith, e, self, h) in
        rw (free_if_set, e) (freed x lua r here)
  ]

  free_each : List ℕ → Lua → Lua
  free_each [] lua = lua
  free_each (x ∷ xs) lua = free_each xs (free_if_set reference_free x lua)

  free_each_lem :
      (xs : List ℕ) (lua : Lua)
      → ((r : ℕ) → held_each r xs ≤ count r (live lua))
      → (r : ℕ) → count r (live (free_each xs lua)) + held_each r xs ≡ count r (live lua)
  unfolding free_each
  free_each_lem [] lua h r = omega arith
  free_each_lem (x ∷ xs) lua h r =
      let lua' = free_if_set reference_free x lua in
      let first : (r' : ℕ) → count r' (live lua') + one r' x ≡ count r' (live lua) =
        λ r'. free_lem x r' lua (omega (arith, h x)) in
      let later = free_each_lem xs lua' (λ r'. omega (arith, h r', first r')) r in
      omega (arith, first r, later)

  -- Freeing takes away each reference that the data holds, once.
  free_references_lem :
      (v : IQueryData) (lua : Lua)
      → ((r : ℕ) → held r v ≤ count r (live lua))
      → (r : ℕ)
      → count r (live (free_references reference_free v lua)) + held r v ≡ count r (live lua)
  unfolding free_references free_each
  free_references_lem v lua h r =
      free_each_lem
        (v.table_reference ∷ v.on_data_reference ∷ v.error_reference ∷ v.abort_reference
          ∷ v.success_reference ∷ [])
        lua h r

  new_data-Cleared : Cleared new_data
  unfolding new_data
  new_data-Cleared = record {
    table = refl;
    on_data = refl;
    on_error = refl;
    on_aborted = refl;
    on_success = refl;
  }

  module _ {World : Type 0} where
    build_data-Cleared :
        (kind : Kind) (t : LuaTransaction) (query : ℕ) (s : State World)
        → Cleared (build_data kind t query s).0
    unfolding build_data build_query_data build_prepared_data build_transaction_data build_lua_data
        new_data
    build_data-Cleared query_kind t query s = record {
      table = refl;
      on_data = refl;
      on_error = refl;
      on_aborted = refl;
      on_success = refl;
    }
    build_data-Cleared prepared_kind t query s = record {
      table = refl;
      on_data = refl;
      on_error = refl;
      on_aborted = refl;
      on_success = refl;
    }
    build_data-Cleared transaction_kind t query s = elim (Option-cases t.queries) [
      | inl e ↦ rw (build_data, build_lua_data, e) new_data-Cleared
      | inr (qs, e) ↦
          rw (build_data, build_lua_data, e)
            (record {
              table = refl;
              on_data = refl;
              on_error = refl;
              on_aborted = refl;
              on_success = refl;
            })
    ]
    build_data-Cleared ping_kind t query s = record {
      table = refl;
      on_data = refl;
      on_error = refl;
      on_aborted = refl;
      on_success = refl;
    }

    held-start :
        (r query d : ℕ) (v : IQueryData) (s : State World)
        → held r ((start query d (set_data d v s)).query_data d) ≡ held r v
    unfolding start add_query_data enqueue_query
    held-start r query d v s =
        let self : (d == d) ≡ true = ground arith in
        elim (Bool-cases (s.queries query).has_been_started) [
          | inl e ↦ rw (start, add_query_data, enqueue_query, e, self) refl
          | inr e ↦ rw (start, add_query_data, enqueue_query, e, self) refl
        ]

    -- After Lua started a query, what is live is what was live before and the references that its data
    -- holds. When that data is finished, whatever happened to Lua in between, as long as those references
    -- are still live besides others, each of them is freed once, and the others stay live.
    pub lua_start-balanced :
        (is_function : String → Lua → Bool) (t : LuaTransaction) (query d : ℕ) (s : State World)
        (lua : Lua)
        → let (s', lua') = lua_start reference_create is_function t query d (s, lua) in
          ((r : ℕ) → count r (live lua') ≡ held r (s'.query_data d) + count r (live lua))
          × ((later : Lua) (others : ℕ → ℕ)
              → ((r : ℕ) → count r (live later) ≡ held r (s'.query_data d) + others r)
              → (r : ℕ)
              → count r (live (finish_lua_data reference_free query d (s', later)).1) ≡ others r)
    unfolding lua_start finish_lua_data finish_query_data
    lua_start-balanced is_function t query d s lua =
        let (v, s1) = build_data (s.queries query).kind t query s in
        let (v', lua') = reference_callbacks reference_create is_function v lua in
        let s' = start query d (set_data d v' s1) in
        let kept : (r : ℕ) → held r (s'.query_data d) ≡ held r v' =
          λ r. held-start r query d v' s1 in
        (
          λ r. omega (
            arith,
            kept r,
            reference_callbacks_lem is_function v lua r
                (build_data-Cleared (s.queries query).kind t query s),
          ),
          λ later others h r. omega (
            arith,
            h r,
            free_references_lem (s'.query_data d) later (λ r'. omega (arith, h r')) r,
          ),
        )
