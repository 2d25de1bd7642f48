-- ===== src/LuaCallbacks/Released.antt =====
-- Aborting from Lua, src/lua/LuaIQuery.cpp and LuaDatabase.cpp: what is called, and which references
-- are freed.
use my_sqloo.Base.{ℕ, ◌⊎◌, false, ◌≡◌, true, Option, some, List, [], ◌∷◌, ◌++◌, map, ◌==◌, contains}
use my_sqloo.LuaCallbacks.{Engine, no_arguments, Called}
use my_sqloo.LuaCallbacks.Kept.{KeptOrReleased, aborted_callback}
use my_sqloo.LuaDatabase.{Host}
use my_sqloo.Objects.{IQueryData}
use my_sqloo.References.Freed.{Cleared}
use my_sqloo.Script.{Script}

module _ (E : Engine) {World : Type 0} (call : Called E → Host World E.Lua → Host World E.Lua) where
  open E use {Lua, registry, is_function}

  -- The data `a` holds no reference.
  abbrev pub Released : ℕ → Host World Lua → Type 0
  Released a h = Cleared (h.state.query_data a)

  -- The call of onAborted with the table of the query.
  abbrev pub abort_call : IQueryData → Called E
  abort_call v = record {
    callback = aborted_callback v;
    table = v.table_reference;
    arguments = no_arguments;
  }

  -- The calls for the data, in order: of each its onAborted, or none.
  abbrev pub AbortCalls : List IQueryData → List (Called E) → Type 0
  AbortCalls [] es = es ≡ []
  AbortCalls (v ∷ vs) es =
      (mine rest : List (Called E)) × (es ≡ mine ++ rest)
      × ((mine ≡ []) ⊎ (mine ≡ abort_call v ∷ []))
      × AbortCalls vs rest

  -- What happened to the data `a` between two states.
  abbrev Kept : ℕ → Host World Lua → Host World Lua → Type 0
  Kept a h h' = KeptOrReleased (h.state.query_data a) (h'.state.query_data a)

  -- A callback keeps the references of the data that is aborted, or gives them back: the module
  -- references the callbacks of data only when it builds it. It may start queries with other data.
  module _ (own : List ℕ)
      (keeps : (e : Called E) (a : ℕ) (h : Host World Lua)
        → contains a own ≡ true
        → KeptOrReleased (h.state.query_data a) ((call e h).state.query_data a)) where
    -- A script that makes at most the call of onAborted of the data.
    record Aborting (v : IQueryData) (h : Host World Lua)
        (result : Option (List (Called E) × Host World Lua)) : Type 0 where
      calls : List (Called E)
      last : Host World Lua
      ran : result ≡ some (calls, last)
      mine : (calls ≡ []) ⊎ (((v.table_reference == 0) ≡ false) × (calls ≡ abort_call v ∷ []))
      kept : (a : ℕ) → contains a own ≡ true → Kept a h last

    -- Aborted data, once it was handled.
    record Handled (d : ℕ) (v : IQueryData) (h : Host World Lua)
        (r : Option (List (Called E) × Host World Lua)) : Type 0 where
      aborts : Aborting v h r
      own_released : Released d aborts.last

    record AllHandled (base : ℕ → IQueryData) (ds : List ℕ) (h : Host World Lua)
        (r : Option (List (Called E) × Host World Lua)) : Type 0 where
      calls : List (Called E)
      last : Host World Lua
      ran : r ≡ some (calls, last)
      mine : AbortCalls (map base ds) calls
      kept : (a : ℕ) → contains a own ≡ true → Kept a h last
      released : (a : ℕ) → contains a ds ≡ true → Released a last
