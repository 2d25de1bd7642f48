-- ===== src/LuaCallbacks/Kept.antt =====
-- What a callback may do to the references of data, and what finishing data does to those of other data,
-- src/mysql/IQuery.cpp and Transaction.cpp; which onAborted data has, src/lua/LuaIQuery.cpp.
use my_sqloo.Base.{
  ℕ, ◌⊎◌, Bool, false, String, ◌&&◌, if◌then◌else◌, ◌≡◌, ◌∙◌, refl, subst, true, not, List, [], ◌∷◌,
  arith, ◌==◌, Bool-cases, inl, inr,
}
use my_sqloo.Callbacks.{Callback, at_reference, at_field, no_callback, push_callback_reference}
use my_sqloo.Objects.{IQueryData, State}
use my_sqloo.References.{finish_lua_data, finish_lua_all}
use my_sqloo.References.Freed.{
  Cleared, SameReferences, finish_lua_data_lem, finish_lua_data-Cleared_self,
}

-- The references of the data are as they were, or were given back.
abbrev pub KeptOrReleased : IQueryData → IQueryData → Type 0
KeptOrReleased v w = SameReferences v w ⊎ Cleared w

Cleared-SameReferences : (v w : IQueryData) → SameReferences v w → Cleared v → Cleared w
Cleared-SameReferences v w s c = record {
  table = s.table ∙ c.table;
  on_data = s.on_data ∙ c.on_data;
  on_error = s.on_error ∙ c.on_error;
  on_aborted = s.on_aborted ∙ c.on_aborted;
  on_success = s.on_success ∙ c.on_success;
}

pub KeptOrReleased-Cleared : (v w : IQueryData) → KeptOrReleased v w → Cleared v → Cleared w
KeptOrReleased-Cleared v w (inl s) c = Cleared-SameReferences v w s c
KeptOrReleased-Cleared v w (inr c') c = c'

pub KeptOrReleased-trans :
    (u v w : IQueryData) → KeptOrReleased u v → KeptOrReleased v w → KeptOrReleased u w
KeptOrReleased-trans u v w p (inr c) = inr c
KeptOrReleased-trans u v w (inr c) (inl s) = inr (Cleared-SameReferences v w s c)
KeptOrReleased-trans u v w (inl r) (inl s) = inl (record {
  table = s.table ∙ r.table;
  on_data = s.on_data ∙ r.on_data;
  on_error = s.on_error ∙ r.on_error;
  on_aborted = s.on_aborted ∙ r.on_aborted;
  on_success = s.on_success ∙ r.on_success;
  first = s.first ∙ r.first;
})

-- The callback onAborted of the data.
abbrev pub aborted_callback : IQueryData → Callback
aborted_callback v =
    if v.abort_reference == 0
    then at_field v.table_reference "onAborted"
    else at_reference v.abort_reference

pub found_cases :
    {Lua : Type 0} (is_function : ℕ → String → Lua → Bool) (v : IQueryData) (lua : Lua)
    → let c =
        push_callback_reference is_function v.abort_reference v.table_reference "onAborted"
          v.was_first_data lua in
      (c ≡ no_callback) ⊎ (c ≡ aborted_callback v)
unfolding push_callback_reference
found_cases is_function v lua =
    found_by (v.abort_reference == 0) (v.was_first_data && not (v.table_reference == 0))
      (is_function v.table_reference "onAborted" lua) v
  where
    found_by :
        (none_set consulted found : Bool) (v : IQueryData)
        → let c =
            if not none_set
            then at_reference v.abort_reference
            else if consulted
            then if found then at_field v.table_reference "onAborted" else no_callback
            else no_callback in
          (c ≡ no_callback)
          ⊎ (c ≡ (
              if none_set
              then at_field v.table_reference "onAborted"
              else at_reference v.abort_reference))
    found_by false consulted found v = inr refl
    found_by true false found v = inl refl
    found_by true true false v = inl refl
    found_by true true true v = inr refl

module _ {Lua World : Type 0} (free : ℕ → Lua → Lua) where
  pub finish_one-Kept :
      (query d a : ℕ) (v : IQueryData) (s : State World) (lua : Lua)
      → KeptOrReleased v (s.query_data a)
      → KeptOrReleased v ((finish_lua_data free query d (s, lua)).0.query_data a)
  finish_one-Kept query d a v s lua k = elim (Bool-cases (d == a)) [
    | inl e ↦
        let same : d ≡ a = ground (arith, e) in
        inr (
          subst (λ b. Cleared ((finish_lua_data free query d (s, lua)).0.query_data b)) same
            (finish_lua_data-Cleared_self free query d s lua))
    | inr e ↦ rw (finish_lua_data_lem free query d a s lua, e) k
  ]

  pub finish_all-Kept :
      (qs : List (ℕ × ℕ)) (a : ℕ) (v : IQueryData) (x : State World × Lua)
      → KeptOrReleased v (x.0.query_data a)
      → KeptOrReleased v ((finish_lua_all free qs x).0.query_data a)
  unfolding finish_lua_all
  finish_all-Kept [] a v x k = k
  finish_all-Kept ((query, d) ∷ rest) a v (s, lua) k =
      finish_all-Kept rest a v (finish_lua_data free query d (s, lua))
        (finish_one-Kept query d a v s lua k)
