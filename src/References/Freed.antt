-- ===== src/References/Freed.antt =====
-- The Lua references that query data holds before and after it is finished, src/mysql/IQuery.cpp and
-- Transaction.cpp.
use my_sqloo.Base.{
  ℕ, ◌≡◌, refl, ap, sym, subst, ◌∙◌, true, List, [], ◌∷◌, arith, ◌==◌, if◌then◌else◌, contains,
  Bool-cases, inl, inr,
}
use my_sqloo.IQuery.{finish_query_data}
use my_sqloo.Objects.{IQueryData, State}
use my_sqloo.References.{
  clear_references, free_if_set, free_references, finish_lua_data, finish_lua_all,
  finish_lua_transaction,
}

-- The data holds no reference.
pub record Cleared (v : IQueryData) : Type 0 where
  pub table : v.table_reference ≡ 0
  pub on_data : v.on_data_reference ≡ 0
  pub on_error : v.error_reference ≡ 0
  pub on_aborted : v.abort_reference ≡ 0
  pub on_success : v.success_reference ≡ 0

-- Nothing of the references of the data has changed.
pub record SameReferences (v w : IQueryData) : Type 0 where
  pub table : w.table_reference ≡ v.table_reference
  pub on_data : w.on_data_reference ≡ v.on_data_reference
  pub on_error : w.error_reference ≡ v.error_reference
  pub on_aborted : w.abort_reference ≡ v.abort_reference
  pub on_success : w.success_reference ≡ v.success_reference
  pub first : w.was_first_data ≡ v.was_first_data

pub SameReferences-refl : (v : IQueryData) → SameReferences v v
SameReferences-refl v = record {
  table = refl;
  on_data = refl;
  on_error = refl;
  on_aborted = refl;
  on_success = refl;
  first = refl;
}

clear_references-Cleared : (v : IQueryData) → Cleared (clear_references v)
unfolding clear_references
clear_references-Cleared v = record {
  table = refl;
  on_data = refl;
  on_error = refl;
  on_aborted = refl;
  on_success = refl;
}

abbrev pub data_of : List (ℕ × ℕ) → List ℕ
data_of [] = []
data_of ((query, d) ∷ rest) = d ∷ data_of rest

module _ {Lua : Type 0} (reference_free : ℕ → Lua → Lua) where
  free_references-Cleared :
      (v : IQueryData) (lua : Lua) → Cleared v → free_references reference_free v lua ≡ lua
  unfolding free_references free_if_set
  free_references-Cleared v lua c =
      rw (c.table, c.on_data, c.on_error, c.on_aborted, c.on_success) refl

module _ {World : Type 0} where
  abbrev pub AllCleared : List ℕ → State World → Type 0
  AllCleared ds s = (a : ℕ) → contains a ds ≡ true → Cleared (s.query_data a)

module _ {Lua World : Type 0} (reference_free : ℕ → Lua → Lua) where
  pub finish_lua_data_lem :
      (query d a : ℕ) (s : State World) (lua : Lua)
      → (finish_lua_data reference_free query d (s, lua)).0.query_data a
        ≡ (if d == a then clear_references (s.query_data a) else s.query_data a)
  unfolding finish_lua_data finish_query_data
  finish_lua_data_lem query d a s lua = ground arith

  -- Data that holds no reference, or is finished now, holds none afterwards.
  pub finish_lua_data-Cleared :
      (query d a : ℕ) (s : State World) (lua : Lua)
      → Cleared (s.query_data a)
      → Cleared ((finish_lua_data reference_free query d (s, lua)).0.query_data a)
  finish_lua_data-Cleared query d a s lua c = elim (Bool-cases (d == a)) [
    | inl e ↦
        rw (finish_lua_data_lem query d a s lua, e) (clear_references-Cleared (s.query_data a))
    | inr e ↦ rw (finish_lua_data_lem query d a s lua, e) c
  ]

  pub finish_lua_data-Cleared_self :
      (query d : ℕ) (s : State World) (lua : Lua)
      → Cleared ((finish_lua_data reference_free query d (s, lua)).0.query_data d)
  finish_lua_data-Cleared_self query d s lua =
      let same : (d == d) ≡ true = ground arith in
      rw (finish_lua_data_lem query d d s lua, same) (clear_references-Cleared (s.query_data d))

  finish_lua_data-idle :
      (query d : ℕ) (s : State World) (lua : Lua)
      → Cleared (s.query_data d)
      → (finish_lua_data reference_free query d (s, lua)).1 ≡ lua
  unfolding finish_lua_data finish_query_data
  finish_lua_data-idle query d s lua c =
      free_references-Cleared reference_free (s.query_data d) lua c

  pub finish_lua_all-Cleared :
      (qs : List (ℕ × ℕ)) (a : ℕ) (x : State World × Lua)
      → Cleared (x.0.query_data a)
      → Cleared ((finish_lua_all reference_free qs x).0.query_data a)
  unfolding finish_lua_all
  finish_lua_all-Cleared [] a x c = c
  finish_lua_all-Cleared ((query, d) ∷ rest) a (s, lua) c =
      finish_lua_all-Cleared rest a (finish_lua_data reference_free query d (s, lua))
        (finish_lua_data-Cleared query d a s lua c)

  finish_lua_all-AllCleared :
      (qs : List (ℕ × ℕ)) (x : State World × Lua)
      → AllCleared (data_of qs) (finish_lua_all reference_free qs x).0
  unfolding finish_lua_all
  finish_lua_all-AllCleared [] x a h = absurd (ground (arith, h))
  finish_lua_all-AllCleared ((query, d) ∷ rest) (s, lua) a h =
      let y = finish_lua_data reference_free query d (s, lua) in
      elim (Bool-cases (contains a (data_of rest))) [
        | inl e ↦ finish_lua_all-AllCleared rest y a e
        | inr e ↦
            let here : d ≡ a = ground (arith, h, e) in
            finish_lua_all-Cleared rest a y
              (rw (sym here) (finish_lua_data-Cleared_self query d s lua))
      ]

  finish_lua_all-idle :
      (qs : List (ℕ × ℕ)) (s : State World) (lua : Lua)
      → AllCleared (data_of qs) s
      → (finish_lua_all reference_free qs (s, lua)).1 ≡ lua
  unfolding finish_lua_all
  finish_lua_all-idle [] s lua c = refl
  finish_lua_all-idle ((query, d) ∷ rest) s lua c =
      let (t, later) = finish_lua_data reference_free query d (s, lua) in
      finish_lua_all-idle rest t later
        (λ a h. finish_lua_data-Cleared query d a s lua (c a (ground (arith, h))))
      ∙ finish_lua_data-idle query d s lua (c d (ground arith))

  finish_lua_data-queries :
      (query d a : ℕ) (s : State World) (lua : Lua)
      → ((finish_lua_data reference_free query d (s, lua)).0.query_data a).queries
        ≡ (s.query_data a).queries
  unfolding clear_references
  finish_lua_data-queries query d a s lua = ground (arith, finish_lua_data_lem query d a s lua)

  finish_lua_all-queries :
      (qs : List (ℕ × ℕ)) (a : ℕ) (x : State World × Lua)
      → ((finish_lua_all reference_free qs x).0.query_data a).queries ≡ (x.0.query_data a).queries
  unfolding finish_lua_all
  finish_lua_all-queries [] a x = refl
  finish_lua_all-queries ((query, d) ∷ rest) a (s, lua) =
      finish_lua_all-queries rest a (finish_lua_data reference_free query d (s, lua))
      ∙ finish_lua_data-queries query d a s lua

  -- After the data of a transaction was finished, neither that data nor the data of its queries
  -- holds a reference, and finishing it again frees nothing.
  pub finish_lua_transaction_lem :
      (query d : ℕ) (s : State World) (lua : Lua)
      → let x = finish_lua_transaction reference_free query d (s, lua) in
        Cleared (x.0.query_data d)
        × AllCleared (data_of (s.query_data d).queries) x.0
        × ((finish_lua_transaction reference_free query d x).1 ≡ x.1)
  unfolding finish_lua_transaction
  finish_lua_transaction_lem query d s lua =
      let (s', lua') = finish_lua_data reference_free query d (s, lua) in
      let qs = (s'.query_data d).queries in
      let (t, last) = finish_lua_all reference_free qs (s', lua') in
      let own : Cleared (t.query_data d) =
        finish_lua_all-Cleared qs d (s', lua') (finish_lua_data-Cleared_self query d s lua) in
      let all : AllCleared (data_of qs) t = finish_lua_all-AllCleared qs (s', lua') in
      let (u, freed) = finish_lua_data reference_free query d (t, last) in
      let same : (u.query_data d).queries ≡ qs =
        finish_lua_data-queries query d d t last ∙ finish_lua_all-queries qs d (s', lua') in
      (
        own,
        subst (λ r. AllCleared (data_of r) t) (finish_lua_data-queries query d d s lua) all,
        finish_lua_all-idle (u.query_data d).queries u freed (λ a h.
              finish_lua_data-Cleared query d a t last
                (all a (ap (λ r. contains a (data_of r)) (sym same) ∙ h)))
            ∙ finish_lua_data-idle query d t last own,
      )
