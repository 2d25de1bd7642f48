-- ===== src/LuaDatabase/Hooks.antt =====
-- The think hook, `runAllThinkHooks` of src/lua/LuaDatabase.cpp. The state of the whole program is a parameter,
-- with the registry of Lua, the table `__weakDatabases` and what `think` of a database does.
use my_sqloo.Base.{ℕ, ◌≡◌, false, Option, none, some, List, [], ◌∷◌, ◌==◌, if◌then◌else◌, contains}
use my_sqloo.LuaTransaction.{Registry}

module _ {Table World : Type 0} (registry : Registry Table World) where
  open registry use {reference_create, reference_push, reference_free}

  -- The loop over the weak table: a reference to each of its keys.
  unfoldable pub reference_all : List Table → World → List ℕ × World
  reference_all [] w = ([], w)
  reference_all (table ∷ tables) w =
      let (ref, w1) = reference_create table w in
      let (refs, w2) = reference_all tables w1 in (ref ∷ refs, w2)

  module _ (think : Table → World → World) where
    -- The tables whose `think` ran, in order.
    unfoldable pub think_each : List ℕ → World → List Table × World
    think_each [] w = ([], w)
    think_each (ref ∷ refs) w =
        let table = reference_push ref w in
        let (tables, last) = think_each refs (think table (reference_free ref w)) in
        (table ∷ tables, last)

    unfoldable pub run_all_think_hooks : (World → Option (List Table)) → World → List Table × World
    run_all_think_hooks weak_databases w = elim (weak_databases w) [
      | none ↦ ([], w)
      | some tables ↦ let (refs, w') = reference_all tables w in think_each refs w'
    ]

-- What Lua documents of its registry: what stands at each reference.
pub record Slots {Table World : Type 0} (registry : Registry Table World) : Type 0 where
  pub slot : ℕ → World → Option Table
  pub fresh : (t : Table) (w : World) → slot (registry.reference_create t w).0 w ≡ none
  pub created :
      (t : Table) (w : World) (r : ℕ)
      → slot r (registry.reference_create t w).1
        ≡ (if (registry.reference_create t w).0 == r then some t else slot r w)
  pub freed :
      (x : ℕ) (w : World) (r : ℕ)
      → slot r (registry.reference_free x w) ≡ (if x == r then none else slot r w)
  pub pushed : (r : ℕ) (t : Table) (w : World) → slot r w ≡ some t → registry.reference_push r w ≡ t

module _ {Table World : Type 0} (registry : Registry Table World) (slots : Slots registry) where
  open registry use {reference_create, reference_push, reference_free}
  open slots use {slot, fresh, created, freed, pushed}

  -- The references are distinct, and the tables stand at them.
  Held : List ℕ → List Table → World → Type 0
  Held [] [] w = Unit
  Held [] (t ∷ ts) w = ⊥
  Held (r ∷ rs) [] w = ⊥
  Held (r ∷ rs) (t ∷ ts) w = (slot r w ≡ some t) × (contains r rs ≡ false) × Held rs ts w

  -- The references that the hook creates.
  abbrev pub hook_references : (World → Option (List Table)) → World → List ℕ
  hook_references weak_databases w = elim (weak_databases w) as (λ _. List ℕ) [
    | none ↦ []
    | some tables ↦ (reference_all registry tables w).0
  ]
