-- ===== src/Execute/Parameters/Binds.antt =====
-- The binds of a prepared query are its parameters in order, src/mysql/PreparedQuery.cpp.
use my_sqloo.Base.{
  ℕ, zero, suc, ◌+◌, ◌-◌, ◌^◌, ◌<◌, ◌≡◌, ◌∙◌, refl, ap, sym, Bool, false, Option, none, some, List,
  [], ◌∷◌, ◌==◌, leb, if◌then◌else◌, length, get_elem?, arith, Bool-cases, inl, inr,
}
use my_sqloo.Client.{Client, Bind, bind_reset, bind_null}
use my_sqloo.Execute.Parameters.{
  find, assign, bind_of, write_bind, field_position, generate_bind, generate_from, generate_binds,
}
use my_sqloo.Objects.{FieldValue, PreparedQueryField, Parameters}
use my_sqloo.Outcome.{ok}

-- What is bound for a parameter: NULL if it was never set.
abbrev pub bound : Option PreparedQueryField → Bind
bound none = bind_null
bound (some field) = bind_of field.value

-- Each field stands under its own index.
abbrev pub Matches : Parameters → Type 0
Matches map = (i : ℕ) (field : PreparedQueryField) → find i map ≡ some field → field.index ≡ i

pub find-assign :
    (i j : ℕ) (field : PreparedQueryField) (map : Parameters)
    → find j (assign i field map) ≡ (if i == j then some field else find j map)
unfolding find assign
find-assign i j field [] = ground arith
find-assign i j field ((k, old) ∷ rest) = ground (arith, find-assign i j field rest)

abbrev index_of : Option PreparedQueryField → ℕ
index_of none = 0
index_of (some field) = field.index

pub assign-Matches :
    (i : ℕ) (value : FieldValue) (map : Parameters)
    → Matches map
    → Matches (assign i (record { index = i; value = value }) map)
assign-Matches i value map match' j field e =
    let new' : PreparedQueryField = record { index = i; value = value } in
    let found = find-assign i j new' map in
    let choose = λ (b : Bool). if b then some new' else find j map in
    elim (Bool-cases (i == j)) [
      | inl same ↦
          let this : some new' ≡ some field = sym (ap choose same) ∙ sym found ∙ e in
          ground (arith, same, ap index_of this)
      | inr other ↦ match' j field (sym (ap choose other) ∙ sym found ∙ e)
    ]

length-write_bind :
    (i : ℕ) (b : Bind) (binds : List Bind) → length (write_bind i b binds) ≡ length binds
length-write_bind i b [] = refl
length-write_bind zero b (old ∷ rest) = refl
length-write_bind (suc i) b (old ∷ rest) = ap suc (length-write_bind i b rest)

get_elem?-write_bind :
    (i p : ℕ) (b : Bind) (binds : List Bind)
    → i < length binds
    → get_elem? (write_bind i b binds) p ≡ (if i == p then some b else get_elem? binds p)
get_elem?-write_bind i p b [] h = absurd (omega arith)
get_elem?-write_bind zero zero b (old ∷ rest) h = refl
get_elem?-write_bind zero (suc p) b (old ∷ rest) h = ground arith
get_elem?-write_bind (suc i) zero b (old ∷ rest) h = ground arith
get_elem?-write_bind (suc i) (suc p) b (old ∷ rest) h =
    ground (arith, get_elem?-write_bind i p b rest (omega arith))

field_position_lem :
    (field : PreparedQueryField) (k : ℕ)
    → field.index ≡ suc k
    → k < 2 ^ 32
    → field_position field ≡ k
unfolding field_position
field_position_lem field k e h = omega (arith, e)

module _ (C : Client) where
  generate_bind_lem :
      (count k : ℕ) (o : Option PreparedQueryField) (binds : List Bind)
      → count < 2 ^ 32
      → k < count
      → ((field : PreparedQueryField) → o ≡ some field → field.index ≡ suc k)
      → generate_bind C count (suc k) o binds
        ≡ ok (write_bind k (bound o) (write_bind k bind_reset binds))
  unfolding generate_bind
  generate_bind_lem count k none binds p q h =
      let same : suc k - 1 ≡ k = omega arith in rw same refl
  generate_bind_lem count k (some field) binds p q h =
      let same : suc k - 1 ≡ k = omega arith in
      let at' = field_position_lem field k (h field refl) (omega arith) in
      let fits : leb count k ≡ false = ground arith in rw (at', fits, same) refl

  -- The two writes of a round are one.
  written :
      (count k p : ℕ) (b : Bind) (binds : List Bind)
      → k < count
      → length binds ≡ count
      → get_elem? (write_bind k b (write_bind k bind_reset binds)) p
        ≡ (if k == p then some b else get_elem? binds p)
  written count k p b binds h e =
      let reset = length-write_bind k bind_reset binds in
      ground (
        arith,
        get_elem?-write_bind k p b (write_bind k bind_reset binds) (omega (arith, reset)),
        get_elem?-write_bind k p bind_reset binds (omega arith),
      )

  generate_from_lem :
      (n count k : ℕ) (map : Parameters) (binds : List Bind)
      → count < 2 ^ 32
      → k + n ≡ count
      → length binds ≡ count
      → Matches map
      → (r : List Bind) × (generate_from C n count (suc k) map binds ≡ ok r)
        × (length r ≡ count)
        × ((p : ℕ)
            → p < count
            → get_elem? r p
              ≡ (if leb k p then some (bound (find (suc p) map)) else get_elem? binds p))
  unfolding generate_from
  generate_from_lem zero count k map binds small e size match' =
      (binds, refl, size, λ p h. ground arith)
  generate_from_lem (suc n) count k map binds small e size match' =
      let next : suc k + 1 ≡ suc (suc k) = omega arith in
      let b = bound (find (suc k) map) in
      let binds' = write_bind k b (write_bind k bind_reset binds) in
      let round =
        generate_bind_lem count k (find (suc k) map) binds small (omega arith) (match' (suc k)) in
      let size' =
        length-write_bind k b (write_bind k bind_reset binds)
        ∙ length-write_bind k bind_reset binds
        ∙ size in
      let (r, e', size'', all) =
        generate_from_lem n count (suc k) map binds' small (omega arith) size' match' in
      (
        r,
        rw (generate_from, round, next) e',
        size'',
        λ p h.
            let here = written count k p b binds (omega arith) size in
            elim (Bool-cases (k == p)) [
              | inl e'' ↦
                  let same : suc k ≡ suc p = ground (arith, e'') in
                  ground (arith, all p h, here, e'', ap (λ i. bound (find i map)) same)
              | inr e'' ↦ ground (arith, all p h, here, e'')
            ],
      )

  -- Let each parameter stand under its own index, and let the statement have fewer than 2 ^ 32 - 1 of them.
  -- Then the generation of the binds does not throw, and the bind at each position is of the parameter
  -- with the next higher number, or NULL where that was never set. A parameter that is set once more
  -- replaces the earlier one under its index and no other, and still stands under its own index.
  pub generate_binds_lem :
      (count : ℕ) (map : Parameters) (binds : List Bind)
      → suc count < 2 ^ 32
      → length binds ≡ count
      → Matches map
      → ((r : List Bind) × (generate_binds C map count binds ≡ ok r)
          × (length r ≡ count)
          × ((p : ℕ) → p < count → get_elem? r p ≡ some (bound (find (suc p) map))))
        × ((i : ℕ) (value : FieldValue)
            → let map' = assign i (record { index = i; value = value }) map in
              Matches map'
              × (find i map' ≡ some (record { index = i; value = value }))
              × ((j : ℕ) → (i == j) ≡ false → find j map' ≡ find j map))
  unfolding generate_binds
  generate_binds_lem count map binds small size match' =
      let (r, e, size', all) =
        generate_from_lem count count 0 map binds (omega arith) (omega arith) size match' in
      (
        (r, e, size', λ p h. ground (arith, all p h)),
        λ i value.
            let new' : PreparedQueryField = record { index = i; value = value } in
            (
              assign-Matches i value map match',
              ground (arith, find-assign i i new' map),
              λ j h. ground (arith, find-assign i j new' map, h),
            ),
      )
