-- ===== src/LuaTransaction/Results.antt =====
-- The table of results that the success callback of a transaction gets, src/lua/LuaTransaction.cpp.
use Prim.Native.Nat.{bit_and}
use my_sqloo.Base.{
  Bool-cases, Option-cases, inl, inr, ℕ, ◌≡◌, ◌∙◌, refl, ap, sym, not, Option, none, some, List, [],
  ◌∷◌, arith, ◌==◌, is_some,
}
use my_sqloo.Client.{Bytes}
use my_sqloo.IQuery.{set_callback_data, has_option}
use my_sqloo.LuaData.{
  FieldTypes, DataTable, contents, contents_with, set_data_reference, create_data_reference,
  free_data_reference,
}
use my_sqloo.LuaTransaction.{Registry, result_tables}
use my_sqloo.Objects.{IQuery, IQueryData, State}

abbrev pub first_of : {A B : Type 0} → Option (A × B) → Option A
first_of none = none
first_of (some (a, b)) = some a

abbrev pub prepend : {A : Type 0} → Option A → Option (List A) → Option (List A)
prepend none rest = none
prepend (some a) none = none
prepend (some a) (some rest) = some (a ∷ rest)

first_of-cons :
    {A B : Type 0} (a : A) (o : Option (List A × B))
    → first_of
        (elim o as (λ _. Option (List A × B)) [ none ↦ none | some (rest, b) ↦ some (a ∷ rest, b) ])
      ≡ prepend (some a) (first_of o)
first_of-cons a none = refl
first_of-cons a (some (rest, b)) = refl

module _ {Number : Type 0} (types : FieldTypes) (atof : Bytes → Number)
    (of_unsigned : ℕ → Number) where
  pub contents-same :
      (q q' : IQuery) (v : IQueryData)
      → q.options ≡ q'.options
      → is_some q.callback_query_data ≡ is_some q'.callback_query_data
      → contents types atof of_unsigned q v ≡ contents types atof of_unsigned q' v
  unfolding contents has_option
  contents-same q q' v e h =
      λ i. contents_with types atof of_unsigned (h i) (not (bit_and (e i) 1 == 0)) v

  abbrev pub for_callback : ℕ → IQuery → IQuery
  for_callback d q = record q { callback_query_data = some d }

  -- The tables that the queries of a transaction are to give: each from the data at its place.
  unfoldable pub expected :
      List (ℕ × ℕ)
      → (ℕ → IQuery)
      → (ℕ → IQueryData)
      → Option (List (DataTable types atof of_unsigned))
  expected [] queries data' = some []
  expected ((query, d) ∷ rest) queries data' =
      prepend (contents types atof of_unsigned (for_callback d (queries query)) (data' d))
        (expected rest queries data')

  expected-same :
      (entries : List (ℕ × ℕ)) (queries queries' : ℕ → IQuery) (data' : ℕ → IQueryData)
      → ((a : ℕ) → (queries a).options ≡ (queries' a).options)
      → expected entries queries data' ≡ expected entries queries' data'
  unfolding expected
  expected-same [] queries queries' data' h = refl
  expected-same ((query, d) ∷ rest) queries queries' data' h =
      let first =
        contents-same (for_callback d (queries query)) (for_callback d (queries' query)) (data' d)
          (h query) refl in
      let others = expected-same rest queries queries' data' h in λ i. prepend (first i) (others i)

  module _ {World Lua : Type 0} (registry : Registry (DataTable types atof of_unsigned) Lua) where
    open registry use {reference_create, reference_push, reference_free}

    pub free_lem :
        (query : ℕ) (s : State World) (lua : Lua)
        → let u =
            (free_data_reference types atof of_unsigned reference_create reference_free query
              (s, lua)).0 in
          ((u.queries query).data_reference ≡ 0)
          × ((a : ℕ) → (u.queries a).options ≡ (s.queries a).options)
          × (u.query_data ≡ s.query_data)
    unfolding free_data_reference
    free_lem query s lua = elim (Bool-cases ((s.queries query).data_reference == 0)) [
      | inl e ↦ rw (free_data_reference, e) (ground (arith, e), λ a. refl, refl)
      | inr e ↦ rw (free_data_reference, e) (ground arith, λ a. ground arith, refl)
    ]

    kept_option :
        (query ref : ℕ) (s : State World) (a : ℕ)
        → ((set_data_reference types atof of_unsigned reference_create reference_free query ref
              s).queries
            a).options
          ≡ (s.queries a).options
    kept_option query ref s a = ground arith

    pub called_lem :
        (query d : ℕ) (s : State World)
        → let u = set_callback_data query d s in
          ((u.queries query).data_reference ≡ (s.queries query).data_reference)
          × ((a : ℕ) → (u.queries a).options ≡ (s.queries a).options)
          × (u.query_data ≡ s.query_data)
          × ((u.queries query).callback_query_data ≡ some d)
    unfolding set_callback_data
    called_lem query d s = (ground arith, λ a. ground arith, refl, ground arith)

    -- A fresh reference to the table of the data.
    pub created_lem :
        (query d : ℕ) (s : State World) (lua : Lua) (t : DataTable types atof of_unsigned)
        → (s.queries query).data_reference ≡ 0
        → contents types atof of_unsigned (s.queries query) (s.query_data d) ≡ some t
        → create_data_reference types atof of_unsigned reference_create reference_free query d
            (s, lua)
          ≡ some (
            (reference_create t lua).0,
            (
              set_data_reference types atof of_unsigned reference_create reference_free query
                  (reference_create t lua).0
                  s,
              (reference_create t lua).1,
            ),
          )
    unfolding create_data_reference
    created_lem query d s lua t e h = rw (h, e) refl

    none_created :
        (query d : ℕ) (s : State World) (lua : Lua)
        → (s.queries query).data_reference ≡ 0
        → contents types atof of_unsigned (s.queries query) (s.query_data d) ≡ none
        → create_data_reference types atof of_unsigned reference_create reference_free query d
            (s, lua)
          ≡ none
    unfolding create_data_reference
    none_created query d s lua e h = rw (h, e) refl

    -- Let a reference that was just created push the table it was created for. Then the loop of the
    -- success callback gives, for each query of the transaction, the table of the data at its place, even
    -- where a query stands in the transaction several times; it fails only where such a table does.
    pub result_tables-expected :
        (push_create : (t : DataTable types atof of_unsigned) (lua : Lua)
          → reference_push (reference_create t lua).0 (reference_create t lua).1 ≡ t)
        (entries : List (ℕ × ℕ)) (s : State World) (lua : Lua)
        → first_of (result_tables types atof of_unsigned registry entries (s, lua))
          ≡ expected entries s.queries s.query_data
    unfolding result_tables expected
    result_tables-expected law [] s lua = refl
    result_tables-expected law ((query, d) ∷ rest) s lua =
        let (u, lua') =
          free_data_reference types atof of_unsigned reference_create reference_free query
            (s, lua) in
        let (clear, options, same) = free_lem query s lua in
        let s' = set_callback_data query d u in
        let (zero', options', same', called) = called_lem query d u in
        let agree : contents types atof of_unsigned (for_callback d (s.queries query))
              (s.query_data d)
            ≡ contents types atof of_unsigned (s'.queries query) (s'.query_data d) =
          contents-same (for_callback d (s.queries query)) (s'.queries query) (s.query_data d)
            (sym (options' query ∙ options query)) (ap is_some (sym called))
          ∙ ap (contents types atof of_unsigned (s'.queries query))
              (ap (λ f. f d) (sym (same' ∙ same))) in
        elim (Option-cases (contents types atof of_unsigned (s'.queries query) (s'.query_data d))) [
          | inl e ↦
              let created = none_created query d s' lua' (zero' ∙ clear) e in
              rw (result_tables, created, agree ∙ e) refl
          | inr (t, e) ↦
              let created = created_lem query d s' lua' t (zero' ∙ clear) e in
              let (ref, lua'') = reference_create t lua' in
              let s'' =
                set_data_reference types atof of_unsigned reference_create reference_free query ref
                  s' in
              let later = result_tables-expected law rest s'' lua'' in
              let kept =
                expected-same rest s''.queries s.queries s''.query_data
                  (λ a. kept_option query ref s' a ∙ options' a ∙ options a) in
              let others = later ∙ kept ∙ ap (expected rest s.queries) (same' ∙ same) in
              let given = sym (agree ∙ e) in
              let taken =
                first_of-cons (reference_push ref lua'')
                  (result_tables types atof of_unsigned registry rest (s'', lua'')) in
              rw (result_tables, created) taken
              ∙ (λ i. prepend (some (law t lua' i)) (others i))
              ∙ (λ i. prepend (given i) (expected rest s.queries s.query_data))
        ]
