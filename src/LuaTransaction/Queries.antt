-- ===== src/LuaTransaction/Queries.antt =====
-- The queries of a transaction, src/lua/LuaTransaction.cpp: `addQuery`, `getQueries`, `clearQueries` and
-- `buildQueryData`. The field `__queries` of its table is the list of the queries, none for nil.
use mathlib.Core.List.{append_assoc, append-nil}
use my_sqloo.Base.{
  ℕ, ◌≡◌, ◌∙◌, refl, ap, sym, Bool, true, not, Option, none, some, List, [], ◌∷◌, ◌++◌, map, arith,
  ◌==◌, if◌then◌else◌, Bool-cases, inl, inr,
}
use my_sqloo.Creation.{build_transaction_data}
use my_sqloo.IQuery.{add_query_data}
use my_sqloo.Objects.{IQueryData, State}
use my_sqloo.Outcome.{Checked, done, thrown}

pub record LuaTransaction : Type 0 where
  pub queries : Option (List ℕ)
  pub added_query_data : List ℕ

unfoldable pub get_queries : LuaTransaction → List ℕ
get_queries t = elim t.queries [ none ↦ [] | some queries ↦ queries ]

unfoldable pub clear_queries : LuaTransaction → LuaTransaction
clear_queries t = record { queries = some []; added_query_data = [] }

-- The data `d` is what the query built. The flag says that both belong to the same database.
unfoldable pub add_query : Bool → ℕ → ℕ → LuaTransaction → Checked LuaTransaction
unfolding get_queries
add_query same_database query d t =
    if not same_database
    then thrown "[MySQLOO] Query was created by a different database than the transaction"
    else done (record {
      queries = some (get_queries t ++ (query ∷ []));
      added_query_data = t.added_query_data ++ (d ∷ []);
    })

module _ {World : Type 0} where
  -- The loop over the added data, which ends where the table has no further query.
  unfoldable pub build_pairs : List ℕ → List ℕ → State World → List (ℕ × ℕ) × State World
  build_pairs (query ∷ queries) (d ∷ ds) s =
      let (pairs, u) = build_pairs queries ds (add_query_data query d s) in ((query, d) ∷ pairs, u)
  build_pairs [] (d ∷ ds) s = ([], s)
  build_pairs queries [] s = ([], s)

  unfoldable pub build_lua_data : LuaTransaction → State World → IQueryData × State World
  unfolding build_pairs
  build_lua_data t s = elim t.queries [
    | none ↦ (build_transaction_data [], s)
    | some queries ↦
        let (pairs, u) = build_pairs queries t.added_query_data s in
        (build_transaction_data pairs, u)
  ]

-- Calls of `addQuery` with queries of the database.
abbrev pub add_all : List (ℕ × ℕ) → LuaTransaction → Checked LuaTransaction
add_all [] t = done t
add_all ((query, d) ∷ rest) t = elim (add_query true query d t) [
  | done t' ↦ add_all rest t'
  | thrown message ↦ thrown message
]

-- The data of the pairs that are about a query.
abbrev pub data_for : ℕ → List (ℕ × ℕ) → List ℕ
data_for q [] = []
data_for q ((query, d) ∷ rest) =
    let others = data_for q rest in if query == q then d ∷ others else others

abbrev pub queries_of : List (ℕ × ℕ) → List ℕ
queries_of pairs = map (λ p. p.0) pairs

abbrev data_of : List (ℕ × ℕ) → List ℕ
data_of pairs = map (λ p. p.1) pairs

add_all_lem :
    (pairs : List (ℕ × ℕ)) (queries ds : List ℕ)
    → add_all pairs (record { queries = some queries; added_query_data = ds })
      ≡ done (record {
        queries = some (queries ++ queries_of pairs);
        added_query_data = ds ++ data_of pairs;
      })
unfolding add_query
add_all_lem [] queries ds = λ i. done (record {
  queries = some (sym (append-nil queries) i);
  added_query_data = sym (append-nil ds) i;
})
add_all_lem ((query, d) ∷ rest) queries ds =
    add_all_lem rest (queries ++ (query ∷ [])) (ds ++ (d ∷ [])) ∙ (λ i. done (record {
      queries = some (append_assoc queries (query ∷ []) (queries_of rest) i);
      added_query_data = append_assoc ds (d ∷ []) (data_of rest) i;
    }))

module _ {World : Type 0} where
  abbrev running : ℕ → State World → List ℕ
  running q s = (s.queries q).running_query_data

  grown_lem :
      (query d q : ℕ) (s : State World)
      → (if query == q
          then record (s.queries query) { running_query_data = running query s ++ (d ∷ []) }
          else s.queries q).running_query_data
        ≡ (if query == q then running q s ++ (d ∷ []) else running q s)
  grown_lem query d q s = elim (Bool-cases (query == q)) [
    | inl e ↦
        let same : query ≡ q = ground (arith, e) in rw e (ap (λ a. running a s ++ (d ∷ [])) same)
    | inr e ↦ rw e refl
  ]

  running-add_query_data :
      (query d q : ℕ) (s : State World)
      → running q (add_query_data query d s)
        ≡ (if query == q then running q s ++ (d ∷ []) else running q s)
  unfolding add_query_data
  running-add_query_data query d q s = elim (Bool-cases (s.queries query).has_been_started) [
    | inl e ↦ rw (add_query_data, e) (grown_lem query d q s)
    | inr e ↦ rw (add_query_data, e) (grown_lem query d q s)
  ]

  build_pairs_lem :
      (pairs : List (ℕ × ℕ)) (s : State World)
      → let (built, u) = build_pairs (queries_of pairs) (data_of pairs) s in
        (built ≡ pairs) × ((q : ℕ) → running q u ≡ running q s ++ data_for q pairs)
  unfolding build_pairs
  build_pairs_lem [] s = (refl, λ q. sym (append-nil (running q s)))
  build_pairs_lem ((query, d) ∷ rest) s =
      let (same, grown) = build_pairs_lem rest (add_query_data query d s) in
      (
        ap (λ ps. (query, d) ∷ ps) same,
        λ q.
            let first = running-add_query_data query d q s in
            elim (Bool-cases (query == q)) [
              | inl e ↦
                  let here = ap (λ b. if b then running q s ++ (d ∷ []) else running q s) e in
                  rw e (
                    grown q
                    ∙ ap (λ xs. xs ++ data_for q rest) (first ∙ here)
                    ∙ append_assoc (running q s) (d ∷ []) (data_for q rest))
              | inr e ↦
                  let here = ap (λ b. if b then running q s ++ (d ∷ []) else running q s) e in
                  rw e (grown q ∙ ap (λ xs. xs ++ data_for q rest) (first ∙ here))
            ],
      )

  -- After `clearQueries` and calls of `addQuery` with queries of the database, the queries are those that
  -- were added, in order, the data of the transaction holds each of them with the data that was built for
  -- it, in order, and the running data of every query grows by its own data in that order and by no
  -- other.
  pub build_lua_data_lem :
      (t : LuaTransaction) (pairs : List (ℕ × ℕ)) (s : State World)
      → (t' : LuaTransaction) × (add_all pairs (clear_queries t) ≡ done t')
        × (get_queries t' ≡ queries_of pairs)
        × ((build_lua_data t' s).0.queries ≡ pairs)
        × ((q : ℕ)
            → ((build_lua_data t' s).1.queries q).running_query_data
              ≡ (s.queries q).running_query_data ++ data_for q pairs)
  unfolding clear_queries get_queries build_lua_data build_transaction_data
  build_lua_data_lem t pairs s =
      let (same, grown) = build_pairs_lem pairs s in
      (
        record { queries = some (queries_of pairs); added_query_data = data_of pairs },
        add_all_lem pairs [] [],
        refl,
        same,
        grown,
      )
