-- ===== src/Execute/Ending/Plain.antt =====
-- `executeStatement` of src/mysql/Query.cpp ends.
use my_sqloo.Base.{
  ℕ, zero, suc, ◌≤◌, ◌<◌, ◌≡◌, ◌≢◌, refl, subst, Bool, true, false, Option, none, some, String,
  arith, ◌==◌, Bool-cases, Option-cases, inl, inr,
}
use my_sqloo.Client.{Client, Next, next_found, next_none, next_failed}
use my_sqloo.Execute.Ending.{FiniteText}
use my_sqloo.Execute.Plain.{
  check, check_errno, mysql_query, stored_result, mysql_store_results, next_outcome,
  mysql_next_result, store, store_and_free, store_results, store_round, query_loop, execute_query,
}
use my_sqloo.Objects.{State}
use my_sqloo.Outcome.{again, ◌>>=◌, ◌>>◌}
use my_sqloo.ResultData.{call, fetch_rows, from_result}
use my_sqloo.Total.{Total, Anything, Anywhere, Ends, Total->>=, Total-again, Total-weaken}

module _ (C : Client) where
  open C use {World}

  -- A call of the client library.
  pub call-Total :
      {A : Type 0} (P : State World → Type 0) (f : World → A × World) (Q : A → State World → Type 0)
      → ((s : State World) → P s → Q (f s.world).0 (record s { world = (f s.world).1 }))
      → Total P (call C f) Q
  call-Total P f Q h = record {
    fueled = λ s p k. cc;
    returned = λ s p a e.
        let same : (f s.world).0 ≡ a = cc in
        subst (λ b. Q b (record s { world = (f s.world).1 })) same (h s p);
  }

module _ (C : Client) (limit : ℕ) (finite : FiniteText C limit) where
  open C use {World, Res, fetch_row, num_fields, store_result, next_result, real_query}

  fetch_rows-some :
      (fuel : ℕ) (res : Res) (count : ℕ)
      → finite.rows res < fuel
      → fetch_rows C fuel res count ≢ none
  unfolding fetch_rows
  fetch_rows-some zero res count h = absurd (omega arith)
  fetch_rows-some (suc fuel) res count h = elim (Option-cases (fetch_row res)) [
    | inl e ↦ rw (e, fetch_rows) (λ k. cc)
    | inr ((row, rest), e) ↦
        let more =
          fetch_rows-some fuel rest count (omega (arith, finite.fetch_rows res rest row e)) in
        elim (Option-cases (fetch_rows C fuel rest count)) [
          | inl stop ↦ absurd (more stop)
          | inr (rows, found) ↦ rw (e, found, fetch_rows) (λ k. cc)
        ]
  ]

  from_result-some : (fuel : ℕ) (res : Res) → finite.rows res < fuel → from_result C fuel res ≢ none
  unfolding from_result
  from_result-some fuel res h = elim (Bool-cases (num_fields res == 0)) [
    | inl e ↦ rw (e, from_result) (λ k. cc)
    | inr e ↦
        let more = fetch_rows-some fuel res (num_fields res) h in
        elim (Option-cases (fetch_rows C fuel res (num_fields res))) [
          | inl stop ↦ absurd (more stop)
          | inr (rows, found) ↦ rw (e, found, from_result) (λ k. cc)
        ]
  ]

  module _ (sql : ℕ) where
    abbrev Left : ℕ → State World → Type 0
    Left n s = finite.sets sql s.world < n

    check-Total : (P : State World → Type 0) (failed : Bool) → Total P (check C sql failed) (λ u. P)
    unfolding check
    check-Total P true = record { fueled = λ s p k. cc; returned = λ s p a e. p }
    check-Total P false = record { fueled = λ s p k. cc; returned = λ s p a e. p }

    check_errno-Total :
        {A : Type 0} (P : State World → Type 0) (a : A)
        → Total P (check_errno C sql a) (λ b s. P s × (b ≡ a))
    unfolding check_errno
    check_errno-Total P a = record {
      fueled = λ s p. elim (Bool-cases (C.errno sql s.world == 0)) [
        | inl e ↦ rw e (λ k. cc)
        | inr e ↦ rw e (λ k. cc)
      ];
      returned = λ s p b. elim (Bool-cases (C.errno sql s.world == 0)) [
        | inl e ↦ rw e (λ k. (p, cc))
        | inr e ↦ rw e (λ k. absurd (cc))
      ];
    }

    -- The result that is stored has at most `limit` rows.
    abbrev Stored : ℕ → Option Res → State World → Type 0
    Stored n r s = Left n s × ((res : Res) → r ≡ some res → finite.rows res ≤ limit)

    stored_result-Total :
        (n : ℕ) (r : Option Res) → Total (Stored n r) (stored_result C sql r) (Stored n)
    unfolding stored_result
    stored_result-Total n none =
        Total-weaken (Left n) (Stored n none) (check_errno C sql none)
          (λ b s. Left n s × (b ≡ none)) (Stored n) (λ s p. p.0)
          (λ b s p. (p.0, λ res e. absurd (cc))) (check_errno-Total (Left n) none)
    stored_result-Total n (some res) = record {
      fueled = λ s p k. cc;
      returned = λ s p a e. (p.0, λ res' e'. p.1 res' (cc));
    }

    mysql_store_results-Total : (n : ℕ) → Total (Left n) (mysql_store_results C sql) (Stored n)
    unfolding mysql_store_results
    mysql_store_results-Total n =
        Total->>= (Left n) (call C (store_result sql)) (Stored n) (stored_result C sql) (Stored n)
          (call-Total C (Left n) (store_result sql) (Stored n)
            (λ s p. (omega (arith, finite.store_sets sql s.world), finite.stored_rows sql s.world)))
          (stored_result-Total n)

    store_results-Total :
        (fuel d n : ℕ) (r : Option Res)
        → limit < fuel
        → Total (Stored n r) (store_results C fuel sql d r) (λ u. Left n)
    unfolding store_results store store_and_free
    store_results-Total fuel d n none h = record { fueled = λ s p k. cc; returned = λ s p a e. p.0 }
    store_results-Total fuel d n (some res) h = elim (Option-cases (from_result C fuel res)) [
      | inl stop ↦ record {
        fueled = λ s p. absurd (from_result-some fuel res (omega (arith, p.1 res refl)) stop);
        returned = λ s p. absurd (from_result-some fuel res (omega (arith, p.1 res refl)) stop);
      }
      | inr (result, found) ↦
          rw (found, store_results)
            (record {
              fueled = λ s p k. cc;
              returned = λ s p a e. omega (arith, finite.free_sets sql res s.world);
            })
    ]

    abbrev More : ℕ → Bool → State World → Type 0
    More n more s = more ≡ true → Left n s

    next_outcome-Total :
        (n : ℕ) (next : Next)
        → Total (λ s. next ≡ next_found → Left n s) (next_outcome C sql next) (More n)
    unfolding next_outcome
    next_outcome-Total n next_found = record {
      fueled = λ s p k. cc;
      returned = λ s p a e h. p refl;
    }
    next_outcome-Total n next_none = record { fueled = λ s p k. cc; returned = λ s p a e h. cc }
    next_outcome-Total n next_failed =
        Total-weaken Anywhere _ (check_errno C sql false) (λ b s. Unit × (b ≡ false)) (More n)
          (λ s p. tt) (λ b s p h. absurd (cc)) (check_errno-Total Anywhere false)

    mysql_next_result-Total : (n : ℕ) → Total (Left (suc n)) (mysql_next_result C sql) (More n)
    unfolding mysql_next_result
    mysql_next_result-Total n =
        Total->>= (Left (suc n)) (call C (next_result sql)) (λ next s. next ≡ next_found → Left n s)
          (next_outcome C sql) (More n)
          (call-Total C (Left (suc n)) (next_result sql) (λ next s. next ≡ next_found → Left n s)
            (λ s p e. omega (arith, finite.next_sets sql s.world e)))
          (next_outcome-Total n)

    query_loop-Total :
        (rounds fuel d : ℕ)
        → limit < fuel
        → Total (Left rounds) (query_loop C rounds fuel sql d) Anything
    unfolding query_loop store_round
    query_loop-Total zero fuel d h = record {
      fueled = λ s p. absurd (omega arith);
      returned = λ s p a e. tt;
    }
    query_loop-Total (suc rounds) fuel d h =
        let loop = query_loop C rounds fuel sql d in
        let rest = mysql_next_result C sql >>= again loop in
        Total->>= (Left (suc rounds)) (store_round C fuel sql d) (λ u. Left (suc rounds))
          (λ u. rest) Anything
          (Total->>= (Left (suc rounds)) (mysql_store_results C sql) (Stored (suc rounds))
            (store_results C fuel sql d) (λ u. Left (suc rounds))
            (mysql_store_results-Total (suc rounds))
            (λ r. store_results-Total fuel d (suc rounds) r h))
          (λ u.
            Total->>= (Left (suc rounds)) (mysql_next_result C sql) (More rounds) (again loop)
              Anything (mysql_next_result-Total rounds)
              (λ more.
                Total-again (Left rounds) loop (More rounds) more (λ s p. p refl)
                  (query_loop-Total rounds fuel d h)))

    mysql_query-Total :
        (fuel : ℕ) (text : String)
        → limit < fuel
        → Total Anywhere (mysql_query C sql text) (λ u. Left fuel)
    unfolding mysql_query
    mysql_query-Total fuel text h =
        Total->>= Anywhere (call C (real_query sql text)) (λ b. Left fuel) (check C sql)
          (λ u. Left fuel)
          (call-Total C Anywhere (real_query sql text) (λ b. Left fuel)
            (λ s p. omega (arith, finite.query_sets sql text s.world)))
          (check-Total (Left fuel))

    -- With more fuel than result sets and rows, a query ends: it returns or throws an error.
    pub execute_query-Ends :
        (fuel query d : ℕ) → limit < fuel → Ends (execute_query C fuel sql query d)
    unfolding execute_query
    execute_query-Ends fuel query d h = record {
      fueled = λ s p. (ends (s.queries query).sql).fueled s p;
      returned = λ s p a e. tt;
    }
      where
        ends : (text : String) → Ends (mysql_query C sql text >> query_loop C fuel fuel sql d)
        ends text =
            Total->>= Anywhere (mysql_query C sql text) (λ u. Left fuel)
              (λ u. query_loop C fuel fuel sql d) Anything (mysql_query-Total fuel text h)
              (λ u. query_loop-Total fuel fuel d h)
