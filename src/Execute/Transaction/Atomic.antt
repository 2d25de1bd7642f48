-- ===== src/Execute/Transaction/Atomic.antt =====
-- How a transaction of src/mysql/Transaction.cpp ends.
use my_sqloo.Base.{
  ℕ, ◌≡◌, ◌⊎◌, inl, inr, refl, subst, ◌∙◌, Bool, true, false, String, List, [], ◌∷◌, arith, ◌==◌,
  if◌then◌else◌, contains,
}
use my_sqloo.Client.{Client}
use my_sqloo.Execute.Transaction.{
  Queries, is_complete, is_running_status, reset_query, reset_queries, fail_query, fail_queries,
  complete_query, end_transaction, mysql_autocommit, mysql_commit, restore_autocommit,
  after_query_error, run_one, run_queries, attempt, undo, after_error, execute_transaction,
}
use my_sqloo.Objects.{
  query_running, query_complete, query_aborted, query_error, query_success, IQueryData, State,
}
use my_sqloo.Outcome.{Action, Exception, throw, sql_error, std_error, out_of_fuel, ◌>>◌}
use my_sqloo.Preserve.{Preserves, Preserves->>=, Preserves-catch, catch_thrown}
use my_sqloo.QueryData.{
  set_status, set_result_status, push_result, empty_result, clear_results,
  emplace_empty_result_data, clear_result_data,
}

abbrev pub data_of : Queries → List ℕ
data_of [] = []
data_of ((query, d) ∷ rest) = d ∷ data_of rest

-- No data stands twice in the transaction.
abbrev pub Distinct : List ℕ → Type 0
Distinct [] = Unit
Distinct (d ∷ ds) = (contains d ds ≡ false) × Distinct ds

-- What the handler makes of the data of one query.
pub failed_data : IQueryData → IQueryData
unfolding is_complete is_running_status push_result empty_result
failed_data v =
    if is_complete v.status
    then v
    else if is_running_status v.status
    then record (push_result empty_result 0 0 v) {
      status = query_aborted;
      result_status = query_error;
    }
    else record v { status = query_complete; result_status = query_error }

module _ {World : Type 0} where
  fail_query_lem :
      (d a : ℕ) (s : State World)
      → (fail_query d s).query_data a
        ≡ (if d == a then failed_data (s.query_data a) else s.query_data a)
  unfolding fail_query emplace_empty_result_data failed_data
  fail_query_lem d a s = ground arith

  fail_query-world : (d : ℕ) (s : State World) → (fail_query d s).world ≡ s.world
  unfolding fail_query emplace_empty_result_data
  fail_query-world d s = ground arith

  fail_queries_lem :
      (qs : Queries) (s : State World)
      → Distinct (data_of qs)
      → ((fail_queries qs s).world ≡ s.world)
        × ((a : ℕ)
            → (fail_queries qs s).query_data a
              ≡ (if contains a (data_of qs) then failed_data (s.query_data a) else s.query_data a))
  unfolding fail_queries
  fail_queries_lem [] s h = (refl, λ a. refl)
  fail_queries_lem ((query, d) ∷ rest) s (missing, distinct) =
      let (world, later) = fail_queries_lem rest (fail_query d s) distinct in
      (world ∙ fail_query-world d s, λ a. ground (arith, later a, fail_query_lem d a s))

-- While a transaction is attempted, the data of its queries is running or complete.
abbrev pub Live : IQueryData → Type 0
Live v = (v.status ≡ query_running) ⊎ (v.status ≡ query_complete)

-- What the handler makes of such data.
pub data Settled (before after : IQueryData) : Type 0 where
  kept : before.status ≡ query_complete → after ≡ before → Settled before after
  aborted :
      before.status ≡ query_running
      → after ≡ record (push_result empty_result 0 0 before) {
        status = query_aborted;
        result_status = query_error;
      }
      → Settled before after

Settled-failed_data : (v : IQueryData) → Live v → Settled v (failed_data v)
unfolding failed_data
Settled-failed_data v (inl running) = aborted running (rw running)
Settled-failed_data v (inr complete) = kept complete (rw complete)

module _ {World : Type 0} where
  abbrev pub AllLive : List ℕ → State World → Type 0
  AllLive ds s = (a : ℕ) → contains a ds ≡ true → Live (s.query_data a)

  reset_query-status :
      (d a : ℕ) (s : State World)
      → ((reset_query d s).query_data a).status
        ≡ (if d == a then query_running else (s.query_data a).status)
  unfolding reset_query clear_result_data clear_results
  reset_query-status d a s = ground arith

  reset_queries-status :
      (qs : Queries) (a : ℕ) (s : State World)
      → ((reset_queries qs s).query_data a).status
        ≡ (if contains a (data_of qs) then query_running else (s.query_data a).status)
  unfolding reset_queries
  reset_queries-status [] a s = refl
  reset_queries-status ((query, d) ∷ rest) a s =
      ground (arith, reset_queries-status rest a (reset_query d s), reset_query-status d a s)

  reset_queries-AllLive :
      (qs : Queries) (s : State World) → AllLive (data_of qs) (reset_queries qs s)
  reset_queries-AllLive qs s a h = inl (ground (arith, reset_queries-status qs a s))

-- A query of a transaction leaves every status alone.
abbrev pub KeepsStatus : {World : Type 0} → (ℕ → ℕ → Action (State World) (Unit {0})) → Type 0
KeepsStatus {World} run_query =
    (query d a : ℕ) (s : State World)
    → ((run_query query d s).1.query_data a).status ≡ (s.query_data a).status

module _ (C : Client) (sql : ℕ) where
  open C use {World, autocommit, commit, rollback}

  module _ (run_query : ℕ → ℕ → Action (State World) (Unit {0}))
      (keeps : KeepsStatus run_query) where
    run_query-AllLive : (ds : List ℕ) (query d : ℕ) → Preserves (AllLive ds) (run_query query d)
    run_query-AllLive ds query d s live a h = ground (arith, keeps query d a s, live a h)

    set_complete-AllLive :
        (ds : List ℕ) (d : ℕ) (s : State World)
        → AllLive ds s
        → AllLive ds (set_result_status query_success d (set_status query_complete d s))
    set_complete-AllLive ds d s live a h = ground (arith, live a h)

    after_query_error-AllLive :
        (ds : List ℕ) (d : ℕ) (e : Exception) → Preserves (AllLive ds) (after_query_error C sql d e)
    unfolding after_query_error
    after_query_error-AllLive ds d (sql_error code message) s live = λ a h. ground (arith, live a h)
    after_query_error-AllLive ds d (std_error message) s live = live
    after_query_error-AllLive ds d out_of_fuel s live = live

    run_one-AllLive :
        (ds : List ℕ) (query d : ℕ) → Preserves (AllLive ds) (run_one C sql run_query query d)
    unfolding run_one complete_query
    run_one-AllLive ds query d =
        Preserves-catch (AllLive ds) (run_query query d >> complete_query d)
          (after_query_error C sql d)
          (Preserves->>= (AllLive ds) (run_query query d) (λ _. complete_query d)
            (run_query-AllLive ds query d) (λ _. set_complete-AllLive ds d))
          (after_query_error-AllLive ds d)

    run_queries-AllLive :
        (ds : List ℕ) (qs : Queries) → Preserves (AllLive ds) (run_queries C sql run_query qs)
    unfolding run_queries
    run_queries-AllLive ds [] = λ s live. live
    run_queries-AllLive ds ((query, d) ∷ rest) =
        Preserves->>= (AllLive ds) (run_one C sql run_query query d)
          (λ _. run_queries C sql run_query rest) (run_one-AllLive ds query d)
          (λ _. run_queries-AllLive ds rest)

    -- A step that changes only the state of the client library.
    mysql_autocommit-AllLive :
        (ds : List ℕ) (mode : Bool) → Preserves (AllLive ds) (mysql_autocommit C sql mode)
    unfolding mysql_autocommit
    mysql_autocommit-AllLive ds mode s live = λ a h. ground (arith, live a h)

    mysql_commit-AllLive : (ds : List ℕ) → Preserves (AllLive ds) (mysql_commit C sql)
    unfolding mysql_commit
    mysql_commit-AllLive ds s live = λ a h. ground (arith, live a h)

    end_transaction-AllLive :
        (ds : List ℕ) (d : ℕ) → Preserves (AllLive ds) (end_transaction C sql d)
    unfolding end_transaction restore_autocommit
    end_transaction-AllLive ds d s live = λ a h. ground (arith, live a h)

    -- However the attempt ends, the data of every query is running or complete.
    attempt-AllLive :
        (d : ℕ) (qs : Queries) (s : State World)
        → AllLive (data_of qs) (attempt C sql run_query d qs s).1
    unfolding attempt
    attempt-AllLive d qs s =
        let P = AllLive (data_of qs) in
        let last = λ (_ : Unit {0}). end_transaction C sql d in
        let third = λ (_ : Unit {0}). mysql_commit C sql >> end_transaction C sql d in
        let second = λ (_ : Unit {0}). run_queries C sql run_query qs >> third tt in
        Preserves->>= P (mysql_autocommit C sql false) second
          (mysql_autocommit-AllLive (data_of qs) false)
          (λ _.
            Preserves->>= P (run_queries C sql run_query qs) third
              (run_queries-AllLive (data_of qs) qs)
              (λ _.
                Preserves->>= P (mysql_commit C sql) last (mysql_commit-AllLive (data_of qs))
                  (λ _. end_transaction-AllLive (data_of qs) d)))
          (reset_queries qs s) (reset_queries-AllLive qs s)

    undo_lem :
        (d : ℕ) (qs : Queries) (t : State World)
        → Distinct (data_of qs)
        → contains d (data_of qs) ≡ false
        → AllLive (data_of qs) t
        → ((undo C sql d qs t).world ≡ (autocommit sql true (rollback sql t.world)).1)
          × (((undo C sql d qs t).query_data d).result_status ≡ query_error)
          × ((a : ℕ)
              → contains a (data_of qs) ≡ true
              → Settled (t.query_data a) ((undo C sql d qs t).query_data a))
    unfolding undo restore_autocommit
    undo_lem d qs t distinct outside live =
        let failed = set_result_status query_error d t in
        let ready =
          restore_autocommit C sql (record failed { world = rollback sql failed.world }) in
        let (world, effect) = fail_queries_lem qs ready distinct in
        (
          world,
          ground (arith, effect d),
          λ a h.
              subst (Settled (t.query_data a)) (ground (arith, effect a))
                (Settled-failed_data (t.query_data a) (live a h)),
        )

    execute_transaction_failed :
        (d code : ℕ) (message : String) (s : State World)
        → let begun = set_status query_running d s in
          let qs = (begun.query_data d).queries in
          (attempt C sql run_query d qs begun).0 ≡ throw (sql_error code message)
          → execute_transaction C sql run_query d s ≡ (
            throw (sql_error code message),
            undo C sql d qs (attempt C sql run_query d qs begun).1,
          )
    unfolding execute_transaction after_error
    execute_transaction_failed d code message s failed =
        let begun = set_status query_running d s in
        let qs = (begun.query_data d).queries in
        catch_thrown (attempt C sql run_query d qs) (after_error C sql d qs)
          (sql_error code message) begun failed

    pub transaction_undone :
        (d code : ℕ) (message : String) (s : State World)
        → let begun = set_status query_running d s in
          let qs = (begun.query_data d).queries in
          Distinct (data_of qs)
          → contains d (data_of qs) ≡ false
          → (attempt C sql run_query d qs begun).0 ≡ throw (sql_error code message)
          → let t = (attempt C sql run_query d qs begun).1 in
            let (r, after) = execute_transaction C sql run_query d s in
            (r ≡ throw (sql_error code message))
            × (after.world ≡ (autocommit sql true (rollback sql t.world)).1)
            × ((after.query_data d).result_status ≡ query_error)
            × ((a : ℕ)
                → contains a (data_of qs) ≡ true
                → Settled (t.query_data a) (after.query_data a))
    transaction_undone d code message s distinct outside failed =
        let begun = set_status query_running d s in
        let qs = (begun.query_data d).queries in
        let t = (attempt C sql run_query d qs begun).1 in
        let (world, status, settled) =
          undo_lem d qs t distinct outside (attempt-AllLive d qs begun) in
        rw (execute_transaction_failed d code message s failed) (refl, world, status, settled)
