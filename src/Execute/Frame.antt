-- ===== src/Execute/Frame.antt =====
-- What running a query on the database thread leaves alone: a predicate that no write of
-- src/mysql/Query.cpp, PingQuery.cpp and PreparedQuery.cpp touches still holds afterwards.
pub mod Prepared
pub mod View
pub mod Delivery
use my_sqloo.Base.{
  arith, update, ◌∙◌, String, Bool-cases, Option-cases, inl, inr, ◌==◌, ℕ, zero, suc, ◌≡◌, refl,
  Bool, true, false, Option, none, some, List, [], ◌∷◌, if◌then◌else◌, not,
}
use mathlib.Core.Path.{fun_ext}
use my_sqloo.Client.{
  Client, Next, next_found, next_none, next_failed, fetched, fetch_failed, no_data, Fetch, Bind,
}
use my_sqloo.Connection.{attempt_reconnect, attempt_connection, reconnect_with, is_retriable_error}
use my_sqloo.Execute.Parameters.{generate_binds, no_binds}
use my_sqloo.Execute.Plain.{
  check, check_errno, stored_result, next_outcome, store_and_free, set_ping, mysql_query,
  mysql_store_results, mysql_next_result, store_round, store, store_results, query_loop,
  execute_query, execute_ping, sql_failure,
}
use my_sqloo.Execute.Prepared.{
  stmt_check, checked, finally_do, push_prepared, push_ids, store_next, execute_bound,
  stmt_next_outcome, store_prepared, mysql_stmt_next, result_loop, run_parameters, run_statement,
  closing, valid_cached, cache_for, mysql_stmt_init, new_statement, prepare_new, with_statement,
  after_error, execute_prepared,
}
use my_sqloo.IQuery.{set_query}
use my_sqloo.Objects.{
  IQueryData, IQuery, Entry, QueryStatus, Parameters, ResultData, ResultDataRow, State,
}
use my_sqloo.Outcome.{
  Action, Exception, Outcome, ok, throw, sql_error, std_error, out_of_fuel, pure, raise, catch,
  modify, again, Outcome-cases, ◌>>=◌, ◌>>◌,
}
use my_sqloo.Preserve.{Preserves, Preserves->>=, Preserves-catch, Preserves-if, Preserves-again}
use my_sqloo.QueryData.{set_data, push_result, empty_result}
use my_sqloo.ResultData.{
  call, stmt_failure, from_result, from_statement, fetch_bound_rows, row_outcome, add_row,
  bind_outcome, bound_rows, add_columns,
}
use my_sqloo.Statements.{cache_statement, free_statement}

-- The predicate survives the writes that executing a query makes.
pub record IsStable {World : Type 0} (P : State World → Type 0) : Type 0 where
  pub world : (w : World) (s : State World) → P s → P (record s { world = w })
  pub value :
      (d : ℕ) (v : IQueryData) (s : State World)
      → v.status ≡ (s.query_data d).status
      → v.finished ≡ (s.query_data d).finished
      → P s
      → P (set_data d v s)
  pub query : (q : ℕ) (v : IQuery) (s : State World) → P s → P (set_query q v s)
  pub handle :
      (sql : Option ℕ) (s : State World)
      → P s
      → P (let db = s.db in record s { db = record db { sql = sql } })
  pub cached : (o : Option ℕ) (s : State World) → P s → P (cache_statement o s).1
  pub freed : (o : Option ℕ) (s : State World) → P s → P (free_statement o s)

module _ (C : Client) where
  open C use {World, Res}

  module _ (P : State World → Type 0) (st : IsStable P) where
    pub call-Preserves : {A : Type 0} (f : World → A × World) → Preserves P (call C f)
    call-Preserves f s p = st.world (f s.world).1 s p

    pub if_keeps : (b : Bool) (x y : State World) → P x → P y → P (if b then x else y)
    if_keeps true x y hx hy = hx
    if_keeps false x y hx hy = hy

    -- A call whose result is passed to a continuation.
    pub then-Preserves :
        {A B : Type 0} (f : World → A × World) (g : A → Action (State World) B)
        → ((a : A) → Preserves P (g a))
        → Preserves P (call C f >>= g)
    then-Preserves f g hg = Preserves->>= P (call C f) g (call-Preserves f) hg

    -- Two parts in a row.
    pub both-Preserves :
        {B : Type 0} (m : Action (State World) (Unit {0})) (k : Action (State World) B)
        → Preserves P m
        → Preserves P k
        → Preserves P (m >> k)
    both-Preserves m k hm hk = Preserves->>= P m (λ _. k) hm (λ _. hk)

    pub check-Preserves : (sql : ℕ) (failed : Bool) → Preserves P (check C sql failed)
    unfolding check
    check-Preserves sql true s p = p
    check-Preserves sql false s p = p

    pub check_errno-Preserves : {A : Type 0} (sql : ℕ) (a : A) → Preserves P (check_errno C sql a)
    unfolding check_errno
    check_errno-Preserves sql a s p = elim (Bool-cases (C.errno sql s.world == 0)) [
      | inl e ↦ rw e p
      | inr e ↦ rw e p
    ]

    pub stored_result-Preserves : (sql : ℕ) (r : Option Res) → Preserves P (stored_result C sql r)
    unfolding stored_result
    stored_result-Preserves sql none = check_errno-Preserves sql none
    stored_result-Preserves sql (some res) = λ s p. p

    pub next_outcome-Preserves : (sql : ℕ) (n : Next) → Preserves P (next_outcome C sql n)
    unfolding next_outcome
    next_outcome-Preserves sql next_found = λ s p. p
    next_outcome-Preserves sql next_none = λ s p. p
    next_outcome-Preserves sql next_failed = check_errno-Preserves sql false

    pub store-keeps : (sql d : ℕ) (r : ResultData) (s : State World) → P s → P (store C sql d r s)
    unfolding store push_result
    store-keeps sql d r s p = st.value d _ s refl refl p

    pub store_and_free-keeps :
        (sql d : ℕ) (res : Res) (r : ResultData) (s : State World)
        → P s
        → P (store_and_free C sql d res r s)
    unfolding store_and_free
    store_and_free-keeps sql d res r s p =
        st.world (C.free_result res (store C sql d r s).world) (store C sql d r s)
          (store-keeps sql d r s p)

    pub store_results-Preserves :
        (fuel sql d : ℕ) (r : Option Res) → Preserves P (store_results C fuel sql d r)
    unfolding store_results
    store_results-Preserves fuel sql d none = λ s p. store-keeps sql d empty_result s p
    store_results-Preserves fuel sql d (some res) = λ s p.
        elim (Option-cases (from_result C fuel res)) [
          | inl e ↦ rw (e, store_results) p
          | inr (r, e) ↦ rw (e, store_results) (store_and_free-keeps sql d res r s p)
        ]

    pub store_round-Preserves : (fuel sql d : ℕ) → Preserves P (store_round C fuel sql d)
    unfolding store_round mysql_store_results
    store_round-Preserves fuel sql d =
        Preserves->>= P (mysql_store_results C sql) (store_results C fuel sql d)
          (then-Preserves (C.store_result sql) (stored_result C sql) (stored_result-Preserves sql))
          (store_results-Preserves fuel sql d)

    pub query_loop-Preserves :
        (rounds fuel sql d : ℕ) → Preserves P (query_loop C rounds fuel sql d)
    unfolding query_loop mysql_next_result
    query_loop-Preserves zero fuel sql d = λ s p. p
    query_loop-Preserves (suc rounds) fuel sql d =
        let loop = query_loop C rounds fuel sql d in
        let next = mysql_next_result C sql in
        both-Preserves (store_round C fuel sql d) (next >>= again loop)
          (store_round-Preserves fuel sql d)
          (Preserves->>= P next (again loop)
            (then-Preserves (C.next_result sql) (next_outcome C sql) (next_outcome-Preserves sql))
            (λ more. Preserves-again P loop more (query_loop-Preserves rounds fuel sql d)))

    pub execute_query-Preserves :
        (fuel sql query d : ℕ) → Preserves P (execute_query C fuel sql query d)
    unfolding execute_query mysql_query
    execute_query-Preserves fuel sql query d s =
        both-Preserves (mysql_query C sql (s.queries query).sql) (query_loop C fuel fuel sql d)
          (then-Preserves (C.real_query sql (s.queries query).sql) (check C sql)
            (check-Preserves sql))
          (query_loop-Preserves fuel fuel sql d) s

    pub reconnect_with-keeps : (new : ℕ) (s : State World) → P s → P (reconnect_with C new s).1
    unfolding reconnect_with
    reconnect_with-keeps new s p = elim (Bool-cases (attempt_connection C new s.db s.world).0) [
      | inl e ↦ rw e (st.world _ _ (st.handle (some new) s p))
      | inr e ↦ rw e (st.world _ s p)
    ]

    pub attempt_reconnect-keeps : (s : State World) → P s → P (attempt_reconnect C s).1
    unfolding attempt_reconnect
    attempt_reconnect-keeps s p = elim (Option-cases (C.init s.world).0) [
      | inl e ↦ rw (e, attempt_reconnect) (st.world (C.init s.world).1 s p)
      | inr (new, e) ↦
          rw (e, attempt_reconnect) (reconnect_with-keeps new _ (st.world (C.init s.world).1 s p))
    ]

    pub execute_ping-Preserves : (sql query : ℕ) → Preserves P (execute_ping C sql query)
    unfolding execute_ping
    execute_ping-Preserves sql query = λ s p.
        let pinged : State World = record s { world = (C.ping sql s.world).1 } in
        let pinged_p : P pinged = st.world (C.ping sql s.world).1 s p in
        elim (Bool-cases (C.ping sql s.world).0) [
          | inl e ↦ rw e (
              st.query query _ (attempt_reconnect C pinged).1
                (attempt_reconnect-keeps pinged pinged_p))
          | inr e ↦ rw e (st.query query _ pinged pinged_p)
        ]
