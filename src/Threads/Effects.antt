-- ===== src/Threads/Effects.antt =====
-- What the steps of the two threads of src/mysql/Database.cpp do to what a wait reads.
use my_sqloo.Base.{
  ℕ, ◌≡◌, refl, ap, sym, subst, ◌∙◌, Bool, true, false, none, some, List, [], ◌∷◌, arith, ◌==◌,
  if◌then◌else◌, Bool-cases, Option-cases, inl, inr, is_some, get_last?,
}
use my_sqloo.Client.{Client}
use my_sqloo.Connection.{
  open_connection, connect_with, give_up_connection, accept_connection, attempt_connection,
  close_connection, end_thread,
}
use my_sqloo.Execute.Frame.Delivery.{Delivery}
use my_sqloo.IQuery.{add_query_data, abort_one, wait, swap_query}
use my_sqloo.Objects.{State, Database, pair, Entry, pill}
use my_sqloo.Outcome.{done}
use my_sqloo.Queue.{mark_aborted}
use my_sqloo.Settings.{connect}
use my_sqloo.Statements.{free_unused_statements, free_cached_statements}
use my_sqloo.Threads.{
  Call, registers, enqueues, marks_waiting, swaps, removes, drops_finished, aborts_all,
  takes_finished, finishes, shuts_down, apply,
}
use my_sqloo.Threads.Invariant.{SameWait, EndsWait}
use my_sqloo.Waiting.{abort_waiting_query, end_wait, fail_waiting_query, wait_for_query}
use my_sqloo.Worker.{run_taken, finish_taken, is_waiting}
use my_sqloo.Worker.Frame.{run_taken-delivery, free_cached_statements-delivery}

-- The two flags of the database that calls of the main thread leave alone.
pub record SameFlags {World : Type 0} (u u' : State World) : Type 0 where
  pub can_wait : u'.db.can_wait ≡ u.db.can_wait
  pub started : u'.db.started_connecting ≡ u.db.started_connecting

pub connect-flags :
    (db db' : Database)
    → connect db ≡ done db'
    → (db.started_connecting ≡ false) × (db'.started_connecting ≡ true) × (db'.can_wait ≡ true)
unfolding connect
connect-flags db db' h = ground arith

module _ {World : Type 0} where
  mark_aborted-db : (es : List Entry) (u : State World) → (mark_aborted es u).db ≡ u.db
  unfolding mark_aborted
  mark_aborted-db [] u = refl
  mark_aborted-db (pill ∷ es) u = mark_aborted-db es u
  mark_aborted-db (pair query d ∷ es) u = mark_aborted-db es _

  abort_one-SameFlags : (d : ℕ) (u : State World) → SameFlags u (abort_one d u).0
  unfolding abort_one
  abort_one-SameFlags d u = record { can_wait = ground arith; started = ground arith }

  pub apply-SameFlags : (c : Call) (u : State World) → SameFlags u (apply c u)
  unfolding apply add_query_data swap_query
  apply-SameFlags (registers query d) u = record { can_wait = ground arith; started = ground arith }
  apply-SameFlags (enqueues query d) u = record { can_wait = refl; started = refl }
  apply-SameFlags (marks_waiting query d) u = record { can_wait = refl; started = refl }
  apply-SameFlags (swaps d) u = record { can_wait = refl; started = refl }
  apply-SameFlags (removes d) u = abort_one-SameFlags d u
  apply-SameFlags (drops_finished d) u = record { can_wait = refl; started = refl }
  apply-SameFlags aborts_all u =
      let db = u.db in
      let e = mark_aborted-db db.query_queue (record u { db = record db { query_queue = [] } }) in
      record {
        can_wait = ap (λ (d : Database). d.can_wait) e;
        started = ap (λ (d : Database). d.started_connecting) e;
      }
  apply-SameFlags takes_finished u = record { can_wait = refl; started = refl }
  apply-SameFlags (finishes query d) u = record { can_wait = refl; started = refl }
  apply-SameFlags shuts_down u = record { can_wait = refl; started = refl }

  unfoldable pub swap_if : Bool → ℕ → State World → State World
  swap_if swap d u = if swap then swap_query d u else u

  pub swap_if-SameFlags : (swap : Bool) (d : ℕ) (u : State World) → SameFlags u (swap_if swap d u)
  unfolding swap_if swap_query
  swap_if-SameFlags true d u = record { can_wait = refl; started = refl }
  swap_if-SameFlags false d u = record { can_wait = refl; started = refl }

  wait_for_query-SameFlags :
      (query d : ℕ) (u : State World) → SameFlags u (wait_for_query query d u).0
  unfolding wait_for_query fail_waiting_query
  wait_for_query-SameFlags query d u = record { can_wait = ground arith; started = ground arith }

  wait_for_query-registers :
      (query d : ℕ) (u : State World)
      → (wait_for_query query d u).1 ≡ true
      → (((wait_for_query query d u).0.query_data d).finished ≡ false)
        × ((wait_for_query query d u).0.db.waiting_query ≡ some (query, d))
        × ((wait_for_query query d u).0.db.can_wait ≡ true)
  unfolding wait_for_query
  wait_for_query-registers query d u h = ground arith

  -- A `wait` that returns or sleeps is a call of `waitForQuery` on the last data of the query.
  pub wait-calls :
      (query : ℕ) (swap : Bool) (u : State World) {v : State World × Bool}
      → wait query swap u ≡ done v
      → (d : ℕ) × (get_last? (u.queries query).running_query_data ≡ some d)
        × (wait_for_query query d (swap_if swap d u) ≡ v)
  unfolding wait swap_if
  wait-calls query swap u h = elim (Option-cases (get_last? (u.queries query).running_query_data)) [
    | inl e ↦ cc (rw (e, wait) at h)
    | inr (d, e) ↦ (d, e, cc (rw (e, wait) at h))
  ]

  pub wait-SameFlags :
      (query : ℕ) (swap b : Bool) (u v : State World)
      → wait query swap u ≡ done (v, b)
      → SameFlags u v
  wait-SameFlags query swap b u v h =
      let (d, last, e) = wait-calls query swap u h in
      let swapped = swap_if-SameFlags swap d u in
      let waited = wait_for_query-SameFlags query d (swap_if swap d u) in
      let same : (wait_for_query query d (swap_if swap d u)).0 ≡ v =
        ap (λ (x : State World × Bool). x.0) e in
      subst (SameFlags u) same (record {
        can_wait = waited.can_wait ∙ swapped.can_wait;
        started = waited.started ∙ swapped.started;
      })

  -- A `wait` that sleeps.
  pub wait-registers :
      (query d : ℕ) (swap : Bool) (u v : State World)
      → get_last? (u.queries query).running_query_data ≡ some d
      → wait query swap u ≡ done (v, true)
      → ((v.query_data d).finished ≡ false)
        × (v.db.waiting_query ≡ some (query, d))
        × (v.db.can_wait ≡ true)
  wait-registers query d swap u v last h =
      let (d', last', e) = wait-calls query swap u h in
      let same : d' ≡ d = cc in
      let call = λ (a : ℕ). wait_for_query query a (swap_if swap a u) in
      let e' : call d ≡ (v, true) = ap call (sym same) ∙ e in
      subst
        (λ (x : State World × Bool).
          ((x.0.query_data d).finished ≡ false)
          × (x.0.db.waiting_query ≡ some (query, d))
          × (x.0.db.can_wait ≡ true))
        e'
        (wait_for_query-registers query d (swap_if swap d u)
          (ap (λ (x : State World × Bool). x.1) e'))

  pub abort_waiting_query-EndsWait : (u : State World) → EndsWait u (abort_waiting_query u).0
  unfolding abort_waiting_query end_wait
  abort_waiting_query-EndsWait u = elim (Option-cases u.db.waiting_query) [
    | inl e ↦
        rw (e, end_wait)
          (record {
            finished = λ a. ground (arith, e);
            waiting = ground (arith, e);
            can_wait = refl;
            started = refl;
          })
    | inr (x, e) ↦
        rw (e, end_wait)
          (record {
            finished = λ a. ground (arith, e);
            waiting = refl;
            can_wait = refl;
            started = refl;
          })
  ]

module _ (C : Client) where
  open C use {World, init}

  pub run_taken-SameWait :
      (fuel query d : ℕ) (u : State World) → SameWait u (run_taken C fuel query d u)
  run_taken-SameWait fuel query d u =
      let e = run_taken-delivery C fuel query d u in
      record {
        finished = λ a. ap (λ (v : Delivery). v.finished a) e;
        waiting = ap (λ (v : Delivery). v.waiting_query) e;
        can_wait = ap (λ (v : Delivery). v.can_wait) e;
        started = ap (λ (v : Delivery). v.started_connecting) e;
      }

  pub free_cached_statements-SameWait : (u : State World) → SameWait u (free_cached_statements C u)
  free_cached_statements-SameWait u =
      let e = free_cached_statements-delivery C u in
      record {
        finished = λ a. ap (λ (v : Delivery). v.finished a) e;
        waiting = ap (λ (v : Delivery). v.waiting_query) e;
        can_wait = ap (λ (v : Delivery). v.can_wait) e;
        started = ap (λ (v : Delivery). v.started_connecting) e;
      }

  pub free_unused_statements-SameWait : (u : State World) → SameWait u (free_unused_statements C u)
  unfolding free_unused_statements
  free_unused_statements-SameWait u = record {
    finished = λ a. refl;
    waiting = refl;
    can_wait = refl;
    started = refl;
  }

  pub end_thread-SameWait : (u : State World) → SameWait u (end_thread C u)
  unfolding end_thread
  end_thread-SameWait u = record {
    finished = λ a. refl;
    waiting = refl;
    can_wait = refl;
    started = refl;
  }

  pub close_connection-EndsWait : (u : State World) → EndsWait u (close_connection C u)
  unfolding close_connection
  close_connection-EndsWait u =
      let ends = abort_waiting_query-EndsWait _ in
      record {
        finished = ends.finished;
        waiting = ends.waiting;
        can_wait = ends.can_wait;
        started = ends.started;
      }

  -- The round that ends: the data is finished, and a wait for this query is over.
  pub finish_taken_lem :
      (fuel query d : ℕ) (u : State World)
      → let v = finish_taken C fuel query d u in
        ((a : ℕ) → (v.query_data a).finished ≡ (if d == a then true else (u.query_data a).finished))
        × (v.db.waiting_query
            ≡ (if is_waiting u.db.waiting_query query d then none else u.db.waiting_query))
        × (v.db.can_wait ≡ u.db.can_wait)
        × (v.db.started_connecting ≡ u.db.started_connecting)
  unfolding finish_taken
  finish_taken_lem fuel query d u = elim (Bool-cases (is_waiting u.db.waiting_query query d)) [
    | inl e ↦ rw (e, finish_taken) (λ a. ground arith, refl, refl, refl)
    | inr e ↦ rw (e, finish_taken) (λ a. ground arith, refl, refl, refl)
  ]

  give_up_connection-EndsWait :
      (sql : ℕ) (u : State World) → EndsWait u (give_up_connection C sql u)
  unfolding give_up_connection
  give_up_connection-EndsWait sql u =
      let ends = abort_waiting_query-EndsWait _ in
      record {
        finished = ends.finished;
        waiting = ends.waiting;
        can_wait = ends.can_wait;
        started = ends.started;
      }

  -- A connection that is refused ends a wait; one that is accepted leaves it.
  pub record Opens (u : State World) (r : State World × Bool) : Type 0 where
    pub refused : r.1 ≡ false → EndsWait u r.0
    pub accepted : r.1 ≡ true → SameWait u r.0

  connect_with-Opens : (sql : ℕ) (u : State World) → Opens u (connect_with C sql u)
  unfolding connect_with accept_connection
  connect_with-Opens sql u =
      let (connected, w) = attempt_connection C sql u.db u.world in
      elim (Bool-cases (attempt_connection C sql u.db u.world).0) [
        | inl e ↦
            rw (e, connect_with)
              (record {
                refused = λ h. absurd (ground (arith, h));
                accepted = λ h. record {
                  finished = λ a. refl;
                  waiting = refl;
                  can_wait = refl;
                  started = refl;
                };
              })
        | inr e ↦
            rw (e, connect_with)
              (record {
                refused = λ h.
                    let ends = give_up_connection-EndsWait sql (record u { world = w }) in
                    record {
                      finished = ends.finished;
                      waiting = ends.waiting;
                      can_wait = ends.can_wait;
                      started = ends.started;
                    };
                accepted = λ h. absurd (ground (arith, h));
              })
      ]

  pub open_connection-Opens :
      (u : State World) → is_some (init u.world).0 ≡ true → Opens u (open_connection C u)
  unfolding open_connection
  open_connection-Opens u h = elim (Option-cases (init u.world).0) [
    | inl e ↦ absurd (ground (arith, h, e))
    | inr (sql, e) ↦
        let db = u.db in
        let u' = record u { world = (init u.world).1; db = record db { sql = (init u.world).0 } } in
        let opens = connect_with-Opens sql u' in
        rw (e, open_connection)
          (record {
            refused = λ h.
                let ends = opens.refused h in
                record {
                  finished = ends.finished;
                  waiting = ends.waiting;
                  can_wait = ends.can_wait;
                  started = ends.started;
                };
            accepted = λ h.
                let same = opens.accepted h in
                record {
                  finished = same.finished;
                  waiting = same.waiting;
                  can_wait = same.can_wait;
                  started = same.started;
                };
          })
  ]
