-- ===== src/Connection/Outcomes.antt =====
-- How the connection thread of src/mysql/Database.cpp can end.
use my_sqloo.Base.{
  ℕ, Bool, ap, sym, if◌then◌else◌, Option-cases, ◌≡◌, ◌≢◌, ◌∙◌, refl, true, false, Option, none,
  some, arith, Bool-cases, inl, inr,
}
use my_sqloo.Client.{Client}
use my_sqloo.Objects.{database_connected, State}
use my_sqloo.Settings.{is_connected}
use my_sqloo.Waiting.{abort_waiting_query, end_wait, set_can_wait}
use my_sqloo.Connection.{
  attempt_connection, connect_with, give_up_connection, open_connection, close_connection,
  end_thread, connect_run,
}

-- No thread waits for a query of the database, and none can start to.
pub record NoWait {World : Type 0} (s : State World) : Type 0 where
  pub cannot : s.db.can_wait ≡ false
  pub nobody : s.db.waiting_query ≡ none

module _ {World : Type 0} where
  -- Ending a wait touches neither the handle nor the status.
  pub record Ended (s s' : State World) : Type 0 where
    pub no_wait : NoWait s'
    pub same_sql : s'.db.sql ≡ s.db.sql
    pub same_world : s'.world ≡ s.world
    pub same_status : s'.db.status ≡ s.db.status

  end_wait-Ended :
      (o : Option (ℕ × ℕ)) (s : State World)
      → s.db.waiting_query ≡ o
      → s.db.can_wait ≡ false
      → Ended s (end_wait o s).0
  unfolding end_wait
  end_wait-Ended none s h c = record {
    no_wait = record { cannot = c; nobody = h };
    same_sql = refl;
    same_world = refl;
    same_status = refl;
  }
  end_wait-Ended (some (query, d)) s h c = record {
    no_wait = record { cannot = c; nobody = refl };
    same_sql = refl;
    same_world = refl;
    same_status = refl;
  }

  pub abort_waiting_query-Ended : (s : State World) → Ended s (abort_waiting_query s).0
  unfolding abort_waiting_query
  abort_waiting_query-Ended s =
      let e = end_wait-Ended s.db.waiting_query (set_can_wait false s) refl refl in
      record {
        no_wait = e.no_wait;
        same_sql = e.same_sql;
        same_world = e.same_world;
        same_status = e.same_status;
      }

module _ (C : Client) where
  open C use {World, init, close as mysql_close}

  -- The thread has nothing open and nobody waiting.
  record Quiet (s : State World) : Type 0 where
    pub no_wait : NoWait s
    pub no_sql : s.db.sql ≡ none

  -- Ending a wait while no handle is open.
  abort-Quiet : (s : State World) → s.db.sql ≡ none → Quiet (abort_waiting_query s).0
  abort-Quiet s h =
      let e = abort_waiting_query-Ended s in record { no_wait = e.no_wait; no_sql = e.same_sql ∙ h }

  close_connection-Quiet : (s : State World) → Quiet (close_connection C s)
  unfolding close_connection
  close_connection-Quiet s = abort-Quiet _ refl

  connect_with-Quiet :
      (sql : ℕ) (s : State World)
      → (connect_with C sql s).1 ≡ false
      → Quiet (connect_with C sql s).0
  unfolding connect_with give_up_connection
  connect_with-Quiet sql s h = elim (Bool-cases (attempt_connection C sql s.db s.world).0) [
    | inl connected ↦ absurd (ground arith)
    | inr refused ↦ rw refused (abort-Quiet _ refl)
  ]

  end_thread-Quiet : (s : State World) → Quiet s → Quiet (end_thread C s)
  unfolding end_thread
  end_thread-Quiet s q = record {
    no_wait = record { cannot = q.no_wait.cannot; nobody = q.no_wait.nobody };
    no_sql = q.no_sql;
  }

  end_thread-status :
      (s : State World)
      → ((end_thread C s).db.disconnected ≡ true)
        × ((end_thread C s).db.status ≢ database_connected)
  unfolding end_thread is_connected
  end_thread-status s = (refl, λ e. ground arith)

  -- The state in which `connectRun` attempts the connection.
  abbrev pub begun : State World → State World
  begun s =
      let db = s.db in
      record s { world = (init s.world).1; db = record db { sql = (init s.world).0 } }

  ended-Quiet :
      (run : State World → State World) (s : State World) (sql : ℕ)
      → (init s.world).0 ≡ some sql
      → Quiet (connect_run C run s)
  unfolding connect_run open_connection
  ended-Quiet run s sql h =
      rw (h, open_connection)
        (elim (Bool-cases (connect_with C sql (begun s)).1) [
          | inl connected ↦ rw connected (end_thread-Quiet _ (close_connection-Quiet _))
          | inr refused ↦ rw refused (end_thread-Quiet _ (connect_with-Quiet sql (begun s) refused))
        ])

  -- The handle is closed, if there is one.
  abbrev pub closed_handle : Option ℕ → World → World
  closed_handle none w = w
  closed_handle (some sql) w = mysql_close sql w

  close_connection-world :
      (s : State World) → (close_connection C s).world ≡ closed_handle s.db.sql s.world
  unfolding close_connection
  close_connection-world s = elim (Option-cases s.db.sql) [
    | inl e ↦ (abort_waiting_query-Ended _).same_world ∙ rw e refl
    | inr (sql, e) ↦ (abort_waiting_query-Ended _).same_world ∙ rw e refl
  ]

  refused-world :
      (sql : ℕ) (s : State World)
      → (connect_with C sql s).1 ≡ false
      → (connect_with C sql s).0.world ≡ mysql_close sql (attempt_connection C sql s.db s.world).1
  unfolding connect_with give_up_connection
  refused-world sql s h = elim (Bool-cases (attempt_connection C sql s.db s.world).0) [
    | inl connected ↦ absurd (ground arith)
    | inr refused ↦ rw refused (abort_waiting_query-Ended _).same_world
  ]

  opened :
      (s : State World) (sql : ℕ)
      → (init s.world).0 ≡ some sql
      → open_connection C s ≡ connect_with C sql (begun s)
  unfolding open_connection
  opened s sql h = ground (arith, h)

  -- What the thread leaves of the client library.
  ended_world :
      (run : State World → State World) (s : State World) (sql : ℕ)
      → (init s.world).0 ≡ some sql
      → let (s1, connected) = open_connection C s in
        (connect_run C run s).world ≡ (
          if connected
          then closed_handle (run s1).db.sql (run s1).world
          else mysql_close sql (attempt_connection C sql (begun s).db (begun s).world).1)
  unfolding connect_run end_thread
  ended_world run s sql h = elim (Bool-cases (open_connection C s).1) [
    | inl connected ↦ rw (connected) (close_connection-world (run (open_connection C s).0))
    | inr refused ↦
        let e = opened s sql h in
        rw (refused) (
          ap (λ (r : State World × Bool). r.0.world) e
          ∙ refused-world sql (begun s) (ap (λ (r : State World × Bool). r.1) (sym e) ∙ refused))
  ]

  -- If the client library could allocate a handle, then at the end of the thread, whatever the
  -- loop over the queue did: no thread waits for a query or can start to, the handle is null, the
  -- database counts as disconnected, and its status is not connected. The last thing that was done to the
  -- client library is mysql_close: of the handle that the loop left, if it left one, or of the new
  -- handle after the failed attempt to connect.
  pub connect_run_ends :
      (run : State World → State World) (s : State World) (sql : ℕ)
      → (init s.world).0 ≡ some sql
      → let s' = connect_run C run s in
        let (s1, connected) = open_connection C s in
        NoWait s'
        × (s'.db.sql ≡ none)
        × (s'.db.disconnected ≡ true)
        × (s'.db.status ≢ database_connected)
        × (s'.world ≡ (
            if connected
            then closed_handle (run s1).db.sql (run s1).world
            else mysql_close sql (attempt_connection C sql (begun s).db (begun s).world).1))
  unfolding connect_run
  connect_run_ends run s sql h =
      let q = ended-Quiet run s sql h in
      let (gone, status) = end_thread-status _ in
      (q.no_wait, q.no_sql, gone, status, ended_world run s sql h)
