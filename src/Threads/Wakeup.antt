-- ===== src/Threads/Wakeup.antt =====
-- No wakeup is lost between the two threads of src/mysql/Database.cpp.
use my_sqloo.Base.{
  ℕ, ◌≡◌, ◌⊎◌, refl, ap, sym, subst, ◌∙◌, Bool, true, false, none, some, arith, ◌==◌, if◌then◌else◌,
  Bool-cases, Option-cases, inl, inr, is_some,
}
use my_sqloo.Client.{Client}
use my_sqloo.Connection.{open_connection}
use my_sqloo.Objects.{State, pair}
use my_sqloo.Queue.{put_finished}
use my_sqloo.Threads.{
  MainPc, awake, asleep, ThreadPc, opening, taking, running, ran, delivered, notifying, collecting,
  leaving, closing, ending, ended, System, notify, announce, set_queue, Step, calls, connects,
  returns, sleeps, wakes, sleeps_on, opens, takes, takes_pill, runs, delivers, finishes_round,
  notifies, collects, leaves, closes, ends, Reach, created, later,
}
use my_sqloo.Threads.Effects.{
  SameFlags, apply-SameFlags, wait-SameFlags, wait-registers, connect-flags, run_taken-SameWait,
  free_cached_statements-SameWait, free_unused_statements-SameWait, end_thread-SameWait,
  close_connection-EndsWait, finish_taken_lem, open_connection-Opens,
}
use my_sqloo.Threads.Invariant.{
  is_born, is_closed, is_notifying, Waits, Inv, SameWait, Waits-SameWait, EndsWait, Waits-EndsWait,
}
use my_sqloo.Worker.{finish_taken, is_waiting}

module _ {World : Type 0} where
  -- A step of the thread that nothing of a wait notices.
  quiet_step :
      (s : System World) (u : State World) (p : ThreadPc)
      → SameWait s.shared u
      → is_notifying s.thread ≡ false
      → is_born s.thread ≡ true
      → is_born p ≡ true
      → (is_closed p ≡ true → is_closed s.thread ≡ true)
      → Inv s
      → Inv (record s { shared = u; thread = p })
  quiet_step s u p same quiet born born' closed v = record {
    started = λ h. same.started ∙ v.started born;
    born = λ h. born';
    closed = λ h. same.can_wait ∙ v.closed (closed h);
    waits = Waits-SameWait s.main s.shared u s.thread p same quiet v.waits;
  }

  -- A step that ends a wait.
  ending_step :
      (s : System World) (u : State World)
      → EndsWait s.shared u
      → is_notifying s.thread ≡ false
      → is_born s.thread ≡ true
      → Inv s
      → Inv (record { shared = u; main = announce s.shared u s.main; thread = ending })
  ending_step s u over quiet born v = record {
    started = λ h. over.started ∙ v.started born;
    born = λ h. refl;
    closed = λ h. over.can_wait;
    waits = Waits-EndsWait s.main s.shared u s.thread ending over quiet v.waits;
  }

  -- The main thread is awake, before and after.
  awake_step :
      (s : System World) (u : State World)
      → SameFlags s.shared u
      → s.main ≡ awake
      → Inv s
      → Inv (record s { shared = u })
  awake_step s u same e v = record {
    started = λ h. same.started ∙ v.started h;
    born = λ h. v.born (sym same.can_wait ∙ h);
    closed = λ h. same.can_wait ∙ v.closed h;
    waits = rw e tt;
  }

  notify-Waits :
      (m : MainPc) (u : State World) (p p' : ThreadPc) → Waits m u p → Waits (notify m) u p'
  unfolding notify
  notify-Waits awake u p p' w = tt
  notify-Waits (asleep query d notified) u p p' w = (w.0, λ h k. cc)

  finish-Waits :
      (m : MainPc) (query d : ℕ) (u v : State World) (p : ThreadPc)
      → ((a : ℕ) → (v.query_data a).finished ≡ (if d == a then true else (u.query_data a).finished))
      → v.db.waiting_query
        ≡ (if is_waiting u.db.waiting_query query d then none else u.db.waiting_query)
      → v.db.can_wait ≡ u.db.can_wait
      → Waits m u p
      → Waits m v notifying
  unfolding is_waiting
  finish-Waits awake query d u v p f w c h = tt
  finish-Waits (asleep query' d' notified) query d u v p f w c h = (
    λ k.
        let still : (u.query_data d').finished ≡ false = ground (arith, f d', k) in
        let other : (d == d') ≡ false = ground (arith, f d', k) in
        let (registered, can_wait) = h.0 still in
        (ground (arith, w, registered, other), c ∙ can_wait),
    λ k l. refl,
  )

  announce-same :
      (u v : State World) (m : MainPc)
      → v.db.waiting_query ≡ u.db.waiting_query
      → announce u v m ≡ m
  unfolding announce
  announce-same u v m e = elim (Option-cases u.db.waiting_query) [
    | inl none' ↦ rw (none', announce) refl
    | inr (x, some') ↦ rw (e, some', announce) refl
  ]

module _ (C : Client) (fuel : ℕ) where
  open C use {World, init}

  module _ (handles : (w : World) → is_some (init w).0 ≡ true) where
    opened-Inv :
        (s : System World)
        → s.thread ≡ opening
        → Inv s
        → Inv (record {
          shared = (open_connection C s.shared).0;
          main = announce s.shared (open_connection C s.shared).0 s.main;
          thread = if (open_connection C s.shared).1 then taking else ending;
        })
    opened-Inv s e v =
        let u = (open_connection C s.shared).0 in
        let outcome = open_connection-Opens C s.shared (handles s.shared.world) in
        elim (Bool-cases (open_connection C s.shared).1) [
          | inl yes' ↦
              let same = outcome.accepted yes' in
              rw (yes', announce-same s.shared u s.main same.waiting)
                (quiet_step s u taking same (ap is_notifying e) (ap is_born e) refl (λ k. cc) v)
          | inr no' ↦
              rw no' (ending_step s u (outcome.refused no') (ap is_notifying e) (ap is_born e) v)
        ]

    Step-Inv : {s t : System World} → Step C fuel s t → Inv s → Inv t
    Step-Inv {s} (calls c e) v = awake_step s _ (apply-SameFlags c s.shared) e v
    Step-Inv {s} (connects db e h) v =
        let (_, started, can_wait) = connect-flags s.shared.db db h in
        record { started = λ k. started; born = λ k. refl; closed = λ k. cc; waits = tt }
    Step-Inv {s} (returns query {u} e h) v =
        awake_step s u (wait-SameFlags query false false s.shared u h) e v
    Step-Inv {s} (sleeps query d {u} e last h) v =
        let same = wait-SameFlags query false true s.shared u h in
        let (still, registered, can_wait) = wait-registers query d false s.shared u last h in
        record {
          started = λ k. same.started ∙ v.started k;
          born = λ k. v.born (sym same.can_wait ∙ k);
          closed = λ k. same.can_wait ∙ v.closed k;
          waits = (λ k. (registered, can_wait), λ k l. cc);
        }
    Step-Inv {s} (wakes query d notified e h) v = record {
      started = v.started;
      born = v.born;
      closed = v.closed;
      waits = tt;
    }
    Step-Inv {s} (sleeps_on query d notified e h) v =
        let w : Waits (asleep query d notified) s.shared s.thread =
          subst (λ m. Waits m s.shared s.thread) e v.waits in
        record { started = v.started; born = v.born; closed = v.closed; waits = (w.0, λ k l. cc) }
    Step-Inv {s} (opens e) v = opened-Inv s e v
    Step-Inv {s} (takes query d {rest} e h) v =
        quiet_step s (set_queue rest s.shared) (running query d)
          (record { finished = λ a. refl; waiting = refl; can_wait = refl; started = refl })
          (ap is_notifying e) (ap is_born e) refl (λ k. cc) v
    Step-Inv {s} (takes_pill {rest} e h) v =
        quiet_step s (set_queue rest s.shared) leaving
          (record { finished = λ a. refl; waiting = refl; can_wait = refl; started = refl })
          (ap is_notifying e) (ap is_born e) refl (λ k. cc) v
    Step-Inv {s} (runs query d e) v =
        quiet_step s _ (ran query d) (run_taken-SameWait C fuel query d s.shared)
          (ap is_notifying e) (ap is_born e) refl (λ k. cc) v
    Step-Inv {s} (delivers query d e) v =
        quiet_step s (put_finished (pair query d) s.shared) (delivered query d)
          (record { finished = λ a. refl; waiting = refl; can_wait = refl; started = refl })
          (ap is_notifying e) (ap is_born e) refl (λ k. cc) v
    Step-Inv {s} (finishes_round query d e) v =
        let (f, w, c, st) = finish_taken_lem C fuel query d s.shared in
        record {
          started = λ h. st ∙ v.started (ap is_born e);
          born = λ h. refl;
          closed = λ h. cc;
          waits =
              finish-Waits s.main query d s.shared (finish_taken C fuel query d s.shared) s.thread f
                w c v.waits;
        }
    Step-Inv {s} (notifies e) v = record {
      started = λ h. v.started (ap is_born e);
      born = λ h. refl;
      closed = λ h. cc;
      waits = notify-Waits s.main s.shared s.thread collecting v.waits;
    }
    Step-Inv {s} (collects e) v =
        quiet_step s _ taking (free_unused_statements-SameWait C s.shared) (ap is_notifying e)
          (ap is_born e) refl (λ k. cc) v
    Step-Inv {s} (leaves e) v =
        quiet_step s _ closing (free_cached_statements-SameWait C s.shared) (ap is_notifying e)
          (ap is_born e) refl (λ k. cc) v
    Step-Inv {s} (closes e) v =
        ending_step s _ (close_connection-EndsWait C s.shared) (ap is_notifying e) (ap is_born e) v
    Step-Inv {s} (ends e) v =
        quiet_step s _ ended (end_thread-SameWait C s.shared) (ap is_notifying e) (ap is_born e)
          refl (λ k. ap is_closed e) v

    pub Reach-Inv : {s : System World} → Reach C fuel s → Inv s
    Reach-Inv (created s off fresh) = record {
      started = λ h. cc;
      born = λ h. cc;
      closed = λ h. cc;
      waits = tt;
    }
    Reach-Inv (later r st) = Step-Inv st (Reach-Inv r)

    -- Let `mysql_init` never fail. In every state that the two threads can reach from a database that
    -- was just created, a main thread that sleeps in `waitForQuery` is either registered for its
    -- query, with a database thread that has started and has not ended the waits yet, or its data is
    -- finished and it has been notified or is about to be.
    pub no_lost_wakeup :
        {s : System World}
        → Reach C fuel s
        → (query d : ℕ) (notified : Bool) → s.main ≡ asleep query d notified
        → (((s.shared.query_data d).finished ≡ false)
            × (s.shared.db.waiting_query ≡ some (query, d))
            × (is_born s.thread ≡ true)
            × (is_closed s.thread ≡ false))
          ⊎ (((s.shared.query_data d).finished ≡ true)
              × ((notified ≡ true) ⊎ (is_notifying s.thread ≡ true)))
    no_lost_wakeup {s} r query d notified e =
        let v = Reach-Inv r in
        let w : Waits (asleep query d notified) s.shared s.thread =
          subst (λ m. Waits m s.shared s.thread) e v.waits in
        elim (Bool-cases (s.shared.query_data d).finished) [
          | inl over ↦ inr (
            over,
            elim (Bool-cases notified) [ inl told ↦ inl told | inr quiet ↦ inr (w.1 over quiet) ],
          )
          | inr still ↦
              let (registered, can_wait) = w.0 still in
              inl (
                still,
                registered,
                v.born can_wait,
                elim (Bool-cases (is_closed s.thread)) [
                  | inl closed ↦ absurd (ground (arith, v.closed closed, can_wait))
                  | inr open' ↦ open'
                ],
              )
        ]
