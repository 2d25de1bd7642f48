-- ===== src/Threads/Ledger/Once.antt =====
-- Every query that is started is processed or aborted once, and every result is handed out once,
-- src/mysql/Database.cpp.
use my_sqloo.Base.{
  ℕ, subst, not, contains-count, ◌+◌, ◌≤◌, ◌≡◌, refl, ap, sym, ◌∙◌, Bool, true, false, some, List,
  [], ◌∷◌, ◌++◌, arith, if◌then◌else◌, count, count-append, contains, not_contains-count, is_some,
  some-injective,
}
use mathlib.Core.List.{append_assoc, append-nil}
use my_sqloo.BlockingQueue.{take, put, clear, remove_if, erase_if}
use my_sqloo.Client.{Client}
use my_sqloo.Connection.{open_connection}
use my_sqloo.IQuery.{abort_one, add_query_data, finish_query_data, swap_query, has_data}
use my_sqloo.IQuery.Abort.{data_of, abort_one_lem, abort_all_queries_lem}
use my_sqloo.Objects.{Entry, pill, pair, State}
use my_sqloo.Queue.{put_query, shutdown, take_finished_queries, abort_all_queries}
use my_sqloo.Threads.{
  Call, registers, enqueues, marks_waiting, swaps, removes, drops_finished, aborts_all,
  takes_finished, finishes, shuts_down, ThreadPc, unborn, opening, delivered, notifying, collecting,
  closing, ended, Reach, leaving, running, ran, taking, ending, System, apply, set_queue, Step,
  calls, connects, returns, sleeps, wakes, sleeps_on, opens, takes, takes_pill, runs, delivers,
  finishes_round, notifies, collects, leaves, closes, ends,
}
use my_sqloo.Threads.Effects.{connect-flags}
use my_sqloo.Threads.Invariant.{is_born, Inv}
use my_sqloo.Threads.Wakeup.{Reach-Inv}
use my_sqloo.Threads.Ledger.{
  Ledger, book_failed, book_call, FreshCall, book, Fresh, History, created, later, in_hand,
}
use my_sqloo.Threads.Ledger.Order.{
  Subsequence, nothing, Subsequence-trans, Subsequence-append, append-Subsequence,
  erase_if-Subsequence, count-kept, count-without,
}
use my_sqloo.Threads.Queues.{
  count-swap_to_front_if, queued, Emits, Emits-refl, connect-queues, wait-Emits, run_taken-Emits,
  free_cached_statements-Emits, free_unused_statements-Emits, end_thread-Emits, finish_taken-Emits,
  close_connection-Emits, open_connection-Emits, refused, waiting_entries, opening_entries,
}

count-data_of-append :
    (a : ℕ) (xs ys : List Entry)
    → count a (data_of (xs ++ ys)) ≡ count a (data_of xs) + count a (data_of ys)
count-data_of-append a [] ys = omega arith
count-data_of-append a (pill ∷ xs) ys = count-data_of-append a xs ys
count-data_of-append a (pair query d ∷ xs) ys = ground (arith, count-data_of-append a xs ys)

take-queued :
    (a : ℕ) (es rest : List Entry) (e : Entry)
    → take es ≡ some (e, rest)
    → count a (data_of es) ≡ count a (data_of (e ∷ rest))
unfolding take
take-queued a [] rest e h = absurd (ground (arith, h))
take-queued a (x ∷ xs) rest e h =
    let first : x ≡ e = ap (λ (p : Entry × List Entry). p.0) (some-injective h) in
    let others : xs ≡ rest = ap (λ (p : Entry × List Entry). p.1) (some-injective h) in
    λ i. count a (data_of (first i ∷ others i))

-- Where data is queued once at most, one round of `abort` lists it if it leaves the queue.
abort_one-counted :
    {World : Type 0} (d : ℕ) (u : State World) (a : ℕ)
    → queued a u ≤ 1
    → queued a (abort_one d u).0 + count a (if (abort_one d u).1 then d ∷ [] else []) ≡ queued a u
abort_one-counted d u a h =
    let one = abort_one_lem d u in
    let queue = u.db.query_queue in
    ground (
      arith,
      h,
      ap (λ q. count a (data_of q)) one.queue,
      one.flag,
      count-without d a queue,
      contains-count a (data_of queue),
      not_contains-count a (data_of queue),
    )

fresh-once :
    (a d : ℕ) (ds : List ℕ) → contains d ds ≡ false → count a ds ≤ 1 → count a (ds ++ (d ∷ [])) ≤ 1
fresh-once a d ds fresh once =
    ground (arith, fresh, once, count-append a ds (d ∷ []), not_contains-count a ds)

-- The book balances.
pub record Booked {World : Type 0} (s : System World) (l : Ledger) : Type 0 where
  pub once : (a : ℕ) → count a l.started ≤ 1
  pub balance :
      (a : ℕ)
      → count a l.started
        ≡ queued a s.shared + (in_hand a s.thread + (count a l.processed + count a l.aborted))
  pub results : (a : ℕ) → count a (data_of l.emitted) ≡ count a l.processed + count a l.failed
  pub order : Subsequence (l.taken ++ s.shared.db.finished_queries) l.emitted
  pub out :
      (a : ℕ)
      → count a (data_of l.emitted)
        ≡ count a (data_of l.taken)
          + (count a (data_of s.shared.db.finished_queries) + count a (data_of l.dropped))

module _ {World : Type 0} where
  -- A step that only puts entries into the queue of finished queries, which a wait failed.
  failed-Booked :
      (s t : System World) (es : List Entry) (l : Ledger)
      → Emits es s.shared t.shared
      → ((a : ℕ) → in_hand a t.thread ≡ in_hand a s.thread)
      → Booked s l
      → Booked t (book_failed es l)
  failed-Booked s t es l emits same b = record {
    once = b.once;
    balance = λ a. omega (arith, b.balance a, emits.queue a, same a);
    results = λ a. omega (
      arith,
      b.results a,
      count-data_of-append a l.emitted es,
      count-append a l.failed (data_of es),
    );
    order =
        subst (λ xs. Subsequence xs (l.emitted ++ es))
          (append_assoc l.taken s.shared.db.finished_queries es
            ∙ ap (λ q. l.taken ++ q) (sym emits.finished))
          (Subsequence-append es b.order);
    out = λ a. omega (
      arith,
      b.out a,
      count-data_of-append a l.emitted es,
      count-data_of-append a s.shared.db.finished_queries es,
      ap (λ q. count a (data_of q)) emits.finished,
    );
  }

  -- A step that leaves the queues and the data that the thread holds.
  quiet-Booked :
      (s t : System World) (l : Ledger)
      → Emits [] s.shared t.shared
      → ((a : ℕ) → in_hand a t.thread ≡ in_hand a s.thread)
      → Booked s l
      → Booked t l
  quiet-Booked s t l emits same b = record {
    once = b.once;
    balance = λ a. omega (arith, b.balance a, emits.queue a, same a);
    results = b.results;
    order =
        subst (λ q. Subsequence (l.taken ++ q) l.emitted)
          (sym (emits.finished ∙ append-nil s.shared.db.finished_queries)) b.order;
    out = λ a. omega (
      arith,
      b.out a,
      ap (λ q. count a (data_of q)) (emits.finished ∙ append-nil s.shared.db.finished_queries),
    );
  }

  -- A step that keeps the queue of finished queries, and the balance in a book that differs in other lists.
  same_finished-Booked :
      (u : State World) (s : System World) (l : Ledger) (started aborted : List ℕ)
      → Booked s l
      → ((a : ℕ) → count a started ≤ 1)
      → ((a : ℕ)
          → count a started
            ≡ queued a u + (in_hand a s.thread + (count a l.processed + count a aborted)))
      → u.db.finished_queries ≡ s.shared.db.finished_queries
      → Booked (record s { shared = u }) (record l { started = started; aborted = aborted })
  same_finished-Booked u s l started aborted b once balance same = record {
    once = once;
    balance = balance;
    results = b.results;
    order = subst (λ q. Subsequence (l.taken ++ q) l.emitted) (sym same) b.order;
    out = λ a. omega (arith, b.out a, ap (λ q. count a (data_of q)) same);
  }

  call-Booked :
      (c : Call) (s : System World) (l : Ledger)
      → FreshCall c l
      → Booked s l
      → Booked (record s { shared = apply c s.shared }) (book_call c s.shared l)
  unfolding apply abort_all_queries take_finished_queries shutdown finish_query_data put clear
      add_query_data swap_query remove_if
  call-Booked (registers query d) s l fresh b =
      same_finished-Booked (add_query_data query d s.shared) s l l.started l.aborted b b.once
        (λ a. ground (arith, b.balance a)) (ground arith)
  call-Booked (enqueues query d) s l fresh b =
      same_finished-Booked (put_query (pair query d) s.shared) s l (l.started ++ (d ∷ [])) l.aborted
        b (λ a. fresh-once a d l.started fresh (b.once a))
        (λ a. omega (
          arith,
          b.balance a,
          count-append a l.started (d ∷ []),
          count-data_of-append a s.shared.db.query_queue (pair query d ∷ []),
        ))
        refl
  call-Booked (marks_waiting query d) s l fresh b = record {
    once = b.once;
    balance = b.balance;
    results = b.results;
    order = b.order;
    out = b.out;
  }
  call-Booked (swaps d) s l fresh b =
      same_finished-Booked (swap_query d s.shared) s l l.started l.aborted b b.once
        (λ a.
          omega (arith, b.balance a, count-swap_to_front_if a (has_data d) s.shared.db.query_queue))
        refl
  call-Booked (removes d) s l fresh b =
      let one = abort_one_lem d s.shared in
      same_finished-Booked (abort_one d s.shared).0 s l l.started
        (l.aborted ++ (if (abort_one d s.shared).1 then d ∷ [] else [])) b b.once
        (λ a.
          let once : queued a s.shared ≤ 1 = omega (arith, b.balance a, b.once a) in
          omega (
            arith,
            b.balance a,
            count-append a l.aborted (if (abort_one d s.shared).1 then d ∷ [] else []),
            abort_one-counted d s.shared a once,
          ))
        one.finished
  call-Booked (drops_finished d) s l fresh b =
      let finished = s.shared.db.finished_queries in
      let dropped = erase_if (λ e. not (has_data d e)) finished in
      record {
        once = b.once;
        balance = b.balance;
        results = b.results;
        order =
            Subsequence-trans b.order
              (append-Subsequence l.taken (erase_if-Subsequence (has_data d) finished));
        out = λ a. omega (
          arith,
          b.out a,
          count-kept (has_data d) a finished,
          count-data_of-append a l.dropped dropped,
        );
      }
  call-Booked aborts_all s l fresh b =
      let (_, queue, finished, _, _) = abort_all_queries_lem s.shared in
      same_finished-Booked (abort_all_queries s.shared).1 s l l.started
        (l.aborted ++ data_of s.shared.db.query_queue) b b.once
        (λ a. omega (
          arith,
          b.balance a,
          count-append a l.aborted (data_of s.shared.db.query_queue),
          ap (λ es. count a (data_of es)) queue,
        ))
        finished
  call-Booked takes_finished s l fresh b =
      let finished = s.shared.db.finished_queries in
      record {
        once = b.once;
        balance = b.balance;
        results = b.results;
        order =
            subst (λ xs. Subsequence xs l.emitted) (sym (append-nil (l.taken ++ finished))) b.order;
        out = λ a. omega (arith, b.out a, count-data_of-append a l.taken finished);
      }
  call-Booked (finishes query d) s l fresh b = record {
    once = b.once;
    balance = b.balance;
    results = b.results;
    order = b.order;
    out = b.out;
  }
  call-Booked shuts_down s l fresh b =
      same_finished-Booked (shutdown s.shared) s l l.started l.aborted b b.once
        (λ a.
          omega (arith, b.balance a, count-data_of-append a s.shared.db.query_queue (pill ∷ [])))
        refl

unborn-in_hand : (p : ThreadPc) (a : ℕ) → is_born p ≡ false → in_hand a p ≡ 0
unborn-in_hand unborn a h = refl
unborn-in_hand opening a h = refl
unborn-in_hand taking a h = refl
unborn-in_hand (running query d) a h = cc
unborn-in_hand (ran query d) a h = cc
unborn-in_hand (delivered query d) a h = refl
unborn-in_hand notifying a h = refl
unborn-in_hand collecting a h = refl
unborn-in_hand leaving a h = refl
unborn-in_hand closing a h = refl
unborn-in_hand ending a h = refl
unborn-in_hand ended a h = refl

opened-in_hand : (a : ℕ) (connected : Bool) → in_hand a (if connected then taking else ending) ≡ 0
opened-in_hand a true = refl
opened-in_hand a false = refl

module _ (C : Client) (fuel : ℕ) (handles : (w : C.World) → is_some (C.init w).0 ≡ true) where
  open C use {World}

  taken-Booked :
      (s : System World) (p : ThreadPc) (e : Entry) (rest : List Entry) (l : Ledger)
      → take s.shared.db.query_queue ≡ some (e, rest)
      → ((a : ℕ) → in_hand a s.thread ≡ 0)
      → ((a : ℕ) → in_hand a p ≡ count a (data_of (e ∷ [])))
      → Booked s l
      → Booked (record s { shared = set_queue rest s.shared; thread = p }) l
  taken-Booked s p e rest l h idle holds b = record {
    once = b.once;
    balance = λ a. omega (
      arith,
      b.balance a,
      take-queued a s.shared.db.query_queue rest e h,
      count-data_of-append a (e ∷ []) rest,
      idle a,
      holds a,
    );
    results = b.results;
    order = b.order;
    out = b.out;
  }

  book-Booked :
      {s t : System World} {l : Ledger} (step : Step C fuel s t)
      → Fresh C fuel step l
      → Inv s
      → Booked s l
      → Booked t (book C fuel step l)
  unfolding book put
  book-Booked {s} {t} {l} (calls c e) fresh v b = call-Booked c s l fresh b
  book-Booked {s} {t} {l} (connects db e h) fresh v b =
      let (queue, finished) = connect-queues s.shared.db db h in
      let (fresh_start, _, _) = connect-flags s.shared.db db h in
      let idle : is_born s.thread ≡ false = ground (arith, v.started, fresh_start) in
      record {
        once = b.once;
        balance = λ a. omega (
          arith,
          b.balance a,
          ap (λ es. count a (data_of es)) queue,
          unborn-in_hand s.thread a idle,
        );
        results = b.results;
        order = subst (λ q. Subsequence (l.taken ++ q) l.emitted) (sym finished) b.order;
        out = λ a. omega (arith, b.out a, ap (λ q. count a (data_of q)) finished);
      }
  book-Booked {s} {t} {l} (returns query {u} e h) fresh v b =
      failed-Booked s t (refused query s.shared) l (wait-Emits query false false s.shared u h)
        (λ a. refl) b
  book-Booked {s} {t} {l} (sleeps query d {u} e last h) fresh v b =
      failed-Booked s t (refused query s.shared) l (wait-Emits query false true s.shared u h)
        (λ a. refl) b
  book-Booked {s} {t} {l} (wakes query d notified e h) fresh v b =
      quiet-Booked s t l (Emits-refl s.shared) (λ a. refl) b
  book-Booked {s} {t} {l} (sleeps_on query d notified e h) fresh v b =
      quiet-Booked s t l (Emits-refl s.shared) (λ a. refl) b
  book-Booked {s} {t} {l} (opens e) fresh v b =
      failed-Booked s t (opening_entries (open_connection C s.shared).1 s.shared.db.waiting_query) l
        (open_connection-Emits C s.shared (handles s.shared.world))
        (λ a. opened-in_hand a (open_connection C s.shared).1 ∙ sym (ap (in_hand a) e)) b
  book-Booked {s} {t} {l} (takes query d {rest} e h) fresh v b =
      taken-Booked s (running query d) (pair query d) rest l h (λ a. ap (in_hand a) e) (λ a. refl) b
  book-Booked {s} {t} {l} (takes_pill {rest} e h) fresh v b =
      taken-Booked s leaving pill rest l h (λ a. ap (in_hand a) e) (λ a. refl) b
  book-Booked {s} {t} {l} (runs query d e) fresh v b =
      quiet-Booked s t l (run_taken-Emits C fuel query d s.shared) (λ a. sym (ap (in_hand a) e)) b
  book-Booked {s} {t} {l} (delivers query d e) fresh v b = record {
    once = b.once;
    balance =
        λ a. omega (arith, b.balance a, ap (in_hand a) e, count-append a l.processed (d ∷ []));
    results = λ a. omega (
      arith,
      b.results a,
      count-append a l.processed (d ∷ []),
      count-data_of-append a l.emitted (pair query d ∷ []),
    );
    order =
        subst (λ xs. Subsequence xs (l.emitted ++ (pair query d ∷ [])))
          (append_assoc l.taken s.shared.db.finished_queries (pair query d ∷ []))
          (Subsequence-append (pair query d ∷ []) b.order);
    out = λ a. omega (
      arith,
      b.out a,
      count-data_of-append a l.emitted (pair query d ∷ []),
      count-data_of-append a s.shared.db.finished_queries (pair query d ∷ []),
    );
  }
  book-Booked {s} {t} {l} (finishes_round query d e) fresh v b =
      quiet-Booked s t l (finish_taken-Emits C fuel query d s.shared) (λ a. sym (ap (in_hand a) e))
        b
  book-Booked {s} {t} {l} (notifies e) fresh v b =
      quiet-Booked s t l (Emits-refl s.shared) (λ a. sym (ap (in_hand a) e)) b
  book-Booked {s} {t} {l} (collects e) fresh v b =
      quiet-Booked s t l (free_unused_statements-Emits C s.shared) (λ a. sym (ap (in_hand a) e)) b
  book-Booked {s} {t} {l} (leaves e) fresh v b =
      quiet-Booked s t l (free_cached_statements-Emits C s.shared) (λ a. sym (ap (in_hand a) e)) b
  book-Booked {s} {t} {l} (closes e) fresh v b =
      failed-Booked s t (waiting_entries s.shared.db.waiting_query) l
        (close_connection-Emits C s.shared) (λ a. sym (ap (in_hand a) e)) b
  book-Booked {s} {t} {l} (ends e) fresh v b =
      quiet-Booked s t l (end_thread-Emits C s.shared) (λ a. sym (ap (in_hand a) e)) b

  History-Reach : {s : System World} {l : Ledger} → History C fuel s l → Reach C fuel s
  History-Reach (created s queue finished off fresh) = Reach.created s off fresh
  History-Reach (later r step fresh) = Reach.later (History-Reach r) step

  History-Booked : {s : System World} {l : Ledger} → History C fuel s l → Booked s l
  History-Booked (created s queue finished off fresh) = record {
    once = λ a. omega arith;
    balance = λ a. omega (arith, ap (λ es. count a (data_of es)) queue);
    results = λ a. refl;
    order = subst (λ q. Subsequence q []) (sym finished) nothing;
    out = λ a. omega (arith, ap (λ q. count a (data_of q)) finished);
  }
  History-Booked (later r step fresh) =
      book-Booked step fresh (Reach-Inv C fuel handles (History-Reach r)) (History-Booked r)

  -- Let mysql_init never fail, and let each query be started with new data. Over any interleaving of the two
  -- threads from a new database with empty queues, data that was started is at each moment in exactly one
  -- place: it is queued, or the thread holds it, or it was processed once, or it was aborted once. What was put
  -- into the queue of finished queries was taken out, or dropped by the removal of `ping`, or is still there,
  -- as often as it was put; what was taken out and is still there keeps the order in which it was put. What
  -- was put is one entry for each time that data was processed, and one for each time that a wait failed.
  pub started_once :
      {s : System World} {l : Ledger}
      → History C fuel s l
      → ((a : ℕ)
          → (count a l.started ≤ 1)
            × (count a l.started
                ≡ queued a s.shared
                  + (in_hand a s.thread + (count a l.processed + count a l.aborted)))
            × (count a (data_of l.emitted)
                ≡ count a (data_of l.taken)
                  + (count a (data_of s.shared.db.finished_queries) + count a (data_of l.dropped)))
            × (count a (data_of l.emitted) ≡ count a l.processed + count a l.failed))
        × Subsequence (l.taken ++ s.shared.db.finished_queries) l.emitted
  started_once r =
      let b = History-Booked r in (λ a. (b.once a, b.balance a, b.out a, b.results a), b.order)
