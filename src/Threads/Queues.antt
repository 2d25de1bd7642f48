-- ===== src/Threads/Queues.antt =====
-- What the steps of the two threads of src/mysql/Database.cpp do to the two queues.
use my_sqloo.Base.{
  ℕ, zero, suc, ◌+◌, ◌≡◌, refl, ap, sym, subst, ◌∙◌, Bool, true, false, Option, none, some, List,
  [], ◌∷◌, ◌++◌, arith, if◌then◌else◌, Bool-cases, Option-cases, inl, inr, is_some, get_last?,
  get_elem?, set, count,
}
use mathlib.Core.List.{append-nil}
use my_sqloo.BlockingQueue.{find_if, iter_swap, put, swap_to_front_if}
use my_sqloo.Client.{Client}
use my_sqloo.Connection.{
  open_connection, connect_with, give_up_connection, accept_connection, attempt_connection,
  close_connection, end_thread,
}
use my_sqloo.Execute.Frame.Delivery.{Delivery, delivery}
use my_sqloo.IQuery.{wait, swap_query, has_data}
use my_sqloo.IQuery.Abort.{data_of}
use my_sqloo.Objects.{State, Database, pair, Entry, pill}
use my_sqloo.Outcome.{done}
use my_sqloo.Settings.{connect}
use my_sqloo.Statements.{free_unused_statements, free_cached_statements}
use my_sqloo.Threads.Effects.{swap_if, swap_if-SameFlags, wait-calls}
use my_sqloo.Waiting.{abort_waiting_query, end_wait, fail_waiting_query, wait_for_query}
use my_sqloo.Worker.{run_taken, finish_taken, is_waiting}
use my_sqloo.Worker.Frame.{run_taken-delivery, free_cached_statements-delivery}

abbrev pub queued : {World : Type 0} → ℕ → State World → ℕ
queued a s = count a (data_of s.db.query_queue)

-- The data that is queued stays so, and entries are put into the queue of finished queries.
pub record Emits {World : Type 0} (es : List Entry) (u u' : State World) : Type 0 where
  pub queue : (a : ℕ) → queued a u' ≡ queued a u
  pub finished : u'.db.finished_queries ≡ u.db.finished_queries ++ es

data_of-cons :
    (a : ℕ) (e : Entry) (es : List Entry)
    → count a (data_of (e ∷ es)) ≡ count a (data_of (e ∷ [])) + count a (data_of es)
data_of-cons a pill es = omega arith
data_of-cons a (pair query d) es = ground arith

count-set :
    (a : ℕ) (x y : Entry) (es : List Entry) (i : ℕ)
    → get_elem? es i ≡ some y
    → count a (data_of (x ∷ es)) ≡ count a (data_of (y ∷ set es i x))
count-set a x y [] i h = cc
count-set a x y (z ∷ zs) zero h =
    let same : z ≡ y = cc in
    omega (
      arith,
      data_of-cons a x (z ∷ zs),
      data_of-cons a z zs,
      data_of-cons a y (x ∷ zs),
      data_of-cons a x zs,
      ap (λ e. count a (data_of (e ∷ []))) same,
    )
count-set a x y (z ∷ zs) (suc i) h = omega (
  arith,
  data_of-cons a x (z ∷ zs),
  data_of-cons a z zs,
  data_of-cons a x zs,
  count-set a x y zs i h,
  data_of-cons a y (z ∷ set zs i x),
  data_of-cons a z (set zs i x),
  data_of-cons a y (set zs i x),
)

count-iter_swap :
    (a pos : ℕ) (es : List Entry) → count a (data_of (iter_swap pos es)) ≡ count a (data_of es)
unfolding iter_swap
count-iter_swap a pos [] = refl
count-iter_swap a zero (x ∷ xs) = refl
count-iter_swap a (suc pos) (x ∷ xs) = elim (Option-cases (get_elem? xs pos)) [
  | inl e ↦ rw (e, iter_swap) refl
  | inr (y, e) ↦ rw (e, iter_swap) (sym (count-set a x y xs pos e))
]

pub count-swap_to_front_if :
    (a : ℕ) (func : Entry → Bool) (es : List Entry)
    → count a (data_of (swap_to_front_if func es).0) ≡ count a (data_of es)
unfolding swap_to_front_if
count-swap_to_front_if a func es = ground (arith, count-iter_swap a (find_if func es) es)

-- What stands for a wait that is ended.
abbrev pub waiting_entries : Option (ℕ × ℕ) → List Entry
waiting_entries none = []
waiting_entries (some (query, d)) = pair query d ∷ []

-- What the end of a failed connection attempt puts into the queue of finished queries.
abbrev pub opening_entries : Bool → Option (ℕ × ℕ) → List Entry
opening_entries connected waiting = if connected then [] else waiting_entries waiting

abbrev pub refused_entries : Bool → ℕ → ℕ → List Entry
refused_entries can_wait query d = if can_wait then [] else pair query d ∷ []

pub connect-queues :
    (db db' : Database)
    → connect db ≡ done db'
    → (db'.query_queue ≡ db.query_queue) × (db'.finished_queries ≡ db.finished_queries)
unfolding connect
connect-queues db db' h = ground arith

module _ {World : Type 0} where
  Emits-same :
      (u v : State World)
      → v.db.query_queue ≡ u.db.query_queue
      → v.db.finished_queries ≡ u.db.finished_queries
      → Emits [] u v
  Emits-same u v p q = record {
    queue = λ a. ap (λ es. count a (data_of es)) p;
    finished = q ∙ sym (append-nil u.db.finished_queries);
  }

  pub Emits-refl : (u : State World) → Emits [] u u
  Emits-refl u = Emits-same u u refl refl

  Emits-swap_if : (swap : Bool) (d : ℕ) (u : State World) → Emits [] u (swap_if swap d u)
  unfolding swap_if swap_query
  Emits-swap_if true d u = record {
    queue = λ a. count-swap_to_front_if a (has_data d) u.db.query_queue;
    finished = sym (append-nil u.db.finished_queries);
  }
  Emits-swap_if false d u = Emits-refl u

  wait_for_query-Emits :
      (query d : ℕ) (u : State World)
      → Emits (refused_entries u.db.can_wait query d) u (wait_for_query query d u).0
  unfolding wait_for_query fail_waiting_query put
  wait_for_query-Emits query d u = record {
    queue = λ a. ground arith;
    finished = ground (arith, append-nil u.db.finished_queries);
  }

  pub abort_waiting_query-Emits :
      (u : State World) → Emits (waiting_entries u.db.waiting_query) u (abort_waiting_query u).0
  unfolding abort_waiting_query end_wait fail_waiting_query put
  abort_waiting_query-Emits u = elim (Option-cases u.db.waiting_query) [
    | inl e ↦
        rw (e, end_wait)
          (record { queue = λ a. refl; finished = sym (append-nil u.db.finished_queries) })
    | inr (x, e) ↦ rw (e, end_wait) (record { queue = λ a. refl; finished = refl })
  ]

  Emits-trans : (es : List Entry) (u v w : State World) → Emits [] u v → Emits es v w → Emits es u w
  Emits-trans es u v w first later = record {
    queue = λ a. later.queue a ∙ first.queue a;
    finished =
        later.finished ∙ ap (λ l. l ++ es) (first.finished ∙ append-nil u.db.finished_queries);
  }

  -- The entry that a `wait` puts into the queue of finished queries when it cannot wait.
  unfoldable pub refused : ℕ → State World → List Entry
  refused query u = elim (get_last? (u.queries query).running_query_data) [
    | none ↦ []
    | some d ↦ refused_entries u.db.can_wait query d
  ]

  pub wait-Emits :
      (query : ℕ) (swap b : Bool) (u v : State World)
      → wait query swap u ≡ done (v, b)
      → Emits (refused query u) u v
  unfolding refused
  wait-Emits query swap b u v h =
      let (d, last, e) = wait-calls query swap u h in
      let u' = swap_if swap d u in
      let flag : u'.db.can_wait ≡ u.db.can_wait = (swap_if-SameFlags swap d u).can_wait in
      let same : (wait_for_query query d u').0 ≡ v = ap (λ (x : State World × Bool). x.0) e in
      rw (last, refused)
        (subst (Emits (refused_entries u.db.can_wait query d) u) same (
          Emits-trans (refused_entries u.db.can_wait query d) u u' (wait_for_query query d u').0
            (Emits-swap_if swap d u)
            (subst (λ f. Emits (refused_entries f query d) u' (wait_for_query query d u').0) flag
              (wait_for_query-Emits query d u'))))

module _ (C : Client) where
  open C use {World, init}

  delivery-Emits : (u v : State World) → delivery v ≡ delivery u → Emits [] u v
  delivery-Emits u v e =
      Emits-same u v (ap (λ (x : Delivery). x.query_queue) e)
        (ap (λ (x : Delivery). x.finished_queries) e)

  pub run_taken-Emits :
      (fuel query d : ℕ) (u : State World) → Emits [] u (run_taken C fuel query d u)
  run_taken-Emits fuel query d u =
      delivery-Emits u (run_taken C fuel query d u) (run_taken-delivery C fuel query d u)

  pub free_cached_statements-Emits : (u : State World) → Emits [] u (free_cached_statements C u)
  free_cached_statements-Emits u =
      delivery-Emits u (free_cached_statements C u) (free_cached_statements-delivery C u)

  pub free_unused_statements-Emits : (u : State World) → Emits [] u (free_unused_statements C u)
  unfolding free_unused_statements
  free_unused_statements-Emits u = Emits-same u _ refl refl

  pub end_thread-Emits : (u : State World) → Emits [] u (end_thread C u)
  unfolding end_thread
  end_thread-Emits u = Emits-same u _ refl refl

  pub finish_taken-Emits :
      (fuel query d : ℕ) (u : State World) → Emits [] u (finish_taken C fuel query d u)
  unfolding finish_taken
  finish_taken-Emits fuel query d u = elim (Bool-cases (is_waiting u.db.waiting_query query d)) [
    | inl e ↦ rw (e, finish_taken) (Emits-same u _ refl refl)
    | inr e ↦ rw (e, finish_taken) (Emits-same u _ refl refl)
  ]

  pub close_connection-Emits :
      (u : State World) → Emits (waiting_entries u.db.waiting_query) u (close_connection C u)
  unfolding close_connection
  close_connection-Emits u =
      let ends = abort_waiting_query-Emits _ in
      record { queue = ends.queue; finished = ends.finished }

  connect_with-Emits :
      (sql : ℕ) (u : State World)
      → Emits
          (opening_entries (connect_with C sql u).1 u.db.waiting_query)
          u
          (connect_with C sql u).0
  unfolding connect_with accept_connection give_up_connection
  connect_with-Emits sql u = elim (Bool-cases (attempt_connection C sql u.db u.world).0) [
    | inl e ↦ rw (e, connect_with) (Emits-same u _ refl refl)
    | inr e ↦
        rw (e, connect_with)
          (let ends = abort_waiting_query-Emits _ in
            record { queue = ends.queue; finished = ends.finished })
  ]

  pub open_connection-Emits :
      (u : State World)
      → is_some (init u.world).0 ≡ true
      → Emits (opening_entries (open_connection C u).1 u.db.waiting_query) u (open_connection C u).0
  unfolding open_connection
  open_connection-Emits u h = elim (Option-cases (init u.world).0) [
    | inl e ↦ absurd (ground (arith, h, e))
    | inr (sql, e) ↦
        let db = u.db in
        let u' = record u { world = (init u.world).1; db = record db { sql = (init u.world).0 } } in
        let opened = connect_with-Emits sql u' in
        rw (e, open_connection) (record { queue = opened.queue; finished = opened.finished })
  ]
