-- ===== src/IQuery/Abort.antt =====
-- Aborting queries that wait in the queue, src/mysql/IQuery.cpp and Database.cpp.
use my_sqloo.Base.{
  ℕ, ◌≡◌, ◌↔◌, refl, sym, ap, ◌∙◌, Bool, true, false, List, [], ◌∷◌, arith, ◌==◌, if◌then◌else◌,
  contains, count, Any, Bool-cases, inl, inr,
}
use my_sqloo.BlockingQueue.{remove_if, erase_if}
use my_sqloo.BlockingQueue.Removal.{remove_if_lem}
use my_sqloo.Objects.{Database, Entry, pill, pair, IQueryData, query_aborted, State}
use my_sqloo.Queue.{abort_all_queries, mark_aborted}
use my_sqloo.IQuery.{has_data, abort_one, abort_each, abort}

-- The data that is queued.
abbrev pub data_of : List Entry → List ℕ
data_of [] = []
data_of (pill ∷ es) = data_of es
data_of (pair query d ∷ es) = d ∷ data_of es

abbrev pub aborted_data : IQueryData → IQueryData
aborted_data d = record d { status = query_aborted; finished = true }

-- Data in the list is aborted and finished; all other data is as it was.
abbrev pub Aborts : List ℕ → (ℕ → IQueryData) → (ℕ → IQueryData) → Type 0
Aborts ds before after =
    (a : ℕ) → after a ≡ (if contains a ds then aborted_data (before a) else before a)

module _ {World : Type 0} where
  mark_aborted_lem :
      (es : List Entry) (s : State World)
      → Aborts (data_of es) s.query_data (mark_aborted es s).query_data
        × ((mark_aborted es s).db ≡ s.db)
        × ((mark_aborted es s).queries ≡ s.queries)
  unfolding mark_aborted
  mark_aborted_lem [] s = (λ a. refl, refl, refl)
  mark_aborted_lem (pill ∷ es) s = mark_aborted_lem es s
  mark_aborted_lem (pair query d ∷ es) s =
      let (data', db, qs) = mark_aborted_lem es _ in (λ a. ground (arith, data' a), db, qs)

  -- `abortAllQueries` returns what was queued and leaves the queue empty. The data that was queued
  -- is aborted and finished; no other data, no query and no finished query changes.
  pub abort_all_queries_lem :
      (s : State World)
      → let (canceled, s') = abort_all_queries s in
        (canceled ≡ s.db.query_queue)
        × (s'.db.query_queue ≡ [])
        × (s'.db.finished_queries ≡ s.db.finished_queries)
        × (s'.queries ≡ s.queries)
        × Aborts (data_of s.db.query_queue) s.query_data s'.query_data
  unfolding abort_all_queries
  abort_all_queries_lem s =
      let db = s.db in
      let (data', db', qs) =
        mark_aborted_lem db.query_queue (record s { db = record db { query_queue = [] } }) in
      (
        refl,
        ap (λ (d : Database). d.query_queue) db',
        ap (λ (d : Database). d.finished_queries) db',
        qs,
        data',
      )

-- Some entry of the queue is about data of the list.
abbrev pub has_any : List ℕ → Entry → Bool
has_any ds pill = false
has_any ds (pair query d) = contains d ds

contains-Any : (d : ℕ) (es : List Entry) → (contains d (data_of es) ≡ true) ↔ Any (has_data d) es
unfolding has_data
contains-Any d [] = (λ h. cc, λ h. absurd h)
contains-Any d (pill ∷ es) =
    let (to, from) = contains-Any d es in
    (λ h. inr (to h), λ h. elim h [ inl e ↦ cc | inr t ↦ from t ])
contains-Any d (pair query d' ∷ es) =
    let (to, from) = contains-Any d es in
    (λ h. ground arith, λ h. elim h [ inl e ↦ rw e | inr t ↦ ground (arith, from t) ])

contains-erase_if :
    (d a : ℕ) (es : List Entry)
    → contains a (data_of (erase_if (has_data d) es))
      ≡ (if d == a then false else contains a (data_of es))
unfolding erase_if has_data
contains-erase_if d a [] = ground arith
contains-erase_if d a (pill ∷ es) = contains-erase_if d a es
contains-erase_if d a (pair query d' ∷ es) = ground (arith, contains-erase_if d a es)

erase_if-erase_if :
    (d : ℕ) (ds : List ℕ) (es : List Entry)
    → erase_if (has_any ds) (erase_if (has_data d) es) ≡ erase_if (has_any (d ∷ ds)) es
unfolding erase_if has_data
erase_if-erase_if d ds [] = refl
erase_if-erase_if d ds (pill ∷ es) = ap (◌∷◌ pill) (erase_if-erase_if d ds es)
erase_if-erase_if d ds (pair query d' ∷ es) = ground (arith, erase_if-erase_if d ds es)

erase_if_nothing : (es : List Entry) → erase_if (has_any []) es ≡ es
unfolding erase_if
erase_if_nothing [] = refl
erase_if_nothing (pill ∷ es) = ap (◌∷◌ pill) (erase_if_nothing es)
erase_if_nothing (pair query d ∷ es) = ap (◌∷◌ (pair query d)) (erase_if_nothing es)

-- What a loop over `ds` does to the queue and the data.
record AbortsEach {World : Type 0} (ds : List ℕ) (s : State World) : Type 0 where
  pub queue : (abort_each ds s).1.db.query_queue ≡ erase_if (has_any ds) s.db.query_queue
  pub listed :
      (a : ℕ)
      → contains a (abort_each ds s).0
        ≡ (if contains a ds then contains a (data_of s.db.query_queue) else false)
  pub counted :
      (a : ℕ)
      → count a (abort_each ds s).0
        ≡ (if contains a ds then (if contains a (data_of s.db.query_queue) then 1 else 0) else 0)
  pub effect : Aborts (abort_each ds s).0 s.query_data (abort_each ds s).1.query_data
  pub finished : (abort_each ds s).1.db.finished_queries ≡ s.db.finished_queries

removed-contains :
    (d : ℕ) (es : List Entry) → (remove_if (has_data d) es).1 ≡ contains d (data_of es)
removed-contains d es =
    let (_, (to, from), _) = remove_if_lem (has_data d) es in
    let (any, has) = contains-Any d es in
    elim (Bool-cases (contains d (data_of es))) [
      | inl queued ↦ from (any queued) ∙ sym queued
      | inr free ↦ elim (Bool-cases (remove_if (has_data d) es).1) [
        | inl removed ↦ removed ∙ sym (has (to removed))
        | inr kept ↦ kept ∙ sym free
      ]
    ]

-- What one round does.
pub record AbortsOne {World : Type 0} (d : ℕ) (s : State World) : Type 0 where
  pub queue : (abort_one d s).0.db.query_queue ≡ erase_if (has_data d) s.db.query_queue
  pub flag : (abort_one d s).1 ≡ contains d (data_of s.db.query_queue)
  pub effect :
      (a : ℕ)
      → (abort_one d s).0.query_data a ≡ (
          if d == a
          then (if (abort_one d s).1 then aborted_data (s.query_data a) else s.query_data a)
          else s.query_data a)
  pub finished : (abort_one d s).0.db.finished_queries ≡ s.db.finished_queries

erase_if-remove_if :
    (d : ℕ) (es : List Entry) → (remove_if (has_data d) es).0 ≡ erase_if (has_data d) es
unfolding remove_if
erase_if-remove_if d es = refl

pub abort_one_lem : {World : Type 0} (d : ℕ) (s : State World) → AbortsOne d s
unfolding abort_one
abort_one_lem d s = record {
  queue = ground arith;
  flag = removed-contains d s.db.query_queue;
  effect = λ a. ground arith;
  finished = ground arith;
}

abort_each_lem : {World : Type 0} (ds : List ℕ) (s : State World) → AbortsEach ds s
unfolding abort_each
abort_each_lem [] s = record {
  queue = sym (erase_if_nothing s.db.query_queue);
  listed = λ a. refl;
  counted = λ a. refl;
  effect = λ a. refl;
  finished = refl;
}
abort_each_lem (d ∷ ds) s =
    let one = abort_one_lem d s in
    let later = abort_each_lem ds (abort_one d s).0 in
    record {
      queue =
          later.queue
          ∙ ap (erase_if (has_any ds)) one.queue
          ∙ erase_if-erase_if d ds s.db.query_queue;
      listed = λ a. ground (
        arith,
        later.listed a,
        one.flag,
        ap (λ q. contains a (data_of q)) one.queue,
        contains-erase_if d a s.db.query_queue,
      );
      counted = λ a. ground (
        arith,
        later.counted a,
        one.flag,
        ap (λ q. contains a (data_of q)) one.queue,
        contains-erase_if d a s.db.query_queue,
      );
      effect = λ a. ground (arith, later.effect a, one.effect a);
      finished = later.finished ∙ one.finished;
    }

-- `abort` takes every queue entry about running data of the query out of the queue, and no other
-- entry; the rest keeps its order. The data that it lists is the running data that was queued:
-- that data is aborted and finished, and no other data and no finished query changes.
pub abort_lem :
    {World : Type 0} (query : ℕ) (s : State World)
    → let (aborted, s') = abort query s in
      let ds = (s.queries query).running_query_data in
      (s'.db.query_queue ≡ erase_if (has_any ds) s.db.query_queue)
      × ((a : ℕ)
          → contains a aborted
            ≡ (if contains a ds then contains a (data_of s.db.query_queue) else false))
      × Aborts aborted s.query_data s'.query_data
      × (s'.db.finished_queries ≡ s.db.finished_queries)
unfolding abort
abort_lem query s =
    let each = abort_each_lem (s.queries query).running_query_data s in
    (each.queue, each.listed, each.effect, each.finished)
