-- ===== src/Worker/Rounds.antt =====
-- The rounds of the database thread, src/mysql/Database.cpp.
use my_sqloo.Base.{
  ℕ, zero, suc, ◌<◌, ◌≡◌, refl, ap, sym, ◌∙◌, true, false, List, [], ◌∷◌, ◌++◌, arith, ◌==◌,
  if◌then◌else◌, contains, length, Bool-cases, inl, inr,
}
use mathlib.Core.List.{append_assoc, append-nil}
use my_sqloo.BlockingQueue.{put, take}
use my_sqloo.Client.{Client}
use my_sqloo.Execute.Frame.Delivery.{Delivery, delivery}
use my_sqloo.Objects.{entries, Entry, pill, pair, query_complete, State}
use my_sqloo.Queue.{put_finished}
use my_sqloo.Statements.{free_unused_statements}
use my_sqloo.Worker.{is_waiting, at_pill, run_taken, finish_taken, process, run}
use my_sqloo.Worker.Frame.{free_cached_statements-delivery, run_taken-delivery}

module _ (C : Client) where
  open C use {World}

  record Round (query d : ℕ) (s t : State World) : Type 0 where
    pub queue : t.db.query_queue ≡ s.db.query_queue
    pub delivered : t.db.finished_queries ≡ s.db.finished_queries ++ (pair query d ∷ [])
    pub ended : is_waiting t.db.waiting_query query d ≡ false
    pub complete : (t.query_data d).status ≡ query_complete
    pub finished :
        (a : ℕ) → (t.query_data a).finished ≡ (if d == a then true else (s.query_data a).finished)

  run_taken-status :
      (fuel query d : ℕ) (s : State World)
      → ((run_taken C fuel query d s).query_data d).status ≡ query_complete
  unfolding run_taken
  run_taken-status fuel query d s = ground arith

  -- A round after `runQuery`.
  finish_taken-Round :
      (fuel query d : ℕ) (u : State World)
      → (u.query_data d).status ≡ query_complete
      → Round query d u
          (free_unused_statements C (finish_taken C fuel query d (put_finished (pair query d) u)))
  unfolding free_unused_statements finish_taken is_waiting put
  finish_taken-Round fuel query d u h = elim (Bool-cases (is_waiting u.db.waiting_query query d)) [
    | inl e ↦
        rw (e, finish_taken)
          (record {
            queue = refl;
            delivered = refl;
            ended = refl;
            complete = ground arith;
            finished = λ a. ground arith;
          })
    | inr e ↦
        rw (e, finish_taken)
          (record {
            queue = refl;
            delivered = refl;
            ended = e;
            complete = ground arith;
            finished = λ a. ground arith;
          })
  ]

  process-Round : (fuel query d : ℕ) (s : State World) → Round query d s (process C fuel query d s)
  unfolding process
  process-Round fuel query d s =
      let u = run_taken C fuel query d s in
      let same : delivery u ≡ delivery s = run_taken-delivery C fuel query d s in
      let round = finish_taken-Round fuel query d u (run_taken-status fuel query d s) in
      record {
        queue = round.queue ∙ ap (λ (v : Delivery). v.query_queue) same;
        delivered =
            round.delivered ∙ ap (λ (v : Delivery). v.finished_queries ++ (pair query d ∷ [])) same;
        ended = round.ended;
        complete = round.complete;
        finished = λ a.
            round.finished a ∙ ap (λ (v : Delivery). if d == a then true else v.finished a) same;
      }

  abbrev pub data_of : List (ℕ × ℕ) → List ℕ
  data_of [] = []
  data_of ((query, d) ∷ rest) = d ∷ data_of rest

  -- Let the queue hold some queries, then the poison pill, then further entries, where a query that
  -- uses up its fuel counts as ended. With more rounds than queries the thread stops at the pill.
  -- Then the further entries are still queued, the queries were put into the queue of finished
  -- queries, once each and in their order, behind what was in it, and the data that is finished is
  -- the data that was and the data of these queries.
  pub run_delivers :
      (fuel rounds : ℕ) (qs : List (ℕ × ℕ)) (rest : List Entry) (s : State World)
      → s.db.query_queue ≡ entries qs ++ (pill ∷ rest)
      → length qs < rounds
      → let (t, stop) = run C fuel rounds s in
        (stop ≡ at_pill)
        × (t.db.query_queue ≡ rest)
        × (t.db.finished_queries ≡ s.db.finished_queries ++ entries qs)
        × ((a : ℕ)
            → (t.query_data a).finished
              ≡ (if contains a (data_of qs) then true else (s.query_data a).finished))
  unfolding run take
  run_delivers fuel zero qs rest s h enough = absurd (omega arith)
  run_delivers fuel (suc rounds) [] rest s h enough =
      let db = s.db in
      let s' = record s { db = record db { query_queue = rest } } in
      let same = free_cached_statements-delivery C s' in
      rw (h, run)
        (
          refl,
          ap (λ (v : Delivery). v.query_queue) same,
          ap (λ (v : Delivery). v.finished_queries) same ∙ sym (append-nil s.db.finished_queries),
          λ a. ap (λ (v : Delivery). v.finished a) same,
        )
  run_delivers fuel (suc rounds) ((query, d) ∷ qs) rest s h enough =
      let db = s.db in
      let s' = record s { db = record db { query_queue = entries qs ++ (pill ∷ rest) } } in
      let t = process C fuel query d s' in
      let round = process-Round fuel query d s' in
      let (stop, queue, delivered, finished) =
        run_delivers fuel rounds qs rest t round.queue (omega (arith, enough)) in
      rw (h, run)
        (
          stop,
          queue,
          delivered
              ∙ ap (λ es. es ++ entries qs) round.delivered
              ∙ append_assoc s.db.finished_queries (pair query d ∷ []) (entries qs),
          λ a. ground (arith, finished a, round.finished a),
        )
