-- ===== src/Execute/Frame/View.antt =====
-- What the queues, the waits and the callbacks see of the state, which the execution of a query does
-- not write.
use my_sqloo.Base.{
  arith, update, contains, ◌∙◌, ℕ, ◌≡◌, refl, Bool, true, false, Option, none, some, List,
  if◌then◌else◌,
}
use mathlib.Core.Path.{fun_ext}
use my_sqloo.Objects.{IQueryData, Entry, QueryStatus, State}
use my_sqloo.QueryData.{set_data}
use my_sqloo.Statements.{cache_statement, free_statement, free_valid_statement, release, is_valid}
use my_sqloo.Execute.Frame.{IsStable}

-- The statuses and `finished` flags of the data, and the parts of the database that the queues and
-- the waits use.
pub record View : Type 0 where
  pub status : ℕ → QueryStatus
  pub finished : ℕ → Bool
  pub finished_queries : List Entry
  pub query_queue : List Entry
  pub waiting_query : Option (ℕ × ℕ)
  pub can_wait : Bool
  pub started_connecting : Bool

module _ {World : Type 0} where
  abbrev pub view : State World → View
  view s = record {
    status = λ a. (s.query_data a).status;
    finished = λ a. (s.query_data a).finished;
    finished_queries = s.db.finished_queries;
    query_queue = s.db.query_queue;
    waiting_query = s.db.waiting_query;
    can_wait = s.db.can_wait;
    started_connecting = s.db.started_connecting;
  }

  pub set_data-view :
      (d : ℕ) (v : IQueryData) (s : State World)
      → v.status ≡ (s.query_data d).status
      → v.finished ≡ (s.query_data d).finished
      → view (set_data d v s) ≡ view s
  set_data-view d v s h k = λ i. record {
    status = fun_ext (statuses) i;
    finished = fun_ext (flags) i;
    finished_queries = s.db.finished_queries;
    query_queue = s.db.query_queue;
    waiting_query = s.db.waiting_query;
    can_wait = s.db.can_wait;
    started_connecting = s.db.started_connecting;
  }
    where
      statuses : (a : ℕ) → (update s.query_data d v a).status ≡ (s.query_data a).status
      statuses a = ground (arith, h)

      flags : (a : ℕ) → (update s.query_data d v a).finished ≡ (s.query_data a).finished
      flags a = ground (arith, k)

  pub cache_statement-view :
      (o : Option ℕ) (s : State World) → view (cache_statement o s).1 ≡ view s
  unfolding cache_statement
  cache_statement-view none s = refl
  cache_statement-view (some stmt) s = refl

  -- The two branches of a test look the same.
  if-view :
      (b : Bool) (x y : State World) (v : View)
      → view x ≡ v
      → view y ≡ v
      → view (if b then x else y) ≡ v
  if-view true x y v hx hy = hx
  if-view false x y v hx hy = hy

  release-view : (handle : ℕ) (o : Option ℕ) (s : State World) → view (release handle o s) ≡ view s
  unfolding release
  release-view handle none s = refl
  release-view handle (some stmt) s = refl

  free_valid_statement-view :
      (handle : ℕ) (s : State World) → view (free_valid_statement handle s) ≡ view s
  unfolding free_valid_statement
  free_valid_statement-view handle s =
      if-view (contains handle s.db.cached_statements) (release handle (s.handles handle).stmt s) s
        (view s) (release-view handle (s.handles handle).stmt s) refl

  pub free_statement-view : (o : Option ℕ) (s : State World) → view (free_statement o s) ≡ view s
  unfolding free_statement
  free_statement-view none s = refl
  free_statement-view (some handle) s =
      if-view (is_valid (s.handles handle)) (free_valid_statement handle s) s (view s)
        (free_valid_statement-view handle s) refl

  pub view-IsStable : (x : View) → IsStable (λ (s : State World). view s ≡ x)
  view-IsStable x = record {
    world = λ w s h. h;
    value = λ d v s h k e. set_data-view d v s h k ∙ e;
    query = λ q v s h. h;
    handle = λ sql s h. h;
    cached = λ o s h. cache_statement-view o s ∙ h;
    freed = λ o s h. free_statement-view o s ∙ h;
  }
