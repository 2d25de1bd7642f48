-- ===== src/Statements.antt =====
-- Prepared statement handles of src/mysql/Database.cpp and StatementHandle.h: which statements of
-- the client library the database still owns, and when they are closed. A number names one
-- allocation of a statement. Each function holds `m_statementMutex`, so it is one step.
pub mod Ownership
pub mod Closing
pub mod History
use my_sqloo.Base.{
  ℕ, ◌+◌, Bool, true, false, Option, none, some, List, [], ◌∷◌, ◌++◌, if◌then◌else◌, ◌&&◌, is_some,
  update, contains, insert, erase,
}
use my_sqloo.Client.{Client}
use my_sqloo.Objects.{StatementHandle, State}

unfoldable pub is_valid : StatementHandle → Bool
is_valid h = is_some h.stmt && h.valid

unfoldable pub invalidate : StatementHandle → StatementHandle
invalidate h = record h { valid = false }

module _ {World : Type 0} where
  -- `std::make_shared<StatementHandle>`
  unfoldable pub make_handle : Option ℕ → Bool → State World → ℕ × State World
  make_handle stmt valid s = (
    s.next_handle,
    record s {
      handles = update s.handles s.next_handle (record { stmt = stmt; valid = valid });
      next_handle = s.next_handle + 1;
    },
  )

  unfoldable pub cache_statement : Option ℕ → State World → ℕ × State World
  unfolding make_handle
  cache_statement none s = make_handle none false s
  cache_statement (some stmt) s =
      let (handle, s') = make_handle (some stmt) true s in
      let db = s'.db in
      (handle, record s' { db = record db { cached_statements = handle ∷ db.cached_statements } })

  -- Moves the statement of a cached handle to the freed ones.
  unfoldable pub release : ℕ → Option ℕ → State World → State World
  release handle none s = s
  release handle (some stmt) s =
      let db = s.db in
      record s {
        db = record db {
          cached_statements = erase handle db.cached_statements;
          freed_statements = insert stmt db.freed_statements;
        };
      }

  unfoldable pub free_valid_statement : ℕ → State World → State World
  unfolding release invalidate
  free_valid_statement handle s =
      let s' =
        if contains handle s.db.cached_statements
        then release handle (s.handles handle).stmt s
        else s in
      record s' { handles = update s'.handles handle (invalidate (s'.handles handle)) }

  unfoldable pub free_statement : Option ℕ → State World → State World
  unfolding free_valid_statement
  free_statement none s = s
  free_statement (some handle) s =
      if is_valid (s.handles handle) then free_valid_statement handle s else s

module _ (C : Client) where
  open C use {World, stmt_close}

  unfoldable pub close_all : List ℕ → World → World
  close_all [] w = w
  close_all (stmt ∷ stmts) w = close_all stmts (stmt_close stmt w)

  -- `mysql_stmt_close(handle->stmt); handle->invalidate();`
  unfoldable pub close_handle : Option ℕ → ℕ → State World → State World
  unfolding invalidate
  close_handle none handle s = s
  close_handle (some stmt) handle s = record s {
    handles = update s.handles handle (invalidate (s.handles handle));
    world = stmt_close stmt s.world;
  }

  -- One round of the first loop of `freeCachedStatements`.
  unfoldable pub close_round : ℕ → State World → State World
  unfolding close_handle
  close_round handle s =
      if is_valid (s.handles handle) then close_handle (s.handles handle).stmt handle s else s

  unfoldable pub close_handles : List ℕ → State World → State World
  close_handles [] s = s
  close_handles (handle ∷ handles) s = close_handles handles (close_round handle s)

  unfoldable pub free_unused_statements : State World → State World
  unfolding close_all
  free_unused_statements s =
      let db = s.db in
      record s {
        db = record db { freed_statements = [] };
        world = close_all db.freed_statements s.world;
      }

  unfoldable pub free_cached_statements : State World → State World
  unfolding free_unused_statements
  free_cached_statements s =
      let s' = close_handles s.db.cached_statements s in
      let db = s'.db in
      free_unused_statements (record s' { db = record db { cached_statements = [] } })
