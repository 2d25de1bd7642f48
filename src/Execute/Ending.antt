-- ===== src/Execute/Ending.antt =====
-- What the client library documents of results: they come to an end. With fuel above the bounds, the
-- loops of `executeStatement` in src/mysql/Query.cpp and PreparedQuery.cpp do.
pub mod Plain
pub mod Calls
pub mod Rows
pub mod Prepared
pub mod Kinds
use my_sqloo.Base.{ℕ, ◌≤◌, ◌<◌, ◌≡◌, some, String}
use my_sqloo.Client.{Client, Row, next_found, fetched, BoundRow}

-- Results as text. The measures count the result sets after the current one and the rows that are
-- still to be fetched; `limit` bounds them.
pub record FiniteText (C : Client) (limit : ℕ) : Type 0 where
  pub sets : ℕ → C.World → ℕ
  pub rows : C.Res → ℕ
  pub query_sets :
      (sql : ℕ) (text : String) (w : C.World) → sets sql (C.real_query sql text w).1 ≤ limit
  pub store_sets : (sql : ℕ) (w : C.World) → sets sql (C.store_result sql w).1 ≤ sets sql w
  pub free_sets : (sql : ℕ) (r : C.Res) (w : C.World) → sets sql (C.free_result r w) ≤ sets sql w
  pub next_sets :
      (sql : ℕ) (w : C.World)
      → (C.next_result sql w).0 ≡ next_found
      → sets sql (C.next_result sql w).1 < sets sql w
  pub stored_rows :
      (sql : ℕ) (w : C.World) (r : C.Res) → (C.store_result sql w).0 ≡ some r → rows r ≤ limit
  pub fetch_rows : (r r' : C.Res) (row : Row) → C.fetch_row r ≡ some (row, r') → rows r' < rows r

-- Results of a prepared statement, with the same measures on the statement.
pub record FiniteBound (C : Client) (limit : ℕ) : Type 0 where
  pub sets : ℕ → C.World → ℕ
  pub rows : ℕ → C.World → ℕ
  pub execute_sets : (stmt : ℕ) (w : C.World) → sets stmt (C.stmt_execute stmt w).1 ≤ limit
  pub metadata_sets :
      (stmt : ℕ) (w : C.World) → sets stmt (C.stmt_result_metadata stmt w).1 ≤ sets stmt w
  pub store_sets : (stmt : ℕ) (w : C.World) → sets stmt (C.stmt_store_result stmt w).1 ≤ sets stmt w
  pub bind_sets : (stmt : ℕ) (w : C.World) → sets stmt (C.stmt_bind_result stmt w).1 ≤ sets stmt w
  pub fetch_sets : (stmt : ℕ) (w : C.World) → sets stmt (C.stmt_fetch stmt w).1 ≤ sets stmt w
  pub free_sets : (stmt : ℕ) (w : C.World) → sets stmt (C.stmt_free_result stmt w) ≤ sets stmt w
  pub metadata_free_sets :
      (stmt : ℕ) (r : C.Res) (w : C.World) → sets stmt (C.free_result r w) ≤ sets stmt w
  pub next_sets :
      (stmt : ℕ) (w : C.World)
      → (C.stmt_next_result stmt w).0 ≡ next_found
      → sets stmt (C.stmt_next_result stmt w).1 < sets stmt w
  pub bind_rows : (stmt : ℕ) (w : C.World) → rows stmt (C.stmt_bind_result stmt w).1 ≤ limit
  pub fetch_rows :
      (stmt : ℕ) (w : C.World) (row : BoundRow)
      → (C.stmt_fetch stmt w).0 ≡ fetched row
      → rows stmt (C.stmt_fetch stmt w).1 < rows stmt w
