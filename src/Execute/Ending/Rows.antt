-- ===== src/Execute/Ending/Rows.antt =====
-- Reading the rows of a prepared statement ends, src/mysql/ResultData.cpp.
use my_sqloo.Base.{
  ℕ, zero, suc, ◌<◌, ◌≡◌, refl, Bool, true, false, List, arith, ◌==◌, Bool-cases, inl, inr,
}
use my_sqloo.Client.{Client, Fetch, fetched, fetch_failed, no_data, BoundRow}
use my_sqloo.Execute.Ending.{FiniteBound}
use my_sqloo.Execute.Ending.Plain.{call-Total}
use my_sqloo.Objects.{State, ResultDataRow}
use my_sqloo.Outcome.{Action}
use my_sqloo.ResultData.{call, add_row, row_outcome, fetch_bound_rows, bind_outcome, bound_rows}
use my_sqloo.Total.{Total, Total->>=, Total-weaken}
use my_sqloo.Execute.Ending.Calls.{failure-Total}

module _ (C : Client) (limit : ℕ) (finite : FiniteBound C limit) (stmt : ℕ) where
  open C use {
    World, Res, stmt_fetch, stmt_bind_result, stmt_field_count, stmt_store_result, stmt_free_result,
    free_result, stmt_result_metadata, stmt_next_result, stmt_bind_param, stmt_execute,
  }

  abbrev pub Left : ℕ → State World → Type 0
  Left n s = finite.sets stmt s.world < n

  abbrev Rows : ℕ → ℕ → State World → Type 0
  Rows n fuel s = Left n s × (finite.rows stmt s.world < fuel)

  abbrev Fetched : ℕ → ℕ → Fetch → State World → Type 0
  Fetched n fuel f s =
      Left n s × ((row : BoundRow) → f ≡ fetched row → finite.rows stmt s.world < fuel)

  row_outcome-Total :
      (n fuel count : ℕ) (next : Action (State World) (List ResultDataRow)) (f : Fetch)
      → Total (Rows n fuel) next (λ rows. Left n)
      → Total (Fetched n fuel f) (row_outcome C next stmt count f) (λ rows. Left n)
  unfolding row_outcome add_row
  row_outcome-Total n fuel count next (fetched row) h =
      Total->>= (Fetched n fuel (fetched row)) next (λ rows. Left n) (add_row C count row)
        (λ rows. Left n)
        (Total-weaken (Rows n fuel) (Fetched n fuel (fetched row)) next (λ rows. Left n)
          (λ rows. Left n) (λ s p. (p.0, p.1 row refl)) (λ a s q. q) h)
        (λ rows. record { fueled = λ s p k. cc; returned = λ s p a e. p })
  row_outcome-Total n fuel count next fetch_failed h = failure-Total C _ stmt (λ rows. Left n)
  row_outcome-Total n fuel count next no_data h = record {
    fueled = λ s p k. cc;
    returned = λ s p a e. p.0;
  }

  fetch_bound_rows-Total :
      (fuel n count : ℕ) → Total (Rows n fuel) (fetch_bound_rows C fuel stmt count) (λ rows. Left n)
  unfolding fetch_bound_rows
  fetch_bound_rows-Total zero n count = record {
    fueled = λ s p. absurd (omega arith);
    returned = λ s p. absurd (omega arith);
  }
  fetch_bound_rows-Total (suc fuel) n count =
      let next = fetch_bound_rows C fuel stmt count in
      Total->>= (Rows n (suc fuel)) (call C (stmt_fetch stmt)) (Fetched n fuel)
        (row_outcome C next stmt count) (λ rows. Left n)
        (call-Total C (Rows n (suc fuel)) (stmt_fetch stmt) (Fetched n fuel) (λ s p. (
          omega (arith, finite.fetch_sets stmt s.world),
          λ row e. omega (arith, finite.fetch_rows stmt s.world row e),
        )))
        (λ f. row_outcome-Total n fuel count next f (fetch_bound_rows-Total fuel n count))

  bind_outcome-Total :
      (fuel n count : ℕ) (failed : Bool)
      → limit < fuel
      → Total (Rows n fuel) (bind_outcome C fuel stmt count failed) (λ rows. Left n)
  unfolding bind_outcome
  bind_outcome-Total fuel n count true h = failure-Total C _ stmt (λ rows. Left n)
  bind_outcome-Total fuel n count false h = fetch_bound_rows-Total fuel n count

  pub bound_rows-Total :
      (fuel n count : ℕ)
      → limit < fuel
      → Total (Left n) (bound_rows C fuel stmt count) (λ rows. Left n)
  unfolding bound_rows
  bound_rows-Total fuel n count h = elim (Bool-cases (count == 0)) [
    | inl e ↦ rw e (record { fueled = λ s p k. cc; returned = λ s p a x. p })
    | inr e ↦ rw e (
        Total->>= (Left n) (call C (stmt_bind_result stmt)) (λ b. Rows n fuel)
          (bind_outcome C fuel stmt count) (λ rows. Left n)
          (call-Total C (Left n) (stmt_bind_result stmt) (λ b. Rows n fuel)
            (λ s p. (
              omega (arith, finite.bind_sets stmt s.world),
              omega (arith, finite.bind_rows stmt s.world),
            )))
          (λ failed. bind_outcome-Total fuel n count failed h))
  ]
