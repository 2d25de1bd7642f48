-- ===== src/Execute/Ending/Calls.antt =====
-- The calls of src/mysql/PreparedQuery.cpp that take no fuel, and its clean-up actions.
use my_sqloo.Base.{
  ℕ, zero, suc, ◌+◌, ◌≡◌, ◌≢◌, ap, ◌∙◌, Bool, true, false, Option, none, some, List, leb,
  Bool-cases, inl, inr,
}
use my_sqloo.Client.{Client, Bind}
use my_sqloo.Execute.Ending.Plain.{call-Total}
use my_sqloo.Execute.Parameters.{find, field_position, generate_bind, generate_from}
use my_sqloo.Execute.Prepared.{stmt_check, checked, finally_do}
use my_sqloo.Objects.{State, Parameters, PreparedQueryField}
use my_sqloo.Outcome.{Action, Outcome-cases, throw, out_of_fuel, modify}
use my_sqloo.ResultData.{call, stmt_failure}
use my_sqloo.Total.{Total, Total->>=}

module _ (C : Client) where
  open C use {World, codes}

  -- Making the binds takes no fuel.
  generate_bind-fueled :
      (count i : ℕ) (field : Option PreparedQueryField) (binds : List Bind)
      → generate_bind C count i field binds ≢ throw out_of_fuel
  unfolding generate_bind
  generate_bind-fueled count i none binds h = cc
  generate_bind-fueled count i (some field) binds h =
      elim (Bool-cases (leb count (field_position field))) [
        | inl e ↦ cc (rw (e, generate_bind) at h)
        | inr e ↦ cc (rw (e, generate_bind) at h)
      ]

  pub generate_from-fueled :
      (n count i : ℕ) (map : Parameters) (binds : List Bind)
      → generate_from C n count i map binds ≢ throw out_of_fuel
  unfolding generate_from
  generate_from-fueled zero count i map binds h = cc
  generate_from-fueled (suc n) count i map binds h =
      elim (Outcome-cases (generate_bind C count i (find i map) binds)) [
        | inl (binds', e) ↦
            generate_from-fueled n count (i + 1) map binds' (rw (e, generate_from) at h)
        | inr (x, e) ↦
            let same : x ≡ out_of_fuel = cc (rw (e, generate_from) at h) in
            generate_bind-fueled count i (find i map) binds (e ∙ ap throw same)
      ]

  -- The clean-up runs on both outcomes.
  pub finally_do-Total :
      {A : Type 0} (P : State World → Type 0) (f : World → World) (m : Action (State World) A)
      (Q Q' : A → State World → Type 0)
      → ((a : A) (s : State World) → Q a s → Q' a (record s { world = f s.world }))
      → Total P m Q
      → Total P (finally_do C f m) Q'
  finally_do-Total P f m Q Q' hq h = record {
    fueled = λ s p. h.fueled s p;
    returned = λ s p a e. hq a (m s).1 (h.returned s p a e);
  }

  stmt_check-Total :
      (P : State World → Type 0) (stmt : ℕ) (failed : Bool)
      → Total P (stmt_check C stmt failed) (λ u. P)
  unfolding stmt_check
  stmt_check-Total P stmt true = record { fueled = λ s p k. cc; returned = λ s p a e. p }
  stmt_check-Total P stmt false = record { fueled = λ s p k. cc; returned = λ s p a e. p }

  pub checked-Total :
      (P Q : State World → Type 0) (stmt : ℕ) (f : World → Bool × World)
      → ((s : State World) → P s → Q (record s { world = (f s.world).1 }))
      → Total P (checked C stmt f) (λ u. Q)
  checked-Total P Q stmt f h =
      Total->>= P (call C f) (λ b. Q) (stmt_check C stmt) (λ u. Q) (call-Total C P f (λ b. Q) h)
        (stmt_check-Total Q stmt)

  pub modify-Total :
      (P Q : State World → Type 0) (f : State World → State World)
      → ((s : State World) → P s → Q (f s))
      → Total P (modify f) (λ u. Q)
  modify-Total P Q f h = record { fueled = λ s p k. cc; returned = λ s p a e. h s p }

  pub failure-Total :
      {A : Type 0} (P : State World → Type 0) (stmt : ℕ) (Q : A → State World → Type 0)
      → Total P (stmt_failure C stmt) Q
  failure-Total P stmt Q = record { fueled = λ s p k. cc; returned = λ s p a e. absurd (cc) }
