-- ===== src/Bindings/Parameters/Bound.antt =====
-- What the calls of src/lua/LuaPreparedQuery.cpp bind in the end.
use my_sqloo.Base.{
  ℕ, zero, suc, ◌^◌, ◌<◌, ◌≡◌, ◌∙◌, refl, ap, sym, Option, none, some, List, [], ◌∷◌, length,
  get_elem?, arith, some-injective, subst,
}
use my_sqloo.Bindings.{LuaArguments, Casts}
use my_sqloo.Bindings.Parameters.{ParameterCall, call_parameters}
use my_sqloo.Bindings.Parameters.History.{
  History, lookup, log_calls, keep_log, field_at, Agrees, Represents, keep_last-Represents,
  calls-Represents,
}
use my_sqloo.Client.{Client, Bind, bind_null}
use my_sqloo.Creation.{build_prepared_data}
use my_sqloo.Execute.Parameters.{find, bind_of, generate_binds}
use my_sqloo.Execute.Parameters.Binds.{Matches, bound, generate_binds_lem}
use my_sqloo.Objects.{FieldValue, PreparedQueryField, Parameters, IQuery}
use my_sqloo.Outcome.{ok}

-- What is bound for a value: NULL if it was never set.
abbrev pub bound_value : Option FieldValue → Bind
bound_value none = bind_null
bound_value (some value) = bind_of value

bound-field_at : (i : ℕ) (value : Option FieldValue) → bound (field_at i value) ≡ bound_value value
bound-field_at i none = refl
bound-field_at i (some value) = refl

-- The set that stands where a history does.
set_at :
    (k : ℕ) (h : History) (ms : List Parameters) (hs : List History)
    → Represents ms hs
    → get_elem? hs k ≡ some h
    → (m : Parameters) × (get_elem? ms k ≡ some m) × Agrees m h
unfolding Represents Agrees
set_at k h [] [] r e = absurd (ground (arith, e))
set_at k h [] (h' ∷ hs) r e = absurd r
set_at k h (m ∷ ms) [] r e = absurd r
set_at zero h (m ∷ ms) (h' ∷ hs) (a, r) e =
    let same : h' ≡ h = some-injective e in
    (m, refl, λ i. a i ∙ ap (λ x. field_at i (lookup i x)) same)
set_at (suc k) h (m ∷ ms) (h' ∷ hs) (a, r) e = set_at k h ms hs r e

IndexAt : ℕ → Option PreparedQueryField → Type 0
IndexAt i none = Unit
IndexAt i (some field) = field.index ≡ i

IndexAt-field_at : (i : ℕ) (value : Option FieldValue) → IndexAt i (field_at i value)
unfolding IndexAt
IndexAt-field_at i none = tt
IndexAt-field_at i (some value) = refl

Agrees-Matches : (map : Parameters) (h : History) → Agrees map h → Matches map
unfolding Agrees IndexAt
Agrees-Matches map h agrees i field e =
    subst (IndexAt i) (sym (agrees i) ∙ e) (IndexAt-field_at i (lookup i h))

bound-Agrees :
    (map : Parameters) (h : History) (i : ℕ)
    → Agrees map h
    → bound (find i map) ≡ bound_value (lookup i h)
unfolding Agrees
bound-Agrees map h i agrees = ap bound (agrees i) ∙ bound-field_at i (lookup i h)

module _ (C : Client) (casts : Casts) where
  -- Let the parameters of a prepared query be what a list of histories says. After any calls of the
  -- functions on parameters, and the start of the query, its data has one set of parameters for each
  -- history that those calls leave, and the generation of the binds of each set, for a statement with
  -- fewer than 2 ^ 32 - 1 parameters, does not throw: it binds at each position the value that was set
  -- last for it, or NULL where none was. The query keeps the last set only.
  pub call_parameters-bound :
      (calls : List (ParameterCall × LuaArguments)) (q : IQuery) (hs : List History)
      → Represents q.parameters hs
      → let (v, left) = build_prepared_data (call_parameters casts calls q) in
        let logs = log_calls casts calls hs in
        Represents v.parameters logs
        × Represents left.parameters (keep_log logs)
        × ((k count : ℕ) (h : History) (binds : List Bind)
            → get_elem? logs k ≡ some h
            → suc count < 2 ^ 32
            → length binds ≡ count
            → (m : Parameters) × (get_elem? v.parameters k ≡ some m)
              × (bound : List Bind) × (generate_binds C m count binds ≡ ok bound)
              × ((p : ℕ) → p < count → get_elem? bound p ≡ some (bound_value (lookup (suc p) h))))
  unfolding build_prepared_data
  call_parameters-bound calls q hs r =
      let logs = log_calls casts calls hs in
      let q' = call_parameters casts calls q in
      let r' = calls-Represents casts calls q hs r in
      (
        r',
        keep_last-Represents q'.parameters logs r',
        λ k count h binds e small size.
            let (m, found, agrees) = set_at k h q'.parameters logs r' e in
            let ((bs, ok', size', all), _) =
              generate_binds_lem C count m binds small size (Agrees-Matches m h agrees) in
            (m, found, bs, ok', λ p below. all p below ∙ ap some (bound-Agrees m h (suc p) agrees)),
      )
