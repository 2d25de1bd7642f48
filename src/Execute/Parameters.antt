-- ===== src/Execute/Parameters.antt =====
-- The parameters of a prepared query and the binds made of them, src/mysql/PreparedQuery.cpp.
pub mod Binds
use my_sqloo.Base.{
  ℕ, zero, suc, ◌+◌, ◌-◌, ◌^◌, ◌%◌, Option, none, some, List, [], ◌∷◌, ◌++◌, ◌==◌, if◌then◌else◌,
  ltb, leb,
}
use my_sqloo.Client.{Client, Bind, bind_reset, bind_null, bind_double, bind_long, bind_string}
use my_sqloo.Objects.{
  FieldValue, double_field, bit_field, string_field, null_field, PreparedQueryField, Parameters,
  IQuery,
}
use my_sqloo.Outcome.{Outcome, ok, throw, sql_error, Checked, done, thrown}

-- `std::unordered_map::find` and `operator[]` with an assignment.
unfoldable pub find : ℕ → Parameters → Option PreparedQueryField
find i [] = none
find i ((j, field) ∷ rest) = let later = find i rest in if j == i then some field else later

unfoldable pub assign : ℕ → PreparedQueryField → Parameters → Parameters
assign i field [] = (i, field) ∷ []
assign i field ((j, old) ∷ rest) =
    let later = assign i field rest in if j == i then (i, field) ∷ rest else (j, old) ∷ later

-- A write to the last set of parameters.
unfoldable pub assign_last : ℕ → PreparedQueryField → List Parameters → List Parameters
unfolding assign
assign_last i field [] = []
assign_last i field (ps ∷ []) = assign i field ps ∷ []
assign_last i field (ps ∷ qs ∷ rest) = ps ∷ assign_last i field (qs ∷ rest)

-- `setNumber`, `setString`, `setBoolean` and `setNull`, by the value that is set.
unfoldable pub set_field : ℕ → FieldValue → IQuery → Checked IQuery
unfolding assign_last
set_field index value q =
    if ltb index 1
    then thrown "Index must be greater than 0"
    else done (record q {
      parameters = assign_last index (record { index = index; value = value }) q.parameters;
    })

unfoldable pub put_new_parameters : IQuery → IQuery
put_new_parameters q = record q { parameters = q.parameters ++ ([] ∷ []) }

unfoldable pub clear_parameters : IQuery → IQuery
clear_parameters q = record q { parameters = [] ∷ [] }

-- `while (m_parameters.size() > 1) m_parameters.pop_front();`
unfoldable pub keep_last : List Parameters → List Parameters
keep_last [] = []
keep_last (ps ∷ []) = ps ∷ []
keep_last (ps ∷ qs ∷ rest) = keep_last (qs ∷ rest)

-- The parameters that `buildQueryData` hands to the data, and the query that is left.
unfoldable pub take_parameters : IQuery → List Parameters × IQuery
unfolding keep_last
take_parameters q = (q.parameters, record q { parameters = keep_last q.parameters })

unfoldable pub bind_of : FieldValue → Bind
bind_of (double_field value) = bind_double value
bind_of (bit_field value) = bind_long (if value then 1 else 0)
bind_of (string_field value) = bind_string value
bind_of null_field = bind_null

-- `binds[index] = bind`
abbrev pub write_bind : ℕ → Bind → List Bind → List Bind
write_bind i b [] = []
write_bind zero b (old ∷ rest) = b ∷ rest
write_bind (suc i) b (old ∷ rest) = old ∷ write_bind i b rest

abbrev pub Generated : Type 0
Generated = Outcome (List Bind)

-- `std::vector<MYSQL_BIND>(parameterCount)`
abbrev pub no_binds : ℕ → List Bind
no_binds zero = []
no_binds (suc n) = bind_reset ∷ no_binds n

-- `m_index - 1` as an unsigned int.
unfoldable pub field_position : PreparedQueryField → ℕ
field_position field = (field.index + 2 ^ 32 - 1) % 2 ^ 32

module _ (C : Client) where
  open C use {format}

  -- One round of the loop of `generateMysqlBinds`, for parameter `i`.
  unfoldable pub generate_bind : ℕ → ℕ → Option PreparedQueryField → List Bind → Generated
  unfolding bind_of field_position
  generate_bind count i none binds =
      ok (write_bind (i - 1) bind_null (write_bind (i - 1) bind_reset binds))
  generate_bind count i (some field) binds =
      let index = field_position field in
      if leb count index
      then throw (sql_error 0 (format "Invalid parameter index " ((index + 1) % 2 ^ 32)))
      else ok (write_bind index (bind_of field.value) (write_bind (i - 1) bind_reset binds))

  -- The rounds for the parameters `i` up to `i + n - 1`.
  unfoldable pub generate_from : ℕ → ℕ → ℕ → Parameters → List Bind → Generated
  generate_from zero count i map binds = ok binds
  generate_from (suc n) count i map binds = elim (generate_bind count i (find i map) binds) [
    | ok binds' ↦ generate_from n count (i + 1) map binds'
    | throw e ↦ throw e
  ]

  unfoldable pub generate_binds : Parameters → ℕ → List Bind → Generated
  generate_binds map count binds = generate_from count count 1 map binds
