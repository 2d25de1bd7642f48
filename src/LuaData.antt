-- ===== src/LuaData.antt =====
-- How src/lua/LuaQuery.cpp turns a result set into Lua tables. The numbers of Lua are a parameter, with
-- `atof` and the conversion of an unsigned integer to a double; a table that was just created is the list
-- of the writes to it, the last one first, and a value that a table holds is not changed after.
pub mod Bits
pub mod Rows
use Prim.Native.Nat.{bit_or}
use my_sqloo.Base.{
  ℕ, zero, suc, ◌*◌, ◌+◌, ◌%◌, ◌^◌, Bool, true, false, String, Option, none, some, List, [], ◌∷◌,
  ◌||◌, not, ◌&&◌, ◌==◌, if◌then◌else◌, is_some,
}
use my_sqloo.Client.{Bytes}
use my_sqloo.Objects.{ResultData, ResultDataRow, IQuery, IQueryData, State}
use my_sqloo.IQuery.{has_option, option_numeric_fields, set_query}
use my_sqloo.QueryData.{has_more_results}

-- `bitValue << 8 | byte` on 64 bits.
unfoldable pub push_byte : ℕ → ℕ → ℕ
push_byte value byte = bit_or (value * 256 % 2 ^ 64) byte

-- The loop over the bytes, with the rounds that are left of 8.
unfoldable pub bit_rounds : ℕ → ℕ → Bytes → ℕ
bit_rounds zero value bytes = value
bit_rounds (suc rounds) value [] = value
bit_rounds (suc rounds) value (byte ∷ bytes) = bit_rounds rounds (push_byte value byte) bytes

unfoldable pub bit_value : Bytes → ℕ
bit_value bytes = bit_rounds 8 0 bytes

-- The constants of `enum_field_types` that the program names.
pub record FieldTypes : Type 0 where
  pub type_float : ℕ
  pub type_double : ℕ
  pub type_longlong : ℕ
  pub type_long : ℕ
  pub type_int24 : ℕ
  pub type_tiny : ℕ
  pub type_short : ℕ
  pub type_bit : ℕ
  pub type_null : ℕ

unfoldable pub is_number : FieldTypes → ℕ → Bool
is_number types type =
    type == types.type_float
    || (type == types.type_double
        || (type == types.type_longlong
            || (type == types.type_long
                || (type == types.type_int24
                    || (type == types.type_tiny || type == types.type_short)))))

pub data Key : Type 0 where
  at_index : ℕ → Key
  at_name : String → Key

-- `hasOption(OPTION_NUMERIC_FIELDS)` chooses the keys.
unfoldable pub key_of : Bool → ℕ → String → Key
key_of numeric column name = if numeric then at_index column else at_name name

pub data Cell (Number : Type 0) : Type 0 where
  lua_nil : Cell Number
  lua_number : Number → Cell Number
  lua_string : Bytes → Cell Number

module _ {Number : Type 0} (types : FieldTypes) (atof : Bytes → Number)
    (of_unsigned : ℕ → Number) where
  unfoldable pub convert : ℕ → Bytes → Bool → Cell Number
  unfolding is_number
  convert type value true = lua_nil
  convert type value false =
      if is_number types type
      then lua_number (atof value)
      else if type == types.type_bit
      then lua_number (of_unsigned (bit_value value))
      else if type == types.type_null
      then lua_nil
      else lua_string value

  -- The loop over the columns of a row from the given one on; none where a sequence is read behind its
  -- end.
  unfoldable pub row_table :
      Bool
      → ℕ
      → List Bytes
      → List String
      → List ℕ
      → List Bool
      → List (Key × Cell Number)
      → Option (List (Key × Cell Number))
  unfolding convert
  row_table numeric column (value ∷ values) (name ∷ names) (type ∷ rest) (is_null ∷ nulls) table =
      row_table numeric (suc column) values names rest nulls
        ((key_of numeric column name, convert type value is_null) ∷ table)
  row_table numeric column [] names rest nulls table = some table
  row_table numeric column (value ∷ values) [] rest nulls table = none
  row_table numeric column (value ∷ values) (name ∷ names) [] nulls table = none
  row_table numeric column (value ∷ values) (name ∷ names) (type ∷ rest) [] table = none

  abbrev pub DataTable : Type 0
  DataTable = List (ℕ × List (Key × Cell Number))

  -- The loop over the rows from the given number on.
  unfoldable pub data_rows :
      Bool → ResultData → ℕ → List ResultDataRow → DataTable → Option DataTable
  unfolding row_table
  data_rows numeric result i [] table = some table
  data_rows numeric result i (row ∷ rows) table =
      elim (row_table numeric 1 row.values result.columns result.column_types row.null_fields []) [
        | none ↦ none
        | some t ↦ data_rows numeric result (suc i) rows ((suc i, t) ∷ table)
      ]

  -- What `createDataReference` puts into a new table, where the query has callback data or not.
  unfoldable pub contents_with : Bool → Bool → IQueryData → Option DataTable
  unfolding data_rows
  contents_with has_callback_data numeric v =
      if has_callback_data && has_more_results v
      then elim v.results [ [] ↦ none | result ∷ rest ↦ data_rows numeric result 0 result.rows [] ]
      else some []

  unfoldable pub contents : IQuery → IQueryData → Option DataTable
  unfolding contents_with
  contents q v =
      contents_with (is_some q.callback_query_data) (has_option q option_numeric_fields) v

  module _ {World Lua : Type 0} (reference_create : DataTable → Lua → ℕ × Lua)
      (reference_free : ℕ → Lua → Lua) where
    abbrev pub set_data_reference : ℕ → ℕ → State World → State World
    set_data_reference query ref s =
        set_query query (record (s.queries query) { data_reference = ref }) s

    unfoldable pub create_data_reference :
        ℕ → ℕ → State World × Lua → Option (ℕ × (State World × Lua))
    create_data_reference query d (s, lua) =
        let q = s.queries query in
        if not (q.data_reference == 0)
        then some (q.data_reference, (s, lua))
        else elim (contents q (s.query_data d)) [
          | none ↦ none
          | some table ↦
              let (ref, lua') = reference_create table lua in
              some (ref, (set_data_reference query ref s, lua'))
        ]

    unfoldable pub free_data_reference : ℕ → State World × Lua → State World × Lua
    free_data_reference query (s, lua) =
        let q = s.queries query in
        if not (q.data_reference == 0)
        then (set_data_reference query 0 s, reference_free q.data_reference lua)
        else (s, lua)
