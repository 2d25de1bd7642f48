-- ===== src/Bindings.antt =====
-- The functions of src/lua that check their arguments and call the database or a query. The arguments of a
-- call are a parameter, as are the casts of a Lua number, which is a double.
pub mod Configure
pub mod Configured
pub mod Parameters
pub mod Results
pub mod Start
pub mod Options
pub mod Lifetime
use my_sqloo.Base.{ℕ, Bool, String, if◌then◌else◌}
use my_sqloo.Client.{Bytes}
use my_sqloo.Outcome.{Checked, done, thrown}

pub data LuaType : Type 0 where
  string_type number_type bool_type : LuaType

-- The stack of a call: the number of arguments, and what `IsType`, `GetString`, `GetNumber` and `GetBool`
-- say of each. `CheckType` raises the error `bad_argument`. A double is its bit pattern.
pub record LuaArguments : Type 0 where
  pub top : ℕ
  pub is_type : ℕ → LuaType → Bool
  pub get_string : ℕ → String
  pub get_bytes : ℕ → Bytes
  pub get_number : ℕ → ℕ
  pub get_bool : ℕ → Bool
  pub bad_argument : ℕ → LuaType → String

-- `(int)` and `(unsigned int)` of a double, as 32 bits.
pub record Casts : Type 0 where
  pub to_int : ℕ → ℕ
  pub to_unsigned : ℕ → ℕ

-- `CheckType` before the rest of a function, which an error of Lua skips.
abbrev pub check_type : {A : Type 0} → LuaArguments → ℕ → LuaType → Checked A → Checked A
check_type args i type rest =
    if args.is_type i type then rest else thrown (args.bad_argument i type)

-- An argument that counts only if it has the type.
abbrev pub optional_argument : {A : Type 0} → LuaArguments → ℕ → LuaType → A → A → A
optional_argument args i type value default = if args.is_type i type then value else default

-- A call that throws leaves the object as it was.
abbrev pub settle : {A : Type 0} → Checked A → A → A
settle (done x) old = x
settle (thrown message) old = old
