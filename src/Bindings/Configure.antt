-- ===== src/Bindings/Configure.antt =====
-- The settings of a database as Lua calls them, src/lua/LuaDatabase.cpp: `create` and the setters.
use my_sqloo.Base.{ℕ, ◌+◌, ◌%◌, ◌^◌, Bool, ◌||◌, String, ◌==◌, ltb, if◌then◌else◌}
use my_sqloo.Bindings.{
  LuaArguments, Casts, string_type, number_type, bool_type, check_type, optional_argument,
}
use my_sqloo.Client.{Client}
use my_sqloo.Creation.{create_database}
use my_sqloo.Objects.{Database, State}
use my_sqloo.Outcome.{Checked, done, thrown}
use my_sqloo.Settings.{
  set_should_auto_reconnect, set_multi_statements, set_ssl_settings, set_cache_prepared_statements,
  set_connect_timeout, set_read_timeout, set_write_timeout, set_ssl_mode, set_character_set,
}

-- `<` of the signed numbers with these 32 bits.
abbrev pub int_ltb : ℕ → ℕ → Bool
int_ltb a b = ltb ((a + 2 ^ 31) % 2 ^ 32) ((b + 2 ^ 31) % 2 ^ 32)

-- The first and the last constant of `mysql_ssl_mode`.
pub record SslModes : Type 0 where
  pub disabled : ℕ
  pub verify_identity : ℕ

abbrev pub invalid_timeout : String
invalid_timeout = "Timeout must be at least 1"

module _ (casts : Casts) where
  -- `create` up to the Lua object that it makes of the database.
  unfoldable pub create : LuaArguments → Checked Database
  create args = check_type args 1 string_type (
      check_type args 2 string_type (
        check_type args 3 string_type (
          check_type args 4 string_type (
            done (
              create_database (args.get_string 1) (args.get_string 2) (args.get_string 3)
                (args.get_string 4)
                (optional_argument args 5 number_type (casts.to_int (args.get_number 5)) 3306)
                (optional_argument args 6 string_type (args.get_string 6) ""))))))

  unfoldable pub lua_set_ssl_mode : SslModes → LuaArguments → Database → Checked Database
  lua_set_ssl_mode modes args db =
      let mode = casts.to_int (args.get_number 2) in
      check_type args 2 number_type (
        if int_ltb mode modes.disabled || int_ltb modes.verify_identity mode
        then thrown "Invalid SSL mode"
        else done (set_ssl_mode mode db))

  -- The three setters of a timeout.
  unfoldable pub lua_set_timeout :
      (ℕ → Database → Database) → LuaArguments → Database → Checked Database
  lua_set_timeout setter args db =
      let timeout = casts.to_int (args.get_number 2) in
      if timeout == 0 then thrown invalid_timeout else done (setter timeout db)

unfoldable pub lua_set_ssl_settings : LuaArguments → Database → Checked Database
lua_set_ssl_settings args db =
    let text : ℕ → String = λ i. optional_argument args i string_type (args.get_string i) "" in
    set_ssl_settings
      (record { key = text 2; cert = text 3; ca = text 4; capath = text 5; cipher = text 6 }) db

-- The three setters of a flag.
unfoldable pub lua_set_flag :
    (Bool → Database → Checked Database) → LuaArguments → Database → Checked Database
lua_set_flag setter args db = check_type args 2 bool_type (setter (args.get_bool 2) db)

-- The setters that Lua can call.
pub data Setter : Type 0 where
  ssl_mode_setter ssl_settings_setter : Setter
  read_timeout_setter write_timeout_setter connect_timeout_setter : Setter
  auto_reconnect_setter multi_statements_setter cache_setter : Setter

module _ (casts : Casts) (modes : SslModes) where
  unfoldable pub call_setter : Setter → LuaArguments → Database → Checked Database
  call_setter ssl_mode_setter args db = lua_set_ssl_mode casts modes args db
  call_setter ssl_settings_setter args db = lua_set_ssl_settings args db
  call_setter read_timeout_setter args db = lua_set_timeout casts set_read_timeout args db
  call_setter write_timeout_setter args db = lua_set_timeout casts set_write_timeout args db
  call_setter connect_timeout_setter args db = lua_set_timeout casts set_connect_timeout args db
  call_setter auto_reconnect_setter args db = lua_set_flag set_should_auto_reconnect args db
  call_setter multi_statements_setter args db = lua_set_flag set_multi_statements args db
  call_setter cache_setter args db = lua_set_flag set_cache_prepared_statements args db

module _ (C : Client) where
  unfoldable pub lua_set_character_set :
      LuaArguments → State C.World → Checked (Bool × State C.World)
  lua_set_character_set args s =
      check_type args 2 string_type (set_character_set C (args.get_string 2) s)
