-- ===== src/Connection.antt =====
-- The connection of src/mysql/Database.cpp: `attemptConnection`, `attemptReconnect` and the parts of
-- `connectRun`. Options that are pointers to a field carry the value of the field.
pub mod Outcomes
use Prim.Native.String.{String}
use my_sqloo.Base.{
  ℕ, Bool, true, false, not, ◌&&◌, ◌||◌, Option, none, some, if◌then◌else◌, ltb, ◌==◌,
}
use my_sqloo.Client.{
  Client, ErrorCodes, ConnectOptions, SqlOption, connect_timeout, read_timeout, write_timeout,
  ssl_mode, ssl_key, ssl_cert, ssl_ca, ssl_capath, ssl_cipher,
}
use my_sqloo.Objects.{
  Database, DatabaseStatus, database_connected, database_not_connected, database_connection_failed,
  SslSettings, State,
}
use my_sqloo.Settings.{is_connected}
use my_sqloo.Waiting.{abort_waiting_query}

unfoldable pub is_retriable_error : ErrorCodes → ℕ → Bool
is_retriable_error codes code =
    code == codes.cr_server_lost
    || (code == codes.cr_server_gone_error
        || (code == codes.er_max_prepared_stmt_count_reached
            || (code == codes.er_server_shutdown
                || (code == codes.er_unknown_stmt_handler
                    || (code == codes.er_client_interaction_timeout
                        || code == codes.cr_no_prepare_stmt)))))

abbrev is_empty_text : String → Bool
is_empty_text String.[] = true
is_empty_text (String.◌∷◌ c cs) = false

module _ (C : Client) where
  open C use {
    World, init, options, real_connect, close as mysql_close, error as mysql_error,
    get_server_version, get_server_info, get_host_info,
  }

  abbrev set_text_option : (String → SqlOption) → String → ℕ → World → World
  set_text_option option text sql w =
      if not (is_empty_text text) then options sql (option text) w else w

  unfoldable pub apply_ssl_settings : SslSettings → ℕ → World → World
  apply_ssl_settings settings sql w = set_text_option ssl_cipher settings.cipher sql (
      set_text_option ssl_capath settings.capath sql (
        set_text_option ssl_ca settings.ca sql (
          set_text_option ssl_cert settings.cert sql (set_text_option ssl_key settings.key sql w))))

  abbrev set_timeout : (ℕ → SqlOption) → ℕ → ℕ → World → World
  set_timeout option timeout sql w = if ltb 0 timeout then options sql (option timeout) w else w

  unfoldable pub apply_timeout_settings : Database → ℕ → World → World
  apply_timeout_settings db sql w = set_timeout write_timeout db.write_timeout sql (
      set_timeout read_timeout db.read_timeout sql
        (set_timeout connect_timeout db.connect_timeout sql w))

  abbrev apply_ssl_mode : Option ℕ → ℕ → World → World
  apply_ssl_mode none sql w = w
  apply_ssl_mode (some mode) sql w = options sql (ssl_mode mode) w

  abbrev connect_options : Database → ConnectOptions
  connect_options db = record {
    host = db.host;
    username = db.username;
    pw = db.pw;
    database = db.database;
    port = db.port;
    socket = if is_empty_text db.socket then none else some db.socket;
    multi_statements = db.use_multi_statements;
  }

  unfoldable pub attempt_connection : ℕ → Database → World → Bool × World
  unfolding apply_ssl_settings apply_timeout_settings
  attempt_connection sql db w = real_connect sql (connect_options db) (
      apply_ssl_settings db.custom_ssl_settings sql
        (apply_ssl_mode db.ssl_mode sql (apply_timeout_settings db sql w)))

  abbrev close_if : Option ℕ → World → World
  close_if none w = w
  close_if (some sql) w = mysql_close sql w

  -- `newSql` is connected, or closed again.
  unfoldable pub reconnect_with : ℕ → State World → Bool × State World
  reconnect_with new_sql s =
      let db = s.db in
      let (connected, w) = attempt_connection new_sql db s.world in
      if not connected
      then (false, record s { world = mysql_close new_sql w })
      else (true, record s { db = record db { sql = some new_sql }; world = close_if db.sql w })

  unfoldable pub attempt_reconnect : State World → Bool × State World
  unfolding reconnect_with
  attempt_reconnect s =
      let (new_sql, w) = init s.world in
      let s' = record s { world = w } in
      elim new_sql [ none ↦ (false, s') | some sql ↦ reconnect_with sql s' ]

  abbrev fail_connection : String → State World → State World
  fail_connection err s =
      let db = s.db in
      record s {
        db = record db {
          success = false;
          connection_err = err;
          connection_done = true;
          status = database_connection_failed;
        };
      }

  -- The failed branch of `connectRun`: the handle is closed and nulled, and a wait is ended.
  unfoldable pub give_up_connection : ℕ → State World → State World
  give_up_connection sql s =
      let failed = fail_connection (mysql_error sql s.world) s in
      let db = failed.db in
      (abort_waiting_query
        (record failed { db = record db { sql = none }; world = mysql_close sql failed.world })).0

  unfoldable pub accept_connection : ℕ → State World → State World
  accept_connection sql s =
      let db = s.db in
      record s {
        db = record db {
          success = true;
          connection_err = "";
          connection_done = true;
          status = database_connected;
          server_version = get_server_version sql s.world;
          server_info = get_server_info sql s.world;
          host_info = get_host_info sql s.world;
        };
      }

  -- The connection attempt of `connectRun` on a fresh handle. `true`: the thread goes on to `run`.
  unfoldable pub connect_with : ℕ → State World → State World × Bool
  connect_with sql s =
      let (connected, w) = attempt_connection sql s.db s.world in
      let s' = record s { world = w } in
      if not connected then (give_up_connection sql s', false) else (accept_connection sql s', true)

  -- `connectRun` up to `run`.
  unfoldable pub open_connection : State World → State World × Bool
  open_connection s =
      let (handle, w) = init s.world in
      let db = s.db in
      let s' = record s { world = w; db = record db { sql = handle } } in
      elim handle [
        | none ↦ (fail_connection "Out of memory" s', false)
        | some sql ↦ connect_with sql s'
      ]

  -- `closeConnection`: `mysql_close` takes the null pointer too.
  unfoldable pub close_connection : State World → State World
  close_connection s =
      let db = s.db in
      (abort_waiting_query
        (record s { db = record db { sql = none }; world = close_if db.sql s.world })).0

  -- `threadEnd`
  unfoldable pub end_thread : State World → State World
  unfolding is_connected
  end_thread s =
      let db = s.db in
      record s {
        db = record db {
          status = if is_connected db.status then database_not_connected else db.status;
          disconnected = true;
        };
      }

  -- The whole thread, where `run` is what the loop over the queue does until it ends.
  unfoldable pub connect_run : (State World → State World) → State World → State World
  connect_run run s =
      let (s', connected) = open_connection s in
      end_thread (if connected then close_connection (run s') else s')
