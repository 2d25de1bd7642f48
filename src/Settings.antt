-- ===== src/Settings.antt =====
-- The settings and the state queries of src/mysql/Database.cpp, called by the main thread.
use Prim.Native.String.{String}
use my_sqloo.Base.{ℕ, Bool, true, false, not, ◌||◌, Option, none, some, if◌then◌else◌}
use my_sqloo.Client.{Client}
use my_sqloo.Objects.{
  Database, DatabaseStatus, database_connected, database_connecting, database_not_connected,
  SslSettings, State,
}
use my_sqloo.Outcome.{Checked, done, thrown}

unfoldable pub is_not_connected : DatabaseStatus → Bool
is_not_connected database_not_connected = true
is_not_connected _ = false

unfoldable pub is_connected : DatabaseStatus → Bool
is_connected database_connected = true
is_connected _ = false

-- `m_status != DATABASE_NOT_CONNECTED || startedConnecting`
unfoldable pub has_started : Database → Bool
unfolding is_not_connected
has_started db = not (is_not_connected db.status) || db.started_connecting

abbrev pub already_connected : String
already_connected = "Database already connected."

-- The thread that `connect` starts runs `connectRun`.
unfoldable pub connect : Database → Checked Database
unfolding has_started
connect db =
    if has_started db
    then thrown already_connected
    else done
        (record db { can_wait = true; started_connecting = true; status = database_connecting })

unfoldable pub set_should_auto_reconnect : Bool → Database → Checked Database
unfolding has_started
set_should_auto_reconnect auto_reconnect db =
    if has_started db
    then thrown already_connected
    else done (record db { should_auto_reconnect = auto_reconnect })

unfoldable pub set_multi_statements : Bool → Database → Checked Database
unfolding has_started
set_multi_statements multi_statement db =
    if has_started db
    then thrown already_connected
    else done (record db { use_multi_statements = multi_statement })

unfoldable pub set_ssl_settings : SslSettings → Database → Checked Database
unfolding is_not_connected
set_ssl_settings settings db =
    if not (is_not_connected db.status)
    then thrown "Cannot set SSL settings after connecting!"
    else done (record db { custom_ssl_settings = settings })

unfoldable pub set_cache_prepared_statements : Bool → Database → Checked Database
unfolding is_not_connected
set_cache_prepared_statements should_cache db =
    if not (is_not_connected db.status)
    then thrown "setCachePreparedStatements has to be called before db:start()!"
    else done (record db { cache_prepared_statements = should_cache })

unfoldable pub set_connect_timeout : ℕ → Database → Database
set_connect_timeout timeout db = record db { connect_timeout = timeout }

unfoldable pub set_read_timeout : ℕ → Database → Database
set_read_timeout timeout db = record db { read_timeout = timeout }

unfoldable pub set_write_timeout : ℕ → Database → Database
set_write_timeout timeout db = record db { write_timeout = timeout }

unfoldable pub set_ssl_mode : ℕ → Database → Database
set_ssl_mode mode db = record db { ssl_mode = some mode }

unfoldable pub server_version : Database → Checked ℕ
server_version db =
    if not db.connection_done
    then thrown "Tried to get server version when client is not connected to server yet!"
    else done db.server_version

abbrev no_server_info : String
no_server_info = "Tried to get server info when client is not connected to server yet!"

unfoldable pub server_info : Database → Checked String
server_info db = if not db.connection_done then thrown no_server_info else done db.server_info

unfoldable pub host_info : Database → Checked String
host_info db = if not db.connection_done then thrown no_server_info else done db.host_info

-- `wait` of the database: `true` if the caller sleeps until the connection attempt is done.
unfoldable pub wait : Database → Checked Bool
wait db =
    if not db.started_connecting
    then thrown "Tried to wait for database connection to finish without starting the connection!"
    else done (not db.connection_done)

module _ (C : Client) where
  open C use {World, set_character_set as mysql_set_character_set}

  abbrev run_set_character_set : Option ℕ → String → State World → Checked (Bool × State World)
  run_set_character_set none name s = thrown "Database needs to be connected to change charset."
  run_set_character_set (some sql) name s =
      let (failed, w) = mysql_set_character_set sql name s.world in
      done (not failed, record s { world = w })

  unfoldable pub set_character_set : String → State World → Checked (Bool × State World)
  unfolding is_connected
  set_character_set name s =
      if not (is_connected s.db.status)
      then thrown "Database needs to be connected to change charset."
      else run_set_character_set s.db.sql name s
