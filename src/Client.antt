-- ===== src/Client.antt =====
-- The C client library of MySQL or MariaDB (mysql/mysql.h), which the repository does not hold: a
-- parameter of the model. Handles (MYSQL *, MYSQL_STMT *) are numbers, bytes are numbers below 256,
-- and `World` is the state of the library and of the servers behind it. A function that returns
-- nonzero on failure returns `true` here.
use my_sqloo.Base.{ℕ, Bool, String, List, Option}

abbrev pub Bytes : Type 0
Bytes = List ℕ

pub record Field : Type 0 where
  pub name : String
  pub type : ℕ
  pub max_length : ℕ

-- What `mysql_fetch_row` and `mysql_fetch_lengths` give: the cells of a row, null for SQL NULL.
pub record Row : Type 0 where
  pub cell : ℕ → Option Bytes
  pub lengths : ℕ → ℕ

-- What `mysql_stmt_fetch` leaves in the buffers that were bound.
pub record BoundRow : Type 0 where
  pub is_null : ℕ → Bool
  pub buffer : ℕ → Bytes
  pub length : ℕ → ℕ

-- Results 0, 1 and any other of `mysql_stmt_fetch`.
pub data Fetch : Type 0 where
  fetched : BoundRow → Fetch
  fetch_failed no_data : Fetch

-- Results 0, -1 and above 0 of `mysql_next_result` and `mysql_stmt_next_result`.
pub data Next : Type 0 where
  next_found next_none next_failed : Next

pub record ConnectOptions : Type 0 where
  pub host : String
  pub username : String
  pub pw : String
  pub database : String
  pub port : ℕ
  pub socket : Option String
  pub multi_statements : Bool

pub data SqlOption : Type 0 where
  ssl_mode connect_timeout read_timeout write_timeout : ℕ → SqlOption
  ssl_key ssl_cert ssl_ca ssl_capath ssl_cipher : String → SqlOption

-- A parameter of a prepared statement as it is bound; `bind_reset` is `MYSQL_BIND{}`. A double is
-- its bit pattern.
pub data Bind : Type 0 where
  bind_reset bind_null : Bind
  bind_double : ℕ → Bind
  bind_long : ℕ → Bind
  bind_string : Bytes → Bind

-- The error codes of mysql/errmsg.h and mysql/mysqld_error.h that the program names.
pub record ErrorCodes : Type 0 where
  pub cr_server_lost : ℕ
  pub cr_server_gone_error : ℕ
  pub er_max_prepared_stmt_count_reached : ℕ
  pub er_server_shutdown : ℕ
  pub er_unknown_stmt_handler : ℕ
  pub er_client_interaction_timeout : ℕ
  pub cr_no_prepare_stmt : ℕ

-- `format text n` is the text followed by the number, as a `std::stringstream` writes them.
pub record Client : Type 1 where
  pub codes : ErrorCodes
  pub format : String → ℕ → String
  pub World : Type 0
  pub Res : Type 0
  pub init : World → Option ℕ × World
  pub options : ℕ → SqlOption → World → World
  pub real_connect : ℕ → ConnectOptions → World → Bool × World
  pub close : ℕ → World → World
  pub error : ℕ → World → String
  pub errno : ℕ → World → ℕ
  pub get_server_version : ℕ → World → ℕ
  pub get_server_info : ℕ → World → String
  pub get_host_info : ℕ → World → String
  pub set_character_set : ℕ → String → World → Bool × World
  pub ping : ℕ → World → Bool × World
  pub real_query : ℕ → String → World → Bool × World
  pub store_result : ℕ → World → Option Res × World
  pub free_result : Res → World → World
  pub next_result : ℕ → World → Next × World
  pub insert_id : ℕ → World → ℕ
  pub affected_rows : ℕ → World → ℕ
  pub autocommit : ℕ → Bool → World → Bool × World
  pub commit : ℕ → World → Bool × World
  pub rollback : ℕ → World → World
  pub num_fields : Res → ℕ
  pub fetch_field_direct : Res → ℕ → Field
  pub fetch_fields : Res → ℕ → Field
  pub fetch_row : Res → Option (Row × Res)
  pub stmt_init : ℕ → World → Option ℕ × World
  pub stmt_attr_set : ℕ → World → World
  pub stmt_prepare : ℕ → String → World → Bool × World
  pub stmt_close : ℕ → World → World
  pub stmt_param_count : ℕ → World → ℕ
  pub stmt_bind_param : ℕ → List Bind → World → Bool × World
  pub stmt_execute : ℕ → World → Bool × World
  pub stmt_affected_rows : ℕ → World → ℕ
  pub stmt_insert_id : ℕ → World → ℕ
  pub stmt_result_metadata : ℕ → World → Option Res × World
  pub stmt_store_result : ℕ → World → Bool × World
  pub stmt_free_result : ℕ → World → World
  pub stmt_field_count : ℕ → World → ℕ
  pub stmt_bind_result : ℕ → World → Bool × World
  pub stmt_fetch : ℕ → World → Fetch × World
  pub stmt_next_result : ℕ → World → Next × World
  pub stmt_error : ℕ → World → String
  pub stmt_errno : ℕ → World → ℕ
