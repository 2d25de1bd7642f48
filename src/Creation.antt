-- ===== src/Creation.antt =====
-- New objects: the constructors and factories of src/mysql/Database.cpp, IQuery.cpp, Query.cpp,
-- PreparedQuery.cpp, PingQuery.cpp and Transaction.cpp, with the member initialisers of the headers.
use my_sqloo.Base.{ℕ, true, false, String, none, List, [], ◌∷◌}
use my_sqloo.Execute.Parameters.{take_parameters}
use my_sqloo.IQuery.{default_options}
use my_sqloo.Objects.{
  Kind, query_kind, prepared_kind, transaction_kind, query_not_running, query_none,
  database_not_connected, IQueryData, IQuery, Database,
}

unfoldable pub new_data : IQueryData
new_data = record {
  error_text = "";
  finished = false;
  status = query_not_running;
  result_status = query_none;
  was_first_data = false;
  success_reference = 0;
  error_reference = 0;
  abort_reference = 0;
  on_data_reference = 0;
  table_reference = 0;
  affected_rows = [];
  insert_ids = [];
  results = [];
  parameters = [];
  queries = [];
}

unfoldable pub new_iquery : Kind → String → IQuery
unfolding default_options
new_iquery kind sql = record {
  kind = kind;
  options = default_options;
  running_query_data = [];
  has_been_started = false;
  callback_query_data = none;
  sql = sql;
  data_reference = 0;
  parameters = [];
  cached_statement = none;
  ping_success = false;
}

-- `Database::query`, `Database::prepare`, `Database::transaction`
unfoldable pub query : String → IQuery
unfolding new_iquery
query sql = new_iquery query_kind sql

unfoldable pub prepare : String → IQuery
unfolding new_iquery
prepare sql = record (new_iquery prepared_kind sql) { parameters = [] ∷ [] }

unfoldable pub transaction : IQuery
unfolding new_iquery
transaction = new_iquery transaction_kind ""

-- `buildQueryData` of a query, of a prepared query and of a transaction.
unfoldable pub build_query_data : IQueryData
unfolding new_data
build_query_data = new_data

unfoldable pub build_prepared_data : IQuery → IQueryData × IQuery
unfolding new_data take_parameters
build_prepared_data q =
    let (parameters, q') = take_parameters q in (record new_data { parameters = parameters }, q')

unfoldable pub build_transaction_data : List (ℕ × ℕ) → IQueryData
unfolding new_data
build_transaction_data queries = record new_data { queries = queries }

-- `createDatabase`
unfoldable pub create_database : String → String → String → String → ℕ → String → Database
create_database host username pw database port socket = record {
  finished_queries = [];
  query_queue = [];
  cached_statements = [];
  freed_statements = [];
  sql = none;
  server_version = 0;
  server_info = "";
  host_info = "";
  connection_err = "";
  should_auto_reconnect = true;
  use_multi_statements = true;
  started_connecting = false;
  can_wait = false;
  waiting_query = none;
  success = true;
  disconnected = false;
  connection_done = false;
  cache_prepared_statements = true;
  database = database;
  host = host;
  username = username;
  pw = pw;
  socket = socket;
  port = port;
  ssl_mode = none;
  custom_ssl_settings = record { key = ""; cert = ""; ca = ""; capath = ""; cipher = "" };
  read_timeout = 0;
  write_timeout = 0;
  connect_timeout = 0;
  status = database_not_connected;
}
