-- ===== src/Tests/Fixtures.antt =====
-- A client library and states for the tests. The library keeps the log of the calls that matter:
-- 10 for `mysql_autocommit`, 20 for `mysql_rollback`, 1 for `mysql_real_query` and 1000 and the number
-- of the statement for `mysql_stmt_close`. A third call in the log of the server fails.
use my_sqloo.Base.{
  ℕ, ◌+◌, true, false, none, some, List, [], ◌∷◌, length, leb, ltb, if◌then◌else◌, ◌==◌,
}
use my_sqloo.Client.{Client, ErrorCodes, Field, no_data, next_none}
use my_sqloo.Objects.{
  pill, pair, query_waiting, query_none, query_kind, database_connected, IQueryData, IQuery,
  StatementHandle, Database, ResultData, State,
}

abbrev pub test_codes : ErrorCodes
test_codes = record {
  cr_server_lost = 2013;
  cr_server_gone_error = 2006;
  er_max_prepared_stmt_count_reached = 1461;
  er_server_shutdown = 1053;
  er_unknown_stmt_handler = 1243;
  er_client_interaction_timeout = 4031;
  cr_no_prepare_stmt = 2030;
}

abbrev test_field : Field
test_field = record { name = "id"; type = 3; max_length = 11 }

abbrev pub test_client : Client
test_client = record {
  codes = test_codes;
  format = λ text n. text;
  World = List ℕ;
  Res = ℕ;
  init = λ w. (some 7, w);
  options = λ sql o w. w;
  real_connect = λ sql o w. (true, w);
  close = λ sql w. w;
  error = λ sql w. "failed";
  errno = λ sql w. if ltb 2 (length w) then 1064 else 0;
  get_server_version = λ sql w. 80036;
  get_server_info = λ sql w. "8.0.36";
  get_host_info = λ sql w. "localhost";
  set_character_set = λ sql name w. (false, w);
  ping = λ sql w. (false, w);
  real_query = λ sql text w. (leb 2 (length w), 1 ∷ w);
  store_result = λ sql w. (none, w);
  free_result = λ res w. w;
  next_result = λ sql w. (next_none, w);
  insert_id = λ sql w. 0;
  affected_rows = λ sql w. 1;
  autocommit = λ sql mode w. (false, 10 ∷ w);
  commit = λ sql w. (false, w);
  rollback = λ sql w. 20 ∷ w;
  num_fields = λ res. 1;
  fetch_field_direct = λ res n. test_field;
  fetch_fields = λ res n. test_field;
  fetch_row = λ res. none;
  stmt_init = λ sql w. (some 40, w);
  stmt_attr_set = λ stmt w. w;
  stmt_prepare = λ stmt sql w. (false, w);
  stmt_close = λ stmt w. (1000 + stmt) ∷ w;
  stmt_param_count = λ stmt w. 0;
  stmt_bind_param = λ stmt binds w. (false, w);
  stmt_execute = λ stmt w. (false, w);
  stmt_affected_rows = λ stmt w. 0;
  stmt_insert_id = λ stmt w. 0;
  stmt_result_metadata = λ stmt w. (none, w);
  stmt_store_result = λ stmt w. (false, w);
  stmt_free_result = λ stmt w. w;
  stmt_field_count = λ stmt w. 0;
  stmt_bind_result = λ stmt w. (false, w);
  stmt_fetch = λ stmt w. (no_data, w);
  stmt_next_result = λ stmt w. (next_none, w);
  stmt_error = λ stmt w. "failed";
  stmt_errno = λ stmt w. 0;
}

abbrev pub one_row : ResultData
one_row = record { column_count = 1; columns = "id" ∷ []; column_types = 3 ∷ []; rows = [] }

-- Data that was queued, without results.
abbrev pub test_data : IQueryData
test_data = record {
  error_text = "";
  finished = false;
  status = query_waiting;
  result_status = query_none;
  was_first_data = false;
  success_reference = 0;
  error_reference = 0;
  abort_reference = 0;
  on_data_reference = 0;
  table_reference = 0;
  affected_rows = [];
  insert_ids = [];
  results = [];
  parameters = [];
  queries = [];
}

abbrev pub transaction_data : IQueryData
transaction_data = record test_data { queries = (1, 11) ∷ (2, 12) ∷ [] }

abbrev pub test_query : IQuery
test_query = record {
  kind = query_kind;
  options = 3;
  running_query_data = 11 ∷ [];
  has_been_started = true;
  callback_query_data = none;
  sql = "SELECT 1";
  data_reference = 0;
  parameters = [];
  cached_statement = none;
  ping_success = false;
}

abbrev pub test_handle : StatementHandle
test_handle = record { stmt = some 40; valid = true }

abbrev pub test_database : Database
test_database = record {
  finished_queries = [];
  query_queue = pair 1 11 ∷ pair 2 12 ∷ pill ∷ [];
  cached_statements = [];
  freed_statements = 50 ∷ [];
  sql = some 7;
  server_version = 0;
  server_info = "";
  host_info = "";
  connection_err = "";
  should_auto_reconnect = true;
  use_multi_statements = true;
  started_connecting = true;
  can_wait = true;
  waiting_query = some (1, 11);
  success = true;
  disconnected = false;
  connection_done = true;
  cache_prepared_statements = true;
  database = "test";
  host = "localhost";
  username = "root";
  pw = "";
  socket = "";
  port = 3306;
  ssl_mode = none;
  custom_ssl_settings = record { key = ""; cert = ""; ca = ""; capath = ""; cipher = "" };
  read_timeout = 0;
  write_timeout = 0;
  connect_timeout = 0;
  status = database_connected;
}

-- Data 10 is a transaction of the queries 1 and 2, whose data is 11 and 12.
abbrev pub test_state : State (List ℕ)
test_state = record {
  db = test_database;
  queries = λ q. test_query;
  query_data = λ d. if d == 10 then transaction_data else test_data;
  handles = λ h. record { stmt = none; valid = false };
  next_handle = 0;
  world = [];
}
