-- ===== src/Objects.antt =====
-- The objects of src/mysql as records: query data (IQuery.h, Query.h, PreparedQuery.h,
-- Transaction.h), queries, statement handles (StatementHandle.h), the database (Database.h) and the
-- store that holds them. A shared pointer is the address of its object in the store.
use my_sqloo.Base.{ℕ, Bool, String, List, [], ◌∷◌, Option}
use my_sqloo.Client.{Bytes}

pub data QueryStatus : Type 0 where
  query_not_running query_running query_complete query_aborted query_waiting : QueryStatus

pub data QueryResultStatus : Type 0 where
  query_none query_error query_success : QueryResultStatus

pub data DatabaseStatus : Type 0 where
  database_connected database_connecting database_not_connected : DatabaseStatus
  database_connection_failed : DatabaseStatus

pub record ResultDataRow : Type 0 where
  pub values : List Bytes
  pub null_fields : List Bool

pub record ResultData : Type 0 where
  pub column_count : ℕ
  pub columns : List String
  pub column_types : List ℕ
  pub rows : List ResultDataRow

-- `m_type` with `m_data`, which the subclass `TypedQueryField` adds. A double is its bit pattern.
pub data FieldValue : Type 0 where
  double_field : ℕ → FieldValue
  bit_field : Bool → FieldValue
  string_field : Bytes → FieldValue
  null_field : FieldValue

pub record PreparedQueryField : Type 0 where
  pub index : ℕ
  pub value : FieldValue

-- `std::unordered_map` from the index.
abbrev pub Parameters : Type 0
Parameters = List (ℕ × PreparedQueryField)

-- `IQueryData` with the fields of its subclasses: those of `QueryData` up to `results`, of
-- `PreparedQueryData` (`parameters`) and of `TransactionData` (`queries`).
pub record IQueryData : Type 0 where
  pub error_text : String
  pub finished : Bool
  pub status : QueryStatus
  pub result_status : QueryResultStatus
  pub was_first_data : Bool
  pub success_reference : ℕ
  pub error_reference : ℕ
  pub abort_reference : ℕ
  pub on_data_reference : ℕ
  pub table_reference : ℕ
  pub affected_rows : List ℕ
  pub insert_ids : List ℕ
  pub results : List ResultData
  pub parameters : List Parameters
  pub queries : List (ℕ × ℕ)

-- The class of a query.
pub data Kind : Type 0 where
  query_kind prepared_kind transaction_kind ping_kind : Kind

-- `IQuery` with the fields of its subclasses: `sql` and `data_reference` of `Query`, `parameters`
-- and `cached_statement` of `PreparedQuery`, `ping_success` of `PingQuery`.
pub record IQuery : Type 0 where
  pub kind : Kind
  pub options : ℕ
  pub running_query_data : List ℕ
  pub has_been_started : Bool
  pub callback_query_data : Option ℕ
  pub sql : String
  pub data_reference : ℕ
  pub parameters : List Parameters
  pub cached_statement : Option ℕ
  pub ping_success : Bool

pub record StatementHandle : Type 0 where
  pub stmt : Option ℕ
  pub valid : Bool

-- An element of a queue: the pair of two null pointers, or a query with its data.
pub data Entry : Type 0 where
  pill : Entry
  pair : ℕ → ℕ → Entry

pub record SslSettings : Type 0 where
  pub key : String
  pub cert : String
  pub ca : String
  pub capath : String
  pub cipher : String

pub record Database : Type 0 where
  pub finished_queries : List Entry
  pub query_queue : List Entry
  pub cached_statements : List ℕ
  pub freed_statements : List ℕ
  pub sql : Option ℕ
  pub server_version : ℕ
  pub server_info : String
  pub host_info : String
  pub connection_err : String
  pub should_auto_reconnect : Bool
  pub use_multi_statements : Bool
  pub started_connecting : Bool
  pub can_wait : Bool
  pub waiting_query : Option (ℕ × ℕ)
  pub success : Bool
  pub disconnected : Bool
  pub connection_done : Bool
  pub cache_prepared_statements : Bool
  pub database : String
  pub host : String
  pub username : String
  pub pw : String
  pub socket : String
  pub port : ℕ
  pub ssl_mode : Option ℕ
  pub custom_ssl_settings : SslSettings
  pub read_timeout : ℕ
  pub write_timeout : ℕ
  pub connect_timeout : ℕ
  pub status : DatabaseStatus

-- One database with its objects, and the state of the client library.
pub record State (World : Type 0) : Type 0 where
  pub db : Database
  pub queries : ℕ → IQuery
  pub query_data : ℕ → IQueryData
  pub handles : ℕ → StatementHandle
  pub next_handle : ℕ
  pub world : World

-- A queue that holds these queries and their data, and no pill.
abbrev pub entries : List (ℕ × ℕ) → List Entry
entries [] = []
entries ((query, d) ∷ rest) = pair query d ∷ entries rest
