-- ===== src/Errors/Message.antt =====
-- The messages of src/ErrorHandler.cpp.
use sql_fuse.Base.{
  Option, Text, [], codes, if◌then◌else◌, is_empty, none, some, to_string, ℕ, ◌++◌, ◌∷◌,
}
use sql_fuse.Errors.Codes.{MysqlCodes, one_of}

unfoldable pub get_error_message : MysqlCodes → ℕ → Text
get_error_message known mysql_error =
    if one_of mysql_error (0 ∷ [])
    then codes "Success"
    else if one_of mysql_error (known.cr_connection_error ∷ [])
    then codes "Connection error"
    else if one_of mysql_error (known.cr_conn_host_error ∷ [])
    then codes "Cannot connect to host"
    else if one_of mysql_error (known.cr_unknown_host ∷ [])
    then codes "Unknown host"
    else if one_of mysql_error (known.cr_server_gone_error ∷ [])
    then codes "MySQL server has gone away"
    else if one_of mysql_error (known.cr_server_lost ∷ [])
    then codes "Lost connection to MySQL server"
    else if one_of mysql_error (known.er_access_denied_error ∷ [])
    then codes "Access denied"
    else if one_of mysql_error (known.er_bad_db_error ∷ [])
    then codes "Unknown database"
    else if one_of mysql_error (known.er_no_such_table ∷ [])
    then codes "Table does not exist"
    else if one_of mysql_error (known.er_dup_entry ∷ [])
    then codes "Duplicate entry"
    else if one_of mysql_error (known.er_parse_error ∷ [])
    then codes "SQL parse error"
    else if one_of mysql_error (known.er_lock_wait_timeout ∷ [])
    then codes "Lock wait timeout"
    else if one_of mysql_error (known.er_lock_deadlock ∷ [])
    then codes "Deadlock detected"
    else codes "MySQL error " ++ to_string mysql_error

-- What the client library answers for a connection: its text, if it has one, and its code.
pub record MysqlError : Type 0 where
  pub text : Option Text
  pub number : ℕ

unfoldable pub get_connection_message : MysqlCodes → Option MysqlError → Text
get_connection_message known none = codes "No connection"
get_connection_message known (some conn) = elim (conn.text) [
  | none ↦ get_error_message known conn.number
  | some err ↦ if is_empty err then get_error_message known conn.number else err
]

-- `MySQLException`: its message, and its code.
pub record MysqlException : Type 0 where
  pub message : Text
  pub error_code : ℕ

unfoldable pub exception_of : MysqlCodes → MysqlError → MysqlException
exception_of known conn = record {
  message = get_connection_message known (some conn);
  error_code = conn.number;
}
