-- ===== src/Errors/Codes.antt =====
-- The numbers of `mysql/errmsg.h` and `mysql/mysqld_error.h` that src/ErrorHandler.cpp names.
use sql_fuse.Base.{Bool, List, [], false, ℕ, ◌==◌, ◌||◌, ◌∷◌}

pub record MysqlCodes : Type 0 where
  pub cr_connection_error : ℕ
  pub cr_conn_host_error : ℕ
  pub cr_unknown_host : ℕ
  pub cr_server_gone_error : ℕ
  pub cr_server_lost : ℕ
  pub cr_server_lost_extended : ℕ
  pub er_access_denied_error : ℕ
  pub er_dbaccess_denied_error : ℕ
  pub er_tableaccess_denied_error : ℕ
  pub er_columnaccess_denied_error : ℕ
  pub er_specific_access_denied_error : ℕ
  pub er_bad_db_error : ℕ
  pub er_no_such_table : ℕ
  pub er_bad_table_error : ℕ
  pub er_unknown_table : ℕ
  pub er_no_such_thread : ℕ
  pub er_sp_does_not_exist : ℕ
  pub er_trg_does_not_exist : ℕ
  pub er_db_create_exists : ℕ
  pub er_table_exists_error : ℕ
  pub er_dup_entry : ℕ
  pub er_dup_key : ℕ
  pub er_parse_error : ℕ
  pub er_syntax_error : ℕ
  pub er_bad_field_error : ℕ
  pub er_wrong_value_count : ℕ
  pub er_wrong_value_count_on_row : ℕ
  pub er_truncated_wrong_value : ℕ
  pub er_wrong_type_for_var : ℕ
  pub er_wrong_value_for_var : ℕ
  pub er_data_too_long : ℕ
  pub er_truncated_wrong_value_for_field : ℕ
  pub er_row_is_referenced : ℕ
  pub er_row_is_referenced_2 : ℕ
  pub er_no_referenced_row : ℕ
  pub er_no_referenced_row_2 : ℕ
  pub er_lock_wait_timeout : ℕ
  pub er_lock_deadlock : ℕ
  pub er_option_prevents_statement : ℕ
  pub er_read_only_mode : ℕ
  pub er_record_file_full : ℕ
  pub er_lock_table_full : ℕ
  pub er_too_many_concurrent_trxs : ℕ
  pub cr_commands_out_of_sync : ℕ
  pub cr_socket_create_error : ℕ
  pub cr_namedpipeopen_error : ℕ
  pub cr_namedpipewait_error : ℕ
  pub cr_namedpipesetstate_error : ℕ
  pub cr_ipsock_error : ℕ

-- A group of `case` labels.
abbrev pub one_of : ℕ → List ℕ → Bool
one_of n [] = false
one_of n (label ∷ labels) = n == label || one_of n labels
