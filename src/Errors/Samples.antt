-- ===== src/Errors/Samples.antt =====
-- Numbers for the record `MysqlCodes` of src/ErrorHandler.cpp.
use sql_fuse.Errors.Codes.{MysqlCodes}

-- The numbers of MySQL 8.
abbrev pub known : MysqlCodes
known = record {
  cr_connection_error = 2002;
  cr_conn_host_error = 2003;
  cr_unknown_host = 2005;
  cr_server_gone_error = 2006;
  cr_server_lost = 2013;
  cr_server_lost_extended = 2055;
  er_access_denied_error = 1045;
  er_dbaccess_denied_error = 1044;
  er_tableaccess_denied_error = 1142;
  er_columnaccess_denied_error = 1143;
  er_specific_access_denied_error = 1227;
  er_bad_db_error = 1049;
  er_no_such_table = 1146;
  er_bad_table_error = 1051;
  er_unknown_table = 1109;
  er_no_such_thread = 1094;
  er_sp_does_not_exist = 1305;
  er_trg_does_not_exist = 1360;
  er_db_create_exists = 1007;
  er_table_exists_error = 1050;
  er_dup_entry = 1062;
  er_dup_key = 1022;
  er_parse_error = 1064;
  er_syntax_error = 1149;
  er_bad_field_error = 1054;
  er_wrong_value_count = 1058;
  er_wrong_value_count_on_row = 1136;
  er_truncated_wrong_value = 1292;
  er_wrong_type_for_var = 1232;
  er_wrong_value_for_var = 1231;
  er_data_too_long = 1406;
  er_truncated_wrong_value_for_field = 1366;
  er_row_is_referenced = 1217;
  er_row_is_referenced_2 = 1451;
  er_no_referenced_row = 1216;
  er_no_referenced_row_2 = 1452;
  er_lock_wait_timeout = 1205;
  er_lock_deadlock = 1213;
  er_option_prevents_statement = 1290;
  er_read_only_mode = 1836;
  er_record_file_full = 1114;
  er_lock_table_full = 1206;
  er_too_many_concurrent_trxs = 1637;
  cr_commands_out_of_sync = 2014;
  cr_socket_create_error = 2001;
  cr_namedpipeopen_error = 2017;
  cr_namedpipewait_error = 2016;
  cr_namedpipesetstate_error = 2018;
  cr_ipsock_error = 2004;
}
