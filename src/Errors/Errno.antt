-- ===== src/Errors/Errno.antt =====
-- The error numbers that src/ErrorHandler.cpp gives to the databases' error codes: nothing for 0.
use sql_fuse.Base.{Bool, Option, [], codes, if◌then◌else◌, magnitude, none, some, ℕ, ℤ, ◌∷◌}
use sql_fuse.File.Types.{
  Errno, enoent, eio, eacces, einval, erofs, eexist, etimedout, enospc, ebusy,
}
use sql_fuse.Errors.Codes.{MysqlCodes, one_of}

unfoldable pub mysql_to_errno : MysqlCodes → ℕ → Option Errno
mysql_to_errno codes mysql_error =
    if one_of mysql_error (0 ∷ [])
    then none
    else if one_of mysql_error (
        codes.cr_connection_error ∷ codes.cr_conn_host_error ∷ codes.cr_unknown_host
        ∷ codes.cr_server_gone_error ∷ codes.cr_server_lost ∷ codes.cr_server_lost_extended ∷ [])
    then some enoent
    else if one_of mysql_error (
        codes.er_access_denied_error ∷ codes.er_dbaccess_denied_error
        ∷ codes.er_tableaccess_denied_error ∷ codes.er_columnaccess_denied_error
        ∷ codes.er_specific_access_denied_error ∷ [])
    then some eacces
    else if one_of mysql_error (
        codes.er_bad_db_error ∷ codes.er_no_such_table ∷ codes.er_bad_table_error
        ∷ codes.er_unknown_table ∷ codes.er_no_such_thread ∷ codes.er_sp_does_not_exist
        ∷ codes.er_trg_does_not_exist ∷ [])
    then some enoent
    else if one_of mysql_error (
        codes.er_db_create_exists ∷ codes.er_table_exists_error ∷ codes.er_dup_entry
        ∷ codes.er_dup_key ∷ [])
    then some eexist
    else if one_of mysql_error (
        codes.er_parse_error ∷ codes.er_syntax_error ∷ codes.er_bad_field_error
        ∷ codes.er_wrong_value_count ∷ codes.er_wrong_value_count_on_row
        ∷ codes.er_truncated_wrong_value ∷ codes.er_wrong_type_for_var
        ∷ codes.er_wrong_value_for_var ∷ codes.er_data_too_long
        ∷ codes.er_truncated_wrong_value_for_field ∷ [])
    then some einval
    else if one_of mysql_error (
        codes.er_row_is_referenced ∷ codes.er_row_is_referenced_2 ∷ codes.er_no_referenced_row
        ∷ codes.er_no_referenced_row_2 ∷ [])
    then some einval
    else if one_of mysql_error (codes.er_lock_wait_timeout ∷ codes.er_lock_deadlock ∷ [])
    then some etimedout
    else if one_of mysql_error (codes.er_option_prevents_statement ∷ codes.er_read_only_mode ∷ [])
    then some erofs
    else if one_of mysql_error (codes.er_record_file_full ∷ [])
    then some enospc
    else if one_of mysql_error (codes.er_lock_table_full ∷ codes.er_too_many_concurrent_trxs ∷ [])
    then some ebusy
    else some eio

-- What `-oracle_error` is for the least `int` is left out, as the language leaves it open.
unfoldable pub oracle_to_errno : ℤ → Option Errno
oracle_to_errno oracle_error =
    let code = magnitude oracle_error in
    if one_of code (0 ∷ [])
    then none
    else if one_of code (3113 ∷ 3114 ∷ 3135 ∷ 12170 ∷ 12541 ∷ 12543 ∷ [])
    then some enoent
    else if one_of code (1017 ∷ 1031 ∷ 1045 ∷ 28000 ∷ 28001 ∷ [])
    then some eacces
    else if one_of code (942 ∷ 1403 ∷ 4043 ∷ 4080 ∷ 4098 ∷ [])
    then some enoent
    else if one_of code (1 ∷ 955 ∷ 2260 ∷ [])
    then some eexist
    else if one_of code (900 ∷ 903 ∷ 904 ∷ 911 ∷ 917 ∷ 923 ∷ 936 ∷ 1722 ∷ 1756 ∷ 12899 ∷ [])
    then some einval
    else if one_of code (2291 ∷ 2292 ∷ [])
    then some einval
    else if one_of code (54 ∷ 60 ∷ 4020 ∷ 4021 ∷ [])
    then some etimedout
    else if one_of code (16000 ∷ [])
    then some erofs
    else if one_of code (1536 ∷ 1653 ∷ 1654 ∷ [])
    then some enospc
    else if one_of code (257 ∷ [])
    then some ebusy
    else some eio

-- The codes after which a call may be tried again.
unfoldable pub is_retryable : MysqlCodes → ℕ → Bool
is_retryable codes mysql_error = one_of mysql_error (
    codes.cr_server_gone_error ∷ codes.cr_server_lost ∷ codes.cr_server_lost_extended
    ∷ codes.er_lock_wait_timeout ∷ codes.er_lock_deadlock ∷ codes.er_too_many_concurrent_trxs ∷ [])

unfoldable pub is_connection_error : MysqlCodes → ℕ → Bool
is_connection_error codes mysql_error = one_of mysql_error (
    codes.cr_connection_error ∷ codes.cr_conn_host_error ∷ codes.cr_unknown_host
    ∷ codes.cr_server_gone_error ∷ codes.cr_server_lost ∷ codes.cr_server_lost_extended
    ∷ codes.cr_commands_out_of_sync ∷ codes.cr_socket_create_error ∷ codes.cr_namedpipeopen_error
    ∷ codes.cr_namedpipewait_error ∷ codes.cr_namedpipesetstate_error ∷ codes.cr_ipsock_error ∷ [])
