-- ===== src/Pool/Connect.antt =====
-- The texts with which src/postgresql/PostgreSQLConnectionPool.cpp and
-- src/oracle/OracleConnectionPool.cpp connect, and the configuration in include/Config.hpp.
use sql_fuse.Base.{
  Bool, Text, [], codes, if◌then◌else◌, is_empty, ltb, to_string, ℕ, ◌++◌, ◌/◌, ◌||◌,
}
use sql_fuse.Schema.Server.{has_part}

pub record ConnectionConfig : Type 0 where
  pub host : Text
  pub port : ℕ
  pub user : Text
  pub password : Text
  pub default_database : Text
  pub use_ssl : Bool
  pub ssl_ca : Text
  pub ssl_cert : Text
  pub ssl_key : Text
  pub connect_timeout : ℕ

-- `if (!value.empty()) connInfo << before << value;`.
unfoldable pub unless_empty : Text → Text → Text
unless_empty before value = if is_empty value then [] else before ++ value

unfoldable pub ssl_options : ConnectionConfig → Text
unfolding unless_empty
ssl_options c =
    if c.use_ssl
    then codes " sslmode=require"
      ++ (unless_empty (codes " sslrootcert=") c.ssl_ca
          ++ (unless_empty (codes " sslcert=") c.ssl_cert
              ++ unless_empty (codes " sslkey=") c.ssl_key))
    else codes " sslmode=prefer"

-- `connInfo` of `createConnection`.
unfoldable pub conninfo : ConnectionConfig → Text
unfolding unless_empty ssl_options to_string
conninfo c =
    codes "host="
    ++ (c.host
        ++ (codes " port="
            ++ (to_string c.port
                ++ (unless_empty (codes " user=") c.user
                    ++ (unless_empty (codes " password=") c.password
                        ++ (unless_empty (codes " dbname=") c.default_database
                            ++ (codes " connect_timeout="
                                ++ (to_string (c.connect_timeout / 1000)
                                    ++ (ssl_options c ++ codes " application_name=sql-fuse")))))))))

-- `buildConnectString` of the Oracle pool.
unfoldable pub build_connect_string : ConnectionConfig → Text
unfolding has_part to_string
build_connect_string c =
    if has_part (codes "DESCRIPTION") c.host
      || (has_part (codes "/") c.host || has_part (codes ":") c.host)
    then c.host
    else c.host
      ++ ((if ltb 0 c.port then codes ":" ++ to_string c.port else codes ":1521")
          ++ unless_empty (codes "/") c.default_database)
