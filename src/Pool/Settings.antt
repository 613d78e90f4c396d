-- ===== src/Pool/Settings.antt =====
-- libpq reads the connection string of src/postgresql/PostgreSQLConnectionPool.cpp as it is meant.
use sql_fuse.Base.{Text, [], codes, false, if◌then◌else◌, is_empty, to_string, true, ◌/◌, ◌∷◌, ◌≡◌}
use sql_fuse.Pool.Connect.{ConnectionConfig}
use sql_fuse.Pool.Conninfo.{Settings}
use sql_fuse.Pool.Listed.{is_plain}

-- A setting, unless its value is empty, before others.
unfoldable pub set : Text → Text → Settings → Settings
set key value l = if is_empty value then l else (key, value) ∷ l

abbrev last_setting : Settings
last_setting = (codes "application_name", codes "sql-fuse") ∷ []

unfoldable pub ssl_meant : ConnectionConfig → Settings
unfolding set
ssl_meant c =
    if c.use_ssl
    then (codes "sslmode", codes "require")
      ∷ set (codes "sslrootcert") c.ssl_ca
          (set (codes "sslcert") c.ssl_cert (set (codes "sslkey") c.ssl_key last_setting))
    else (codes "sslmode", codes "prefer") ∷ last_setting

-- What the configuration means, without the host.
unfoldable pub meant : ConnectionConfig → Settings
unfolding ssl_meant set
meant c =
    (codes "port", to_string c.port)
    ∷ set (codes "user") c.user (
        set (codes "password") c.password (
          set (codes "dbname") c.default_database
            ((codes "connect_timeout", to_string (c.connect_timeout / 1000)) ∷ ssl_meant c)))

-- The values of a configuration can be written without quotes.
pub record IsUnquoted (c : ConnectionConfig) : Type 0 where
  pub named : is_empty c.host ≡ false
  pub host : is_plain c.host ≡ true
  pub user : is_plain c.user ≡ true
  pub password : is_plain c.password ≡ true
  pub database : is_plain c.default_database ≡ true
  pub ca : is_plain c.ssl_ca ≡ true
  pub cert : is_plain c.ssl_cert ≡ true
  pub key : is_plain c.ssl_key ≡ true
