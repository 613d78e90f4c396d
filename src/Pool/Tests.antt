-- ===== src/Pool/Tests.antt =====
-- The theorems on the pools of connections at short runs, and on a configuration.
use sql_fuse.Base.{
  List, [], add64, arith, codes, decimal, false, none, refl, some, sub64, to_string, true, ℕ, ◌∷◌,
  ◌≡◌, ◌≤◌,
}
use sql_fuse.Pool.Types.{System, enters, connects}
use sql_fuse.Schema.Server.{has_part}
use sql_fuse.Pool.Steps.{occurs, step, Reachable, started, stepped}
use sql_fuse.Pool.Sqlite
use sql_fuse.Pool.Sqlite.{acquire, IsNew, opened, acquired}
use sql_fuse.Pool.Bounds.{IsBounded, Opened-IsBounded}
use sql_fuse.Pool.Counts.{IsBalanced}
use sql_fuse.Pool.Balance.{Reachable-IsBalanced}
use sql_fuse.Pool.Oracle
use sql_fuse.Pool.Oracle.{OraclePool, Runs, stays, goes}
use sql_fuse.Pool.OracleSections.{IsSound, open_count}
use sql_fuse.Pool.Capacity.{initial-IsSound, open_count-Runs}
use sql_fuse.Pool.Connect.{
  ConnectionConfig, conninfo, unless_empty, ssl_options, build_connect_string,
}
use sql_fuse.Pool.Conninfo.{between, read, next, ended}

abbrev state : ℕ → ℕ → ℕ → List ℕ → System
state created waiting connecting leased = record {
  pool = record {
    available = [];
    created_count = created;
    waiting_count = waiting;
    shutdown = false;
  };
  connecting = connecting;
  sleeping = 0;
  replacing = 0;
  leased = leased;
}

none_twice : (c : ℕ) → occurs c [] ≤ 1
unfolding occurs
none_twice c = omega arith

-- Both threads find room in a pool of size one before either has connected.
exceeded : Reachable 1 (state 2 0 0 (8 ∷ 7 ∷ []))
unfolding step occurs
exceeded =
    stepped (connects 8) (state 1 1 1 (7 ∷ [])) _
      (stepped (connects 7) (state 0 2 2 []) _
        (stepped (enters true) (state 0 1 1 []) _
          (stepped (enters true) (state 0 0 0 []) _ (started [] (omega arith) none_twice) refl)
          refl)
        refl)
      refl

Reachable-IsBalanced_example : IsBalanced 0 (state 2 0 0 (8 ∷ 7 ∷ []))
Reachable-IsBalanced_example = Reachable-IsBalanced 1 (state 2 0 0 (8 ∷ 7 ∷ [])) exceeded

first-IsNew : IsNew 7 (Sqlite.initial [])
unfolding occurs
first-IsNew = refl

Opened-IsBounded_example : IsBounded 2 (acquire 2 7 true 7 (Sqlite.initial []))
Opened-IsBounded_example = Opened-IsBounded 2 (acquire 2 7 true 7 (Sqlite.initial [])) (
    acquired 7 7 true (Sqlite.initial []) first-IsNew first-IsNew
      (opened [] (omega arith) none_twice))

one_once : (c : ℕ) → occurs c (7 ∷ []) ≤ 1
unfolding occurs
one_once c = ground arith

abbrev oracle_pool : OraclePool
oracle_pool = record {
  available = [];
  created_count = 1;
  waiting_count = 0;
  shutdown = false;
  sleeping = 0;
  leased = 7 ∷ [];
}

taken : Runs (Oracle.initial (7 ∷ [])) oracle_pool
unfolding Oracle.step occurs add64 sub64
taken = goes (Oracle.enters true none) (Oracle.initial (7 ∷ [])) _ stays refl

initial-IsSound_example : IsSound 1 0 oracle_pool
initial-IsSound_example = initial-IsSound (7 ∷ []) oracle_pool (omega arith) one_once taken

-- The connection was lost, and none was made in its place: the pool stays empty.
abbrev lost : OraclePool
lost = record oracle_pool { created_count = 0; leased = [] }

losing : Runs (Oracle.initial (7 ∷ [])) lost
unfolding Oracle.step occurs add64 sub64
losing = goes (Oracle.enters false none) (Oracle.initial (7 ∷ [])) _ stays refl

open_count-Runs_example : open_count lost ≤ open_count (Oracle.initial (7 ∷ []))
open_count-Runs_example =
    open_count-Runs (7 ∷ []) (Oracle.initial (7 ∷ [])) lost (omega arith) one_once stays losing

abbrev config : ConnectionConfig
config = record {
  host = codes "localhost";
  port = 5432;
  user = codes "postgres";
  password = codes "secret";
  default_database = codes "shop";
  use_ssl = false;
  ssl_ca = [];
  ssl_cert = [];
  ssl_key = [];
  connect_timeout = 5000;
}

-- A password with a blank makes the connection string one that cannot be read.
blank_test : read between (conninfo (record config { password = codes "a b" })) ≡ none
unfolding read next ended conninfo unless_empty ssl_options to_string decimal
blank_test = refl

-- Without a host, the port is taken for its name.
host_test : read between (codes "host= port=5432") ≡ some ((codes "host", codes "port=5432") ∷ [])
unfolding read next ended
host_test = refl

connect_string_test : build_connect_string config ≡ codes "localhost:5432/shop"
unfolding build_connect_string unless_empty to_string decimal has_part
connect_string_test = refl
