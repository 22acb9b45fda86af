-- ===== src/Tests/Databases.antt =====
-- Runs of the database's functions, for the results that have hypotheses.
use helpcovid.Database.Rows.{may_change_rows}
use helpcovid.Database.InstanceSql.{insert_instance_sql, create_instance_sql}
use helpcovid.Plugins.{initialize_plugins_for_database}
use helpcovid.Database.Logged.{first_transaction-logs}
use helpcovid.Database.Log.{gitbuf, fullreqbuf, log_message, logreqbuf, is_loggable}
use helpcovid.Main.Settings.{KeyFile}
use helpcovid.Database.Initialize.{
  prepared_statements, schema, call_initializers, prepare_statements_in_database, create_tables,
  clear_data, set_up_database, initialize_database, first_transaction, database_connection,
}
use helpcovid.Cstr.{c_str, starts_with}
use helpcovid.Outcome.{ok}
use helpcovid.Decimal.{digits, decimal, value}
use helpcovid.Database.Instance.{
  pieces_text, piece_text, instance_values, instance_sql, unregister_helpcovid_instance,
  register_helpcovid_instance, delete_instance_sql,
}
use helpcovid.Web.Cookie.Make.{is_positive_long}
use helpcovid.Prelude.{
  ◌++◌, ◌≤◌, false, length, refl, ◌==◌, not, equal, ◌&&◌, none, all, ◌+◌, true, if◌then◌else◌, [],
  ◌∷◌, ℕ, Option, List, ◌≡◌, some, codes, Bytes,
}
use helpcovid.Database.Connection.{Database, Connector, ProcessInfo, signed_text}
use helpcovid.Database.Tracked.{without, insert_prefix}

abbrev pub some_process : ProcessInfo
some_process = record {
  cxx_file = codes "hcv_database.cc";
  gitid = codes "0123456789abcdef0123456789abcdef+";
  lastgitcommit = codes "a commit";
  md5sum = codes "00112233445566778899aabbccddeeff";
  timestamp = codes "today";
  timelong = 1590000000;
  topdirectory = codes "/src";
  cxx_compiler = codes "g++";
  hostname = codes "host";
  pid = 4242;
  executable = some (codes "/usr/bin/helpcovid");
  working_directory = some (codes "/srv");
  now = 1600000000;
  uid = 1000;
  euid = 1000;
  gid = 100;
  egid = 100;
}

-- A server that only knows the table of instances: its rows, and the last serial.
record Table : Type 0 where
  rows : List ℕ
  last : ℕ

abbrev insert_row : Table → Option Table
insert_row t =
    let n = t.last + 1 in
    if is_positive_long n && all (λ m. not (m == n)) t.rows
    then some (record { rows = n ∷ t.rows; last = n })
    else none

abbrev delete_last : Bytes → Table → Option Table
delete_last sql t =
    if is_positive_long t.last && equal sql (delete_instance_sql t.last)
    then some (record t { rows = without t.last t.rows })
    else none

-- Nothing but an INSERT does something, and only as such a text may.
abbrev run_text : Bytes → Table → Option Table
run_text sql t =
    if starts_with insert_prefix sql
    then (if may_change_rows sql then insert_row t else none)
    else some t

abbrev some_connector : Connector Table
some_connector = record {
  connect = λ address. some (record { rows = 5 ∷ 3 ∷ []; last = 6 });
  exec_at_once = λ sql t. none;
  exec0 = run_text;
  exec1 = λ sql t. some (decimal t.last, t);
  exec = delete_last;
  commit = λ t. some t;
  prepare = λ name sql t. some t;
  quote = λ text. b'q' ∷ text;
  as_long = λ text. some (value 0 text);
  call_initializer = λ init arg t. some t;
}

abbrev rows_of : Table → List ℕ
rows_of t = t.rows

abbrev last_of : Table → ℕ
last_of t = t.last

abbrev pub no_settings : KeyFile
no_settings = record {
  has_group = λ name. false;
  has_key = λ group name. none;
  get_string = λ group name. none;
  get_int64 = λ group name. none;
}

abbrev unopened : Database Table
unopened = record { dbconn = none; server_version = []; serial = 0 }

abbrev some_opened : Database Table
some_opened = record {
  dbconn = some (record { rows = 7 ∷ 5 ∷ 3 ∷ []; last = 7 });
  server_version = codes "6";
  serial = 7;
}

abbrev some_closed : Table × Database Table
some_closed = (
  record { rows = 5 ∷ 3 ∷ []; last = 7 },
  record { dbconn = none; server_version = codes "6"; serial = 0 },
)

abbrev some_table : Table
some_table = record { rows = 5 ∷ 3 ∷ []; last = 6 }

opens : Unit {0}
unfolding initialize_database database_connection set_up_database clear_data first_transaction
    create_tables prepare_statements_in_database call_initializers initialize_plugins_for_database
    logreqbuf log_message fullreqbuf gitbuf signed_text schema prepared_statements
    register_helpcovid_instance unregister_helpcovid_instance create_instance_sql instance_sql
    instance_values piece_text pieces_text insert_instance_sql may_change_rows delete_instance_sql
    is_positive_long value decimal digits starts_with c_str equal
opens = tt

run_first :
    first_transaction some_connector some_process false some_table ≡ ok (codes "6", some_table)
unfolding first_transaction opens
run_first = refl

first_transaction-logs_example :
    (message : Bytes) × (length message ≤ 255)
    × (is_loggable message ≡ true)
    × (after : Table) × (some_connector.exec0
          (codes "DO $$BEGIN RAISE LOG '" ++ (message ++ codes "'; END;$$;"))
          some_table
        ≡ some after)
first_transaction-logs_example =
    first_transaction-logs some_connector some_process false some_table run_first
