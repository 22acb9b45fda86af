-- ===== src/Tests/Login.antt =====
-- A run of the database's initialization in which libpqxx only keeps the names of the statements.
use helpcovid.Cstr.{c_str}
use helpcovid.Decimal.{digits, decimal}
use helpcovid.Database.InstanceSql.{insert_instance_sql, create_instance_sql}
use helpcovid.Database.Instance.{
  pieces_text, piece_text, instance_values, instance_sql, register_helpcovid_instance,
}
use helpcovid.Models.Refused.{login_view_post-initialize_database}
use helpcovid.Database.Log.{gitbuf, fullreqbuf, log_message, logreqbuf}
use helpcovid.Views.Home.{login_view_post}
use helpcovid.Models.Statements.{run_statement, run_for_effect}
use helpcovid.Outcome.{database, thrown, some-injective, ok}
use helpcovid.Tests.Databases.{some_process, no_settings}
use helpcovid.Database.{Param}
use helpcovid.Template.Data.{Request}
use helpcovid.Prelude.{
  ◌||◌, if◌then◌else◌, ◌∷◌, true, sym, refl, false, Option, ◌≡◌, some, none, codes, ap, Bool, equal,
  Bytes,
}
use helpcovid.Plugins.{initialize_plugins_for_database}
use helpcovid.Models.{
  validator_email, user_model_create, validator_required, user_model_validate, UserModel,
}
use helpcovid.Database.Registered.{Registers}
use helpcovid.Database.Initialize.{
  prepared_statements, schema, call_initializers, prepare_statements_in_database, create_tables,
  first_transaction, clear_data, set_up_database, initialize_database, database_connection,
}
use helpcovid.Database.Connection.{signed_text, Database, Connector}
use mathlib.Core.List.{List, []}

-- Is a name among those that are registered?
abbrev registered : Bytes → List Bytes → Bool
registered name [] = false
registered name (other ∷ names) = equal name other || registered name names

abbrev names_only : Connector (List Bytes)
names_only = record {
  connect = λ address. some [];
  exec_at_once = λ sql names. some names;
  exec0 = λ sql names. some names;
  exec1 = λ sql names. some (codes "1", names);
  exec = λ sql names. some names;
  commit = λ names. some names;
  prepare = λ name sql names. some (name ∷ names);
  quote = λ text. b'q' ∷ text;
  as_long = λ text. some 1;
  call_initializer = λ init arg names. some names;
}

-- Every statement that is registered gives a password.
abbrev exec_registered : Bytes → List Param → List Bytes → Option (Option Bytes × List Bytes)
exec_registered name params names =
    if registered name names then some (some (codes "secret"), names) else none

same_names :
    (name : Bytes) (names after : List Bytes)
    → some names ≡ some after
    → registered name after ≡ registered name names
same_names name names after e = ap (registered name) (sym (some-injective e))

names_only-Registers : Registers names_only exec_registered registered
names_only-Registers = record {
  connect_fresh = λ address name names e. ap (registered name) (sym (some-injective e));
  at_once_keeps = λ name sql names after e. same_names name names after e;
  transaction_keeps = λ name. record {
    exec0_keeps = λ sql names after quiet e. same_names name names after e;
    exec1_keeps = λ sql names row quiet e.
        ap (λ (r : Bytes × List Bytes). registered name (r.1)) (sym (some-injective e));
    commit_keeps = λ names after e. same_names name names after e;
  };
  prepare_adds = λ name other sql names after e. ap (registered name) (sym (some-injective e));
  exec_needs =
      λ name params names h. ap (λ b. if b then some (some (codes "secret"), names) else none) h;
}

abbrev somebody : UserModel
somebody = record {
  first_name = codes "A";
  family_name = codes "B";
  email = codes "a@b.c";
  gender = codes "F";
}

abbrev login : Request
login = record {
  method = codes "POST";
  path = codes "/login";
  accept_language = [];
  user_agent = none;
  param_value = λ key. codes "secret";
}

abbrev unconnected : Database (List Bytes)
unconnected = record { dbconn = none; server_version = []; serial = 0 }

-- The names, the last one first.
abbrev all_names : List Bytes
all_names =
    codes "user_get_password_by_email_pstm"
    ∷ codes "user_create_pstm"
    ∷ codes "lastval_pstm"
    ∷ codes "add_web_cookie_pstm"
    ∷ codes "find_user_by_email_pstm"
    ∷ []

abbrev connected : Database (List Bytes)
connected = record { dbconn = some all_names; server_version = codes "1"; serial = 1 }

run_connected :
    initialize_database names_only some_process [] no_settings (codes "db") true unconnected
    ≡ ok connected
unfolding initialize_database database_connection set_up_database clear_data first_transaction
    create_tables prepare_statements_in_database call_initializers initialize_plugins_for_database
    logreqbuf log_message fullreqbuf gitbuf signed_text schema prepared_statements
    register_helpcovid_instance create_instance_sql instance_sql instance_values piece_text
    pieces_text insert_instance_sql decimal digits c_str equal
run_connected = refl

address_of_db : database_connection no_settings (codes "db") ≡ ok (some (codes "db"))
unfolding database_connection equal
address_of_db = refl

no_plugins : initialize_plugins_for_database [] ≡ []
unfolding initialize_plugins_for_database
no_plugins = refl

somebody_valid : (user_model_validate (λ s. true) somebody somebody).0 ≡ true
unfolding user_model_validate validator_required validator_email
somebody_valid = refl

is_post : equal (login.method) (codes "POST") ≡ true
unfolding equal
is_post = refl

login_view_post-initialize_database_example :
    (names : List Bytes) × (connected.dbconn ≡ some names)
    × (user_model_create
          (λ s. true)
          (run_for_effect exec_registered names_only.commit)
          somebody
          somebody
          names
        ≡ thrown database 91)
    × (login_view_post (run_statement exec_registered names_only.commit) (λ members. []) login names
        ≡ thrown database 91)
login_view_post-initialize_database_example =
    login_view_post-initialize_database names_only exec_registered registered names_only-Registers
      some_process [] no_settings (codes "db") (codes "db") true unconnected (λ s. true) somebody
      somebody (λ members. []) login address_of_db no_plugins run_connected somebody_valid is_post
