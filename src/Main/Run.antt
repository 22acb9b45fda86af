-- ===== src/Main/Run.antt =====
-- The rest of `main` (hcv_main.cc), from the effective user to the web server.
pub mod Serving
use helpcovid.Database.Initialize.{initialize_database}
use helpcovid.Database.Connection.{ProcessInfo, Database, Connector}
use helpcovid.Template.Registry.{Expander}
use helpcovid.Dict.{Dict}
use helpcovid.Web.Server.{WebServer, webserver_address}
use helpcovid.Template.Initialize.{initialize_templates}
use helpcovid.Template.Expanders.{Env}
use helpcovid.Prelude.{
  some, none, equal, ◌||◌, ◌&&◌, codes, [], not, is_empty, List, ℕ, if◌then◌else◌, Option, Bool,
  Bytes,
}
use helpcovid.Outcome.{main, database, require, ◌>>◌, ok, ◌>>=◌, Outcome}
use helpcovid.Background.Control.{Descriptors, start_background_thread}
use helpcovid.Background.{Background}
use helpcovid.Main.Start.{Started, start_program}
use helpcovid.Main.ConfigGroup.{GroupSystem, GroupState, handle_helpcovid_group}
use helpcovid.Main.Arguments.{ProgOption, System, Program}
use helpcovid.Main.Settings.{or_default, or_throw, config_has_group, KeyFile, Files}

-- Whether fopen for writing, fchmod and fclose succeed on a path.
pub record PidFiles : Type 0 where
  pub opens : Bytes → Bool
  pub changes_mode : Bytes → Bool
  pub closes : Bytes → Bool

-- The locale of the environment, where none is set.
unfoldable pub env_locale : System → Bytes → Bytes
env_locale sys current =
    if is_empty current
    then elim (sys.getenv (codes "HELPCOVID_LOCALE")) [
      | none ↦ current
      | some envlocale ↦ or_default (sys.setlocale envlocale) current
    ]
    else current

-- The pid file that is written: the one of the arguments, or the built-in one where it can be opened.
unfoldable pub write_pid_file : PidFiles → Bytes → Outcome (Option Bytes)
write_pid_file pids path =
    if not (is_empty path) && not (equal path (codes "-"))
    then (do
      require (pids.opens path) main 1172
      require (pids.changes_mode path) main 1175
      require (pids.closes path) main 1177
      ok (some path))
    else (let builtin = codes "/var/run/helpcovid.pid" in
        if pids.opens builtin
        then (do
          require (pids.changes_mode builtin) main 1188
          require (pids.closes builtin) main 1190
          ok (some builtin))
        else ok none)

-- `hcv_webroot`, which is empty without a server.
abbrev pub root_of : Option WebServer → Bytes
root_of none = []
root_of (some s) = s.webroot

-- What main has when it serves: the program, the messages and the commands of the group "helpcovid",
-- the pid file, the database, the expanders, the background thread, and the address of the server; none for a cleanup.
pub record Running (A D : Type 0) : Type 0 where
  pub started : Started
  pub group : GroupState
  pub pid_path : Option Bytes
  pub database_state : Database D
  pub expanders : Dict Expander
  pub background : Background A
  pub address : Option (Bytes × ℕ)

-- The group "helpcovid", if the configuration has it.
unfoldable pub read_group : GroupSystem → KeyFile → GroupState → Outcome (Option GroupState)
unfolding handle_helpcovid_group
read_group system settings g = do
  in_config ← config_has_group settings (codes "helpcovid")
  if in_config then handle_helpcovid_group system settings g else ok (some g)

-- The state before the group is read.
abbrev pub first_group : Started → GroupState
first_group st = record {
  email_command = [];
  locale_name = st.program.current_locale;
  textdomain_dir = none;
  globchunk = [];
}

-- The variables of the database before it is initialized.
abbrev pub no_database : {D : Type 0} → Database D
no_database = record { dbconn = none; server_version = []; serial = 0 }

-- The last steps, on the group's state.
unfoldable pub run_with :
    {A D : Type 0}
    → Connector D
    → ProcessInfo
    → System
    → PidFiles
    → Env
    → Descriptors
    → Background A
    → ℕ
    → Started
    → GroupState
    → Outcome (Option (Running A D))
unfolding env_locale write_pid_file initialize_database initialize_templates webserver_address
    start_background_thread
run_with pq proc sys pids env fds bg uid st g = do
  written ← write_pid_file pids (st.program.args.pid_file)
  connected ←
      initialize_database pq proc (st.program.loaded) (st.settings) (st.program.args.postgres_uri)
        (st.program.should_clear_database) no_database
  dict ←
      initialize_templates (record env { globchunk = g.globchunk; web_root = root_of (st.server) })
        []
  thread ← start_background_thread fds bg
  served ←
      if st.program.should_cleanup
      then ok none
      else (webserver_address uid (st.server) >>= λ found. ok (some found))
  ok (
      some (record {
        started = st;
        group = record g { locale_name = env_locale sys (g.locale_name) };
        pid_path = written;
        database_state = connected;
        expanders = dict;
        background = thread;
        address = served;
      }))

-- `main` up to the call of `listen`, or to the cleanup; none while the startup command runs.
unfoldable pub run_main :
    {A D : Type 0}
    → Connector D
    → ProcessInfo
    → System
    → Files
    → GroupSystem
    → PidFiles
    → Env
    → Descriptors
    → Background A
    → ℕ
    → Bytes
    → List (ProgOption × Bytes)
    → Program
    → Outcome (Option (Running A D))
unfolding start_program read_group run_with
run_main pq proc sys files system pids env fds bg uid argv0 options p = do
  st ← start_program sys files argv0 options p
  group ← read_group system (st.settings) (first_group st)
  elim group [ none ↦ ok none | some g ↦ run_with pq proc sys pids env fds bg uid st g ]
