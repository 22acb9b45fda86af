-- ===== src/Tests/Start.antt =====
-- Runs of the start of the program and of the configuration, for the results that have hypotheses.
use helpcovid.Main.Process.{run_process-IsServing, run_process}
use helpcovid.Main.Early.{version_message, early_initialize, EarlySystem, Early}
use helpcovid.Database.Initialize.{initialize_database, database_connection}
use helpcovid.Database.Connection.{Connector}
use helpcovid.Web.Url.{default_web_port, is_host, scan_host, scan_host_port, parse_weburl}
use helpcovid.Template.Initialize.{initialize_templates}
use helpcovid.Template.Registry.{register, Expander}
use helpcovid.Template.Expanders.{Env}
use helpcovid.Main.Run.Serving.{IsServing}
use helpcovid.Tests.Databases.{some_process}
use helpcovid.Main.Run.{
  no_database, write_pid_file, env_locale, read_group, first_group, run_with, run_main, Running,
  PidFiles,
}
use helpcovid.Background.Control.{start_background_thread, Descriptors}
use helpcovid.Background.{Background}
use helpcovid.Scan.Number.{
  strtoul_value, scan_digits, scan_signed, scan_decimal, scan_set, scan_literal, digit_value,
  number, strtol_value, atoi_digits, atoi_signed, atoi,
}
use helpcovid.Web.Server.{webserver_address, initialize_web}
use helpcovid.Cstr.{is_space, c_str, starts_with, strstr, is_digit, is_alpha, is_alnum, is_word}
use helpcovid.Main.Arguments.Threads.{one_less, limit_threads, config_threads, early_threads}
use helpcovid.Main.Start.{
  change_user, read_pid_file, read_user, start_web, read_threads, start_program, Started,
}
use helpcovid.Main.Settings.{config_has_group, config_path, load_config_file, loads, KeyFile, Files}
use helpcovid.Outcome.{Outcome, ok}
use helpcovid.Scan.{skip_spaces, span, scan_from, sscanf}
use helpcovid.Main.ConfigGroup.Custom.{add_custom_messages-Reads, texts_of, Reads}
use helpcovid.Chunkmap.{add_chunkmap_file}
use helpcovid.Main.Arguments.Defaults.Given.{parse_program_arguments-chosen, chosen, is_known}
use helpcovid.Prelude.{
  ◌≤◌, length, ℕ, arith, refl, ◌++◌, true, equal, ◌≡◌, if◌then◌else◌, ◌∷◌, some, none, false, codes,
  [], Option, List, all, Bytes,
}
use helpcovid.Plugins.{
  is_elf_library, is_loaded, library_path, open_plugin, check_plugin_name, load_plugin, Plugin,
}
use helpcovid.Main.ConfigGroup.{
  bind_text_domain, with_locale, with_email_command, run_startup_command, handle_helpcovid_group,
  words, add_message_files, expand_words, add_custom_messages, GroupSystem,
}
use helpcovid.Main.Arguments.Defaults.{default_from, set_defaults, parse_program_arguments}
use helpcovid.Main.Arguments.{
  plugin, threads, plugin_option_arg, weburl, parse_plugin_option, parse1opt, ProgOption,
  parse_options, System, Program, ProgArguments,
}
use helpcovid.Dict.{insert, merge, Dict}
use helpcovid.Tests.Server.{echo_loader, private_file}

-- A file that gives one name a text.
abbrev message_system : GroupSystem
message_system = record {
  popen = λ _. none;
  exit_code = λ _. 0;
  set_all_locale = λ _. none;
  realpath = λ _. none;
  is_directory = λ _. none;
  bindtextdomain = λ _. none;
  wordexp = λ path. words (path ∷ []);
  content = λ _. some (codes "!hi'x" ++ 10 ∷ []);
}

abbrev hi_map : Dict Bytes
hi_map = (codes "hi", codes "x") ∷ []

add_hi : add_custom_messages message_system (codes "file") [] ≡ ok hi_map
unfolding add_custom_messages expand_words add_message_files add_chunkmap_file merge insert equal
    is_alnum is_space sscanf c_str is_word
add_hi = refl

add_custom_messages-Reads_example :
    (paths : List Bytes) × (message_system.wordexp (codes "file") ≡ words paths)
    × Reads (message_system.content) paths (texts_of []) (texts_of hi_map)
add_custom_messages-Reads_example =
    add_custom_messages-Reads message_system (codes "file") [] refl add_hi

-- A system of four processors, whose environment has a web root.
abbrev some_env : Bytes → Option Bytes
some_env name = if equal name (codes "HELPCOVID_WEBROOT") then some (codes "/srv/") else none

abbrev pub some_system : System
some_system = record {
  hardware_concurrency = 4;
  setlocale = λ l. some l;
  getenv = some_env;
  basename = λ path. path;
  loader = echo_loader;
}

abbrev no_args : ProgArguments
no_args = record {
  progname = [];
  web_url = [];
  config_file = [];
  postgres_uri = [];
  web_root = [];
  set_euid = [];
  openssl_cert = [];
  openssl_key = [];
  pid_file = [];
}

abbrev pub fresh_program : Program
fresh_program = record {
  args = no_args;
  http_max_threads = 8;
  debugging = false;
  should_cleanup = false;
  should_clear_database = false;
  current_locale = [];
  facility = 128;
  loaded = [];
}

abbrev some_options : List (ProgOption × Bytes)
some_options =
    (weburl, codes "http://a")
    ∷ (threads, codes "3")
    ∷ (weburl, codes "http://b")
    ∷ (plugin, codes "echo:hi")
    ∷ []

abbrev parsed_args : ProgArguments
parsed_args = record no_args {
  progname = codes "helpcovid";
  web_url = codes "http://b";
  web_root = codes "/srv/";
}

abbrev echo_plugin : Plugin
echo_plugin = record {
  name = codes "echo";
  handle = 1;
  arg = some (codes "hi");
  gitid = codes "echo";
  license = codes "echo";
  initweb = 7;
  initdatabase = some 7;
}

abbrev parsed_program : Program
parsed_program = record fresh_program {
  args = parsed_args;
  http_max_threads = 3;
  loaded = echo_plugin ∷ [];
}

parses : Unit {0}
unfolding parse_program_arguments parse_options parse1opt parse_plugin_option plugin_option_arg
    sscanf scan_from span skip_spaces load_plugin check_plugin_name open_plugin library_path
    is_loaded is_word is_alnum is_alpha is_digit equal strstr starts_with c_str is_elf_library
    set_defaults default_from limit_threads one_less atoi atoi_signed atoi_digits strtol_value
    number digit_value is_space
parses = tt

parse_some :
    parse_program_arguments some_system (codes "helpcovid") some_options fresh_program
    ≡ ok parsed_program
unfolding parses
parse_some = refl

parse_program_arguments-chosen_example :
    (all (λ o. is_known (o.0)) some_options ≡ true)
    × (parsed_program.args
        ≡ chosen some_env some_options (record no_args { progname = codes "helpcovid" }))
parse_program_arguments-chosen_example =
    parse_program_arguments-chosen some_system (codes "helpcovid") some_options fresh_program
      parse_some

-- A configuration with 20 threads.
abbrev some_key_file : KeyFile
some_key_file = record {
  has_group = λ group. equal group (codes "helpcovid");
  has_key = λ group key. some (equal key (codes "threads"));
  get_string = λ group key. some [];
  get_int64 = λ group key. some 20;
}

abbrev some_files : Files
some_files = record {
  is_readable = λ path. true;
  stat = private_file;
  load_from_file = λ path. loads some_key_file;
  getpwnam = λ user. none;
  can_seteuid = λ uid. false;
}

abbrev some_started : Started
some_started = record {
  program = record parsed_program { http_max_threads = 4 };
  config_file_path = codes "/etc/.helpcovidrc";
  settings = some_key_file;
  server = some (record {
    weburl = codes "http://b";
    webroot = codes "/srv/";
    ssl = none;
    request_counter = 0;
  });
  user = none;
}

-- A program that serves.
abbrev some_env_record : Env
some_env_record = record {
  today = [];
  now = [];
  gitid = [];
  lastgitcommit = [];
  timestamp = [];
  pid = 42;
  hostname = [];
  web_root = [];
  html_section = record {
    has_key = λ name. some false;
    get_string = λ name. none;
    after_destruction = λ text. text;
  };
  globchunk = [];
  dgettext = λ msgid. none;
  random = 7;
}

abbrev expanders_of : Outcome (Dict Expander) → Dict Expander
expanders_of (ok dict) = dict
expanders_of _ = []

abbrev no_pid_files : PidFiles
no_pid_files = record {
  opens = λ path. false;
  changes_mode = λ path. false;
  closes = λ path. false;
}

abbrev some_descriptors : Descriptors
some_descriptors = record {
  event_fd = some 3;
  blocks_signals = true;
  signal_fd = some 4;
  timer_fd = some 5;
}

abbrev some_background : Background ℕ
some_background = record {
  todos = [];
  events = 0;
  timer = none;
  should_stop = false;
  web_open = true;
  database_open = true;
}

-- No server of databases.
abbrev no_connector : Connector ℕ
no_connector = record {
  connect = λ address. none;
  exec_at_once = λ sql db. none;
  exec0 = λ sql db. none;
  exec1 = λ sql db. none;
  exec = λ sql db. none;
  commit = λ db. none;
  prepare = λ name sql db. none;
  quote = λ text. text;
  as_long = λ text. none;
  call_initializer = λ init arg db. none;
}

abbrev some_early_system : EarlySystem
some_early_system = record {
  gethostname = some (codes "here");
  onion_version = codes "0.8";
  opens_program = true;
  date = codes "today";
}

abbrev some_early : Early
some_early = record {
  hostname = codes "here";
  versionmsg = version_message some_process (codes "here") (codes "0.8");
  startimbuf = codes "today";
}

abbrev some_running : Running ℕ ℕ
some_running = record {
  started = some_started;
  group = first_group some_started;
  pid_path = none;
  database_state = no_database;
  expanders = expanders_of (
      initialize_templates
        (record some_env_record { hostname = codes "here"; web_root = codes "/srv/" }) []);
  background = some_background;
  address = some (codes "b", 8080);
}

runs_all : Unit {0}
unfolding run_process early_initialize c_str run_main run_with read_group handle_helpcovid_group
    run_startup_command with_email_command with_locale bind_text_domain add_custom_messages
    env_locale write_pid_file database_connection initialize_database start_background_thread
    webserver_address parse_weburl scan_host_port scan_host is_host default_web_port scan_literal
    scan_set scan_decimal scan_signed scan_digits strtoul_value initialize_templates insert register
    start_program early_threads read_threads start_web read_user read_pid_file change_user
    load_config_file config_path config_has_group config_threads initialize_web
runs_all = tt

run_some :
    run_process some_early_system no_connector some_process some_system some_files message_system
      no_pid_files some_env_record some_descriptors some_background 1000
      (codes "helpcovid")
      some_options
      fresh_program
    ≡ ok (some (some_early, some_running))
unfolding runs_all parses
run_some = refl

run_process-IsServing_example :
    IsServing some_system some_files
      (record some_env_record { hostname = c_str (codes "here") })
      some_running
    × (length (some_early.versionmsg) ≤ 511)
run_process-IsServing_example =
    run_process-IsServing some_early_system no_connector some_process some_system some_files
      message_system no_pid_files some_env_record some_descriptors some_background 1000
      (codes "helpcovid") some_options fresh_program (omega arith) (omega arith) refl run_some
