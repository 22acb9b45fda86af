-- ===== src/Main/Start.antt =====
-- The start of the program: `main` (hcv_main.cc) from the arguments to the effective user.
pub mod Bounds
use helpcovid.Main.Arguments.Defaults.{parse_program_arguments}
use helpcovid.Cstr.{char_at}
use helpcovid.Outcome.{main, require, ◌>>◌, ok, ◌>>=◌, Outcome}
use helpcovid.Web.Server.{WebServer, initialize_web}
use helpcovid.Prelude.{
  some, none, false, [], is_empty, codes, ◌==◌, not, ℕ, if◌then◌else◌, Option, List, Bytes,
}
use helpcovid.Main.Arguments.Threads.{early_threads, config_threads}
use helpcovid.Main.Settings.{
  config_has_group, set_effective_user, load_config_file, or_throw, KeyFile, Files,
}
use helpcovid.Main.Arguments.{ProgOption, ProgArguments, Program, System}

-- What main has set up.
pub record Started : Type 0 where
  pub program : Program
  pub config_file_path : Bytes
  pub settings : KeyFile
  pub server : Option WebServer
  pub user : Option ℕ

-- The key "threads" of the group "helpcovid".
unfoldable pub read_threads : System → KeyFile → Program → Outcome Program
unfolding config_threads
read_threads sys kf p = do
  has ← or_throw (kf.has_key (codes "helpcovid") (codes "threads")) 1063
  if has
      then (do
        number ← or_throw (kf.get_int64 (codes "helpcovid") (codes "threads")) 1065
        ok (record p {
          http_max_threads =
              config_threads (sys.hardware_concurrency) (some number) (p.http_max_threads);
        }))
      else ok p

-- The certificate and the key of the group "web", if it has both.
unfoldable pub read_ssl : KeyFile → Outcome (Bytes × Bytes)
read_ssl kf = do
  has_cert ← or_throw (kf.has_key (codes "web") (codes "sslcert")) 1090
  has_ssl ← if has_cert then or_throw (kf.has_key (codes "web") (codes "sslkey")) 1090 else ok false
  if has_ssl
      then (do
        sslcertstr ← or_throw (kf.get_string (codes "web") (codes "sslcert")) 1092
        sslkeystr ← or_throw (kf.get_string (codes "web") (codes "sslkey")) 1093
        ok (sslcertstr, sslkeystr))
      else ok ([], [])

-- The web server of the group "web".
unfoldable pub web_from_config : Files → KeyFile → Outcome WebServer
unfolding read_ssl initialize_web
web_from_config files kf = do
  has_url ← or_throw (kf.has_key (codes "web") (codes "url")) 1085
  require has_url main 1086
  has_root ← or_throw (kf.has_key (codes "web") (codes "root")) 1087
  require has_root main 1088
  ssl_strings ← read_ssl kf
  url ← or_throw (kf.get_string (codes "web") (codes "url")) 1095
  root ← or_throw (kf.get_string (codes "web") (codes "root")) 1096
  initialize_web (files.stat) url root (ssl_strings.0) (ssl_strings.1)

-- The web server, from the arguments if they have a URL.
unfoldable pub start_web : Files → KeyFile → ProgArguments → Outcome (Option WebServer)
unfolding web_from_config initialize_web
start_web files kf a =
    if not (is_empty (a.web_url))
    then (do
      running ←
          initialize_web (files.stat) (a.web_url) (a.web_root) (a.openssl_cert) (a.openssl_key)
      ok (some running))
    else (do
      in_config ← config_has_group kf (codes "web")
      if in_config then (do running ← web_from_config files kf; ok (some running)) else ok none)

-- The keys "seteuid" and "pid_file" of the group "helpcovid": the user, and the program.
unfoldable pub read_user : KeyFile → Outcome Bytes
read_user kf = do
  has ← or_throw (kf.has_key (codes "helpcovid") (codes "seteuid")) 1110
  if has then or_throw (kf.get_string (codes "helpcovid") (codes "seteuid")) 1112 else ok []

unfoldable pub with_pid_file : Bytes → Program → Program
with_pid_file path p =
    if char_at path 0 == b'/' then record p { args = record (p.args) { pid_file = path } } else p

unfoldable pub read_pid_file : KeyFile → Program → Outcome Program
unfolding with_pid_file
read_pid_file kf p = do
  has ← or_throw (kf.has_key (codes "helpcovid") (codes "pid_file")) 1116
  if has
      then (do
        path ← or_throw (kf.get_string (codes "helpcovid") (codes "pid_file")) 1118
        ok (with_pid_file path p))
      else ok p

-- `hcv_set_euid` on the argument, or else on the configuration's user.
unfoldable pub change_user : Files → Bytes → Bytes → Outcome (Option ℕ)
change_user files argument configured =
    if not (is_empty argument)
    then set_effective_user files argument
    else if not (is_empty configured)
    then set_effective_user files configured
    else ok none

-- The steps in main's order, with the options of the command line.
unfoldable pub start_program :
    System → Files → Bytes → List (ProgOption × Bytes) → Program → Outcome Started
unfolding early_threads read_threads start_web read_user read_pid_file change_user
start_program sys files argv0 options p0 = do
  p1 ← parse_program_arguments sys argv0 options (record p0 {
    http_max_threads = early_threads (sys.getenv) (sys.hardware_concurrency) (p0.http_max_threads);
  })
  config ← load_config_file sys files [] p1
  in_config ← config_has_group (config.1) (codes "helpcovid")
  p2 ← if in_config then read_threads sys (config.1) p1 else ok p1
  web_server ← start_web files (config.1) (p2.args)
  configured ← if in_config then read_user (config.1) else ok []
  p3 ← if in_config then read_pid_file (config.1) p2 else ok p2
  uid ← change_user files (p3.args.set_euid) configured
  ok (record {
    program = p3;
    config_file_path = config.0;
    settings = config.1;
    server = web_server;
    user = uid;
  })
