-- ===== src/Main/Arguments.antt =====
-- The state that the program's options set, and one option: `hcv_parse1opt` (hcv_main.cc).
pub mod Threads
pub mod Post
pub mod Sound
pub mod Defaults
pub mod Options
use mathlib.Core.List.{head, []}
use helpcovid.Scan.Number.{atoi}
use helpcovid.Cstr.{is_word, char_at, is_digit}
use helpcovid.Outcome.{require, ◌>>◌, main, fatal, require_some, ◌>>=◌, ok, Outcome}
use helpcovid.Scan.{position, lit, field, Directive, sscanf}
use helpcovid.Prelude.{
  drop, ◌+◌, ltb, leb, is_empty, ◌∷◌, ◌&&◌, true, not, some, none, if◌then◌else◌, Option, Bool, ℕ,
  List, Bytes,
}
use helpcovid.Plugins.{load_plugin, Plugin, Loader}
use helpcovid.Main.Arguments.Threads.{limit_threads}

-- `enum hcv_progoption_en`
pub data ProgOption : Type 0 where
  none_key weburl postgresuri syslog webroot seteuid config threads locale write_pid debug
        webssl_cert webssl_key plugin clear_database cleanup :
      ProgOption

-- The values of `enum hcv_progoption_en`.
abbrev pub key_number : ProgOption → ℕ
key_number none_key = 0
key_number weburl = b'W'
key_number postgresuri = b'P'
key_number syslog = b'S'
key_number webroot = b'R'
key_number seteuid = b'U'
key_number config = b'C'
key_number threads = b'T'
key_number locale = b'L'
key_number write_pid = b'p'
key_number debug = b'D'
key_number webssl_cert = 1000
key_number webssl_key = 1001
key_number plugin = 1002
key_number clear_database = 1003
key_number cleanup = 1004

-- `struct hcv_progarguments`
pub record ProgArguments : Type 0 where
  pub progname : Bytes
  pub web_url : Bytes
  pub config_file : Bytes
  pub postgres_uri : Bytes
  pub web_root : Bytes
  pub set_euid : Bytes
  pub openssl_cert : Bytes
  pub openssl_key : Bytes
  pub pid_file : Bytes

-- The global variables that the options set; `facility` is the last argument of openlog.
pub record Program : Type 0 where
  pub args : ProgArguments
  pub http_max_threads : ℕ
  pub debugging : Bool
  pub should_cleanup : Bool
  pub should_clear_database : Bool
  pub current_locale : Bytes
  pub facility : ℕ
  pub loaded : List Plugin

-- What the system gives: the number of processors as an unsigned of 32 bits, setlocale, the
-- environment, the base name of a path, and the dynamic loader.
pub record System : Type 0 where
  pub hardware_concurrency : ℕ
  pub setlocale : Bytes → Option Bytes
  pub getenv : Bytes → Option Bytes
  pub basename : Bytes → Bytes
  pub loader : Loader

abbrev pub first : List Bytes → Option Bytes
first [] = none
first (s ∷ rest) = some s

-- "%60[A-Za-z0-9_]%n", and "%60[A-Za-z0-9_]:%n"
abbrev pub plugin_option_format : List Directive
plugin_option_format = field 60 is_word ∷ position ∷ []

abbrev plugin_colon_format : List Directive
plugin_colon_format = field 60 is_word ∷ lit b':' ∷ position ∷ []

-- The argument of the plugin: what follows the position that the second sscanf leaves in `endp`.
unfoldable pub plugin_option_arg : Bytes → ℕ → Option Bytes
unfolding sscanf
plugin_option_arg arg endp1 =
    let scan = sscanf arg plugin_colon_format in
    let endp = elim (scan.endpos) as (λ _. ℕ) [ none ↦ endp1 | some e ↦ e ] in
    if not (is_empty (scan.fields)) && ltb 2 endp then some (drop endp arg) else none

-- `case HCVPROGOPT_PLUGIN`
unfoldable pub parse_plugin_option : Loader → Bytes → List Plugin → Outcome (List Plugin)
unfolding plugin_option_arg
parse_plugin_option loader arg loaded =
    let scan = sscanf arg plugin_option_format in
    do
      plugnambuf ← require_some (first (scan.fields)) main 419
      endp ← require_some (scan.endpos) main 419
      require (ltb 0 endp) main 419
      load_plugin loader plugnambuf (plugin_option_arg arg endp) loaded

-- `case HCVPROGOPT_SYSLOG`; LOG_LOCAL0 is 16 * 8.
unfoldable pub parse_syslog_option : Bytes → Outcome ℕ
parse_syslog_option arg =
    if is_digit (char_at arg 0) && leb (atoi arg) 7 then ok (128 + atoi arg) else fatal main 381

-- `case HCVPROGOPT_LOCALE`, on what setlocale gives.
unfoldable pub set_locale : Option Bytes → Program → Program
set_locale none p = p
set_locale (some newloc) p = record p { current_locale = newloc }

-- `hcv_parse1opt`; none is ARGP_ERR_UNKNOWN.
unfoldable pub parse1opt : System → ProgOption → Bytes → Program → Outcome (Option Program)
unfolding parse_plugin_option parse_syslog_option set_locale
parse1opt sys debug arg p = ok (some (record p { debugging = true }))
parse1opt sys cleanup arg p = ok (some (record p { should_cleanup = true }))
parse1opt sys weburl arg p = ok (some (record p { args = record (p.args) { web_url = arg } }))
parse1opt sys postgresuri arg p =
    ok (some (record p { args = record (p.args) { postgres_uri = arg } }))
parse1opt sys config arg p = ok (some (record p { args = record (p.args) { config_file = arg } }))
parse1opt sys write_pid arg p = ok (some (record p { args = record (p.args) { pid_file = arg } }))
parse1opt sys threads arg p =
    ok (some (record p { http_max_threads = limit_threads (sys.hardware_concurrency) (atoi arg) }))
parse1opt sys syslog arg p = do
  logging ← parse_syslog_option arg
  ok (some (record p { facility = logging }))
parse1opt sys webroot arg p = ok (some (record p { args = record (p.args) { web_root = arg } }))
parse1opt sys locale arg p = ok (some (set_locale (sys.setlocale arg) p))
parse1opt sys webssl_cert arg p =
    ok (some (record p { args = record (p.args) { openssl_cert = arg } }))
parse1opt sys webssl_key arg p =
    ok (some (record p { args = record (p.args) { openssl_key = arg } }))
parse1opt sys plugin arg p = do
  after ← parse_plugin_option (sys.loader) arg (p.loaded)
  ok (some (record p { loaded = after }))
parse1opt sys clear_database arg p = ok (some (record p { should_clear_database = true }))
parse1opt sys none_key arg p = ok none
parse1opt sys seteuid arg p = ok none

-- argp_parse calls the parser with each option in order, until it refuses one.
unfoldable pub parse_options :
    System → List (ProgOption × Bytes) → Program → Outcome (Option Program)
unfolding parse1opt
parse_options sys [] p = ok (some p)
parse_options sys ((key, arg) ∷ rest) p = parse1opt sys key arg p >>= λ parsed. elim parsed [
  | none ↦ ok none
  | some after ↦ parse_options sys rest after
]
