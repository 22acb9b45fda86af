-- ===== src/Main/Arguments/Options.antt =====
-- The table of the options, `hcv_progoptions` (hcv_main.cc). argp, which reads it, is the C
-- library's.
pub mod Declared
use helpcovid.Template.Registry.{is_some}
use helpcovid.Main.Arguments.{
  key_number, ℕ, Bool, parse1opt, ProgOption, Program, System, parse_options,
}
use helpcovid.Outcome.{Outcome, ok, ◌>>=◌}
use helpcovid.Prelude.{
  ◌||◌, ◌&&◌, ◌==◌, ◌+◌, false, Option, none, some, List, [], ◌∷◌, concat, equal, if◌then◌else◌,
  codes, Bytes,
}

-- A `struct argp_option`: its flags and its group are 0.
pub record OptionRow : Type 0 where
  pub name : Bytes
  pub key : ProgOption
  pub arg : Option Bytes
  pub doc : Bytes

abbrev row : Bytes → ProgOption → Option Bytes → Bytes → OptionRow
row name key arg doc = record { name = name; key = key; arg = arg; doc = doc }

unfoldable pub progoptions : List OptionRow
progoptions =
    row (codes "web-url") ProgOption.weburl (some (codes "WEBURL")) (
      concat (
        codes "sets the served WEB url (defaults to $HELPCOVID_URL),  e.g. "
        ∷ codes "--web-url=https://myexample.com/helpcovid/, config: web/url"
        ∷ []))
    ∷ row (codes "postgresql-database") ProgOption.postgresuri (some (codes "POSTGRESQLURI")) (
        concat (
          codes "sets the PostgreSQL database URI (defaults to $HELPCOVID_POSTGRESQL), e.g. "
          ∷ codes "--postgresql-database=postgresql://www-data@localhost/helpcovid, config: "
          ∷ codes "postgresql/connection; use - to disable PostGreSQL (useless except for "
          ∷ codes "debugging purposes)"
          ∷ []))
    ∷ row (codes "syslog-level") ProgOption.syslog (some (codes "SYSLOGLEVEL")) (
        concat (
          codes "sets the syslog level to SYSLOGLEVEL for openlog(3) (defaults to 0 for "
          ∷ codes "LOG_LOCAL0), between 0 and 7, e.g. --syslog-level=1"
          ∷ []))
    ∷ row (codes "threads") ProgOption.threads (some (codes "NBWORKERTHREADS")) (
        concat (
          codes "sets the number of worker threads, (defaults to $HELPCOVID_NBWORKERTHREADS), "
          ∷ codes "config: helpcovid/threads"
          ∷ []))
    ∷ row (codes "locale") ProgOption.locale (some (codes "LOCALE")) (
        concat (
          codes "sets the locale for internationalization to LOCALE, see locale(7) and "
          ∷ codes "setlocale(3),\n... (defaults to $HELPCOVID_LOCALE), config: [helpcovid] "
          ∷ codes "locale;\n... see also config: [helpcovid] custom_messages_file."
          ∷ []))
    ∷ row (codes "webroot") ProgOption.webroot (some (codes "WEBROOT")) (
        concat (
          codes "default webroot local file directory to serve static URLs without ..\n "
          ∷ codes "(defaults to $HELPCOVID_WEBROOT), config: web/root"
          ∷ []))
    ∷ row (codes "config") ProgOption.config (some (codes "CONFIGFILE")) (
        concat (
          codes "default configuration key file (defaults to $HELPCOVID_CONFIG or else "
          ∷ codes "/etc/helpcovid.conf)"
          ∷ []))
    ∷ row (codes "websslcert") ProgOption.webssl_cert (some (codes "WEBSSLCERT")) (
        concat (
          codes "web OpenSSL certificate file, e.g. --websslcert=/etc/helpcovid/somecert.pem "
          ∷ codes "(defaults to $HELPCOVID_SSLCERT), config: web/sslcert"
          ∷ []))
    ∷ row (codes "websslkey") ProgOption.webssl_key (some (codes "WEBSSLKEY")) (
        concat (
          codes "web OpenSSL private key, e.g. --websslkey=/etc/helpcovid/somekey.pem "
          ∷ codes "(defaults to $HELPCOVID_SSLKEY), config: web/sslkey"
          ∷ []))
    ∷ row (codes "seteuid") ProgOption.seteuid (some (codes "EFFECTIVEUSER")) (
        concat (
          codes "call seteuid(2) on given user name or numerical id (defaults to "
          ∷ codes "$HELPCOVID_SETEUID), config: helpcovid/seteuid. Huge cybersecurity risk if "
          ∷ codes "badly used..."
          ∷ []))
    ∷ row (codes "write-pid") ProgOption.write_pid (some (codes "PIDFILE")) (
        concat (
          codes "write the current pid to the given file (defaults to $HELPCOVID_PIDFILE or "
          ∷ codes "else /var/run/helpcovid.pid), config: helpcovid/pid_file"
          ∷ []))
    ∷ row (codes "debug") ProgOption.debug (none)
        (codes "write debug messages to syslog(LOG_DEBUG, ...)")
    ∷ row (codes "cleanup") ProgOption.cleanup (none)
        (codes "cleanup the database, e.g. removing old data, then exit")
    ∷ row (codes "clear-database") ProgOption.clear_database (none)
        (codes "clear database entirely")
    ∷ row (codes "plugin") ProgOption.plugin (some (codes "PLUGIN_NAME")) (
        concat (
          codes "dlopen a given plugin named PLUGIN_NAME and optional string argument\n ... "
          ∷ codes "for example --plugin=foo would dlopen(3) hcvplugin_foo.so\n ... and "
          ∷ codes "--plugin=bar_2:argbar would dlopen(3) hcvplugin_bar_2.so and pass argument "
          ∷ codes "'argbar' to it.\n"
          ∷ []))
    ∷ []

-- The table has an option of the key that takes an argument.
unfoldable pub takes_argument : ProgOption → List OptionRow → Bool
takes_argument key [] = false
takes_argument key (option ∷ rest) =
    (key_number (option.key) == key_number key && is_some (option.arg)) || takes_argument key rest

-- The number of options of the key.
unfoldable pub rows_of_key : ProgOption → List OptionRow → ℕ
rows_of_key key [] = 0
rows_of_key key (option ∷ rest) =
    rows_of_key key rest + (if key_number (option.key) == key_number key then 1 else 0)
