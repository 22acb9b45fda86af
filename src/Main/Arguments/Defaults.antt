-- ===== src/Main/Arguments/Defaults.antt =====
-- `hcv_parse_program_arguments` (hcv_main.cc): the options, and the environment where they are silent.
use helpcovid.Outcome.{ok, main, require_some, ◌>>=◌, Outcome}
use helpcovid.Prelude.{none, is_empty, codes, if◌then◌else◌, Bytes}
use helpcovid.Main.Arguments.{
  some, ok, main, require_some, parse_options, Outcome, is_empty, Program, ProgOption,
  ProgArguments, Option, List, System,
}
pub mod Given

-- `if (field.empty() && getenv(name)) field = getenv(name);`
unfoldable pub default_from : (Bytes → Option Bytes) → Bytes → Bytes → Bytes
default_from getenv name value =
    if is_empty value then elim (getenv name) [ none ↦ value | some found ↦ found ] else value

unfoldable pub set_defaults : (Bytes → Option Bytes) → ProgArguments → ProgArguments
unfolding default_from
set_defaults getenv a = record a {
  web_url = default_from getenv (codes "HELPCOVID_URL") (a.web_url);
  postgres_uri = default_from getenv (codes "HELPCOVID_POSTGRESQL") (a.postgres_uri);
  web_root = default_from getenv (codes "HELPCOVID_WEBROOT") (a.web_root);
  set_euid = default_from getenv (codes "HELPCOVID_SETEUID") (a.set_euid);
  openssl_cert = default_from getenv (codes "HELPCOVID_SSLCERT") (a.openssl_cert);
  openssl_key = default_from getenv (codes "HELPCOVID_SSLKEY") (a.openssl_key);
  pid_file = default_from getenv (codes "HELPCOVID_PIDFILE") (a.pid_file);
}

-- `hcv_parse_program_arguments`, on the options in the order of the command line. For an option that
-- is refused, argp ends the process or reports a failure, which is fatal.
unfoldable pub parse_program_arguments :
    System → Bytes → List (ProgOption × Bytes) → Program → Outcome Program
unfolding set_defaults
parse_program_arguments sys argv0 options p = do
  parsed ←
      parse_options sys options
        (record p { args = record (p.args) { progname = sys.basename argv0 } })
  after ← require_some parsed main 560
  ok (record after { args = set_defaults (sys.getenv) (after.args) })
