-- ===== src/Main/Arguments/Defaults/Given.antt =====
-- The last argument of an option is what counts, and the environment where there is none.
use helpcovid.Main.Arguments.Defaults.{set_defaults, parse_program_arguments, default_from}
use helpcovid.Outcome.{ok-injective, require_some-eq-ok, main, require_some, >>=-eq-ok, ok}
use helpcovid.Main.Arguments.Post.{parse_options-Post, Post-ok, Post->>=, Post}
use mathlib.Core.List.{[]}
use helpcovid.Prelude.{
  inr, inl, false, Option-cases, codes, all, sym, ap, ◌∙◌, none, some, ◌==◌, ◌≡◌, if◌then◌else◌,
  ◌∷◌, Bytes,
}
use helpcovid.Main.Arguments.{
  key_number, main, require_some, true, Bool, Option, set_locale, ok, parse_options,
  parse_plugin_option, parse_syslog_option, cleanup, clear_database, plugin, webssl_key,
  webssl_cert, debug, write_pid, locale, threads, config, webroot, some, syslog, seteuid,
  postgresuri, weburl, Program, ProgArguments, none_key, Bytes, ℕ, System, List, parse1opt,
  ProgOption,
}
use helpcovid.Prelude.{refl}

abbrev pub last_given : ℕ → Bytes → List (ProgOption × Bytes) → Bytes
last_given key before [] = before
last_given key before ((k, arg) ∷ rest) =
    last_given key (if key_number k == key then arg else before) rest

-- The arguments that the options leave.
abbrev pub given : List (ProgOption × Bytes) → ProgArguments → ProgArguments
given options a = record a {
  web_url = last_given b'W' (a.web_url) options;
  config_file = last_given b'C' (a.config_file) options;
  postgres_uri = last_given b'P' (a.postgres_uri) options;
  web_root = last_given b'R' (a.web_root) options;
  openssl_cert = last_given 1000 (a.openssl_cert) options;
  openssl_key = last_given 1001 (a.openssl_key) options;
  pid_file = last_given b'p' (a.pid_file) options;
}

set_locale-args : (o : Option Bytes) (p : Program) → (set_locale o p).args ≡ p.args
unfolding set_locale
set_locale-args none p = refl
set_locale-args (some newloc) p = refl

-- The keys for which the parser has a case.
abbrev pub is_known : ProgOption → Bool
is_known none_key = false
is_known seteuid = false
is_known _ = true

-- One option sets at most one argument.
parse1opt-given :
    (sys : System) (final : ProgArguments) (known : Bool) (key : ProgOption) (arg : Bytes)
    (rest : List (ProgOption × Bytes)) (p : Program)
    → (final ≡ given ((key, arg) ∷ rest) (p.args))
      × (known ≡ all (λ o. is_known (o.0)) ((key, arg) ∷ rest))
    → Post
        (λ q. (final ≡ given rest (q.args)) × (known ≡ all (λ o. is_known (o.0)) rest))
        (parse1opt sys key arg p)
unfolding parse1opt
parse1opt-given sys final known none_key arg rest p h = tt
parse1opt-given sys final known weburl arg rest p h = h
parse1opt-given sys final known postgresuri arg rest p h = h
parse1opt-given sys final known syslog arg rest p h =
    Post->>= _ (parse_syslog_option arg) _ (λ x _. h)
parse1opt-given sys final known webroot arg rest p h = h
parse1opt-given sys final known seteuid arg rest p h = tt
parse1opt-given sys final known config arg rest p h = h
parse1opt-given sys final known threads arg rest p h = h
parse1opt-given sys final known locale arg rest p h =
    (h.0 ∙ ap (given rest) (sym (set_locale-args (sys.setlocale arg) p)), h.1)
parse1opt-given sys final known write_pid arg rest p h = h
parse1opt-given sys final known debug arg rest p h = h
parse1opt-given sys final known webssl_cert arg rest p h = h
parse1opt-given sys final known webssl_key arg rest p h = h
parse1opt-given sys final known plugin arg rest p h =
    Post->>= _ (parse_plugin_option (sys.loader) arg (p.loaded)) _ (λ x _. h)
parse1opt-given sys final known clear_database arg rest p h = h
parse1opt-given sys final known cleanup arg rest p h = h

parse_options-given :
    (sys : System) (options : List (ProgOption × Bytes)) (p : Program) {q : Program}
    → parse_options sys options p ≡ ok (some q)
    → (q.args ≡ given options (p.args)) × (all (λ o. is_known (o.0)) options ≡ true)
parse_options-given sys options p {q} e =
    let known = all (λ o. is_known (o.0)) options in
    let (same, all_known) =
      Post-ok (λ q. (given options (p.args) ≡ given [] (q.args)) × (known ≡ true))
        (parse_options sys options p)
        (parse_options-Post sys
          (λ rest q.
            (given options (p.args) ≡ given rest (q.args))
            × (known ≡ all (λ o. is_known (o.0)) rest))
          (parse1opt-given sys (given options (p.args)) known) options p (refl, refl))
        e in
    (sym same, all_known)

-- An argument, or what the environment has where it is empty.
abbrev pub first_filled : Bytes → Option Bytes → Bytes
first_filled [] none = []
first_filled [] (some found) = found
first_filled (c ∷ s) o = c ∷ s

abbrev pub chosen :
    (Bytes → Option Bytes) → List (ProgOption × Bytes) → ProgArguments → ProgArguments
chosen getenv options a = record {
  progname = a.progname;
  web_url = first_filled (last_given b'W' (a.web_url) options) (getenv (codes "HELPCOVID_URL"));
  config_file = last_given b'C' (a.config_file) options;
  postgres_uri =
      first_filled (last_given b'P' (a.postgres_uri) options)
        (getenv (codes "HELPCOVID_POSTGRESQL"));
  web_root =
      first_filled (last_given b'R' (a.web_root) options) (getenv (codes "HELPCOVID_WEBROOT"));
  set_euid = first_filled (a.set_euid) (getenv (codes "HELPCOVID_SETEUID"));
  openssl_cert =
      first_filled (last_given 1000 (a.openssl_cert) options) (getenv (codes "HELPCOVID_SSLCERT"));
  openssl_key =
      first_filled (last_given 1001 (a.openssl_key) options) (getenv (codes "HELPCOVID_SSLKEY"));
  pid_file =
      first_filled (last_given b'p' (a.pid_file) options) (getenv (codes "HELPCOVID_PIDFILE"));
}

default_from-first_filled :
    (getenv : Bytes → Option Bytes) (name value : Bytes)
    → default_from getenv name value ≡ first_filled value (getenv name)
unfolding default_from
default_from-first_filled getenv name [] = elim (Option-cases (getenv name)) [
  | inl e ↦ rw e refl
  | inr (v, e) ↦ rw e refl
]
default_from-first_filled getenv name (c ∷ s) = refl

set_defaults-given :
    (getenv : Bytes → Option Bytes) (options : List (ProgOption × Bytes)) (a : ProgArguments)
    → set_defaults getenv (given options a) ≡ chosen getenv options a
unfolding set_defaults
set_defaults-given getenv options a = λ i. record {
  progname = a.progname;
  web_url =
      default_from-first_filled getenv (codes "HELPCOVID_URL") (last_given b'W' (a.web_url) options)
        i;
  config_file = last_given b'C' (a.config_file) options;
  postgres_uri =
      default_from-first_filled getenv (codes "HELPCOVID_POSTGRESQL")
        (last_given b'P' (a.postgres_uri) options) i;
  web_root =
      default_from-first_filled getenv (codes "HELPCOVID_WEBROOT")
        (last_given b'R' (a.web_root) options) i;
  set_euid = default_from-first_filled getenv (codes "HELPCOVID_SETEUID") (a.set_euid) i;
  openssl_cert =
      default_from-first_filled getenv (codes "HELPCOVID_SSLCERT")
        (last_given 1000 (a.openssl_cert) options) i;
  openssl_key =
      default_from-first_filled getenv (codes "HELPCOVID_SSLKEY")
        (last_given 1001 (a.openssl_key) options) i;
  pid_file =
      default_from-first_filled getenv (codes "HELPCOVID_PIDFILE")
        (last_given b'p' (a.pid_file) options) i;
}

-- If `hcv_parse_program_arguments` returns, then no option was `--seteuid`, and each argument of the
-- program is the last one that the options give, or, where this is empty, what its variable has in the
-- environment; the user for seteuid comes from the environment alone, and the configuration file from
-- the options alone.
pub parse_program_arguments-chosen :
    (sys : System) (argv0 : Bytes) (options : List (ProgOption × Bytes)) (p : Program) {q : Program}
    → parse_program_arguments sys argv0 options p ≡ ok q
    → (all (λ o. is_known (o.0)) options ≡ true)
      × (q.args ≡ chosen (sys.getenv) options (record (p.args) { progname = sys.basename argv0 }))
unfolding parse_program_arguments
parse_program_arguments-chosen sys argv0 options p e =
    let start = record p { args = record (p.args) { progname = sys.basename argv0 } } in
    let (parsed, returned, e1) = >>=-eq-ok (parse_options sys options start) _ e in
    let (after, known, e2) = >>=-eq-ok (require_some parsed main 560) _ e1 in
    let found = require_some-eq-ok parsed main 560 known in
    let (same, all_known) = parse_options-given sys options start (returned ∙ ap ok found) in
    (
      all_known,
      sym (ap (λ r. r.args) (ok-injective e2))
          ∙ ap (set_defaults (sys.getenv)) same
          ∙ set_defaults-given (sys.getenv) options (start.args),
    )
