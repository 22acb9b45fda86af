-- ===== src/Main/Arguments/Sound.antt =====
-- The options of the command line keep the bounds of the threads and the plugins.
use helpcovid.Scan.Number.{atoi}
use helpcovid.Main.Arguments.Threads.{AreBounded, limit_threads-AreBounded}
use helpcovid.Scan.{sscanf}
use helpcovid.Outcome.{require, ok-injective, require_some-eq-ok, main, require_some, >>=-eq-ok, ok}
use mathlib.Core.Option.{none}
use helpcovid.Main.Arguments.Post.{parse_options-Post, Post-ok, Post->>=, Post}
use helpcovid.Plugins.Loaded.{load_plugin-AreLoaded, AreLoaded}
use helpcovid.Prelude.{ltb, ap, ◌∙◌, ◌≡◌, some, List, ◌^◌, Option, Bytes, ◌<◌}
use helpcovid.Plugins.{Plugin, Loader}
use helpcovid.Main.Arguments.Defaults.{parse_program_arguments}
use helpcovid.Main.Arguments.{
  plugin_option_arg, cleanup, first, plugin_option_format, clear_database, plugin, webssl_key,
  webssl_cert, debug, write_pid, locale, threads, config, seteuid, webroot, syslog, postgresuri,
  weburl, none_key, parse_options, parse_syslog_option, ProgOption, Program, set_locale,
  parse_plugin_option, parse1opt, System,
}

-- Threads within their bounds, and plugins as they are loaded.
abbrev pub IsSound : System → Program → Type 0
IsSound sys p =
    AreBounded (sys.hardware_concurrency) (p.http_max_threads) × AreLoaded (sys.loader) (p.loaded)

set_locale-IsSound :
    (sys : System) (o : Option Bytes) (p : Program) → IsSound sys p → IsSound sys (set_locale o p)
unfolding set_locale
set_locale-IsSound sys none p h = h
set_locale-IsSound sys (some newloc) p h = h

parse_plugin_option-AreLoaded :
    (loader : Loader) (arg : Bytes) (before : List Plugin) {after : List Plugin}
    → AreLoaded loader before
    → parse_plugin_option loader arg before ≡ ok after
    → AreLoaded loader after
unfolding parse_plugin_option
parse_plugin_option-AreLoaded loader arg before h e =
    let scan = sscanf arg plugin_option_format in
    let (plugnambuf, _, e1) = >>=-eq-ok (require_some (first (scan.fields)) main 419) _ e in
    let (endp, _, e2) = >>=-eq-ok (require_some (scan.endpos) main 419) _ e1 in
    let (_, _, e3) = >>=-eq-ok (require (ltb 0 endp) main 419) _ e2 in
    (load_plugin-AreLoaded loader plugnambuf (plugin_option_arg arg endp) before h e3).0

parse1opt-IsSound :
    (sys : System)
    → 0 < sys.hardware_concurrency
    → sys.hardware_concurrency < 2 ^ 32
    → (key : ProgOption) (arg : Bytes) (p : Program) → IsSound sys p
    → Post (IsSound sys) (parse1opt sys key arg p)
unfolding parse1opt
parse1opt-IsSound sys lo hi none_key arg p h = tt
parse1opt-IsSound sys lo hi weburl arg p h = h
parse1opt-IsSound sys lo hi postgresuri arg p h = h
parse1opt-IsSound sys lo hi syslog arg p h = Post->>= _ (parse_syslog_option arg) _ (λ x _. h)
parse1opt-IsSound sys lo hi webroot arg p h = h
parse1opt-IsSound sys lo hi seteuid arg p h = tt
parse1opt-IsSound sys lo hi config arg p h = h
parse1opt-IsSound sys lo hi threads arg p h =
    (limit_threads-AreBounded (sys.hardware_concurrency) (atoi arg) lo hi, h.1)
parse1opt-IsSound sys lo hi locale arg p h = set_locale-IsSound sys (sys.setlocale arg) p h
parse1opt-IsSound sys lo hi write_pid arg p h = h
parse1opt-IsSound sys lo hi debug arg p h = h
parse1opt-IsSound sys lo hi webssl_cert arg p h = h
parse1opt-IsSound sys lo hi webssl_key arg p h = h
parse1opt-IsSound sys lo hi plugin arg p h =
    Post->>= _ (parse_plugin_option (sys.loader) arg (p.loaded)) _ (λ x returned.
      (h.0, parse_plugin_option-AreLoaded (sys.loader) arg (p.loaded) (h.1) returned))
parse1opt-IsSound sys lo hi clear_database arg p h = h
parse1opt-IsSound sys lo hi cleanup arg p h = h

pub parse_program_arguments-IsSound :
    (sys : System)
    → 0 < sys.hardware_concurrency
    → sys.hardware_concurrency < 2 ^ 32
    → (argv0 : Bytes) (options : List (ProgOption × Bytes)) (p : Program) {q : Program}
    → IsSound sys p
    → parse_program_arguments sys argv0 options p ≡ ok q
    → IsSound sys q
unfolding parse_program_arguments
parse_program_arguments-IsSound sys lo hi argv0 options p h e =
    let start = record p { args = record (p.args) { progname = sys.basename argv0 } } in
    let (parsed, returned, e1) = >>=-eq-ok (parse_options sys options start) _ e in
    let (after, known, e2) = >>=-eq-ok (require_some parsed main 560) _ e1 in
    let found = require_some-eq-ok parsed main 560 known in
    let sound =
      Post-ok (IsSound sys) (parse_options sys options start)
        (parse_options-Post sys (λ _. IsSound sys)
          (λ key arg _. parse1opt-IsSound sys lo hi key arg) options start h)
        (returned ∙ ap ok found) in
    let same = ok-injective e2 in rw (← same) sound
