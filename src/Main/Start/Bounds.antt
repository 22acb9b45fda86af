-- ===== src/Main/Start/Bounds.antt =====
-- What the start of the program leaves: the number of threads, the plugins, and the web server.
use helpcovid.Main.Arguments.Sound.{IsSound, parse_program_arguments-IsSound}
use helpcovid.Web.Server.Started.{initialize_web-IsStarted, IsStarted}
use helpcovid.Web.Server.{initialize_web, WebServer}
use helpcovid.Cstr.{char_at}
use helpcovid.Main.Settings.{config_has_group, load_config_file, Files, or_throw, KeyFile}
use helpcovid.Main.Start.{
  not, read_ssl, initialize_web, is_empty, web_from_config, WebServer, change_user, read_user,
  start_web, [], Started, char_at, start_program, with_pid_file, codes, require, KeyFile,
  read_threads, read_pid_file,
}
use helpcovid.Main.Arguments.Threads.{
  early_threads-AreBounded, early_threads, config_threads-AreBounded,
}
use helpcovid.Outcome.{if-taken, if-keeps, require, ok-injective, main, >>=-eq-ok, ok}
use mathlib.Core.Option.{none}
use helpcovid.Plugins.Loaded.{AreLoaded}
use helpcovid.Prelude.{
  is_empty, arith, refl, inr, inl, ◌==◌, Bool-cases, codes, if◌then◌else◌, ◌≡◌, some, List, ◌^◌,
  Option, Bytes, ◌<◌,
}
use helpcovid.Main.Arguments.Defaults.{parse_program_arguments}
use helpcovid.Main.Arguments.{ProgArguments, ProgOption, Program, System}

read_threads-IsSound :
    (sys : System)
    → 0 < sys.hardware_concurrency
    → sys.hardware_concurrency < 2 ^ 32
    → (kf : KeyFile) (p : Program) {q : Program} → IsSound sys p
    → read_threads sys kf p ≡ ok q
    → IsSound sys q
unfolding read_threads
read_threads-IsSound sys lo hi kf p h e =
    let (has, _, e1) =
      >>=-eq-ok (or_throw (kf.has_key (codes "helpcovid") (codes "threads")) 1063) _ e in
    if-keeps (IsSound sys) has _ p h
      (λ x read.
        let (number, _, e2) =
          >>=-eq-ok (or_throw (kf.get_int64 (codes "helpcovid") (codes "threads")) 1065) _ read in
        let same = ok-injective e2 in
        rw (← same) (
          config_threads-AreBounded (sys.hardware_concurrency) (some number) (p.http_max_threads) lo
              hi (h.0),
          h.1,
        ))
      e1

with_pid_file-IsSound :
    (sys : System) (path : Bytes) (p : Program) → IsSound sys p → IsSound sys (with_pid_file path p)
unfolding with_pid_file
with_pid_file-IsSound sys path p h = elim (Bool-cases (char_at path 0 == b'/')) [
  | inl slash ↦ rw slash h
  | inr other ↦ rw other h
]

read_pid_file-IsSound :
    (sys : System) (kf : KeyFile) (p : Program) {q : Program}
    → IsSound sys p
    → read_pid_file kf p ≡ ok q
    → IsSound sys q
unfolding read_pid_file
read_pid_file-IsSound sys kf p h e =
    let (has, _, e1) =
      >>=-eq-ok (or_throw (kf.has_key (codes "helpcovid") (codes "pid_file")) 1116) _ e in
    if-keeps (IsSound sys) has _ p h
      (λ x read.
        let (path, _, e2) =
          >>=-eq-ok (or_throw (kf.get_string (codes "helpcovid") (codes "pid_file")) 1118) _ read in
        let same = ok-injective e2 in rw (← same) (with_pid_file-IsSound sys path p h))
      e1

web_from_config-IsStarted :
    (files : Files) (kf : KeyFile) {s : WebServer}
    → web_from_config files kf ≡ ok s
    → IsStarted files.stat s
unfolding web_from_config
web_from_config-IsStarted files kf e =
    let (has_url, _, e1) = >>=-eq-ok (or_throw (kf.has_key (codes "web") (codes "url")) 1085) _ e in
    let (_, _, e2) = >>=-eq-ok (require has_url main 1086) _ e1 in
    let (has_root, _, e3) =
      >>=-eq-ok (or_throw (kf.has_key (codes "web") (codes "root")) 1087) _ e2 in
    let (_, _, e4) = >>=-eq-ok (require has_root main 1088) _ e3 in
    let (ssl_strings, _, e5) = >>=-eq-ok (read_ssl kf) _ e4 in
    let (url, _, e6) = >>=-eq-ok (or_throw (kf.get_string (codes "web") (codes "url")) 1095) _ e5 in
    let (root, _, e7) =
      >>=-eq-ok (or_throw (kf.get_string (codes "web") (codes "root")) 1096) _ e6 in
    initialize_web-IsStarted files.stat url root (ssl_strings.0) (ssl_strings.1) e7

-- The servers that an optional server may be.
abbrev AllStarted : Files → Option WebServer → Type 0
AllStarted files server = (s : WebServer) → server ≡ some s → IsStarted files.stat s

AllStarted-some :
    (files : Files) (running : WebServer)
    → IsStarted files.stat running
    → AllStarted files (some running)
AllStarted-some files running h s found =
    let same : running ≡ s = ground (arith, found) in rw (← same) h

AllStarted-none : (files : Files) → AllStarted files none
AllStarted-none files s found = ground (arith, found)

start_web-IsStarted :
    (files : Files) (kf : KeyFile) (a : ProgArguments) {server : Option WebServer}
    → start_web files kf a ≡ ok server
    → AllStarted files server
unfolding start_web
start_web-IsStarted files kf a e = elim (if-taken (not (is_empty a.web_url)) _ _ e) [
  | inl from_arguments ↦
      let (running, begun, e1) =
        >>=-eq-ok (initialize_web files.stat a.web_url a.web_root a.openssl_cert a.openssl_key) _
          from_arguments in
      let started =
        initialize_web-IsStarted files.stat a.web_url a.web_root a.openssl_cert a.openssl_key
          begun in
      rw (← ok-injective e1) (AllStarted-some files running started)
  | inr from_config ↦
      let (in_config, _, e1) = >>=-eq-ok (config_has_group kf (codes "web")) _ from_config in
      if-keeps (AllStarted files) in_config _ none (AllStarted-none files)
        (λ x configured.
          let (running, begun, e2) = >>=-eq-ok (web_from_config files kf) _ configured in
          let same = ok-injective e2 in
          rw (← same) (AllStarted-some files running (web_from_config-IsStarted files kf begun)))
        e1
]

-- When main has reached the effective user, it has 2 threads or more and at most 4 or one less than
-- the processors, whichever is larger, whatever the environment, the options and the configuration ask
-- for; its plugins have different valid names that their libraries know, if there was no plugin before;
-- and its web server, if there is one, has a URL, a root that ends with a slash, and, with SSL, a key
-- that is a regular file on which others have no permission. The number of processors is positive and
-- of 32 bits.
pub start_program-IsSound :
    (sys : System) (files : Files) (argv0 : Bytes) (options : List (ProgOption × Bytes))
    (p : Program) {st : Started}
    → 0 < sys.hardware_concurrency
    → sys.hardware_concurrency < 2 ^ 32
    → p.loaded ≡ []
    → start_program sys files argv0 options p ≡ ok st
    → IsSound sys st.program × ((s : WebServer) → st.server ≡ some s → IsStarted files.stat s)
unfolding start_program
start_program-IsSound sys files argv0 options p lo hi fresh e =
    let p0 = record p {
      http_max_threads = early_threads (sys.getenv) (sys.hardware_concurrency) (p.http_max_threads);
    } in
    let (p1, parsed, e1) = >>=-eq-ok (parse_program_arguments sys argv0 options p0) _ e in
    let (settings, _, e2) = >>=-eq-ok (load_config_file sys files [] p1) _ e1 in
    let (in_config, _, e3) = >>=-eq-ok (config_has_group (settings.1) (codes "helpcovid")) _ e2 in
    let (p2, counted, e4) =
      >>=-eq-ok (if in_config then read_threads sys (settings.1) p1 else ok p1) _ e3 in
    let (web_server, opened, e5) = >>=-eq-ok (start_web files (settings.1) (p2.args)) _ e4 in
    let (configured, _, e6) =
      >>=-eq-ok (if in_config then read_user (settings.1) else ok []) _ e5 in
    let (p3, piddled, e7) =
      >>=-eq-ok (if in_config then read_pid_file (settings.1) p2 else ok p2) _ e6 in
    let (uid, _, e8) = >>=-eq-ok (change_user files (p3.args.set_euid) configured) _ e7 in
    let none_loaded : AreLoaded (sys.loader) (p.loaded) =
      rw fresh (record { distinct = refl; each = tt }) in
    let sound0 : IsSound sys p0 = (
      early_threads-AreBounded (sys.getenv) (sys.hardware_concurrency) (p.http_max_threads) lo hi,
      none_loaded,
    ) in
    let sound1 = parse_program_arguments-IsSound sys lo hi argv0 options p0 sound0 parsed in
    let sound2 =
      if-keeps (IsSound sys) in_config _ p1 sound1
        (λ _. read_threads-IsSound sys lo hi (settings.1) p1 sound1) counted in
    let sound3 =
      if-keeps (IsSound sys) in_config _ p2 sound2
        (λ _. read_pid_file-IsSound sys (settings.1) p2 sound2) piddled in
    rw (← ok-injective e8) (sound3, start_web-IsStarted files (settings.1) (p2.args) opened)
