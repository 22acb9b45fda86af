-- ===== src/Main/Run/Serving.antt =====
-- What holds of the whole program when it serves.
use helpcovid.Database.Initialize.{initialize_database}
use helpcovid.Database.Connection.{ProcessInfo, Connector}
use helpcovid.Main.Arguments.Sound.{IsSound}
use mathlib.Core.Bool.{true}
use helpcovid.Template.Initialize.Names.{initialize_templates-lookup}
use helpcovid.Web.Server.Started.{IsStarted}
use helpcovid.Outcome.{some-injective, ◌>>=◌, ok-injective, >>=-eq-ok, ok}
use helpcovid.Template.Initialize.{registrations, initialize_templates}
use helpcovid.Main.Start.{start_program, Started}
use helpcovid.Prelude.{
  inr, inl, Option-cases, ◌∙◌, sym, arith, ◌^◌, ◌<◌, false, none, some, if◌then◌else◌, ◌≡◌, Bytes,
}
use helpcovid.Background.{Background}
use helpcovid.Web.Server.{webserver_address, WebServer}
use helpcovid.Template.Registry.{Expander}
use helpcovid.Background.Control.{start_background_thread, Descriptors}
use helpcovid.Main.ConfigGroup.{GroupState, GroupSystem}
use helpcovid.Template.Expanders.{Env}
use helpcovid.Main.Settings.{Files}
use helpcovid.Main.Run.{
  no_database, initialize_database, Connector, first_group, read_group, start_program,
  write_pid_file, webserver_address, root_of, none, ok, [], some, initialize_templates, Started,
  List, Bytes, Background, WebServer, Option, Expander, Descriptors, ℕ, Running, PidFiles,
  GroupSystem, Files, Env, Bool, run_with, run_main,
}
use helpcovid.Main.Arguments.{Program, ProgOption, System}
use helpcovid.Dict.{Dict, lookup}
use helpcovid.Main.Start.Bounds.{start_program-IsSound}
use helpcovid.Web.Url.Bounds.{IsPort, webserver_address-IsPort}

-- The threads and the plugins, the web server, the expanders, and the address.
pub record IsServing {A D : Type 0} (sys : System) (files : Files) (env : Env) (r : Running A D)
    : Type 0 where
  pub is_sound : IsSound sys r.started.program
  pub is_secured : (s : WebServer) → r.started.server ≡ some s → IsStarted files.stat s
  pub is_registered :
      (k : Bytes)
      → lookup k r.expanders
        ≡ lookup k (
            registrations
              (record env { globchunk = r.group.globchunk; web_root = root_of r.started.server }))
  pub is_addressed :
      r.started.program.should_cleanup ≡ false
      → (found : Bytes × ℕ) × (r.address ≡ some found) × IsPort found.1

registered_from :
    (env : Env) {dict : Dict Expander} (k : Bytes)
    → initialize_templates env [] ≡ ok dict
    → lookup k dict ≡ lookup k (registrations env)
unfolding lookup
registered_from env {dict} k e =
    let (dict', found, known) = initialize_templates-lookup env [] in
    let same : dict' ≡ dict = ok-injective (sym found ∙ e) in rw (← same) (known k)

addressed_from :
    (cleanup : Bool) (uid : ℕ) (server : Option WebServer) {served : Option (Bytes × ℕ)}
    → (if cleanup then ok none else (webserver_address uid server >>= λ found. ok (some found)))
      ≡ ok served
    → cleanup ≡ false
    → (found : Bytes × ℕ) × (served ≡ some found) × IsPort found.1
addressed_from true uid server e h = ground (arith, h)
addressed_from false uid server e h =
    let (found, listening, e1) = >>=-eq-ok (webserver_address uid server) _ e in
    (found, sym (ok-injective e1), webserver_address-IsPort uid server listening)

run_with-IsServing :
    {A D : Type 0} (pq : Connector D) (proc : ProcessInfo) (sys : System) (files : Files)
    (pids : PidFiles) (env : Env) (fds : Descriptors) (bg : Background A) (uid : ℕ) (st : Started)
    (g : GroupState) {r : Running A D}
    → IsSound sys st.program
    → ((s : WebServer) → st.server ≡ some s → IsStarted files.stat s)
    → run_with pq proc sys pids env fds bg uid st g ≡ ok (some r)
    → IsServing sys files env r
unfolding run_with
run_with-IsServing pq proc sys files pids env fds bg uid st g sound secured e =
    let here = record env { globchunk = g.globchunk; web_root = root_of st.server } in
    let (written, _, e1) = >>=-eq-ok (write_pid_file pids st.program.args.pid_file) _ e in
    let (connected, _, e2) =
      >>=-eq-ok
        (initialize_database pq proc st.program.loaded st.settings st.program.args.postgres_uri
          st.program.should_clear_database no_database)
        _ e1 in
    let (dict, filled, e3) = >>=-eq-ok (initialize_templates here []) _ e2 in
    let (thread, _, e4) = >>=-eq-ok (start_background_thread fds bg) _ e3 in
    let (served, listening, e5) =
      >>=-eq-ok
        (if st.program.should_cleanup
          then ok none
          else (webserver_address uid st.server >>= λ found. ok (some found)))
        _ e4 in
    let same = some-injective (ok-injective e5) in
    rw (← same) (record {
      is_sound = sound;
      is_secured = secured;
      is_registered = λ k. registered_from here k filled;
      is_addressed = addressed_from st.program.should_cleanup uid st.server listening;
    })

-- When main serves or cleans up, whatever the environment, the options and the configuration ask for:
-- it has 2 threads or more, and at most 4 or one less than the processors, whichever is larger; its
-- plugins have different valid names that their libraries know; its web server, if there is one, has a
-- URL, a root that ends with a slash, and, with SSL, a key that is a regular file on which others have
-- no permission; its expanders are those of `hcv_initialize_templates` for the messages and the web
-- root that were configured; and unless it cleans up it listens on a positive port of 32 bits. The
-- number of processors is positive and of 32 bits, and there is no plugin before.
pub run_main-IsServing :
    {A D : Type 0} (pq : Connector D) (proc : ProcessInfo) (sys : System) (files : Files)
    (system : GroupSystem) (pids : PidFiles) (env : Env) (fds : Descriptors) (bg : Background A)
    (uid : ℕ) (argv0 : Bytes) (options : List (ProgOption × Bytes)) (p : Program) {r : Running A D}
    → 0 < sys.hardware_concurrency
    → sys.hardware_concurrency < 2 ^ 32
    → p.loaded ≡ []
    → run_main pq proc sys files system pids env fds bg uid argv0 options p ≡ ok (some r)
    → IsServing sys files env r
unfolding run_main
run_main-IsServing pq proc sys files system pids env fds bg uid argv0 options p lo hi fresh e =
    let (st, started, e1) = >>=-eq-ok (start_program sys files argv0 options p) _ e in
    let (sound, secured) = start_program-IsSound sys files argv0 options p lo hi fresh started in
    let (group, _, e2) = >>=-eq-ok (read_group system st.settings (first_group st)) _ e1 in
    elim (Option-cases group) [
      | inl lasting ↦ ground (arith, rw lasting at e2)
      | inr (g, found) ↦
          run_with-IsServing pq proc sys files pids env fds bg uid st g sound secured
            (rw found at e2)
    ]
