-- ===== src/Main/Process.antt =====
-- The whole of `main` (hcv_main.cc): `hcv_early_initialize`, then what Run has.
use helpcovid.Main.Run.Serving.{run_main-IsServing, IsServing}
use helpcovid.Cstr.{c_str}
use helpcovid.Background.{Background}
use helpcovid.Background.Control.{Descriptors}
use helpcovid.Template.Expanders.{Env}
use helpcovid.Outcome.{
  some-injective, ◌>>=◌, Outcome, ok-injective, require, main, require_some, >>=-eq-ok, ok,
}
use helpcovid.Main.ConfigGroup.{GroupSystem}
use helpcovid.Prelude.{
  ◌∷◌, codes, concat, length-take, [], ap, inr, arith, inl, Option-cases, some, ◌^◌, ◌<◌, Option,
  List, Bytes, ℕ, ◌≤◌, length, ◌≡◌,
}
use helpcovid.Main.Settings.{Files}
use helpcovid.Main.Arguments.{Program, ProgOption, System}
use helpcovid.Main.Run.{Running, PidFiles, run_main}
use helpcovid.Database.Connection.{ProcessInfo, Connector}
use helpcovid.Main.Early.{Early, version_message, early_initialize, EarlySystem}
use mathlib.Core.Option

-- `main` up to the call of `listen`, or to the cleanup, with what `hcv_early_initialize` sets; the name of
-- the host is the one that it has asked for. None while the startup command runs.
unfoldable pub run_process :
    {A D : Type 0}
    → EarlySystem
    → Connector D
    → ProcessInfo
    → System
    → Files
    → GroupSystem
    → PidFiles
    → Env
    → Descriptors
    → Background A
    → ℕ
    → Bytes
    → List (ProgOption × Bytes)
    → Program
    → Outcome (Option (Early × Running A D))
unfolding early_initialize run_main
run_process {A} {D} early_sys pq proc sys files system pids env fds bg uid argv0 options p = do
  early ← early_initialize early_sys proc
  lasting ←
      run_main pq (record proc { hostname = early.hostname }) sys files system pids
        (record env { hostname = c_str (early.hostname) }) fds bg uid argv0 options p
  ok (Option.map (λ (r : Running A D). (early, r)) lasting)

-- The length of the message of the version.
length-version_message :
    (proc : ProcessInfo) (host onion : Bytes) → length (version_message proc host onion) ≤ 511
unfolding version_message
length-version_message proc host onion = length-take 511 (
    concat (
      codes "github.com/bstarynk/helpcovid built "
      ∷ c_str (proc.timestamp)
      ∷ codes "\n... gitcommit "
      ∷ c_str (proc.lastgitcommit)
      ∷ codes "\n... md5sum "
      ∷ c_str (proc.md5sum)
      ∷ codes " on "
      ∷ c_str host
      ∷ codes "\n... onion "
      ∷ c_str onion
      ∷ []))

early_initialize-short :
    (early_sys : EarlySystem) (proc : ProcessInfo) {early : Early}
    → early_initialize early_sys proc ≡ ok early
    → length (early.versionmsg) ≤ 511
unfolding early_initialize
early_initialize-short early_sys proc e =
    let (host, _, e1) = >>=-eq-ok (require_some (early_sys.gethostname) main 461) _ e in
    let (_, _, e2) = >>=-eq-ok (require (early_sys.opens_program) main 479) _ e1 in
    rw (← ok-injective e2) (length-version_message proc host early_sys.onion_version)

-- When main serves or cleans up, whatever the environment, the options and the configuration ask for:
-- it has 2 threads or more, and at most 4 or one less than the processors, whichever is larger; its
-- plugins have different valid names that their libraries know; its web server, if there is one, has a
-- URL, a root that ends with a slash, and, with SSL, a key that is a regular file on which others have
-- no permission; its expanders are those of `hcv_initialize_templates` for the messages, the web root
-- and the name of the host that were found; unless it cleans up it listens on a positive port of 32
-- bits; and the message of its version has at most 511 bytes. The number of processors is positive and
-- of 32 bits, and there is no plugin before.
pub run_process-IsServing :
    {A D : Type 0} (early_sys : EarlySystem) (pq : Connector D) (proc : ProcessInfo) (sys : System)
    (files : Files) (system : GroupSystem) (pids : PidFiles) (env : Env) (fds : Descriptors)
    (bg : Background A) (uid : ℕ) (argv0 : Bytes) (options : List (ProgOption × Bytes))
    (p : Program) {early : Early} {r : Running A D}
    → 0 < sys.hardware_concurrency
    → sys.hardware_concurrency < 2 ^ 32
    → p.loaded ≡ []
    → run_process early_sys pq proc sys files system pids env fds bg uid argv0 options p
      ≡ ok (some (early, r))
    → IsServing sys files (record env { hostname = c_str (early.hostname) }) r
      × (length (early.versionmsg) ≤ 511)
unfolding run_process
run_process-IsServing {A} {D} early_sys pq proc sys files system pids env fds bg uid argv0 options p
      lo hi fresh e =
    let (first, started, e1) = >>=-eq-ok (early_initialize early_sys proc) _ e in
    let host = record env { hostname = c_str (first.hostname) } in
    let proc' = record proc { hostname = first.hostname } in
    let (lasting, serving, e2) =
      >>=-eq-ok (run_main pq proc' sys files system pids host fds bg uid argv0 options p) _ e1 in
    elim (Option-cases lasting) [
      | inl still ↦ ground (arith, rw still at e2)
      | inr (r', found) ↦
          let same = some-injective (ok-injective (rw found at e2)) in
          let same_early = ap (λ (x : Early × Running A D). x.0) same in
          let same_running = ap (λ (x : Early × Running A D). x.1) same in
          rw (← same_early, ← same_running)
            (
              run_main-IsServing pq proc' sys files system pids host fds bg uid argv0 options p lo
                  hi fresh (rw found at serving),
              early_initialize-short early_sys proc started,
            )
    ]
