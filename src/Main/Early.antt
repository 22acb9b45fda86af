-- ===== src/Main/Early.antt =====
-- `hcv_early_initialize` and the texts that go to syslog (hcv_main.cc). The threads that it chooses are
-- in Arguments/Threads; the system's host name, the version of libonion and dlopen are parameters.
use helpcovid.Database.Connection.{ProcessInfo, signed_text}
use helpcovid.Hex.{pad}
use helpcovid.Cstr.{c_str}
use helpcovid.Outcome.{Outcome, ok, main, require, require_some, ◌>>=◌, ◌>>◌}
use helpcovid.Prelude.{
  refl, not-eq-true, false, and-eq-true, true, ◌≡◌, not, all, ◌==◌, ◌%◌, is_empty, ◌+◌, ◌++◌, some,
  if◌then◌else◌, [], Bool, ◌∷◌, none, Option, List, ℕ, take, concat, codes, Bytes,
}

-- What the system gives: the bytes that gethostname leaves in its buffer of 64 bytes, if it succeeds,
-- the version of libonion, whether dlopen of the program succeeds, and the date.
pub record EarlySystem : Type 0 where
  pub gethostname : Option Bytes
  pub onion_version : Bytes
  pub opens_program : Bool
  pub date : Bytes

-- `hcv_hostname`, `hcv_versionmsg` and `hcv_startimbuf`.
pub record Early : Type 0 where
  pub hostname : Bytes
  pub versionmsg : Bytes
  pub startimbuf : Bytes

-- The message of the version, in its buffer of 512 bytes.
unfoldable pub version_message : ProcessInfo → Bytes → Bytes → Bytes
unfolding c_str
version_message proc host onion = take 511 (
    concat (
      codes "github.com/bstarynk/helpcovid built "
      ∷ c_str (proc.timestamp)
      ∷ codes "\n... gitcommit "
      ∷ c_str (proc.lastgitcommit)
      ∷ codes "\n... md5sum "
      ∷ c_str (proc.md5sum)
      ∷ codes " on "
      ∷ c_str host
      ∷ codes "\n... onion "
      ∷ c_str onion
      ∷ []))

-- `hcv_early_initialize`
unfoldable pub early_initialize : EarlySystem → ProcessInfo → Outcome Early
unfolding version_message
early_initialize sys proc = do
  host ← require_some (sys.gethostname) main 461
  require (sys.opens_program) main 479
  ok (record {
    hostname = host;
    versionmsg = version_message proc host (sys.onion_version);
    startimbuf = sys.date;
  })

-- The words with a space between two of them.
unfoldable pub join_words : List Bytes → Bytes
join_words [] = []
join_words (w ∷ []) = w
join_words (w ∷ rest) = w ++ (b' ' ∷ join_words rest)

-- `hcv_syslog_program_arguments`: the message, if there are arguments.
unfoldable pub syslog_program_arguments : ProcessInfo → List Bytes → Option Bytes
unfolding join_words pad c_str
syslog_program_arguments proc [] = none
syslog_program_arguments proc (argv0 ∷ args) = some (
    concat (
      codes "HelpCovid "
      ∷ pad 30 b' ' (c_str (proc.lastgitcommit))
      ∷ codes " program arguments:\n... "
      ∷ join_words (argv0 ∷ args)
      ∷ codes "\n"
      ∷ []))

-- `hcv_syslog_at`
unfoldable pub syslog_at : Bytes → ℕ → Bytes → Bytes
unfolding signed_text c_str
syslog_at fil lin str =
    concat (c_str fil ∷ codes ":" ∷ signed_text 32 lin ∷ codes " - " ∷ c_str str ∷ [])

-- The file's name behind the last slash that has something behind it at the end of the path, as
-- `hcv_debug_at` takes it: the whole path if the last slash ends it, or if it has none.
unfoldable pub behind_slash : Bytes → Option Bytes
behind_slash [] = none
behind_slash (c ∷ s) = elim (behind_slash s) [
  | none ↦ if c == b'/' then some s else none
  | some found ↦ some found
]

unfoldable pub base_file : Bytes → Bytes
unfolding behind_slash
base_file fil = elim (behind_slash fil) [
  | none ↦ fil
  | some found ↦ if is_empty found then fil else found
]

-- `hcv_debug_at` on the count of debug messages: the new count, and what goes to syslog. `elapsed` is
-- the elapsed time as %05.2f prints it; a null file is none.
unfoldable pub debug_at : ℕ → Bytes → Bytes → Option Bytes → ℕ → Bytes → ℕ × List Bytes
unfolding base_file signed_text c_str
debug_at dbgcnt timbuf elapsed fil lin text =
    let count = dbgcnt + 1 in
    let file : Bytes = elim fil [ none ↦ codes "??" | some path ↦ base_file path ] in
    let message : Bytes = concat (
      (206 ∷ 148 ∷ codes "BG!")
      ∷ file
      ∷ codes ":"
      ∷ signed_text 32 lin
      ∷ (226 ∷ 150 ∷ 170 ∷ codes " ")
      ∷ elapsed
      ∷ codes " s"
      ∷ (226 ∷ 128 ∷ 163 ∷ codes " ")
      ∷ c_str text
      ∷ []) in
    let stamp : Bytes = concat (
      codes "========== DEBUG timestamp "
      ∷ timbuf
      ∷ codes " #"
      ∷ signed_text 64 count
      ∷ codes " =========="
      ∷ []) in
    (count, if count % 100 == 0 then stamp ∷ message ∷ [] else message ∷ [])

behind_slash-none :
    (name : Bytes) → all (λ c. not (c == b'/')) name ≡ true → behind_slash name ≡ none
unfolding behind_slash
behind_slash-none [] h = refl
behind_slash-none (c ∷ s) h =
    let (here, later) = and-eq-true (not (c == b'/')) (all (λ c. not (c == b'/')) s) h in
    rw (behind_slash-none s later, behind_slash) (rw (not-eq-true (c == b'/') here))

behind_slash-append :
    (dir name : Bytes)
    → all (λ c. not (c == b'/')) name ≡ true
    → behind_slash (dir ++ b'/' ∷ name) ≡ some name
unfolding behind_slash
behind_slash-append [] name h = rw (behind_slash-none name h, behind_slash)
behind_slash-append (c ∷ dir) name h = rw (behind_slash-append dir name h, behind_slash)

-- The base name of a file in a directory.
base_file-append :
    (dir name : Bytes)
    → all (λ c. not (c == b'/')) name ≡ true
    → is_empty name ≡ false
    → base_file (dir ++ b'/' ∷ name) ≡ name
unfolding base_file
base_file-append dir name h filled = rw (behind_slash-append dir name h, base_file) (rw filled)
