-- ===== src/Main/ConfigGroup.antt =====
-- The group "helpcovid" of the configuration: `hcv_config_handle_helpcovid_config_group` (hcv_main.cc).
pub mod Custom
use mathlib.Core.List.{[]}
use helpcovid.Dict.{Dict}
use helpcovid.Prelude.{
  ◌==◌, ◌+◌, not, get_or, ltb, ◌∷◌, ◌++◌, some, none, is_empty, codes, ℕ, if◌then◌else◌, Option,
  List, Bool, Bytes,
}
use helpcovid.Outcome.{◌>>◌, require, require_some, main, ◌>>=◌, ok, fatal, Outcome}
use helpcovid.Chunkmap.{add_chunkmap_file}
use helpcovid.Main.Settings.{KeyFile, or_throw}

-- What a round of the loop over the startup command's output gets: five seconds have passed, the
-- result of poll, and what fgets has put in a buffer of 1024 bytes.
pub data Ready : Type 0 where
  nothing poll_error output_ready : Ready

pub record PollRound : Type 0 where
  pub is_late : Bool
  pub ready : Ready
  pub line : Option Bytes

abbrev pub max_startup_lines : ℕ
max_startup_lines = 1000

-- One round that has polled in time; `next` is the rest of the loop on the lines that are counted.
unfoldable pub startup_line : Option Bytes → ℕ → (ℕ → Outcome (Option ℕ)) → Outcome (Option ℕ)
startup_line none lincnt next = ok (some lincnt)
startup_line (some linbuf) lincnt next =
    require (get_or linbuf 1022 0 == 0) main 803 >> next (lincnt + 1)

-- The loop: the lines that were read when it ended; none while it has not ended.
unfoldable pub startup_loop : List PollRound → ℕ → Outcome (Option ℕ)
unfolding startup_line
startup_loop [] lincnt = ok none
startup_loop (r ∷ rounds) lincnt =
    let next = startup_loop rounds in
    if ltb lincnt (max_startup_lines + 2)
    then (do
      require (not (r.is_late)) main 792
      elim (r.ready) [
        | nothing ↦ next lincnt
        | poll_error ↦ fatal main 797
        | output_ready ↦ startup_line (r.line) lincnt next
      ])
    else ok (some lincnt)

-- What the system does for the group: the startup command's output, or no pipe, and its exit code;
-- setlocale, realpath, stat's test for a directory, bindtextdomain; and wordexp and the files.
pub data Words : Type 0 where
  words : List Bytes → Words
  bad_char bad_value command_substitution bad_syntax other_error : Words

pub record GroupSystem : Type 0 where
  pub popen : Bytes → Option (List PollRound)
  pub exit_code : Bytes → ℕ
  pub set_all_locale : Bytes → Option Bytes
  pub realpath : Bytes → Option Bytes
  pub is_directory : Bytes → Option Bool
  pub bindtextdomain : Bytes → Option Bytes
  pub wordexp : Bytes → Words
  pub content : Bytes → Option Bytes

-- The global variables that the group sets.
pub record GroupState : Type 0 where
  pub email_command : Bytes
  pub locale_name : Bytes
  pub textdomain_dir : Option Bytes
  pub globchunk : Dict Bytes

-- The startup command; what it leaves is only that the program goes on. None while its output lasts.
unfoldable pub run_startup_command : GroupSystem → Bytes → Outcome (Option (Unit {0}))
unfolding startup_loop
run_startup_command sys startupcmd =
    let cmd = codes "ulimit -t 4 -u 128 -v 2048 ; " ++ startupcmd in
    if is_empty startupcmd then ok (some tt) else (do
      rounds ← require_some (sys.popen cmd) main 781
      ended ← startup_loop rounds 0
      elim ended [
        | none ↦ ok none
        | some lincnt ↦
            require (ltb lincnt max_startup_lines) main 809
            >> (require (sys.exit_code cmd == 0) main 813 >> ok (some tt))
      ])

-- The email command, and the locale.
unfoldable pub with_email_command : Bytes → GroupState → GroupState
with_email_command emailcmd g =
    if is_empty emailcmd then g else record g { email_command = emailcmd }

unfoldable pub with_locale : GroupSystem → Bytes → GroupState → GroupState
with_locale sys localestr g =
    if is_empty localestr then g else elim (sys.set_all_locale localestr) [
      | none ↦ g
      | some newloc ↦ record g { locale_name = newloc }
    ]

-- The text domain's directory.
unfoldable pub bind_text_domain : GroupSystem → Bytes → GroupState → Outcome GroupState
bind_text_domain sys textdomstr g = if is_empty textdomstr then ok g else (do
  textdomdir ← require_some (sys.realpath textdomstr) main 865
  is_dir ← require_some (sys.is_directory textdomdir) main 870
  require is_dir main 873
  dir ← require_some (sys.bindtextdomain textdomdir) main 877
  ok (record g { textdomain_dir = some dir }))

-- The loop over the files of custom messages.
unfoldable pub add_message_files :
    (Bytes → Option Bytes) → List Bytes → Dict Bytes → Outcome (Dict Bytes)
unfolding add_chunkmap_file
add_message_files content [] globchunk = ok globchunk
add_message_files content (curpath ∷ rest) globchunk = do
  require (not (is_empty curpath)) main 912
  after ← add_chunkmap_file globchunk curpath (content curpath)
  add_message_files content rest after

unfoldable pub expand_words : Words → Outcome (List Bytes)
expand_words (words []) = fatal main 906
expand_words (words (w ∷ ws)) = ok (w ∷ ws)
expand_words bad_char = fatal main 925
expand_words bad_value = fatal main 928
expand_words command_substitution = fatal main 931
expand_words bad_syntax = fatal main 934
expand_words other_error = fatal main 937

unfoldable pub add_custom_messages : GroupSystem → Bytes → Dict Bytes → Outcome (Dict Bytes)
unfolding expand_words add_message_files
add_custom_messages sys custmsgpath globchunk = if is_empty custmsgpath then ok globchunk else (do
  paths ← expand_words (sys.wordexp custmsgpath)
  add_message_files (sys.content) paths globchunk)

-- The whole group; `get_string` throws for a key that is missing. None while the startup command runs.
unfoldable pub handle_helpcovid_group :
    GroupSystem → KeyFile → GroupState → Outcome (Option GroupState)
unfolding run_startup_command with_email_command with_locale bind_text_domain add_custom_messages
handle_helpcovid_group sys kf g = do
  startupcmd ← or_throw (kf.get_string (codes "helpcovid") (codes "startup_popen_command")) 769
  ended ← run_startup_command sys startupcmd
  elim ended [
    | none ↦ ok none
    | some _ ↦ (do
      emailcmd ← or_throw (kf.get_string (codes "helpcovid") (codes "html_email_popen_command")) 821
      localestr ← or_throw (kf.get_string (codes "helpcovid") (codes "locale")) 835
      textdomstr ← or_throw (kf.get_string (codes "helpcovid") (codes "text_domain")) 857
      bound ←
          bind_text_domain sys textdomstr
            (with_locale sys localestr (with_email_command emailcmd g))
      custmsgpath ← or_throw (kf.get_string (codes "helpcovid") (codes "custom_messages_file")) 888
      messages ← add_custom_messages sys custmsgpath (bound.globchunk)
      ok (some (record bound { globchunk = messages })))
  ]
