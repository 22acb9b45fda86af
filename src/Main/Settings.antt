-- ===== src/Main/Settings.antt =====
-- The configuration file: `hcv_load_config_file`, the tests of groups and keys, the messages, and
-- `hcv_set_euid` (hcv_main.cc). What Glib reads of a file is a parameter.
use mathlib.Core.Option.{none}
use helpcovid.Scan.Number.{atoi}
use helpcovid.Prelude.{
  ◌-◌, ◌^◌, ◌==◌, equal, [], ◌||◌, is_empty, not, if◌then◌else◌, ◌++◌, ℕ, some, codes, Option, Bool,
  Bytes,
}
use helpcovid.Outcome.{thrown, main, require_some, require, fatal, ◌>>◌, ◌>>=◌, ok, Outcome}
use helpcovid.Cstr.{char_at, is_digit, is_alpha}
use helpcovid.Main.Arguments.{System, Program}
use helpcovid.Web.Server.{FileStatus}

-- A Glib::KeyFile: its groups, its keys, and the values; none where Glib throws, as for the key of a
-- group that the file does not have.
pub record KeyFile : Type 0 where
  pub has_group : Bytes → Bool
  pub has_key : Bytes → Bytes → Option Bool
  pub get_string : Bytes → Bytes → Option Bytes
  pub get_int64 : Bytes → Bytes → Option ℕ

-- What Glib's load_from_file does: it loads, returns false, or throws one of three kinds.
pub data Loading : Type 0 where
  loads : KeyFile → Loading
  fails key_file_error standard_exception glib_exception : Loading

-- The files and the users of the system; seteuid says whether it succeeds.
pub record Files : Type 0 where
  pub is_readable : Bytes → Bool
  pub stat : Bytes → Option FileStatus
  pub load_from_file : Bytes → Loading
  pub getpwnam : Bytes → Option ℕ
  pub can_seteuid : ℕ → Bool

abbrev pub or_default : Option Bytes → Bytes → Bytes
or_default none default = default
or_default (some found) default = found

-- The path that `hcv_load_config_file` takes: its argument, the option, the environment, the file of
-- the home directory, and the default.
unfoldable pub config_path : System → Files → Bytes → Bytes → Bytes
config_path sys files configfile option =
    let defaultconfigpath =
      or_default (sys.getenv (codes "HOME")) (codes "/etc") ++ codes "/.helpcovidrc" in
    let last =
      if files.is_readable defaultconfigpath
      then defaultconfigpath
      else codes "/etc/helpcovid.conf" in
    if not (is_empty configfile)
    then configfile
    else if not (is_empty option)
    then option
    else or_default (sys.getenv (codes "HELPCOVID_CONFIG")) last

abbrev pub load_result : Loading → Outcome KeyFile
load_result (loads kf) = ok kf
load_result fails = fatal main 661
load_result key_file_error = fatal main 665
load_result standard_exception = fatal main 669
load_result glib_exception = fatal main 673

-- `hcv_load_config_file`; it gives the configuration and its path.
unfoldable pub load_config_file : System → Files → Bytes → Program → Outcome (Bytes × KeyFile)
unfolding config_path
load_config_file sys files configfile p =
    let configpath = config_path sys files configfile (p.args.config_file) in
    do
      configstat ← require_some (files.stat configpath) main 644
      require (configstat.is_regular) main 646
      require (not (configstat.for_others)) main 649
      kf ← load_result (files.load_from_file configpath)
      ok (configpath, kf)

-- A call of Glib, at its line of hcv_main.cc.
abbrev pub or_throw {ℓ} : {A : Type ℓ} → Option A → ℕ → Outcome A
or_throw none lin = thrown main lin
or_throw (some a) lin = ok a

-- `hcv_config_has_group` and `hcv_config_has_key`
unfoldable pub config_has_group : KeyFile → Bytes → Outcome Bool
unfolding is_alpha
config_has_group kf grpname = do
  require (is_alpha (char_at grpname 0)) main 682
  ok (kf.has_group grpname)

unfoldable pub config_has_key : KeyFile → Bytes → Bytes → Outcome Bool
unfolding is_alpha
config_has_key kf grpname keyname = do
  require (is_alpha (char_at grpname 0)) main 691
  require (is_alpha (char_at keyname 0)) main 693
  or_throw (kf.has_key grpname keyname) 695

-- `hcv_get_config_message`
unfoldable pub get_config_message : KeyFile → Bytes → Outcome Bytes
get_config_message kf msgid = do
  require (not (is_empty msgid)) main 746
  has ← or_throw (kf.has_key (codes "message") msgid) 751
  if has then or_throw (kf.get_string (codes "message") msgid) 752 else ok []

-- The user that `hcv_set_euid` makes of its argument; a number is an unsigned of 32 bits.
unfoldable pub euid_of : Files → Bytes → Outcome ℕ
unfolding is_digit is_alpha atoi
euid_of files euidstr =
    if is_digit (char_at euidstr 0)
    then ok (atoi euidstr)
    else if is_alpha (char_at euidstr 0)
    then require_some (files.getpwnam euidstr) main 521
    else fatal main 525

-- `hcv_set_euid`: the effective user after it, or none if it is left as it was.
unfoldable pub set_effective_user : Files → Bytes → Outcome (Option ℕ)
unfolding euid_of
set_effective_user files euidstr =
    if is_empty euidstr || equal euidstr (codes "-") then ok none else (do
      neweuid ← euid_of files euidstr
      require (not (neweuid == 2 ^ 32 - 1)) main 527
      require (files.can_seteuid neweuid) main 529
      ok (some neweuid))
