-- ===== src/Web/Status.antt =====
-- `hcv_web_get_json_status` and `hcv_web_get_html_status` (hcv_web.cc). Doubles, clocks, the text of a
-- JSON object and what the system says of the process are parameters.
pub mod Page
pub mod Elapsed
use helpcovid.Database.Connection.{ProcessInfo}
use helpcovid.Web.Cookie.Make.{is_positive_long}
use helpcovid.Cstr.{c_str}
use helpcovid.Prelude.{ℕ, ◌^◌, ◌%◌, List, [], ◌∷◌, ◌++◌, is_empty, if◌then◌else◌, codes, Bytes}

-- The doubles: the ones of the code, their operations, and how `<<` prints them.
pub record Doubles {ℓ} (F : Type ℓ) : Type ℓ where
  pub minus : F → F → F
  pub times : F → F → F
  pub over : F → F → F
  pub of_long : ℕ → F
  pub million : F
  pub thousand : F
  pub text : F → Bytes

-- The pages, the resident pages and the shared ones that fscanf reads from /proc/self/statm as longs of
-- 64 bits, 0 where it reads none; the readings of the clocks of the CPU and of elapsed time, in the order
-- in which the code reads each, and those at the start of hcv_webserver_run; the current date and the host as C strings, and the version of the database.
pub record Snapshot {ℓ} (F : Type ℓ) : Type ℓ where
  pub procsize : ℕ
  pub procrss : ℕ
  pub procshared : ℕ
  pub cpu_time : ℕ → F
  pub monotonic_time : ℕ → F
  pub startcputime : F
  pub startmonotonictime : F
  pub date : Bytes
  pub hostname : Bytes
  pub server_version : Bytes

-- A member of the JSON object.
pub data Member {ℓ} (F : Type ℓ) : Type ℓ where
  text_member : Bytes → Member F
  double_member : F → Member F
  int_member : ℕ → Member F
  long_member : ℕ → Member F
  list_member : List Bytes → Member F

module _ {ℓ} {F : Type ℓ} (doubles : Doubles F) (proc : ProcessInfo) (now : Snapshot F)
    (loaded : List Bytes) (reqcnt : ℕ) where
  -- The times from the start to a reading of the clock.
  abbrev pub total_cpu : ℕ → F
  total_cpu reading = doubles.minus (now.cpu_time reading) (now.startcputime)

  abbrev pub total_elapsed : ℕ → F
  total_elapsed reading = doubles.minus (now.monotonic_time reading) (now.startmonotonictime)

  -- `if (n>0) jsob[key] = (Json::Value::Int)n`
  abbrev pub positive_member : Bytes → ℕ → List (Bytes × Member F)
  positive_member key n = if is_positive_long n then (key, int_member (n % 2 ^ 32)) ∷ [] else []

  -- The array of the plugins, if there are some.
  abbrev pub plugins_member : List (Bytes × Member F)
  plugins_member = if is_empty loaded then [] else (codes "plugins", list_member loaded) ∷ []

  -- The members of the object, in the order of their assignments.
  unfoldable pub json_status_members : List (Bytes × Member F)
  unfolding is_positive_long c_str
  json_status_members =
      (codes "helpcovid", text_member (codes "github.com/bstarynk/helpcovid"))
      ∷ (codes "license", text_member (codes "GPLv3+"))
      ∷ (codes "lastgitcommit", text_member (c_str (proc.lastgitcommit)))
      ∷ (codes "md5sum", text_member (c_str (proc.md5sum)))
      ∷ (codes "gitid", text_member (c_str (proc.gitid)))
      ∷ (codes "total_cpu_time", double_member (total_cpu 0))
      ∷ (codes "total_elapsed_time", double_member (total_elapsed 0))
      ∷ (
        codes "cpu_time_per_request",
        double_member (doubles.over (total_cpu 1) (doubles.of_long reqcnt)),
      )
      ∷ (
        codes "elapsed_time_per_request",
        double_member (doubles.over (total_elapsed 1) (doubles.of_long reqcnt)),
      )
      ∷ (positive_member (codes "process_size") (now.procsize)
          ++ (positive_member (codes "process_rss") (now.procrss)
              ++ (positive_member (codes "process_shared") (now.procshared)
                  ++ ((codes "postgresql_version", text_member (now.server_version))
                      ∷ (codes "ctime", text_member (now.date))
                      ∷ (codes "hostname", text_member (now.hostname))
                      ∷ (codes "nowtime", long_member (proc.now))
                      ∷ (codes "pid", int_member (proc.pid))
                      ∷ (codes "web_request_count", long_member reqcnt)
                      ∷ (codes "cxx", text_member (c_str (proc.cxx_compiler)))
                      ∷ (codes "build_time", text_member (c_str (proc.timestamp)))
                      ∷ (codes "build_timestamp", long_member (proc.timelong))
                      ∷ plugins_member))))

  -- `hcv_web_get_json_status`
  unfoldable pub web_get_json_status :
      {R : Type 0} → (List (Bytes × Member F) → Bytes) → (Bytes → Bytes → R → R) → R → R
  unfolding json_status_members c_str
  web_get_json_status write_json set_content resp =
      set_content (c_str (write_json json_status_members)) (codes "application/json") resp
