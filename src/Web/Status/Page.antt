-- ===== src/Web/Status/Page.antt =====
-- `hcv_web_get_html_status` (hcv_web.cc), whose texts are written to `outstatus`.
use helpcovid.Database.Connection.{ProcessInfo, signed_text}
use helpcovid.Web.Cookie.Make.{is_positive_long}
use helpcovid.Web.Status.{Doubles, Snapshot}
use helpcovid.Random.{Generator, Random, generate_quickly_8bits}
use helpcovid.Cstr.{c_str}
use helpcovid.Prelude.{
  concat, ℕ, ◌^◌, ◌*◌, ◌%◌, List, [], ◌∷◌, ◌++◌, is_empty, if◌then◌else◌, codes, Bool, Bytes,
}

-- The beginning, with the URL of the server.
unfoldable pub status_head : Bytes → Bytes
status_head weburl = concat (
    codes "<!DOCTYPE html>\n<html>\n<head>\n <meta charset=\"utf-8\">\n"
    ∷ codes " <title>HelpCovid builtin status</title>\n</head>\n<body>\n"
    ∷ codes "<h1><i>HelpCovid</i> status</h1>\n\n"
    ∷ codes "<p><a href='https://github.com/bstarynk/helpcovid/'>HelpCovid</a>"
    ∷ codes " (a GPLv3+ <a href='https://www.gnu.org/philosophy/free-sw.en.html>'>free software</a>"
    ∷ codes " <b>without warranty</b>)\n"
    ∷ codes "running on <a href='"
    ∷ weburl
    ∷ codes "'>"
    ∷ weburl
    ∷ codes "</a>.</p>\n"
    ∷ codes "<ul>\n"
    ∷ [])

-- An item of the list with a text in <tt>.
abbrev pub item : Bytes → Bytes → Bytes → Bytes
item before text after =
    before ++ (codes "<tt>" ++ (text ++ (codes "</tt>" ++ (after ++ codes "</li>\n"))))

unfoldable pub status_build : ProcessInfo → Bytes
unfolding c_str
status_build proc = concat (
    item (codes "<li>lastgitcommit: ") (c_str (proc.lastgitcommit)) []
    ∷ item (codes "<li>md5sum: ") (c_str (proc.md5sum)) []
    ∷ item (codes "<li>gitid: ") (c_str (proc.gitid)) []
    ∷ item (codes "<li>built: ") (c_str (proc.timestamp)) []
    ∷ [])

module _ {ℓ} {F : Type ℓ} (doubles : Doubles F) (now : Snapshot F) where
  abbrev pub cpu_spent : ℕ → F
  cpu_spent reading = doubles.minus (now.cpu_time reading) (now.startcputime)

  -- `factor * (hcv_process_cpu_time() - startcputime) / reqcnt`
  abbrev pub cpu_per_request : ℕ → F → ℕ → Bytes
  cpu_per_request reading factor reqcnt =
      doubles.text
        (doubles.over (doubles.times factor (cpu_spent reading)) (doubles.of_long reqcnt))

  -- The total times, and the two times for a request; the letter is U+00B5 in UTF-8.
  unfoldable pub status_cpu : Bytes
  status_cpu = item (codes "<li>total CPU time: ") (doubles.text (cpu_spent 0)) (codes " (seconds)")

  unfoldable pub status_elapsed : Bytes
  status_elapsed =
      item (codes "<li>total elapsed time: ")
        (doubles.text (doubles.minus (now.monotonic_time 0) (now.startmonotonictime)))
        (codes " (seconds)")

  unfoldable pub status_per_request : ℕ → Bytes
  status_per_request reqcnt =
      item (codes "<li>CPU time per request: ") (cpu_per_request 1 (doubles.million) reqcnt)
        (codes " (" ++ (194 ∷ 181 ∷ codes "s)"))
      ++ item (codes "<li>elapsed time per request: ") (cpu_per_request 2 (doubles.thousand) reqcnt)
          (codes " (ms)")

  -- `if (n>0) outstatus << ... << (n*4) << ...`
  unfoldable pub status_kilobytes : Bytes → ℕ → Bytes
  unfolding is_positive_long signed_text
  status_kilobytes before n =
      if is_positive_long n
      then item before (signed_text 64 (n * 4 % 2 ^ 64)) (codes " kilobytes.")
      else []

  unfoldable pub status_process : Bytes
  unfolding status_kilobytes
  status_process = concat (
      status_kilobytes (codes "<li>process size: ") (now.procsize)
      ∷ status_kilobytes (codes "<li>process RSS: ") (now.procrss)
      ∷ status_kilobytes (codes "<li>process shared: ") (now.procshared)
      ∷ item (codes "<li><a href='https://postgresql.org/'>PostGreSQL</a> version: ")
          (now.server_version) (codes ".")
      ∷ item (codes "<li>current time: ") (now.date) []
      ∷ item (codes "<li>host: ") (now.hostname) []
      ∷ [])

-- The names of the plugins, with a comma before each but the first.
unfoldable pub plugin_names : Bytes → List Bytes → Bytes
plugin_names comma [] = []
plugin_names comma (name ∷ rest) =
    comma ++ (codes " <tt>" ++ (name ++ (codes "</tt>" ++ plugin_names (codes ",") rest)))

unfoldable pub status_plugins : List Bytes → Bytes
unfolding plugin_names
status_plugins loaded =
    if is_empty loaded
    then []
    else codes "<li>plugins: " ++ (plugin_names [] loaded ++ codes " ;</li>\n")

unfoldable pub status_end : Bytes → Bytes
status_end weburl = concat (
    codes "</ul>\n<hr/>\n<p><small>Use <tt><a href='"
    ∷ weburl
    ∷ codes "/status.json'>status.json</a></tt> to get "
    ∷ codes " programmatically the same information.</small></p>\n"
    ∷ codes "\n</body>\n</html>\n"
    ∷ [])

-- The end of the list, and of the page.
unfoldable pub status_tail : Bytes → ProcessInfo → List Bytes → ℕ → Bytes
unfolding status_plugins status_end signed_text c_str
status_tail weburl proc loaded reqcnt = concat (
    item (codes "<li>pid: ") (signed_text 64 (proc.pid)) []
    ∷ item (codes "<li>web request count: ") (signed_text 64 reqcnt) []
    ∷ item (codes "<li>compiled with: ") (c_str (proc.cxx_compiler)) []
    ∷ status_plugins loaded
    ∷ status_end weburl
    ∷ [])

module _ {ℓ} {F : Type ℓ} (doubles : Doubles F) (weburl : Bytes) (proc : ProcessInfo)
    (now : Snapshot F) (loaded : List Bytes) (reqcnt : ℕ) where
  -- The text of `outstatus`.
  unfoldable pub html_status_text : Bytes
  unfolding status_head status_build status_cpu status_elapsed status_per_request status_process
      status_tail
  html_status_text =
      status_head weburl
      ++ (status_build proc
          ++ (status_cpu doubles now
              ++ (status_elapsed doubles now
                  ++ (status_per_request doubles now reqcnt
                      ++ (status_process doubles now ++ status_tail weburl proc loaded reqcnt)))))

  -- `hcv_web_get_html_status`: the response, and the random numbers of the thread behind its two waits.
  unfoldable pub web_get_html_status :
      {R G P : Type 0}
      → (Bytes → Bytes → R → R)
      → Generator G P
      → Bool
      → Random G
      → P
      → R
      → R × Random G × P
  unfolding html_status_text generate_quickly_8bits c_str
  web_get_html_status set_content gen is_deterministic r shared resp =
      let first = generate_quickly_8bits gen is_deterministic r shared in
      let second = generate_quickly_8bits gen is_deterministic (first.1) (first.2) in
      (set_content (c_str html_status_text) (codes "text/html") resp, second.1, second.2)
