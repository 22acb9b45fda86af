-- ===== src/Web/Url.antt =====
-- The URL that the web server serves: the first part of `hcv_webserver_run` (hcv_web.cc).
pub mod Laws
pub mod Bounds
use mathlib.Core.Option.{none}
use helpcovid.Prelude.{
  ◌^◌, ◌%◌, ◌||◌, ◌==◌, ltb, some, if◌then◌else◌, codes, Bool, ℕ, Option, Bytes,
}
use helpcovid.Cstr.{is_alnum}
use helpcovid.Scan.Number.{scan_literal, scan_set, scan_decimal, ◌>>=◌}

-- [a-zA-Z0-9_.-]
unfoldable pub is_host : ℕ → Bool
unfolding is_alnum
is_host c = is_alnum c || c == b'_' || c == b'.' || c == b'-'

-- "http://%60[a-zA-Z0-9_.-]:%u%n", when both conversions succeed and the port is positive; `%u` stores
-- 32 bits.
unfoldable pub scan_host_port : Bytes → Bytes → Option (Bytes × ℕ)
unfolding is_host
scan_host_port scheme weburl = do
  s1 ← scan_literal scheme weburl
  (webhost, s2) ← scan_set 60 is_host s1
  s3 ← scan_literal (codes ":") s2
  (port, s4) ← scan_decimal s3
  if ltb 0 (port % 2 ^ 32) then some (webhost, port % 2 ^ 32) else none

-- "http://%60[a-zA-Z0-9_.-]%n"
unfoldable pub scan_host : Bytes → ℕ → Bytes → Option (Bytes × ℕ)
unfolding is_host
scan_host scheme defaultwebport weburl = do
  s1 ← scan_literal scheme weburl
  (webhost, s2) ← scan_set 60 is_host s1
  some (webhost, defaultwebport)

-- The first of two attempts that succeeds.
abbrev pub otherwise : Option (Bytes × ℕ) → Option (Bytes × ℕ) → Option (Bytes × ℕ)
otherwise (some found) later = some found
otherwise none later = later

-- The default port: 80 for root, 8080 for others.
unfoldable pub default_web_port : ℕ → ℕ
default_web_port uid = if uid == 0 then 80 else 8080

-- The host and the port that the server listens on.
unfoldable pub parse_weburl : ℕ → Bytes → Option (Bytes × ℕ)
unfolding scan_host_port scan_host
parse_weburl defaultwebport weburl = otherwise (scan_host_port (codes "http://") weburl) (
    otherwise (scan_host_port (codes "https://") weburl) (
      otherwise (scan_host (codes "http://") defaultwebport weburl)
        (scan_host (codes "https://") defaultwebport weburl)))
