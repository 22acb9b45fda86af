-- ===== src/Web/Cookie.antt =====
-- The text of a cookie: `hcv_web_make_cookie_string` and `hcv_web_extract_cookie_string` (hcv_web.cc).
use helpcovid.Cstr.{is_alnum, c_str}
use helpcovid.Outcome.{Outcome}
pub mod Make
pub mod Register
pub mod RoundTrip
use helpcovid.Scan.Number.{scan_set, scan_hex, scan_literal, ◌>>=◌}
use helpcovid.Prelude.{
  ◌%◌, some, codes, none, ◌+◌, ◌^◌, length, ◌&&◌, if◌then◌else◌, ltb, Option, Bytes, Bool, ℕ,
}

abbrev pub webcookie_randomstr_width : ℕ
webcookie_randomstr_width = 24

-- What a cookie says: the id, the random string and the hash of the user agent.
pub record CookieParts : Type 0 where
  pub id : ℕ
  pub random : Bytes
  pub hash : ℕ

-- "HCV%lx-%24[A-Za-z0-9]-A%x", when all three conversions succeed.
unfoldable pub scan_cookie : Bytes → Option CookieParts
scan_cookie s = do
  s1 ← scan_literal (codes "HCV") s
  (id, s2) ← scan_hex s1
  s3 ← scan_literal (codes "-") s2
  (random, s4) ← scan_set webcookie_randomstr_width is_alnum s3
  s5 ← scan_literal (codes "-A") s4
  (hash, s6) ← scan_hex s5
  some (record { id = id; random = random; hash = hash % 2 ^ 32 })

-- `hcv_web_extract_cookie_string`; none is the result false.
unfoldable pub extract_cookie_string : Bytes → Option CookieParts
unfolding scan_cookie
extract_cookie_string str =
    if ltb (length str) (webcookie_randomstr_width + 8) then none else scan_cookie (c_str str)
