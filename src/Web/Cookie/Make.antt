-- ===== src/Web/Cookie/Make.antt =====
-- `hcv_web_make_cookie_string` (hcv_web.cc).
use helpcovid.Cstr.{c_str}
use helpcovid.Web.Cookie.{c_str, webcookie_randomstr_width}
use helpcovid.Hex.{hex, pad}
use helpcovid.Outcome.{ok, web, require, ◌>>◌, Outcome}
use helpcovid.Prelude.{◌++◌, codes, take, ◌^◌, ◌&&◌, ltb, Bytes, Bool, ℕ}

-- A `long` of 64 bits and an `int` of 32 bits are their bit patterns; a long is positive when its
-- pattern is, and is below 2 ^ 63.
unfoldable pub is_positive_long : ℕ → Bool
is_positive_long id = ltb 0 id && ltb id (2 ^ 63)

-- `hcv_web_make_cookie_string`; the text has at most 54 bytes for a random string of the width.
unfoldable pub make_cookie_string : ℕ → Bytes → ℕ → Outcome Bytes
unfolding is_positive_long
make_cookie_string id randomstr webhash = do
  require (is_positive_long id) web 263
  ok (
      take 63 (
        codes "HCV"
        ++ (pad 6 b'0' (hex id)
            ++ (codes "-"
                ++ (pad webcookie_randomstr_width b' ' (c_str randomstr)
                    ++ (codes "-A" ++ pad 8 b'0' (hex webhash)))))))
