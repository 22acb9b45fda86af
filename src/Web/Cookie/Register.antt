-- ===== src/Web/Cookie/Register.antt =====
-- `hcv_web_register_fresh_cookie` and `hcv_web_forget_cookie` (hcv_web.cc).
pub mod Fresh
use helpcovid.Decimal.{decimal}
use helpcovid.Web.Cookie.{webcookie_randomstr_width}
use helpcovid.Web.Cookie.Make.{make_cookie_string}
use helpcovid.Outcome.{web, require_some, ◌>>=◌, ok, Outcome}
use mathlib.Core.Option.{Option}
use helpcovid.Prelude.{
  ◌++◌, ◌&&◌, zero, length, ◌==◌, ◌+◌, if◌then◌else◌, ◌^◌, suc, get_or, ◌%◌, none, [], ◌∷◌, some,
  List, ℕ, codes, Bytes,
}
use helpcovid.Database.{and_then, database_get_id_of_added_web_cookie, Server}
use mathlib.Core.Option

-- alphanumchars
abbrev pub alphanumchars : Bytes
alphanumchars = codes "0123456789abcdefghijklmnopqrstuvwxyzABCDEFGHIJKLMNOPQRSTUVWXYZ"

-- The character at one place, from the random bytes that are drawn: at an odd place the digit 0 is
-- drawn again. None when the bytes run out.
unfoldable pub draw_char : ℕ → List ℕ → Option (ℕ × List ℕ)
draw_char ix [] = none
draw_char ix (b ∷ draws) =
    let again = draw_char ix draws in
    let uc = get_or alphanumchars (b % 62) 0 in
    if ix % 2 == 1 && uc == b'0' then again else some (uc, draws)

-- The loop over the places from `ix`, of which `left` are left.
unfoldable pub random_string : ℕ → ℕ → List ℕ → Option (Bytes × List ℕ)
unfolding draw_char
random_string zero ix draws = some ([], draws)
random_string (suc left) ix draws = and_then (draw_char ix draws) (λ drawn.
    and_then (random_string left (ix + 1) (drawn.1)) (λ rest. some (drawn.0 ∷ rest.0, rest.1)))

-- std::hash is a parameter; its size_t is converted to an int.
unfoldable pub web_agent_hash : (Bytes → ℕ) → Bytes → ℕ
web_agent_hash hash [] = 0
web_agent_hash hash (c ∷ s) =
    let h = hash (c ∷ s) % 2 ^ 32 in if h == 0 then length (c ∷ s) % 2 ^ 32 else h

abbrev pub web_cookie_duration : ℕ
web_cookie_duration = 5400

-- The template data that is used: the value of the header User-Agent of the request, empty without
-- one, and the response; a null pointer is none. `set_header` is that of httplib.
pub record Exchange {ℓ} (R : Type ℓ) : Type ℓ where
  pub agent : Option Bytes
  pub response : Option R

module _ {ℓ κ} {D : Type ℓ} {R : Type κ} (server : Server D) (set_header : Bytes → Bytes → R → R)
    (hash : Bytes → ℕ) where
  -- From the random string on; `now` is what time(2) gives.
  unfoldable pub register_cookie : Bytes → Bytes → R → Option ℕ → D → Outcome (Bytes × R × D)
  unfolding web_agent_hash database_get_id_of_added_web_cookie make_cookie_string
  register_cookie randombuf webagentstr hresp now db = do
    start ← require_some now web 340
    added ←
        database_get_id_of_added_web_cookie server randombuf (start + web_cookie_duration)
          (web_agent_hash hash webagentstr) db
    res ← make_cookie_string (added.0) randombuf (web_agent_hash hash webagentstr)
    ok (
      res,
      set_header (codes "Set-Cookie")
          (codes "HelpCovid_COOKIE="
            ++ (res ++ (codes "; Max-Age=" ++ decimal web_cookie_duration)))
          hresp,
      added.1,
    )

  -- `hcv_web_register_fresh_cookie`: the cookie's text, the response and the database; no cookie, and
  -- the empty text, without data, request or response. None while the random bytes run out.
  unfoldable pub web_register_fresh_cookie :
      Option (Exchange R) → List ℕ → Option ℕ → D → Option (Outcome (Bytes × Option R × D))
  unfolding random_string register_cookie
  web_register_fresh_cookie none draws now db = some (ok ([], none, db))
  web_register_fresh_cookie (some htpl) draws now db = elim (htpl.agent) [
    | none ↦ some (ok ([], htpl.response, db))
    | some webagentstr ↦ elim (htpl.response) [
      | none ↦ some (ok ([], none, db))
      | some hresp ↦
          Option.map
            (λ drawn.
              register_cookie (drawn.0) webagentstr hresp now db
              >>= (λ r. ok (r.0, some (r.1), r.2)))
            (random_string webcookie_randomstr_width 0 draws)
    ]
  ]

  -- `hcv_web_forget_cookie`: the response.
  unfoldable pub web_forget_cookie : Option (Exchange R) → Option R
  web_forget_cookie none = none
  web_forget_cookie (some htpl) = elim (htpl.agent) [
    | none ↦ htpl.response
    | some webagentstr ↦
        Option.map
          (set_header (codes "Set-Cookie")
            (codes "HelpCovid_COOKIE=; Expires=Thu, 01 Jan 1970 01:02:03 GMT"))
          (htpl.response)
  ]
