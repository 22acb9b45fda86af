-- ===== src/Web/Cookie/Register/Fresh.antt =====
-- A fresh cookie: its random string, and what it is read back as.
use helpcovid.Web.Cookie.Make.{make_cookie_string}
use helpcovid.Decimal.{decimal}
use helpcovid.Outcome.{some-injective, ok-injective, web, require_some, >>=-eq-ok, ok}
use helpcovid.Web.Cookie.{webcookie_randomstr_width, extract_cookie_string, CookieParts}
use helpcovid.Web.Cookie.RoundTrip.{extract_cookie_string_made, is_random}
use helpcovid.Database.{database_get_id_of_added_web_cookie, Server, and_then-eq-some}
use helpcovid.Prelude.{
  sym, ◌++◌, codes, Option-cases, ◌^◌, Option, inr, inl, ap, ◌+◌, zero, Bool-cases, ◌&&◌, suc, refl,
  ◌==◌, arith, [], ◌∷◌, ◌<◌, ◌%◌, not, length, true, some, all, ◌≡◌, get_or, Bool, Bytes,
}
use helpcovid.Web.Cookie.Register.{
  make_cookie_string, web_cookie_duration, decimal, ok, web_register_fresh_cookie, web_agent_hash,
  register_cookie, alphanumchars, List, Bytes, ℕ, random_string, draw_char,
}
use helpcovid.Cstr.{is_digit, is_alpha, is_alnum}

get_or-all :
    (p : ℕ → Bool) (xs : Bytes) (i d : ℕ)
    → all p xs ≡ true
    → i < length xs
    → p (get_or xs i d) ≡ true
get_or-all p [] i d h l = absurd (omega arith)
get_or-all p (x ∷ xs) zero d h l = ground arith
get_or-all p (x ∷ xs) (suc i) d h l = ground (arith, get_or-all p xs i d)

is_alnum-alphanumchars : (b : ℕ) → is_alnum (get_or alphanumchars (b % 62) 0) ≡ true
unfolding is_alnum is_alpha is_digit
is_alnum-alphanumchars b = get_or-all is_alnum alphanumchars (b % 62) 0 refl (omega arith)

-- No digit 0 at an odd place.
abbrev pub avoids_zero : ℕ → Bytes → Bool
avoids_zero ix [] = true
avoids_zero ix (c ∷ s) = not (ix % 2 == 1 && c == b'0') && avoids_zero (ix + 1) s

draw_char-drawn :
    (ix : ℕ) (draws : List ℕ) {c : ℕ} {rest : List ℕ}
    → draw_char ix draws ≡ some (c, rest)
    → (is_alnum c ≡ true) × (not (ix % 2 == 1 && c == b'0') ≡ true)
unfolding draw_char
draw_char-drawn ix [] e = cc
draw_char-drawn ix (b ∷ draws) {c} {rest} e =
    elim (Bool-cases (ix % 2 == 1 && get_or alphanumchars (b % 62) 0 == b'0')) [
      | inl again ↦ draw_char-drawn ix draws (rw again at e)
      | inr kept ↦
          let same : get_or alphanumchars (b % 62) 0 ≡ c = ground (arith, rw kept at e) in
          rw (← same) (is_alnum-alphanumchars b, ground (arith, kept))
    ]

random_string-drawn :
    (left ix : ℕ) (draws : List ℕ) {s : Bytes} {rest : List ℕ}
    → random_string left ix draws ≡ some (s, rest)
    → (length s ≡ left) × (all is_alnum s ≡ true) × (avoids_zero ix s ≡ true)
unfolding random_string
random_string-drawn zero ix draws {s} e =
    let same : [] ≡ s = ground (arith, e) in rw (← same) (refl, refl, refl)
random_string-drawn (suc left) ix draws {s} e =
    let ((c, drawn), first, e1) = and_then-eq-some (draw_char ix draws) _ e in
    let ((t, later), others, e2) = and_then-eq-some (random_string left (ix + 1) drawn) _ e1 in
    let same : c ∷ t ≡ s = ground (arith, e2) in
    let (here, no_zero) = draw_char-drawn ix draws first in
    let (long, there, no_zeros) = random_string-drawn left (ix + 1) drawn others in
    rw (← same) (ap suc long, ground (arith, here, there), ground (arith, no_zero, no_zeros))

web_agent_hash-small : (hash : Bytes → ℕ) (agent : Bytes) → web_agent_hash hash agent < 2 ^ 32
unfolding web_agent_hash
web_agent_hash-small hash [] = omega arith
web_agent_hash-small hash (c ∷ s) = ground arith

-- What is known of a cookie that was registered for a user agent.
pub record IsRegistered {ℓ κ} {D : Type ℓ} {R : Type κ} (server : Server D)
    (set_header : Bytes → Bytes → R → R) (hash : Bytes → ℕ) (agent text : Bytes) (before after : R)
    : Type κ where
  pub cookie : CookieParts
  pub is_drawn : is_random (cookie.random) ≡ true
  pub is_easy : avoids_zero 0 (cookie.random) ≡ true
  pub is_agent : cookie.hash ≡ web_agent_hash hash agent
  pub is_read : extract_cookie_string text ≡ some cookie
  pub is_sent :
      after
      ≡ set_header
          (codes "Set-Cookie")
          (codes "HelpCovid_COOKIE="
            ++ (text ++ (codes "; Max-Age=" ++ decimal web_cookie_duration)))
          before

is_random-whole : (s : Bytes) → length s ≡ 24 → all is_alnum s ≡ true → is_random s ≡ true
is_random-whole s l a = ground (arith, l, a)

register_cookie-IsRegistered {ℓ κ} :
    {D : Type ℓ} {R : Type κ} (server : Server D) (set_header : Bytes → Bytes → R → R)
    (hash : Bytes → ℕ) (random agent : Bytes) (before : R) (now : Option ℕ) (db : D) {text : Bytes}
    {after : R} {db' : D}
    → is_random random ≡ true
    → avoids_zero 0 random ≡ true
    → register_cookie server set_header hash random agent before now db ≡ ok (text, after, db')
    → IsRegistered server set_header hash agent text before after
unfolding register_cookie
register_cookie-IsRegistered server set_header hash random agent before now db h z e =
    let (start, _, e1) = >>=-eq-ok (require_some now web 340) _ e in
    let (added, _, e2) =
      >>=-eq-ok
        (database_get_id_of_added_web_cookie server random (start + web_cookie_duration)
          (web_agent_hash hash agent) db)
        _ e1 in
    let (res, made, e3) =
      >>=-eq-ok (make_cookie_string (added.0) random (web_agent_hash hash agent)) _ e2 in
    let sent = ok-injective e3 in
    let same = ap (λ t. t.0) sent in
    record {
      cookie = record { id = added.0; random = random; hash = web_agent_hash hash agent };
      is_drawn = h;
      is_easy = z;
      is_agent = refl;
      is_read = rw (← same) (
          extract_cookie_string_made (added.0) random (web_agent_hash hash agent) h
            (web_agent_hash-small hash agent) made);
      is_sent = rw (← same) (sym (ap (λ t. t.1) sent));
    }

-- When `hcv_web_register_fresh_cookie` returns for a request with a response, then
-- `hcv_web_extract_cookie_string` reads from the text a random string of 24 letters and digits, without
-- the digit 0 at odd places, and the hash of the request's user agent; and the header Set-Cookie of the
-- response has the text and the age of 5400 seconds.
pub web_register_fresh_cookie-IsRegistered {ℓ κ} :
    {D : Type ℓ} {R : Type κ} (server : Server D) (set_header : Bytes → Bytes → R → R)
    (hash : Bytes → ℕ) (agent : Bytes) (before : R) (draws : List ℕ) (now : Option ℕ) (db : D)
    {text : Bytes} {after : R} {db' : D}
    → web_register_fresh_cookie server set_header hash
        (some (record { agent = some agent; response = some before }))
        draws
        now
        db
      ≡ some (ok (text, some after, db'))
    → IsRegistered server set_header hash agent text before after
unfolding web_register_fresh_cookie
web_register_fresh_cookie-IsRegistered server set_header hash agent before draws now db e =
    elim (Option-cases (random_string webcookie_randomstr_width 0 draws)) [
      | inl run_out ↦ ground (arith, rw run_out at e)
      | inr ((random, rest), drawn) ↦
          let (long, letters, no_zeros) =
            random_string-drawn webcookie_randomstr_width 0 draws drawn in
          let e1 = rw drawn at e in
          let (r, registered, e2) =
            >>=-eq-ok (register_cookie server set_header hash random agent before now db) _
              (some-injective e1) in
          let same = ok-injective e2 in
          let text_same = ap (λ t. t.0) same in
          let after_same = some-injective (ap (λ t. t.1) same) in
          rw (← text_same, ← after_same)
            (register_cookie-IsRegistered server set_header hash random agent before now db
              (is_random-whole random long letters) no_zeros registered)
    ]
