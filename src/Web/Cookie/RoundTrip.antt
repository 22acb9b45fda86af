-- ===== src/Web/Cookie/RoundTrip.antt =====
-- A cookie's text is read back as what it was made of.
use helpcovid.Cstr.Laws.{c_str-is_text, all-append, is_text}
use helpcovid.Scan.Number.Laws.{
  scan_set-append, scan_hex-append, scan_literal-append, is_hex_or_x, stops,
}
use helpcovid.Cstr.{c_str, is_alpha, is_digit, is_alnum}
use helpcovid.Outcome.{◌>>◌, ok-injective, require-eq-ok, web, require, >>=-eq-ok, ok}
use helpcovid.Hex.Laws.{
  length-repeat, length-hex, number-hex, number-zeros, all-hex, all-zeros, power,
}
use helpcovid.Scan.Number.{is_hex, scan_hex, strtoul_value}
use helpcovid.Web.Cookie.Make.{is_positive_long, make_cookie_string}
use helpcovid.Web.Cookie.{is_alnum, extract_cookie_string, webcookie_randomstr_width, scan_cookie}
use helpcovid.Hex.{hex_char, hex_digits, repeat, hex, pad}
use helpcovid.Prelude.{
  append-nil, ◌∙◌, sym, ◌+◌, ltb, not, ◌/◌, length-append, ◌%◌, ◌-◌, false, is_empty, refl, zero,
  ap, some, arith, ◌∷◌, ◌&&◌, [], take, suc, all, ◌≤◌, ◌^◌, ◌==◌, ◌++◌, true, ◌≡◌, ◌<◌, length,
  codes, Bool, Bytes, ℕ,
}

-- 24 letters and digits.
abbrev pub is_random : Bytes → Bool
is_random s = (length s == webcookie_randomstr_width) && all is_alnum s

is_empty-last : (s : Bytes) (c : ℕ) → is_empty (s ++ c ∷ []) ≡ false
is_empty-last [] c = refl
is_empty-last (d ∷ s) c = refl

is_empty-hex_digits : (f n : ℕ) → 0 < f → is_empty (hex_digits f n) ≡ false
unfolding hex_digits
is_empty-hex_digits zero n h = absurd (omega arith)
is_empty-hex_digits (suc f) n h =
    ground (arith, is_empty-last (hex_digits f (n / 16)) (hex_char (n % 16)))

is_empty-hex : (n : ℕ) → is_empty (hex n) ≡ false
unfolding hex
is_empty-hex n = is_empty-hex_digits (n + 1) n (omega arith)

filled : (k n : ℕ) → is_empty (repeat k b'0' ++ hex n) ≡ false
unfolding repeat
filled zero n = is_empty-hex n
filled (suc k) n = refl

pad-hex :
    (width k n : ℕ) (rest : Bytes)
    → n < power (suc k)
    → power (suc k) ≤ 2 ^ 64
    → stops is_hex_or_x rest ≡ true
    → scan_hex (pad width b'0' (hex n) ++ rest) ≡ some (n, rest)
unfolding pad strtoul_value
pad-hex width k n rest h l e =
    let filler = repeat (width - length (hex n)) b'0' in
    let digits = all-zeros (width - length (hex n)) (hex n) (all-hex n) in
    rw (scan_hex-append (filler ++ hex n) rest digits e (filled (width - length (hex n)) n))
      (rw (number-zeros (width - length (hex n)) (hex n)) (rw (number-hex n) (ground arith)))

take-all : (n : ℕ) (s : Bytes) → length s ≤ n → take n s ≡ s
take-all zero [] h = refl
take-all zero (c ∷ s) h = absurd (omega arith)
take-all (suc n) [] h = refl
take-all (suc n) (c ∷ s) h = ap (λ t. c ∷ t) (take-all n s (omega arith))

-- The text before the buffer's end is looked at.
abbrev whole_cookie : ℕ → Bytes → ℕ → Bytes
whole_cookie id random hash =
    codes "HCV"
    ++ (pad 6 b'0' (hex id)
        ++ (codes "-" ++ (random ++ (codes "-A" ++ (pad 8 b'0' (hex hash) ++ [])))))

not_empty : (s : Bytes) → length s ≡ 24 → is_empty s ≡ false
not_empty [] h = absurd (omega arith)
not_empty (c ∷ s) h = refl

scan_cookie-whole :
    (id : ℕ) (random : Bytes) (hash : ℕ)
    → id < 2 ^ 64
    → hash < 2 ^ 32
    → length random ≡ 24
    → all is_alnum random ≡ true
    → scan_cookie (whole_cookie id random hash)
      ≡ some (record { id = id; random = random; hash = hash })
unfolding scan_cookie is_hex is_digit is_alnum is_alpha
scan_cookie-whole id random hash i h l a =
    let after_random = codes "-A" ++ (pad 8 b'0' (hex hash) ++ []) in
    let after_id = codes "-" ++ (random ++ after_random) in
    let last : hash % 2 ^ 32 ≡ hash = omega arith in
    rw (scan_literal-append (codes "HCV") (pad 6 b'0' (hex id) ++ after_id)) (
      rw (pad-hex 6 15 id after_id (omega arith) (omega arith) refl) (
        rw (scan_literal-append (codes "-") (random ++ after_random)) (
          rw
            (scan_set-append 24 is_alnum random after_random a (omega arith) (not_empty random l)
              refl)
            (rw (scan_literal-append (codes "-A") (pad 8 b'0' (hex hash) ++ []))
              (rw (pad-hex 8 7 hash [] (omega arith) (omega arith) refl) (rw last refl))))))

-- The text that is made: no NUL in it, and between 32 and 63 bytes.
ltb-false : (m n : ℕ) → n ≤ m → ltb m n ≡ false
ltb-false m n h = ground arith

is_text-alnum : (s : Bytes) → all is_alnum s ≡ true → is_text s ≡ true
unfolding is_alnum is_alpha is_digit
is_text-alnum [] h = refl
is_text-alnum (c ∷ s) h = ground (arith, is_text-alnum s)

is_text-hex : (s : Bytes) → all is_hex s ≡ true → is_text s ≡ true
unfolding is_hex is_digit
is_text-hex [] h = refl
is_text-hex (c ∷ s) h = ground (arith, is_text-hex s)

is_text-pad : (width n : ℕ) → is_text (pad width b'0' (hex n)) ≡ true
unfolding pad
is_text-pad width n =
    is_text-hex (pad width b'0' (hex n)) (all-zeros (width - length (hex n)) (hex n) (all-hex n))

length-pad :
    (width fill most : ℕ) (s : Bytes)
    → width ≤ most
    → length s ≤ most
    → (width ≤ length (pad width fill s)) × (length (pad width fill s) ≤ most)
unfolding pad
length-pad width fill most s w l =
    rw (length-append (repeat (width - length s) fill) s)
      (rw (length-repeat (width - length s) fill) (omega arith, omega arith))

pad-full : (width fill : ℕ) (s : Bytes) → length s ≡ width → pad width fill s ≡ s
unfolding pad repeat
pad-full width fill s l = let zero_left : width - length s ≡ 0 = omega arith in rw zero_left refl

is_text-whole_cookie :
    (id : ℕ) (random : Bytes) (hash : ℕ)
    → all is_alnum random ≡ true
    → is_text (whole_cookie id random hash) ≡ true
is_text-whole_cookie id random hash a =
    let hash_text = pad 8 b'0' (hex hash) in
    let id_text = pad 6 b'0' (hex id) in
    let p = λ (c : ℕ). not (c == 0) in
    rw (all-append p id_text (codes "-" ++ (random ++ (codes "-A" ++ (hash_text ++ []))))) (
      rw (all-append p random (codes "-A" ++ (hash_text ++ []))) (
        rw (all-append p hash_text [])
          (rw (is_text-pad 6 id, is_text-pad 8 hash, is_text-alnum random a) refl)))

length-whole_cookie :
    (id : ℕ) (random : Bytes) (hash : ℕ)
    → id < 2 ^ 64
    → hash < 2 ^ 32
    → length random ≡ 24
    → (32 ≤ length (whole_cookie id random hash)) × (length (whole_cookie id random hash) ≤ 63)
length-whole_cookie id random hash i h l =
    let hash_text = pad 8 b'0' (hex hash) in
    let id_text = pad 6 b'0' (hex id) in
    let id_length = length-pad 6 b'0' 16 (hex id) (omega arith) (length-hex 15 id (omega arith)) in
    let hash_length =
      length-pad 8 b'0' 8 (hex hash) (omega arith) (length-hex 7 hash (omega arith)) in
    rw (length-append id_text (codes "-" ++ (random ++ (codes "-A" ++ (hash_text ++ []))))) (
      rw (length-append random (codes "-A" ++ (hash_text ++ [])))
        (rw (length-append hash_text []) (omega arith, omega arith)))

-- What is made, for a random string of the width, is the whole text.
make_cookie_string-whole :
    (id : ℕ) (random : Bytes) (hash : ℕ) {text : Bytes}
    → length random ≡ 24
    → all is_alnum random ≡ true
    → hash < 2 ^ 32
    → make_cookie_string id random hash ≡ ok text
    → (id < 2 ^ 64) × (text ≡ whole_cookie id random hash)
unfolding make_cookie_string is_positive_long
make_cookie_string-whole id random hash l a h e =
    let (_, tested, made) = >>=-eq-ok (require (is_positive_long id) web 263) _ e in
    let positive = require-eq-ok (is_positive_long id) web 263 tested in
    let small : id < 2 ^ 64 = ground (arith, positive) in
    let shown : pad 24 b' ' (c_str random) ≡ random =
      rw (c_str-is_text random (is_text-alnum random a)) (pad-full 24 b' ' random l) in
    let id_text = pad 6 b'0' (hex id) in
    let hash_text = pad 8 b'0' (hex hash) in
    (
      small,
      sym (ok-injective made)
          ∙ ap
              (λ r.
                take 63
                  (codes "HCV" ++ (id_text ++ (codes "-" ++ (r ++ (codes "-A" ++ hash_text))))))
              shown
          ∙ ap
              (λ t.
                take 63 (codes "HCV" ++ (id_text ++ (codes "-" ++ (random ++ (codes "-A" ++ t))))))
              (sym (append-nil hash_text))
          ∙ take-all 63 (whole_cookie id random hash)
              (length-whole_cookie id random hash small h l).1,
    )

extract_cookie_string-whole :
    (id : ℕ) (random : Bytes) (hash : ℕ)
    → id < 2 ^ 64
    → hash < 2 ^ 32
    → length random ≡ 24
    → all is_alnum random ≡ true
    → extract_cookie_string (whole_cookie id random hash)
      ≡ some (record { id = id; random = random; hash = hash })
unfolding extract_cookie_string
extract_cookie_string-whole id random hash i h l a =
    let least = (length-whole_cookie id random hash i h l).0 in
    let full = ltb-false (length (whole_cookie id random hash)) 32 least in
    rw full (
      rw (c_str-is_text (whole_cookie id random hash) (is_text-whole_cookie id random hash a))
        (scan_cookie-whole id random hash i h l a))

is_random-parts : (s : Bytes) → is_random s ≡ true → (length s ≡ 24) × (all is_alnum s ≡ true)
is_random-parts s h = (ground (arith, h), ground (arith, h))

-- A cookie that was made is read back.
pub extract_cookie_string_made :
    (id : ℕ) (random : Bytes) (hash : ℕ) {text : Bytes}
    → is_random random ≡ true
    → hash < 2 ^ 32
    → make_cookie_string id random hash ≡ ok text
    → extract_cookie_string text ≡ some (record { id = id; random = random; hash = hash })
extract_cookie_string_made id random hash r h e =
    let (l, a) = is_random-parts random r in
    let (small, same) = make_cookie_string-whole id random hash l a h e in
    rw same (extract_cookie_string-whole id random hash small h l a)

passed : (b : Bool) (text : Bytes) → b ≡ true → (require b web 263 >> ok text) ≡ ok text
passed true text h = refl
passed false text h = ground (arith, h)

make_cookie_string_returns :
    (id : ℕ) (random : Bytes) (hash : ℕ)
    → is_positive_long id ≡ true
    → (text : Bytes) × (make_cookie_string id random hash ≡ ok text)
unfolding make_cookie_string
make_cookie_string_returns id random hash h = (_, passed (is_positive_long id) _ h)

-- For every positive long, every 24 letters and digits and every int, `hcv_web_make_cookie_string`
-- returns a text, from which `hcv_web_extract_cookie_string` gives back all three.
pub extract_cookie_string-make_cookie_string :
    (id : ℕ) (random : Bytes) (hash : ℕ)
    → is_positive_long id ≡ true
    → is_random random ≡ true
    → hash < 2 ^ 32
    → (text : Bytes) × (make_cookie_string id random hash ≡ ok text)
      × (extract_cookie_string text ≡ some (record { id = id; random = random; hash = hash }))
extract_cookie_string-make_cookie_string id random hash p r h =
    let (text, made) = make_cookie_string_returns id random hash p in
    (text, made, extract_cookie_string_made id random hash r h made)
