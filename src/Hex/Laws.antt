-- ===== src/Hex/Laws.antt =====
-- Printed hexadecimal digits: what they are, how many, and that they read back.
use helpcovid.Cstr.{is_digit}
use helpcovid.Scan.Number.{number, is_hex, digit_value}
use helpcovid.Hex.{[], length, hex_char, Bytes, repeat, hex_digits, hex}
use helpcovid.Prelude.{
  ◌/◌, ◌∷◌, ◌%◌, refl, length-append, ◌≤◌, ◌+◌, ◌++◌, zero, true, arith, ap, ◌≡◌, ◌<◌, ◌*◌, length,
  all, Bytes, suc, Bool, ℕ,
}

is_hex-hex_char : (d : ℕ) → d < 16 → is_hex (hex_char d) ≡ true
unfolding is_hex is_digit hex_char
is_hex-hex_char d h = ground arith

digit_value-hex_char : (d : ℕ) → d < 16 → digit_value (hex_char d) ≡ d
unfolding digit_value hex_char
digit_value-hex_char d h = ground arith

all-last :
    (p : ℕ → Bool) (s : Bytes) (c : ℕ) → all p s ≡ true → p c ≡ true → all p (s ++ c ∷ []) ≡ true
all-last p [] c h e = ground arith
all-last p (d ∷ s) c h e = ground (arith, all-last p s c)

all-hex_digits : (f n : ℕ) → all is_hex (hex_digits f n) ≡ true
unfolding hex_digits
all-hex_digits zero n = refl
all-hex_digits (suc f) n =
    let last = is_hex-hex_char (n % 16) (omega arith) in
    ground (
      arith,
      is_hex-hex_char n,
      all-last is_hex (hex_digits f (n / 16)) (hex_char (n % 16)) (all-hex_digits f (n / 16)) last,
    )

number-last : (a c : ℕ) (s : Bytes) → number 16 a (s ++ c ∷ []) ≡ number 16 a s * 16 + digit_value c
unfolding number
number-last a c [] = refl
number-last a c (d ∷ s) = number-last (a * 16 + digit_value d) c s

number-hex_digits : (f n : ℕ) → n < f → number 16 0 (hex_digits f n) ≡ n
unfolding hex_digits number
number-hex_digits zero n h = absurd (omega arith)
number-hex_digits (suc f) n h = ground (
  arith,
  number-last 0 (hex_char (n % 16)) (hex_digits f (n / 16)),
  number-hex_digits f (n / 16),
  digit_value-hex_char n,
  digit_value-hex_char (n % 16),
)

-- 16 ^ k
abbrev pub power : ℕ → ℕ
power zero = 1
power (suc k) = power k * 16

length-hex_digits : (f k n : ℕ) → n < power (suc k) → length (hex_digits f n) ≤ suc k
unfolding hex_digits
length-hex_digits zero k n h = omega arith
length-hex_digits (suc f) zero n h = ground arith
length-hex_digits (suc f) (suc k) n h = ground (
  arith,
  length-append (hex_digits f (n / 16)) (hex_char (n % 16) ∷ []),
  length-hex_digits f k (n / 16),
)

pub all-hex : (n : ℕ) → all is_hex (hex n) ≡ true
unfolding hex
all-hex n = all-hex_digits (n + 1) n

pub number-hex : (n : ℕ) → number 16 0 (hex n) ≡ n
unfolding hex
number-hex n = number-hex_digits (n + 1) n (omega arith)

pub length-hex : (k n : ℕ) → n < power (suc k) → length (hex n) ≤ suc k
unfolding hex
length-hex k n h = length-hex_digits (n + 1) k n h

-- Zeros before a number.
pub all-zeros : (n : ℕ) (s : Bytes) → all is_hex s ≡ true → all is_hex (repeat n b'0' ++ s) ≡ true
unfolding repeat is_hex is_digit
all-zeros zero s h = h
all-zeros (suc n) s h = all-zeros n s h

pub number-zeros : (n : ℕ) (s : Bytes) → number 16 0 (repeat n b'0' ++ s) ≡ number 16 0 s
unfolding repeat number digit_value
number-zeros zero s = refl
number-zeros (suc n) s = number-zeros n s

pub length-repeat : (n c : ℕ) → length (repeat n c) ≡ n
unfolding repeat
length-repeat zero c = refl
length-repeat (suc n) c = ap suc (length-repeat n c)
