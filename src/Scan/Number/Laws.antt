-- ===== src/Scan/Number/Laws.antt =====
-- What a conversion of a number reads: digits that a byte of another kind, or the end, stops.
use mathlib.Core.Option.{none}
use mathlib.Core.List.{[]}
use helpcovid.Cstr.{is_space, is_digit}
use helpcovid.Scan.Number.{
  ◌>>=◌, scan_decimal, number, strtoul_value, is_digit, scan_signed, is_hex, skip_0x, scan_set,
  scan_literal, scan_hex, scan_digits,
}
use helpcovid.Scan.{skip_spaces, span}
use helpcovid.Prelude.{
  Option, and-eq-true, zero, length-append, suc, refl, ◌≤◌, ◌==◌, not, false, arith, ◌∷◌, ◌||◌,
  some, length, is_empty, ◌≡◌, ◌++◌, true, all, Bytes, Bool, ℕ,
}

-- No byte of the set comes first.
abbrev pub stops : (ℕ → Bool) → Bytes → Bool
stops p [] = true
stops p (c ∷ s) = not (p c)

pub span-stops :
    (n : ℕ) (p : ℕ → Bool) (w rest : Bytes)
    → all p w ≡ true
    → length w ≤ n
    → stops p rest ≡ true
    → span n p (w ++ rest) ≡ (w, rest)
unfolding span
span-stops zero p [] rest h l e = refl
span-stops (suc n) p [] [] h l e = refl
span-stops (suc n) p [] (c ∷ rest) h l e = ground arith
span-stops zero p (x ∷ w) rest h l e = absurd (omega arith)
span-stops (suc n) p (x ∷ w) rest h l e = ground (arith, span-stops n p w rest)

pub scan_literal-append : (w s : Bytes) → scan_literal w (w ++ s) ≡ some s
unfolding scan_literal
scan_literal-append [] s = refl
scan_literal-append (c ∷ w) s = ground (arith, scan_literal-append w s)

pub scan_set-append :
    (n : ℕ) (p : ℕ → Bool) (w rest : Bytes)
    → all p w ≡ true
    → length w ≤ n
    → is_empty w ≡ false
    → stops p rest ≡ true
    → scan_set n p (w ++ rest) ≡ some (w, rest)
unfolding scan_set
scan_set-append n p w rest h l f e = rw (span-stops n p w rest h l e) (rw f (λ i. some (w, rest)))

-- Bytes that end a hexadecimal number, and cannot be the x of a `0x`.
abbrev pub is_hex_or_x : ℕ → Bool
is_hex_or_x c = is_hex c || c == b'x' || c == b'X'

skip_0x-digits :
    (w rest : Bytes)
    → all is_hex w ≡ true
    → stops is_hex_or_x rest ≡ true
    → is_empty w ≡ false
    → skip_0x (w ++ rest) ≡ w ++ rest
unfolding skip_0x is_hex is_digit
skip_0x-digits [] rest h e f = ground arith
skip_0x-digits (c ∷ []) [] h e f = refl
skip_0x-digits (c ∷ []) (d ∷ rest) h e f = ground arith
skip_0x-digits (c ∷ d ∷ w) rest h e f = ground arith

stops-is_hex : (rest : Bytes) → stops is_hex_or_x rest ≡ true → stops is_hex rest ≡ true
stops-is_hex [] e = refl
stops-is_hex (c ∷ rest) e = ground arith

scan_digits-append :
    (base : ℕ) (p : ℕ → Bool) (w rest : Bytes)
    → all p w ≡ true
    → stops p rest ≡ true
    → is_empty w ≡ false
    → scan_digits base p false (w ++ rest) ≡ some (strtoul_value false (number base 0 w), rest)
unfolding scan_digits
scan_digits-append base p w rest h e f =
    rw (span-stops (length (w ++ rest)) p w rest h (omega (arith, length-append w rest)) e)
      (rw f refl)

scan_signed-digits :
    (c : ℕ) (w rest : Bytes)
    → (c == b'-') ≡ false
    → (c == b'+') ≡ false
    → all is_hex (c ∷ w) ≡ true
    → stops is_hex_or_x rest ≡ true
    → scan_signed 16 is_hex skip_0x (c ∷ (w ++ rest))
      ≡ some (strtoul_value false (number 16 0 (c ∷ w)), rest)
unfolding scan_signed
scan_signed-digits c w rest m p h e = rw m (
    rw p (
      rw (skip_0x-digits (c ∷ w) rest h e refl)
        (scan_digits-append 16 is_hex (c ∷ w) rest h (stops-is_hex rest e) refl)))

hex-not_space : (c : ℕ) → is_hex c ≡ true → is_space c ≡ false
unfolding is_hex is_digit is_space
hex-not_space c h = ground arith

hex-not_sign : (c : ℕ) → is_hex c ≡ true → ((c == b'-') ≡ false) × ((c == b'+') ≡ false)
unfolding is_hex is_digit
hex-not_sign c h = (ground arith, ground arith)

-- `%lx` reads hexadecimal digits up to a byte that is none and no x.
pub scan_hex-append :
    (w rest : Bytes)
    → all is_hex w ≡ true
    → stops is_hex_or_x rest ≡ true
    → is_empty w ≡ false
    → scan_hex (w ++ rest) ≡ some (strtoul_value false (number 16 0 w), rest)
unfolding scan_hex skip_spaces
scan_hex-append [] rest h e f = ground arith
scan_hex-append (c ∷ w) rest h e f =
    let (here, _) = and-eq-true (is_hex c) _ h in
    let (minus, plus) = hex-not_sign c here in
    rw (hex-not_space c here) (scan_signed-digits c w rest minus plus h e)

-- The same for `%u`.
scan_decimal-signed :
    (c : ℕ) (w rest : Bytes)
    → all is_digit (c ∷ w) ≡ true
    → stops is_digit rest ≡ true
    → scan_signed 10 is_digit (λ s. s) (c ∷ (w ++ rest))
      ≡ some (strtoul_value false (number 10 0 (c ∷ w)), rest)
unfolding scan_signed is_digit
scan_decimal-signed c w rest h e =
    ground (arith, h, scan_digits-append 10 is_digit (c ∷ w) rest h e refl)

skip_spaces-digit : (c : ℕ) (s : Bytes) → is_digit c ≡ true → skip_spaces (c ∷ s) ≡ c ∷ s
unfolding skip_spaces is_space is_digit
skip_spaces-digit c s h = ground arith

pub scan_decimal-append :
    (w rest : Bytes)
    → all is_digit w ≡ true
    → stops is_digit rest ≡ true
    → is_empty w ≡ false
    → scan_decimal (w ++ rest) ≡ some (strtoul_value false (number 10 0 w), rest)
unfolding scan_decimal
scan_decimal-append [] rest h e f = ground (arith, f)
scan_decimal-append (c ∷ w) rest h e f =
    rw (skip_spaces-digit c (w ++ rest) (and-eq-true (is_digit c) (all is_digit w) h).0)
      (scan_decimal-signed c w rest h e)

-- Conversions that have succeeded.
pub >>=-eq-some {ℓ κ} :
    {A : Type ℓ} {B : Type κ} (o : Option A) (f : A → Option B) {b : B}
    → (o >>= f) ≡ some b
    → (a : A) × (o ≡ some a) × (f a ≡ some b)
>>=-eq-some none f e = cc
>>=-eq-some (some a) f e = (a, refl, e)
