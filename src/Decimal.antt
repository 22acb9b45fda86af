-- ===== src/Decimal.antt =====
-- `std::ostream << long` and the `%ld` and `%u` of snprintf, on numbers that are not negative.
use helpcovid.Prelude.{
  ◌-◌, ℕ, zero, suc, ◌+◌, ◌*◌, ◌/◌, ◌%◌, ◌<◌, [], ◌∷◌, ◌++◌, ◌≡◌, refl, arith, Bytes, ltb,
  if◌then◌else◌,
}

-- The digits on fuel: one call for each digit.
unfoldable pub digits : ℕ → ℕ → Bytes
digits zero n = []
digits (suc fuel) n =
    let rest = digits fuel (n / 10) in
    if ltb n 10 then (b'0' + n) ∷ [] else rest ++ (b'0' + n % 10) ∷ []

-- A number has at most as many digits as its value, and one more.
unfoldable pub decimal : ℕ → Bytes
unfolding digits
decimal n = digits (n + 1) n

unfoldable pub value : ℕ → Bytes → ℕ
value acc [] = acc
value acc (c ∷ s) = value (acc * 10 + (c - b'0')) s

pub value-append : (a c : ℕ) (s : Bytes) → value a (s ++ c ∷ []) ≡ value a s * 10 + (c - b'0')
unfolding value
value-append a c [] = refl
value-append a c (d ∷ s) = value-append (a * 10 + (d - b'0')) c s

value-digits : (f n : ℕ) → n < f → value 0 (digits f n) ≡ n
unfolding digits value
value-digits zero n h = absurd (omega arith)
value-digits (suc f) n h =
    ground (arith, value-append 0 (b'0' + n % 10) (digits f (n / 10)), value-digits f (n / 10))

-- The digits of a number read back as it.
pub value-decimal : (n : ℕ) → value 0 (decimal n) ≡ n
unfolding decimal
value-decimal n = value-digits (n + 1) n (omega arith)
