-- ===== src/Scan/Number.antt =====
-- The conversions `%lx`, `%x` and `%u` of sscanf: white space, a sign, `0x`, and digits, with the value
-- of strtoul on 64 bits.
pub mod Laws
use mathlib.Core.List.{[]}
use helpcovid.Scan.{span}
use helpcovid.Cstr.{is_digit}
use helpcovid.Scan.{skip_spaces}
use helpcovid.Prelude.{
  false, ◌+◌, ◌%◌, true, length, is_empty, ◌^◌, ◌==◌, ◌-◌, ◌*◌, ◌&&◌, some, none, ◌∷◌, ◌||◌, leb,
  Option, if◌then◌else◌, Bytes, Bool, ℕ,
}

unfoldable pub is_hex : ℕ → Bool
unfolding is_digit
is_hex c = is_digit c || (leb b'a' c && leb c b'f') || (leb b'A' c && leb c b'F')

unfoldable pub digit_value : ℕ → ℕ
digit_value c = if leb c b'9' then c - b'0' else if leb b'a' c then c - b'a' + 10 else c - b'A' + 10

unfoldable pub number : ℕ → ℕ → Bytes → ℕ
unfolding digit_value
number base acc [] = acc
number base acc (c ∷ s) = number base (acc * base + digit_value c) s

-- The result of strtoul: the largest value on overflow, and the negative modulo 2 ^ 64 after a minus.
unfoldable pub strtoul_value : Bool → ℕ → ℕ
strtoul_value negative n =
    if leb (2 ^ 64) n then 2 ^ 64 - 1 else if negative then (2 ^ 64 - n) % 2 ^ 64 else n

unfoldable pub scan_digits : ℕ → (ℕ → Bool) → Bool → Bytes → Option (ℕ × Bytes)
unfolding number strtoul_value
scan_digits base p negative s =
    let (ds, rest) = span (length s) p s in
    if is_empty ds then none else some (strtoul_value negative (number base 0 ds), rest)

unfoldable pub skip_0x : Bytes → Bytes
skip_0x (c ∷ d ∷ s) = if c == b'0' && (d == b'x' || d == b'X') then s else c ∷ d ∷ s
skip_0x s = s

-- The optional sign; `prefix` is what is skipped behind it.
unfoldable pub scan_signed : ℕ → (ℕ → Bool) → (Bytes → Bytes) → Bytes → Option (ℕ × Bytes)
unfolding scan_digits
scan_signed base p prefix [] = none
scan_signed base p prefix (c ∷ s) =
    if c == b'-'
    then scan_digits base p true (prefix s)
    else if c == b'+'
    then scan_digits base p false (prefix s)
    else scan_digits base p false (prefix (c ∷ s))

-- `%lx`: the value and what follows it; none if the conversion fails.
unfoldable pub scan_hex : Bytes → Option (ℕ × Bytes)
unfolding scan_signed
scan_hex s = scan_signed 16 is_hex skip_0x (skip_spaces s)

-- `%u` into 64 bits
unfoldable pub scan_decimal : Bytes → Option (ℕ × Bytes)
unfolding scan_signed
scan_decimal s = scan_signed 10 is_digit (λ s. s) (skip_spaces s)

-- Literal bytes, and `%N[set]`.
unfoldable pub scan_literal : Bytes → Bytes → Option Bytes
scan_literal [] s = some s
scan_literal (c ∷ w) [] = none
scan_literal (c ∷ w) (d ∷ s) = let rest = scan_literal w s in if c == d then rest else none

unfoldable pub scan_set : ℕ → (ℕ → Bool) → Bytes → Option (Bytes × Bytes)
scan_set n p s = let (w, rest) = span n p s in if is_empty w then none else some (w, rest)

-- The conversions of one call of sscanf, one after the other, when all succeed.
infixl 5 ◌>>=◌
abbrev pub ◌>>=◌ {ℓ κ} : {A : Type ℓ} {B : Type κ} → Option A → (A → Option B) → Option B
none >>= f = none
some a >>= f = f a

-- The pattern of 32 bits of `atoi`, which is strtol's result, a long of 64 bits, as an int.
unfoldable pub strtol_value : Bool → ℕ → ℕ
strtol_value negative n =
    if negative
    then (if leb (2 ^ 63) n then 2 ^ 63 else 2 ^ 64 - n)
    else (if leb (2 ^ 63) n then 2 ^ 63 - 1 else n)

unfoldable pub atoi_digits : Bool → Bytes → ℕ
unfolding number strtol_value
atoi_digits negative s =
    let (ds, rest) = span (length s) is_digit s in strtol_value negative (number 10 0 ds) % 2 ^ 32

unfoldable pub atoi_signed : Bytes → ℕ
unfolding atoi_digits
atoi_signed [] = 0
atoi_signed (c ∷ s) =
    if c == b'-'
    then atoi_digits true s
    else if c == b'+'
    then atoi_digits false s
    else atoi_digits false (c ∷ s)

unfoldable pub atoi : Bytes → ℕ
unfolding atoi_signed
atoi s = atoi_signed (skip_spaces s)
