-- ===== src/Hex.antt =====
-- The C library's hexadecimal numbers: what `%lx` and `%x` of printf write.
pub mod Laws
use helpcovid.Prelude.{
  ◌%◌, zero, ◌∷◌, ◌/◌, ◌++◌, suc, length, ◌-◌, ◌+◌, ltb, [], if◌then◌else◌, Bytes, ℕ,
}

unfoldable pub hex_char : ℕ → ℕ
hex_char d = if ltb d 10 then b'0' + d else b'a' + (d - 10)

-- The digits on fuel: one call for each digit.
unfoldable pub hex_digits : ℕ → ℕ → Bytes
unfolding hex_char
hex_digits zero n = []
hex_digits (suc fuel) n =
    let rest = hex_digits fuel (n / 16) in
    if ltb n 16 then hex_char n ∷ [] else rest ++ hex_char (n % 16) ∷ []

-- A number has no more digits than its value, and one.
unfoldable pub hex : ℕ → Bytes
unfolding hex_digits
hex n = hex_digits (n + 1) n

unfoldable pub repeat : ℕ → ℕ → Bytes
repeat zero c = []
repeat (suc n) c = c ∷ repeat n c

-- A field of a width: `%06lx` fills with zeros, `%24s` with spaces, on the left.
unfoldable pub pad : ℕ → ℕ → Bytes → Bytes
unfolding repeat
pad width fill s = repeat (width - length s) fill ++ s
