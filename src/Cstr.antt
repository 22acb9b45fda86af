-- ===== src/Cstr.antt =====
-- What the code uses of the C library on strings: <ctype.h> in the C locale, `c_str`, `strstr`.
pub mod Laws
pub mod Find
use helpcovid.Prelude.{
  ◌++◌, is_empty, ℕ, zero, suc, ◌+◌, ◌-◌, Bool, true, false, not, ◌&&◌, ◌||◌, List, [], ◌∷◌, Option,
  none, some, leb, ltb, ◌==◌, if◌then◌else◌, Bytes, get_or,
}
use mathlib.Core.Option

abbrev within : ℕ → ℕ → ℕ → Bool
within lo hi c = leb lo c && leb c hi

unfoldable pub is_alpha : ℕ → Bool
is_alpha c = within b'a' b'z' c || within b'A' b'Z' c

unfoldable pub is_digit : ℕ → Bool
is_digit c = within b'0' b'9' c

unfoldable pub is_alnum : ℕ → Bool
unfolding is_alpha is_digit
is_alnum c = is_alpha c || is_digit c

-- the bytes of the scanf set [A-Za-z0-9_], and of the C++ regex class \w
unfoldable pub is_word : ℕ → Bool
unfolding is_alnum
is_word c = is_alnum c || c == b'_'

-- space, \t \n \v \f \r
unfoldable pub is_space : ℕ → Bool
is_space c = c == b' ' || within 9 13 c

-- The bytes before the first NUL.
unfoldable pub c_str : Bytes → Bytes
c_str [] = []
c_str (c ∷ s) = let rest = c_str s in if c == 0 then [] else c ∷ rest

-- s[i] of a C string: NUL at its end.
abbrev pub char_at : Bytes → ℕ → ℕ
char_at s i = get_or s i 0

unfoldable pub starts_with : Bytes → Bytes → Bool
starts_with [] s = true
starts_with (p ∷ ps) [] = false
starts_with (p ∷ ps) (c ∷ s) = p == c && starts_with ps s

-- `strstr(s, p)` as the offset of the first occurrence, for a `p` that is not empty.
unfoldable pub strstr : Bytes → Bytes → Option ℕ
strstr p [] = none
strstr p (c ∷ s) =
    let later = Option.map suc (strstr p s) in if starts_with p (c ∷ s) then some 0 else later

-- std::getline: the lines of a file, and no empty line behind a final newline.
unfoldable pub lines_from : Bytes → Bytes → List Bytes
lines_from cur [] = if is_empty cur then [] else cur ∷ []
lines_from cur (c ∷ s) =
    let closed = lines_from [] s in
    let longer = lines_from (cur ++ c ∷ []) s in if c == b'\n' then cur ∷ closed else longer

unfoldable pub lines : Bytes → List Bytes
unfolding lines_from
lines = lines_from []
