-- ===== src/Cstr/Laws.antt =====
-- Laws of the C string functions.
use helpcovid.Prelude.{
  ap, ◌∙◌, append_assoc, append-nil, All, ◌≤◌, Bool, true, not, ◌&&◌, List, [], ◌∷◌, ◌++◌, ◌≡◌,
  refl, arith, ◌==◌, Bytes, length, all,
}
use helpcovid.Cstr.{lines_from, lines, c_str, is_word}

-- No NUL byte.
abbrev pub is_text : Bytes → Bool
is_text s = all (λ c. not (c == 0)) s

pub c_str-is_text : (s : Bytes) → is_text s ≡ true → c_str s ≡ s
unfolding c_str
c_str-is_text [] h = refl
c_str-is_text (c ∷ s) h = ground (arith, c_str-is_text s)

pub is_text-c_str : (s : Bytes) → is_text (c_str s) ≡ true
unfolding c_str
is_text-c_str [] = refl
is_text-c_str (c ∷ s) = ground (arith, is_text-c_str s)

pub length-c_str : (s : Bytes) → length (c_str s) ≤ length s
unfolding c_str
length-c_str [] = omega arith
length-c_str (c ∷ s) = ground (arith, length-c_str s)

pub all-append {ℓ} :
    {A : Type ℓ} (p : A → Bool) (xs ys : List A) → all p (xs ++ ys) ≡ (all p xs && all p ys)
all-append p [] ys = refl
all-append p (x ∷ xs) ys = ground (arith, all-append p xs ys)

pub is_text-is_word : (s : Bytes) → all is_word s ≡ true → is_text s ≡ true
unfolding is_word
is_text-is_word [] h = refl
is_text-is_word (c ∷ s) h = ground (arith, is_text-is_word s)

-- No newline.
abbrev pub is_line : Bytes → Bool
is_line s = all (λ c. not (c == b'\n')) s

-- The text of lines, each ended by a newline.
abbrev pub unlines : List Bytes → Bytes
unlines [] = []
unlines (l ∷ ls) = l ++ b'\n' ∷ unlines ls

lines_from-line :
    (l cur s : Bytes)
    → is_line l ≡ true
    → lines_from cur (l ++ b'\n' ∷ s) ≡ (cur ++ l) ∷ lines_from [] s
unfolding lines_from
lines_from-line [] cur s h = rw append-nil
lines_from-line (c ∷ l) cur s h =
    ground (arith, lines_from-line l (cur ++ c ∷ []) s, append_assoc cur (c ∷ []) l)

pub lines-line : (l s : Bytes) → is_line l ≡ true → lines (l ++ b'\n' ∷ s) ≡ l ∷ lines s
unfolding lines
lines-line l s h = lines_from-line l [] s h

-- Lines written one under the other are read back, before any further text.
pub lines-unlines :
    (ls : List Bytes) (s : Bytes)
    → All (λ l. is_line l ≡ true) ls
    → lines (unlines ls ++ s) ≡ ls ++ lines s
unfolding lines
lines-unlines [] s h = refl
lines-unlines (l ∷ ls) s h =
    rw append_assoc
      (lines_from-line l [] (unlines ls ++ s) h.0 ∙ ap (◌∷◌ l) (lines-unlines ls s h.1))
