-- ===== src/Cstr/Find.antt =====
-- Where `strstr` finds a pattern whose first byte it does not hold again.
use helpcovid.Prelude.{
  ℕ, ◌+◌, ◌-◌, ◌≤◌, true, not, [], ◌∷◌, ◌++◌, none, some, ◌≡◌, refl, ap, arith, ◌==◌, Bytes, length,
  take, all,
}
use helpcovid.Cstr.{starts_with, strstr}

starts_with-cut :
    (ps w : Bytes) (c : ℕ) (r : Bytes)
    → all (λ q. not (q == c)) ps ≡ true
    → starts_with ps (w ++ c ∷ r) ≡ starts_with ps w
unfolding starts_with
starts_with-cut [] w c r h = refl
starts_with-cut (q ∷ qs) [] c r h = ground arith
starts_with-cut (q ∷ qs) (x ∷ w) c r h = ground (arith, starts_with-cut qs w c r)

starts_with-append : (ps r : Bytes) → starts_with ps (ps ++ r) ≡ true
unfolding starts_with
starts_with-append [] r = refl
starts_with-append (p ∷ ps) r = ground (arith, starts_with-append ps r)

-- The first occurrence in `w ++ pattern ++ r` is the one behind `w`, if `w` holds none.
pub strstr-append :
    (c : ℕ) (ps w r : Bytes)
    → all (λ q. not (q == c)) ps ≡ true
    → strstr (c ∷ ps) w ≡ none
    → strstr (c ∷ ps) (w ++ c ∷ (ps ++ r)) ≡ some (length w)
unfolding strstr starts_with
strstr-append c ps [] r h n = ground (arith, starts_with-append ps r)
strstr-append c ps (x ∷ w) r h n =
    ground (arith, starts_with-cut ps w c (ps ++ r) h, strstr-append c ps w r h)

starts_with-le : (p s : Bytes) → starts_with p s ≡ true → length p ≤ length s
unfolding starts_with
starts_with-le [] s h = omega arith
starts_with-le (q ∷ qs) [] h = cc
starts_with-le (q ∷ qs) (c ∷ s) h = ground (arith, starts_with-le qs s)

-- An occurrence has the pattern's bytes to go.
pub strstr-le : (p s : Bytes) (k : ℕ) → strstr p s ≡ some k → k + length p ≤ length s
unfolding strstr
strstr-le p [] k e = cc
strstr-le p (c ∷ s) k e = ground (arith, starts_with-le p (c ∷ s), strstr-le p s (k - 1))

pub take-length-append : (w r : Bytes) → take (length w) (w ++ r) ≡ w
take-length-append [] r = refl
take-length-append (x ∷ w) r = ap (◌∷◌ x) (take-length-append w r)
