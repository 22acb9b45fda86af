-- ===== src/Template/Expand/Loop.antt =====
-- The `while` loop over one line.
use helpcovid.Prelude.{
  ℕ, zero, suc, ◌+◌, ◌-◌, ◌≤◌, [], ◌∷◌, none, some, ◌≡◌, refl, arith, if◌then◌else◌, Bytes, codes,
  length, drop, take, ltb,
}
use helpcovid.Outcome.{Outcome, ok, thrown, template, ◌>>=◌}
use helpcovid.Cstr.{strstr}
use helpcovid.Template.Expand.{expand_rest}

pub length-drop : (n : ℕ) (s : Bytes) → length (drop n s) ≡ length s - n
length-drop zero s = omega arith
length-drop (suc n) [] = omega arith
length-drop (suc n) (c ∷ s) = omega (arith, length-drop n s)

abbrev pub opening : Bytes
opening = codes "<?hcv "

module _ {S : Type 0} (put : Bytes → S → S) (instruct : Bytes → S → Outcome S) (lin : ℕ) where
  -- More fuel than the line has bytes changes nothing.
  pub expand_rest-fuel :
      (n m : ℕ) (cur : Bytes) (s : S)
      → length cur ≤ n
      → length cur ≤ m
      → expand_rest put instruct lin n cur s ≡ expand_rest put instruct lin m cur s
  unfolding expand_rest
  expand_rest-fuel zero zero cur s h k = refl
  expand_rest-fuel zero (suc m) [] s h k = unfold strstr in refl
  expand_rest-fuel (suc n) zero [] s h k = unfold strstr in refl
  expand_rest-fuel zero (suc m) (c ∷ cur) s h k = absurd (omega arith)
  expand_rest-fuel (suc n) zero (c ∷ cur) s h k = absurd (omega arith)
  expand_rest-fuel (suc n) (suc m) cur s h k = λ i. elim (strstr opening cur) [
    | none ↦ ok (put cur s)
    | some startpi ↦ elim (strstr (codes "?>") (drop 6 cur)) [
      | none ↦ ok (put cur s)
      | some e ↦
          if ltb (e + 6 + 2) startpi
          then thrown template lin
          else (instruct (take (e + 6 + 2 - startpi) (drop startpi cur)) (put (take startpi cur) s)
              >>= λ t.
                  expand_rest-fuel n m (drop (e + 6 + 2) cur) t
                    (omega (arith, length-drop (e + 6 + 2) cur))
                    (omega (arith, length-drop (e + 6 + 2) cur)) i)
    ]
  ]
