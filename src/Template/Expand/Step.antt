-- ===== src/Template/Expand/Step.antt =====
-- One processing instruction of a line: how it is cut out, and when the cut fails.
use helpcovid.Prelude.{
  ℕ, zero, suc, ◌+◌, ◌-◌, ◌≤◌, false, [], ◌∷◌, ◌++◌, none, some, ◌≡◌, refl, sym, ap, ◌∙◌, arith,
  Bytes, codes, length, drop, take, ltb, append_assoc, length-append, drop-append,
}
use mathlib.Core.Path.{fun_ext}
use helpcovid.Outcome.{Outcome, ◌>>=◌}
use helpcovid.Cstr.{strstr}
use helpcovid.Cstr.Find.{strstr-append, take-length-append}
use helpcovid.Template.Expand.{expand_rest}
use helpcovid.Template.Expand.Loop.{opening, expand_rest-fuel, length-drop}

abbrev pub closing : Bytes
closing = codes "?>"

drop-append_le : (n : ℕ) (w r : Bytes) → n ≤ length w → drop n (w ++ r) ≡ drop n w ++ r
drop-append_le zero w r h = refl
drop-append_le (suc n) [] r h = absurd (omega arith)
drop-append_le (suc n) (x ∷ w) r h = drop-append_le n w r (omega arith)

-- The end of the instruction that `w` opens, as the source searches it: from the seventh byte on.
pub strstr-closing :
    (w after : Bytes)
    → 6 ≤ length w
    → strstr closing (drop 6 w) ≡ none
    → strstr closing (drop 6 (w ++ closing ++ after)) ≡ some (length w - 6)
strstr-closing w after h n = rw (append_assoc w closing after) (
    rw (drop-append_le 6 w (closing ++ after) h)
      (strstr-append b'?' (b'>' ∷ []) (drop 6 w) after refl n ∙ ap some (length-drop 6 w)))

-- A line with its first instruction, cut as the loop should cut it.
abbrev pub instruction : Bytes → Bytes
instruction body = opening ++ (body ++ closing)

abbrev pub with_instruction : Bytes → Bytes → Bytes → Bytes
with_instruction before body after = before ++ (instruction body ++ after)

module _ (before body after : Bytes) where
  abbrev pub opened : Bytes
  opened = before ++ (opening ++ body)

  pub cut_opening :
      strstr opening before ≡ none
      → strstr opening (with_instruction before body after) ≡ some (length before)
  cut_opening n = strstr-append b'<' (codes "?hcv ") before ((body ++ closing) ++ after) refl n

  regroup : with_instruction before body after ≡ (opened ++ closing) ++ after
  regroup = simp append_assoc

  cut_closing :
      strstr closing (drop 6 opened) ≡ none
      → strstr closing (drop 6 (with_instruction before body after)) ≡ some (length opened - 6)
  cut_closing n =
      rw regroup
        (strstr-closing opened after (omega (arith, length-append {0} before (opening ++ body))) n)

  cut_body :
      take
        (length opened + 2 - length before)
        (drop (length before) (with_instruction before body after))
      ≡ instruction body
  cut_body =
      let e : length opened + 2 - length before ≡ length (instruction body) =
        omega (arith, length-append {0} before (opening ++ body), length-append {0} body closing) in
      rw (e, drop-append before (instruction body ++ after))
        (take-length-append (instruction body) after)

  cut_after : drop (length opened + 2) (with_instruction before body after) ≡ after
  cut_after =
      let e : length opened + 2 ≡ length (opened ++ closing) = sym (length-append opened closing) in
      rw (regroup, e) (drop-append (opened ++ closing) after)

module _ {S : Type 0} (put : Bytes → S → S) (instruct : Bytes → S → Outcome S) (lin : ℕ) where
  -- If no `<?hcv ` stands before an instruction, and no `?>` from the line's seventh byte to the
  -- instruction's end, then the loop writes what is before it, has it expanded whole, from `<?hcv `
  -- to `?>`, and goes on behind it.
  pub expand_rest-with_instruction :
      (n : ℕ) (before body after : Bytes) (s : S)
      → length (with_instruction before body after) ≤ n
      → strstr opening before ≡ none
      → strstr closing (drop 6 (before ++ (opening ++ body))) ≡ none
      → expand_rest put instruct lin n (with_instruction before body after) s ≡ (
          instruct (instruction body) (put before s)
          >>= expand_rest put instruct lin (length after) after)
  unfolding expand_rest
  expand_rest-with_instruction zero before body after s h a b =
      absurd (omega (arith, h, length-append {0} before (instruction body ++ after)))
  expand_rest-with_instruction (suc n) before body after s h a b =
      let w = before ++ (opening ++ body) in
      let long : length w ≡ length before + (6 + length body) =
        omega (arith, length-append {0} before (opening ++ body)) in
      let e : length w - 6 + 6 + 2 ≡ length w + 2 = omega (arith, long) in
      let ordered : ltb (length w - 6 + 6 + 2) (length before) ≡ false = ground (arith, long) in
      let left : length after ≤ n = omega (
        arith,
        h,
        length-append {0} before (instruction body ++ after),
        length-append {0} (instruction body) after,
      ) in
      rw (cut_opening before body after a, expand_rest)
        (rw (cut_closing before body after b, expand_rest)
          (rw (ordered, e)
            (rw
              (
                cut_body before body after,
                take-length-append before (instruction body ++ after),
                cut_after before body after,
              )
              (ap (λ k. instruct (instruction body) (put before s) >>= k)
                (fun_ext (λ t.
                  expand_rest-fuel put instruct lin n (length after) after t left
                    (omega arith)))))))
