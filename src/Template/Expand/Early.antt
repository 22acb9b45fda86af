-- ===== src/Template/Expand/Early.antt =====
-- A `?>` before the first instruction of a line: the search for the end starts at the line's seventh
-- byte, and not behind the `<?hcv `.
use helpcovid.Outcome.{Outcome, thrown, template}
use helpcovid.Cstr.{char_at, strstr}
use helpcovid.Cstr.Laws.{is_text, c_str-is_text}
use helpcovid.Template.Expand.{
  expand_processing_instruction, write, TemplateData, Expander, Dict, expand_rest, expand_file_line,
}
use helpcovid.Template.Expand.Loop.{opening}
use helpcovid.Template.Expand.Step.{
  closing, instruction, with_instruction, strstr-closing, cut_opening,
}
use helpcovid.Prelude.{
  zero, ◌+◌, ◌-◌, some, append_assoc, ◌==◌, suc, arith, ◌&&◌, true, drop, none, ltb, false, ◌≡◌,
  ◌||◌, length, is_empty, ◌≤◌, ◌++◌, Bool, ℕ, Bytes, length-append,
}

-- The text before the instruction: `pre`, a `?>`, and `mid`.
abbrev pub before_early : Bytes → Bytes → Bytes
before_early pre mid = pre ++ (closing ++ mid)

module _ {S : Type 0} (put : Bytes → S → S) (instruct : Bytes → S → Outcome S) (lin : ℕ) where
  pub expand_rest-early :
      (n : ℕ) (pre mid body after : Bytes) (s : S)
      → 6 ≤ length pre
      → 1 ≤ length mid
      → 1 ≤ n
      → strstr opening (before_early pre mid) ≡ none
      → strstr closing (drop 6 pre) ≡ none
      → expand_rest put instruct lin n (with_instruction (before_early pre mid) body after) s
        ≡ thrown template lin
  unfolding expand_rest
  expand_rest-early zero pre mid body after s h m k a b = absurd (omega arith)
  expand_rest-early (suc n) pre mid body after s h m k a b =
      let regroup : with_instruction (before_early pre mid) body after
          ≡ pre ++ closing ++ (mid ++ (instruction body ++ after)) =
        simp append_assoc in
      let found : strstr closing (drop 6 (with_instruction (before_early pre mid) body after))
          ≡ some (length pre - 6) =
        rw regroup (strstr-closing pre (mid ++ (instruction body ++ after)) h b) in
      let ordered : ltb (length pre - 6 + 6 + 2) (length (before_early pre mid)) ≡ true =
        ground (arith, length-append {0} pre (closing ++ mid), length-append {0} closing mid) in
      rw (cut_opening (before_early pre mid) body after a, expand_rest)
        (rw (found, expand_rest) (rw ordered))

-- The lines that `hcv_expand_template_file` copies as they are: empty, or `<!` in the first seven.
abbrev pub is_copied : ℕ → Bytes → Bool
is_copied lincnt l =
    is_empty l || (ltb lincnt 8 && ltb 4 (length l) && char_at l 0 == b'<' && char_at l 1 == b'!')

or-eq-false : (a : Bool) {b : Bool} → (a || b) ≡ false → (a ≡ false) × (b ≡ false)
or-eq-false false e = (λ i. false, e)
or-eq-false true e = ground arith

-- A line that is not copied as it is, holds no NUL, and has a `?>` at its seventh byte or later and
-- some more text before its first `<?hcv ` is not expanded: `hcv_expand_template_file` leaves by
-- std::length_error, whatever the instruction, the dictionary and the template data.
pub expand_file_line-early :
    (dict : Dict Expander) (path : Bytes) (lincnt off : ℕ) (td : TemplateData)
    (pre mid body after : Bytes)
    → is_copied lincnt (with_instruction (before_early pre mid) body after) ≡ false
    → is_text (with_instruction (before_early pre mid) body after) ≡ true
    → 6 ≤ length pre
    → 1 ≤ length mid
    → strstr opening (before_early pre mid) ≡ none
    → strstr closing (drop 6 pre) ≡ none
    → expand_file_line dict path lincnt off (with_instruction (before_early pre mid) body after) td
      ≡ thrown template 414
unfolding expand_file_line
expand_file_line-early dict path lincnt off td pre mid body after c t h m a b =
    let l = with_instruction (before_early pre mid) body after in
    let some_fuel : 1 ≤ length l = omega (
      arith,
      length-append {0} (before_early pre mid) (instruction body ++ after),
      length-append {0} pre (closing ++ mid),
    ) in
    let early =
      expand_rest-early write
        (λ procinstr td. expand_processing_instruction dict procinstr path lincnt off td) 414
        (length l) pre mid body after td h m some_fuel a b in
    let whole = c_str-is_text l t in
    let (filled, unmarked) = or-eq-false (is_empty l) c in
    rw filled (rw unmarked (rw (whole, early) (λ i. thrown template 414)))
