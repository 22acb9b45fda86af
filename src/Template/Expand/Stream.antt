-- ===== src/Template/Expand/Stream.antt =====
-- Expansion of a stream: the instructions write to the template data's stream, not to the text
-- that is returned.
use helpcovid.Prelude.{
  leb, ◌∙◌, ◌∷◌, sym, [], length, Option, List, take, ◌+◌, ltb, Bool-cases, zero, drop, codes, inr,
  inl, Option-cases, suc, arith, ◌≡◌, ◌++◌,
}
use helpcovid.Outcome.{ok-injective, require, Outcome, ok, template, >>=-eq-ok}
use helpcovid.Cstr.{strstr, c_str, lines}
use helpcovid.Template.Expand.{
  max_template_size, Expander, Dict, TemplateData, ℕ, Bytes, expand_rest, put_local, instruct_on,
  expand_stream_line, expand_stream_lines, expand_template_input_stream,
  expand_processing_instruction,
}

-- The loop with instructions that do nothing, over the returned text alone.
abbrev strip : ℕ → ℕ → Bytes → Bytes → Outcome Bytes
strip lin = expand_rest (λ text s. s ++ text) (λ procinstr s. ok s) lin

expand_rest-strip :
    (f : Bytes → TemplateData → Outcome TemplateData) (lin n : ℕ) (cur o : Bytes) (t : TemplateData)
    {o' : Bytes} {t' : TemplateData}
    → expand_rest put_local (λ p. instruct_on (f p)) lin n cur (o, t) ≡ ok (o', t')
    → strip lin n cur o ≡ ok o'
unfolding expand_rest
expand_rest-strip f lin zero cur o t e = ground arith
expand_rest-strip f lin (suc n) cur o t e = elim (Option-cases (strstr (codes "<?hcv ") cur)) [
  | inl x ↦ let e1 = rw (x, expand_rest) at e in rw (x, expand_rest) (ground (arith, e1))
  | inr (st, x) ↦ elim (Option-cases (strstr (codes "?>") (drop 6 cur))) [
    | inl y ↦
        let e1 = rw (x, expand_rest) at e in
        let e2 = rw (y, expand_rest) at e1 in
        rw (x, expand_rest) (rw (y, expand_rest) (ground (arith, e2)))
    | inr (en, y) ↦
        let e1 = rw (x, expand_rest) at e in
        let e2 = rw (y, expand_rest) at e1 in
        elim (Bool-cases (ltb (en + 6 + 2) st)) [
          | inl z ↦ let e3 = rw z at e2 in ground (arith, e3)
          | inr z ↦
              let e3 = rw z at e2 in
              let ((o1, t1), step, rest) = >>=-eq-ok _ _ e3 in
              let (t2, called, same) = >>=-eq-ok (f _ t) _ step in
              let written : o ++ take st cur ≡ o1 = ground (arith, same) in
              rw (x, expand_rest)
                (rw (y, expand_rest)
                  (rw z
                    (rw written (expand_rest-strip f lin n (drop (en + 6 + 2) cur) o1 t1 rest))))
        ]
  ]
]

-- The two dictionaries, names and template data of two runs.
module _ (d d' : Dict Expander) (name name' : Bytes) where
  expand_stream_line-same :
      (c off : ℕ) (l o : Bytes) (t t' : TemplateData) {p p' : Bytes} {u u' : TemplateData}
      → expand_stream_line d name c off l (o, t) ≡ ok (p, u)
      → expand_stream_line d' name' c off l (o, t') ≡ ok (p', u')
      → p ≡ p'
  unfolding expand_stream_line
  expand_stream_line-same c off l o t t' e e' =
      let (_, _, g) = >>=-eq-ok (require (leb off max_template_size) template 446) _ e in
      let (_, _, g') = >>=-eq-ok (require (leb off max_template_size) template 446) _ e' in
      let ((o1, t1), h, k) = >>=-eq-ok _ _ g in
      let ((o2, t2), h', k') = >>=-eq-ok _ _ g' in
      let s1 =
        expand_rest-strip (λ q t. expand_processing_instruction d q name c off t) 470 (length l)
          (c_str l) o t h in
      let s2 =
        expand_rest-strip (λ q t. expand_processing_instruction d' q name' c off t) 470 (length l)
          (c_str l) o t' h' in
      let same : o1 ≡ o2 = ok-injective (sym s1 ∙ s2) in ground (arith, k, k', same)

  expand_stream_lines-same :
      (c off : ℕ) (ls : List Bytes) (o o' : Bytes) (t t' : TemplateData) {p p' : Bytes}
      {u u' : TemplateData}
      → o ≡ o'
      → expand_stream_lines d name c off ls (o, t) ≡ ok (p, u)
      → expand_stream_lines d' name' c off ls (o', t') ≡ ok (p', u')
      → p ≡ p'
  unfolding expand_stream_lines
  expand_stream_lines-same c off [] o o' t t' q e e' = ground (arith, q, e, e')
  expand_stream_lines-same c off (l ∷ ls) o o' t t' q e e' =
      let e1 = rw q at e in
      let ((o1, t1), h, k) = >>=-eq-ok _ _ e1 in
      let ((o2, t2), h', k') = >>=-eq-ok _ _ e' in
      expand_stream_lines-same (c + 1) (off + (length l + 1)) ls o1 o2 t1 t2
        (expand_stream_line-same (c + 1) off l o' t t' h h') k k'

-- `hcv_expand_template_input_stream` returns the same text for the same stream whatever the
-- dictionary, the name and the template data, as long as it returns: what the instructions output is
-- no part of it.
pub expand_template_input_stream-same :
    (d d' : Dict Expander) (text : Bytes) (name name' : Option Bytes) (t t' : TemplateData)
    {p p' : Bytes} {u u' : TemplateData}
    → expand_template_input_stream d text name t ≡ ok (p, u)
    → expand_template_input_stream d' text name' t' ≡ ok (p', u')
    → p ≡ p'
unfolding expand_template_input_stream
expand_template_input_stream-same d d' text name name' t t' e e' =
    expand_stream_lines-same d d' _ _ 0 0 (lines text) [] [] t t' (λ i. []) e e'
