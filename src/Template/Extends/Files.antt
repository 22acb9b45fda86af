-- ===== src/Template/Extends/Files.antt =====
-- `hcv_expand_template_file` (hcv_template.cc) only appends.
use mathlib.Core.Option.{none}
use helpcovid.Cstr.{lines, c_str, char_at}
use mathlib.Core.List.{[]}
use helpcovid.Outcome.{require-eq-ok, template, require, ok-injective, ok}
use helpcovid.Template.Data.{append_out, write, TemplateData}
use helpcovid.Template.Expand.{
  max_template_size, expand_processing_instruction, not_regular, missing, regular, newline,
  FileStat, stream_text, expand_template_file, expand_file_lines, expand_file_line,
}
use helpcovid.Template.Extends.{
  expand_processing_instruction-Appending, expand_rest-Appending, char_at, write-Extends, Extends,
  ok-injective, ok, Extends-trans, >>=-eq-ok, TemplateData, ok-Extends, Appending, AllAppending,
}
use helpcovid.Template.Registry.{is_some, Expander}
use helpcovid.Dict.{Dict}
use helpcovid.Prelude.{
  ap, refl, leb, arith, Option-cases, true, not, Option, ◌==◌, ◌&&◌, ltb, inr, some, length, ◌+◌,
  ◌≡◌, inl, ◌∷◌, is_empty, Bool-cases, List, Bytes, ℕ,
}

is_some-append_out :
    (text : Bytes) (o : Option Bytes) → is_some o ≡ true → is_some (append_out text o) ≡ true
unfolding append_out
is_some-append_out text none h = ground arith
is_some-append_out text (some s) h = refl

-- `outp->str()` of a stream.
some-stream_text : (td : TemplateData) → is_some td.out ≡ true → td.out ≡ some (stream_text td)
unfolding stream_text
some-stream_text td h = elim (Option-cases td.out) [
  | inl x ↦ let h1 = rw x at h in ground (arith, h1)
  | inr (s, x) ↦ rw x (λ i. some s)
]

carried :
    (td t1 td' : TemplateData) (s text : Bytes)
    → t1 ≡ td'
    → s ≡ text
    → Extends td t1 × (t1.out ≡ some s)
    → Extends td td' × (td'.out ≡ some text)
carried td t1 td' s text e f h = rw (← e) (rw (← f) h)

module _ (dict : Dict Expander) (appending : AllAppending dict) (path : Bytes) where
  expand_file_line-Appending :
      (lincnt off : ℕ) (l : Bytes) → Appending (expand_file_line dict path lincnt off l)
  unfolding expand_file_line
  expand_file_line-Appending lincnt off l td td' e = elim (Bool-cases (is_empty l)) [
    | inl x ↦ let e1 = rw x at e in rw (ok-injective e1) at (write-Extends newline td)
    | inr x ↦
        let e1 = rw x at e in
        elim (Bool-cases
          (ltb lincnt 8 && ltb 4 (length l) && char_at l 0 == b'<' && char_at l 1 == b'!')) [
            | inl y ↦
                let e2 = rw y at e1 in
                rw (ok-injective e2) at (
                  Extends-trans td (write l td) (write newline (write l td)) (write-Extends l td)
                    (write-Extends newline (write l td)))
            | inr y ↦
                let e2 = rw y at e1 in
                let (t1, rest, done) = >>=-eq-ok _ _ e2 in
                let there =
                  expand_rest-Appending
                    (λ p td. expand_processing_instruction dict p path lincnt off td) 414
                    (λ p. expand_processing_instruction-Appending dict appending p path lincnt off)
                    (length l) (c_str l) td t1 rest in
                rw (ok-injective done) at
                  (Extends-trans td t1 (write newline t1) there (write-Extends newline t1))
          ]
  ]

  expand_file_lines-Appending :
      (lincnt off : ℕ) (ls : List Bytes) → Appending (expand_file_lines dict path lincnt off ls)
  unfolding expand_file_lines
  expand_file_lines-Appending lincnt off [] td td' e = ok-Extends td td' e
  expand_file_lines-Appending lincnt off (l ∷ ls) td td' e =
      let (t1, first, rest) = >>=-eq-ok _ _ e in
      Extends-trans td t1 td' (expand_file_line-Appending (lincnt + 1) off l td t1 first)
        (expand_file_lines-Appending (lincnt + 1) (off + (length l + 1)) ls t1 td' rest)

  -- With a dictionary of expanders that only append, `hcv_expand_template_file` appends to the stream
  -- of the template data and keeps its kind, its number and its request; the text returned is all
  -- that the stream then holds.
  pub expand_template_file-Extends :
      (file : FileStat) (td : TemplateData) {td' : TemplateData} {text : Bytes}
      → expand_template_file dict path file td ≡ ok (td', text)
      → Extends td td' × (td'.out ≡ some text)
  unfolding expand_template_file stream_text
  expand_template_file-Extends missing td e =
      let (_, _, k) = >>=-eq-ok (require (not (is_empty path)) template 355) _ e in
      ground (arith, k)
  expand_template_file-Extends not_regular td e =
      let (_, _, k) = >>=-eq-ok (require (not (is_empty path)) template 355) _ e in
      ground (arith, k)
  expand_template_file-Extends (regular size bytes) td e =
      let (_, _, k) = >>=-eq-ok (require (not (is_empty path)) template 355) _ e in
      let (_, _, k') = >>=-eq-ok (require (leb size max_template_size) template 365) _ k in
      let (_, open_out, k'') = >>=-eq-ok (require (is_some td.out) template 371) _ k' in
      let (t1, run, done) = >>=-eq-ok _ _ k'' in
      let appended = expand_file_lines-Appending 0 0 (lines bytes) td t1 run in
      let still : is_some t1.out ≡ true =
        rw appended.3.1
          (is_some-append_out appended.3.0 td.out (require-eq-ok _ template 371 open_out)) in
      let same = ok-injective done in
      let first : t1 ≡ _ = ap (λ r. r.0) same in
      let second : stream_text t1 ≡ _ = ap (λ r. r.1) same in
      carried td t1 _ (stream_text t1) _ first second (appended, some-stream_text t1 still)
