-- ===== src/Template/Extends.antt =====
-- Expansion only appends: the expanders, the loop, the files (hcv_template.cc).
use helpcovid.Scan.{sscanf}
use helpcovid.Cstr.{char_at, c_str, strstr}
use mathlib.Core.Option.{none}
use helpcovid.Outcome.{template, require, ok-injective, >>=-eq-ok, ok, Outcome}
use helpcovid.Template.Registry.{Expander}
use helpcovid.Template.Expand.{
  instruction_format, expand_scanned, call_expander, expand_processing_instruction, expand_rest,
}
use helpcovid.Template.Data.{is_no_kind, write, append_out, TemplateData}
use helpcovid.Dict.{lookup, Dict}
use helpcovid.Prelude.{
  ◌==◌, take, ◌+◌, ltb, arith, Bool-cases, inr, inl, drop, codes, ◌∷◌, not, Option-cases, List,
  refl, append_assoc, append-nil, zero, ap, ◌++◌, sym, suc, some, ◌≡◌, ◌∙◌, [], Option, Bytes, ℕ,
}
pub mod Files
pub mod Messages
pub mod Builtin
pub mod Initialized

-- Some text has been appended to the stream, if there is one; the kind, the serial number and the
-- request are the same. The language may have been set.
abbrev pub Extends : TemplateData → TemplateData → Type 0
Extends td td' =
    (td'.kind ≡ td.kind)
    × (td'.serial ≡ td.serial)
    × (td'.request ≡ td.request)
    × ((text : Bytes) × (td'.out ≡ append_out text td.out))

pub append_out-nil : (o : Option Bytes) → append_out [] o ≡ o
unfolding append_out
append_out-nil none = refl
append_out-nil (some s) = ap some (append-nil s)

append_out-append_out :
    (a b : Bytes) (o : Option Bytes) → append_out b (append_out a o) ≡ append_out (a ++ b) o
unfolding append_out
append_out-append_out a b none = refl
append_out-append_out a b (some s) = ap some (append_assoc s a b)

pub Extends-refl : (td : TemplateData) → Extends td td
Extends-refl td = (refl, refl, refl, ([], sym (append_out-nil td.out)))

pub Extends-trans : (a b c : TemplateData) → Extends a b → Extends b c → Extends a c
Extends-trans a b c (k, s, r, (t, e)) (k', s', r', (t', e')) = (
  k' ∙ k,
  s' ∙ s,
  r' ∙ r,
  (t ++ t', e' ∙ (ap (append_out t') e ∙ append_out-append_out t t' a.out)),
)

pub write-Extends : (text : Bytes) (td : TemplateData) → Extends td (write text td)
unfolding write
write-Extends text td = (refl, refl, refl, (text, refl))

-- What a step does whenever it returns.
abbrev pub Appending : (TemplateData → Outcome TemplateData) → Type 0
Appending f = (td td' : TemplateData) → f td ≡ ok td' → Extends td td'

abbrev pub IsAppending : Expander → Type 0
IsAppending e = (p f : Bytes) (lin off : ℕ) → Appending (e p f lin off)

abbrev pub AllAppending : Dict Expander → Type 0
AllAppending dict = (k : Bytes) (e : Expander) → lookup k dict ≡ some e → IsAppending e

pub ok-Extends : (td td' : TemplateData) → ok td ≡ ok td' → Extends td td'
ok-Extends td td' e = rw (ok-injective e) (Extends-refl td')

module _ (dict : Dict Expander) (appending : AllAppending dict) where
  call_expander-Appending :
      (name : Bytes) (endpos : ℕ) (p f : Bytes) (lin off : ℕ)
      → Appending (call_expander dict name endpos p f lin off)
  unfolding call_expander
  call_expander-Appending name endpos p f lin off td td' e =
      elim (Option-cases (strstr (codes "?>") (drop endpos (c_str p)))) [
        | inl x ↦ let e1 = rw (x, call_expander) at e in ground (arith, e1)
        | inr (n, x) ↦
            let e1 = rw (x, call_expander) at e in
            elim (Bool-cases (not (char_at (drop endpos (c_str p)) (n + 2) == 0))) [
              | inl y ↦ let e2 = rw y at e1 in ground (arith, e2)
              | inr y ↦
                  let e2 = rw y at e1 in
                  elim (Option-cases (lookup name dict)) [
                    | inl z ↦ let e3 = rw z at e2 in ok-Extends td td' e3
                    | inr (clos, z) ↦
                        let e3 = rw z at e2 in appending name clos z p f lin off td td' e3
                  ]
            ]
      ]

  expand_scanned-Appending :
      (fields : List Bytes) (endpos : Option ℕ) (p f : Bytes) (lin off : ℕ)
      → Appending (expand_scanned dict fields endpos p f lin off)
  unfolding expand_scanned
  expand_scanned-Appending [] endpos p f lin off td td' e = ok-Extends td td' e
  expand_scanned-Appending (name ∷ _) none p f lin off td td' e = ok-Extends td td' e
  expand_scanned-Appending (name ∷ _) (some endpos) p f lin off td td' e =
      call_expander-Appending name endpos p f lin off td td' e

  -- One instruction, with a dictionary of expanders that only append.
  pub expand_processing_instruction-Appending :
      (p f : Bytes) (lin off : ℕ) → Appending (expand_processing_instruction dict p f lin off)
  unfolding expand_processing_instruction
  expand_processing_instruction-Appending p f lin off td td' e =
      let (_, _, k) = >>=-eq-ok (require (not (is_no_kind td.kind)) template 308) _ e in
      let got = sscanf (c_str p) instruction_format in
      expand_scanned-Appending got.fields got.endpos p f lin off td td' k

pub expand_rest-Appending :
    (instruct : Bytes → TemplateData → Outcome TemplateData) (lin : ℕ)
    → ((p : Bytes) → Appending (instruct p))
    → (n : ℕ) (cur : Bytes) → Appending (expand_rest write instruct lin n cur)
unfolding expand_rest
expand_rest-Appending instruct lin h zero cur td td' e =
    rw (ok-injective e) at (write-Extends cur td)
expand_rest-Appending instruct lin h (suc n) cur td td' e =
    elim (Option-cases (strstr (codes "<?hcv ") cur)) [
      | inl x ↦ let e1 = rw (x, expand_rest) at e in rw (ok-injective e1) at (write-Extends cur td)
      | inr (st, x) ↦ elim (Option-cases (strstr (codes "?>") (drop 6 cur))) [
        | inl y ↦
            let e1 = rw (x, expand_rest) at e in
            let e2 = rw (y, expand_rest) at e1 in rw (ok-injective e2) at (write-Extends cur td)
        | inr (en, y) ↦
            let e1 = rw (x, expand_rest) at e in
            let e2 = rw (y, expand_rest) at e1 in
            elim (Bool-cases (ltb (en + 6 + 2) st)) [
              | inl z ↦ let e3 = rw z at e2 in ground (arith, e3)
              | inr z ↦
                  let e3 = rw z at e2 in
                  let (t1, called, rest) = >>=-eq-ok _ _ e3 in
                  let there = h _ _ t1 called in
                  Extends-trans td (write (take st cur) td) td' (write-Extends (take st cur) td) (
                    Extends-trans (write (take st cur) td) t1 td' there
                      (expand_rest-Appending instruct lin h n (drop (en + 6 + 2) cur) t1 td' rest))
            ]
      ]
    ]
