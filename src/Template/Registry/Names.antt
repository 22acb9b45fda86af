-- ===== src/Template/Registry/Names.antt =====
-- Which names `hcv_register_template_expander_closure` (hcv_template.cc) takes.
use helpcovid.Cstr.Laws.{is_text-is_word, c_str-is_text}
use mathlib.Core.List.{[]}
use helpcovid.Outcome.{require-eq-ok, template, require, >>=-eq-ok, ok}
use helpcovid.Dict.{insert, Dict}
use helpcovid.Cstr.{c_str, is_alpha, is_word}
use helpcovid.Template.Registry.{template_name_maxlen, ok, Dict, Expander, is_word, register}
use helpcovid.Prelude.{
  sym, ap, and-eq-true, ◌∙◌, arith, length, leb, true, all, ◌↔◌, ◌&&◌, ◌==◌, ◌≡◌, ◌||◌, some, ◌∷◌,
  false, Bool, Bytes,
}

-- At most 64 letters, digits and underscores, the first not a digit.
abbrev pub is_template_name : Bytes → Bool
is_template_name [] = false
is_template_name (c ∷ s) =
    (is_alpha c || c == b'_') && all is_word (c ∷ s) && leb (length (c ∷ s)) template_name_maxlen

pub valid_register :
    (name : Bytes) (clos : Expander) (dict : Dict Expander)
    → is_template_name name ≡ true
    → register name (some clos) dict ≡ ok (insert name clos dict)
unfolding register
valid_register [] clos dict h = ground arith
valid_register (c ∷ s) clos dict h =
    let (both, short) = and-eq-true ((is_alpha c || c == b'_') && all is_word (c ∷ s)) _ h in
    let (first, word) = and-eq-true (is_alpha c || c == b'_') _ both in
    let whole = c_str-is_text (c ∷ s) (is_text-is_word (c ∷ s) word) in
    rw (first, register) (rw whole (rw short (rw word (λ i. ok (insert (c ∷ s) clos dict)))))

register_valid :
    (name : Bytes) (clos : Expander) (dict dict' : Dict Expander)
    → register name (some clos) dict ≡ ok dict'
    → (is_template_name name ≡ true) × (dict' ≡ insert name clos dict)
unfolding register
register_valid [] clos dict dict' h = ground arith
register_valid (c ∷ s) clos dict dict' h =
    let (_, first, k) = >>=-eq-ok (require ((is_alpha c || c == b'_')) template 275) _ h in
    let (_, short, k') =
      >>=-eq-ok (require (leb (length (c_str (c ∷ s))) template_name_maxlen) template 279) _ k in
    let (_, word, e) = >>=-eq-ok (require (all is_word (c ∷ s)) template 282) _ k' in
    let first' = require-eq-ok _ template 275 first in
    let short' = require-eq-ok _ template 279 short in
    let word' = require-eq-ok _ template 282 word in
    let whole = c_str-is_text (c ∷ s) (is_text-is_word (c ∷ s) word') in
    let short'' = rw whole at short' in
    (rw first' (rw word' (rw short'' (λ i. true))), ground (arith, e))

-- An expander is registered under its name, unless one is there, exactly if the name is a template
-- name: at most 64 letters, digits and underscores that do not start with a digit.
pub register-is_template_name :
    (name : Bytes) (clos : Expander) (dict dict' : Dict Expander)
    → (register name (some clos) dict ≡ ok dict')
      ↔ ((is_template_name name ≡ true) × (dict' ≡ insert name clos dict))
register-is_template_name name clos dict dict' =
    (register_valid name clos dict dict', λ (h, e). valid_register name clos dict h ∙ ap ok (sym e))
