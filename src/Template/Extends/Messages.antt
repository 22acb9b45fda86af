-- ===== src/Template/Extends/Messages.antt =====
-- `request_language` (hcv_template.cc) and `hcv_view_expand_msg` (hcv_views.cc) keep the stream.
use helpcovid.Scan.{sscanf}
use helpcovid.Chunkmap.{get_chunkmap_entry}
use helpcovid.Template.Registry.{is_some}
use helpcovid.Cstr.{c_str, strstr, char_at, is_alpha}
use helpcovid.Outcome.{Outcome, views, require, ok-injective, >>=-eq-ok, ok}
use mathlib.Core.Bool.{false, true}
use helpcovid.Views.Message.{msg_format, expand_named, expand_msg_scanned, expand_msg, message_text}
use helpcovid.Template.Extends.{sscanf, ok, append_out-nil, Extends-refl, Extends}
use helpcovid.Template.Data.{is_http, Request, TemplateData}
use helpcovid.Template.Language.{pick_language, language_codes, request_language, language_from}
use helpcovid.Dict.{Dict}
use helpcovid.Prelude.{
  take, arith, drop, codes, Option-cases, inr, ◌&&◌, inl, ltb, Bool-cases, ◌∷◌, ap, ◌≡◌, refl, sym,
  some, none, is_empty, [], not, if◌then◌else◌, Option, Bytes, List, Bool, ℕ,
}

abbrev Asked : TemplateData → TemplateData × Bytes → Type 0
Asked td r = Extends td r.0

if-Extends :
    (b : Bool) (lang : Bytes) (td : TemplateData)
    → Extends td (if b then td else record td { language = lang })
if-Extends true lang td = Extends-refl td
if-Extends false lang td = (refl, refl, refl, ([], sym (append_out-nil td.out)))

if_empty-Extends :
    (b : Bool) (lang : Bytes) (td : TemplateData)
    → Asked td (
        if b then (td, []) else (if is_empty lang then td else record td { language = lang }, lang))
if_empty-Extends true lang td = Extends-refl td
if_empty-Extends false lang td = if-Extends (is_empty lang) lang td

-- The method on its tests: is there a language already, and a request?
choice-Extends :
    (table : List Bytes) (td : TemplateData) (b : Bool) (o : Option Request)
    → Asked td (
        if b then (td, td.language) else elim o [
          | none ↦ (td, [])
          | some req ↦
              if is_empty req.accept_language
              then (td, [])
              else let lang = pick_language table req.accept_language in
                (if is_empty lang then td else record td { language = lang }, lang)
        ])
choice-Extends table td true o = Extends-refl td
choice-Extends table td false none = Extends-refl td
choice-Extends table td false (some req) =
    if_empty-Extends (is_empty req.accept_language) (pick_language table req.accept_language) td

language_from-Extends :
    (table : List Bytes) (td : TemplateData) → Extends td (language_from table td).0
unfolding language_from
language_from-Extends table td = choice-Extends table td (not (is_empty td.language)) td.request

request_language-Extends : (td : TemplateData) → Extends td (request_language td).0
unfolding request_language
request_language-Extends td = language_from-Extends language_codes td

module _ (globchunk : Dict Bytes) (dgettext : Bytes → Option Bytes) where
  message_text-Extends :
      (msgid rawmsg : Bytes) (td : TemplateData)
      → Extends td (message_text globchunk dgettext msgid rawmsg td).0
  unfolding message_text
  message_text-Extends msgid rawmsg td = request_language-Extends td

  expand_named-Extends :
      (msgid : Bytes) (endp : ℕ) (p : Bytes) (td td' : TemplateData) (text : Bytes)
      → expand_named globchunk dgettext msgid endp p td ≡ ok (td', text)
      → Extends td td'
  unfolding expand_named
  expand_named-Extends msgid endp p td td' text e =
      let (_, _, k) = >>=-eq-ok (require (is_alpha (char_at msgid 0)) views 259) _ e in
      elim (Option-cases (strstr (codes "?>") (drop endp (c_str p)))) [
        | inl x ↦ let k1 = rw x at k in ground (arith, k1)
        | inr (n, x) ↦
            let k1 = rw x at k in
            elim (Bool-cases (is_empty (get_chunkmap_entry globchunk msgid))) [
              | inl y ↦
                  let k2 = rw y at k1 in
                  rw (← ap (λ r. r.0) (ok-injective k2))
                    (message_text-Extends msgid (take n (drop endp (c_str p))) td)
              | inr y ↦
                  let k2 = rw y at k1 in rw (← ap (λ r. r.0) (ok-injective k2)) (Extends-refl td)
            ]
      ]

  nothing-Extends :
      (td td' : TemplateData) (text : Bytes)
      → ◌≡◌ {A = Outcome (TemplateData × Bytes)} (ok (td, [])) (ok (td', text))
      → Extends td td'
  nothing-Extends td td' text e = rw (← ap (λ r. r.0) (ok-injective e)) (Extends-refl td)

  expand_msg_scanned-Extends :
      (fields : List Bytes) (endpos : Option ℕ) (p : Bytes) (td td' : TemplateData) (text : Bytes)
      → expand_msg_scanned globchunk dgettext fields endpos p td ≡ ok (td', text)
      → Extends td td'
  unfolding expand_msg_scanned
  expand_msg_scanned-Extends [] endpos p td td' text e = nothing-Extends td td' text e
  expand_msg_scanned-Extends (w ∷ _) none p td td' text e = nothing-Extends td td' text e
  expand_msg_scanned-Extends (w ∷ _) (some endp) p td td' text e = elim (Bool-cases (ltb 0 endp)) [
    | inl x ↦ let e1 = rw x at e in expand_named-Extends w endp p td td' text e1
    | inr x ↦ let e1 = rw x at e in nothing-Extends td td' text e1
  ]

  pub expand_msg-Extends :
      (p : Bytes) (td td' : TemplateData) (text : Bytes)
      → expand_msg globchunk dgettext p td ≡ ok (td', text)
      → Extends td td'
  unfolding expand_msg
  expand_msg-Extends p td td' text e =
      let (_, _, k) = >>=-eq-ok (require (is_http td.kind && is_some td.request) views 250) _ e in
      let got = sscanf (c_str p) msg_format in
      expand_msg_scanned-Extends got.fields got.endpos p td td' text k
