-- ===== src/Template/Extends/Builtin.antt =====
-- The expanders of hcv_template.cc only append.
use helpcovid.Template.Extends.Messages.{expand_msg-Extends}
use helpcovid.Template.Expanders.Silent.{expand_html_config-silent}
use helpcovid.Cstr.{c_str}
use mathlib.Core.Bool.{false, true}
use helpcovid.Views.Message.{expand_msg, expand_confmsg, register_form_token}
use helpcovid.Template.Registry.{is_some}
use helpcovid.Html.{output_cstr_encoded_html}
use helpcovid.Decimal.{decimal}
use helpcovid.Template.Extends.{
  Extends-refl, Extends-trans, Extends, c_str, ok-Extends, write-Extends, IsAppending, Appending,
}
use helpcovid.Outcome.{
  thrown, require-eq-ok, fatal, ◌>>◌, ◌>>=◌, template, ok-injective, require, ok, >>=-eq-ok,
  Outcome,
}
use helpcovid.Template.Expanders.{
  or_fatal, expand_msg_instruction, expand_confmsg_instruction, half_gitid, expand_request_path,
  expand_request_method, expand_register_form_token, expand_html_config, expand_half_gitid,
  expand_basefilepos, write_encoded, expand_webroot, expand_timestamp, expand_request_number,
  expand_pid, expand_offset, expand_now, expand_lineno, expand_lastgitcommit, expand_hostname,
  expand_gitid, expand_filename, expand_date, with_stream, Env,
}
use helpcovid.Template.Data.{request_path, request_method, is_http, is_no_kind, write, TemplateData}
use helpcovid.Prelude.{
  ◌∙◌, sym, ap, arith, ◌≡◌, length, ltb, if◌then◌else◌, Bool, inr, inl, Bool-cases, some, not, [],
  Bytes, ℕ,
}

with_stream-Appending :
    (lin : ℕ) (f : TemplateData → Outcome TemplateData)
    → Appending f
    → Appending (with_stream lin f)
unfolding with_stream
with_stream-Appending lin f h td td' e =
    let (_, _, k) = >>=-eq-ok (require (not (is_no_kind td.kind)) template lin) _ e in
    elim (Bool-cases (is_some td.out)) [
      | inl x ↦ let k1 = rw x at k in h td td' k1
      | inr x ↦ let k1 = rw x at k in ok-Extends td td' k1
    ]

-- A text that the object determines.
written-Appending : (text : TemplateData → Bytes) → Appending (λ td. ok (write (text td) td))
written-Appending text td td' e = rw (ok-injective e) at (write-Extends (text td) td)

write-if-Appending :
    (b : Bool) (text : TemplateData → Bytes)
    → Appending (λ td. ok (if b then write (text td) td else td))
write-if-Appending true text td td' e = written-Appending text td td' e
write-if-Appending false text td td' e = ok-Extends td td' e

written_if-Extends :
    (b : Bool) (text : Bytes) (td td' : TemplateData)
    → ok (if b then write text td else td) ≡ ok td'
    → Extends td td'
written_if-Extends b text td td' e = write-if-Appending b (λ td. text) td td' e

required-Appending :
    (b : Bool) (lin : ℕ) (text : Bytes)
    → Appending (λ td. require b template lin >> ok (write text td))
required-Appending b lin text td td' e =
    let (_, _, k) = >>=-eq-ok (require b template lin) _ e in
    written-Appending (λ td. text) td td' k

output-Appending :
    (m : TemplateData → Outcome Bytes) → Appending (λ td. m td >>= λ text. ok (write text td))
output-Appending m td td' e =
    let (text, _, k) = >>=-eq-ok (m td) _ e in written-Appending (λ td. text) td td' k

-- An expansion that may set the language.
asking-Appending :
    (m : TemplateData → Outcome (TemplateData × Bytes))
    → ((td td' : TemplateData) (text : Bytes) → m td ≡ ok (td', text) → Extends td td')
    → Appending (λ td. m td >>= λ r. ok (write r.1 r.0))
asking-Appending m h td td' e =
    let ((t1, text), run, k) = >>=-eq-ok (m td) _ e in
    Extends-trans td t1 td' (h td t1 text run) (written-Appending (λ td. text) t1 td' k)

or_fatal-eq-ok :
    (lin : ℕ) (m : Outcome (TemplateData × Bytes)) {r : TemplateData × Bytes}
    → or_fatal lin m ≡ ok r
    → m ≡ ok r
unfolding or_fatal
or_fatal-eq-ok lin (ok r) e = e
or_fatal-eq-ok lin (fatal fil l) e = ground (arith, e)
or_fatal-eq-ok lin (thrown fil l) e = ground (arith, e)

kept-Extends :
    (m : Outcome Bytes) (td td' : TemplateData) (text : Bytes)
    → ◌>>=◌ {B = TemplateData × Bytes} m (λ text. ok (td, text)) ≡ ok (td', text)
    → Extends td td'
kept-Extends m td td' text e =
    let (_, _, k) = >>=-eq-ok m _ e in rw (← ap (λ r. r.0) (ok-injective k)) (Extends-refl td)

module _ (env : Env) where
  pub expand_date-IsAppending : IsAppending (expand_date env)
  unfolding expand_date with_stream write_encoded
  expand_date-IsAppending p f lin off td td' e =
      with_stream-Appending _ _
        (written-Appending (λ td. output_cstr_encoded_html [] (some (env.today)))) td td' e

  pub expand_now-IsAppending : IsAppending (expand_now env)
  unfolding expand_now with_stream write_encoded
  expand_now-IsAppending p f lin off td td' e =
      with_stream-Appending _ _
        (written-Appending (λ td. output_cstr_encoded_html [] (some (env.now)))) td td' e

  pub expand_request_number-IsAppending : IsAppending (expand_request_number env)
  unfolding expand_request_number with_stream write_encoded
  expand_request_number-IsAppending p f lin off td td' e =
      with_stream-Appending _ _
        (written-Appending (λ td. output_cstr_encoded_html [] (some (decimal td.serial)))) td td' e

  pub expand_gitid-IsAppending : IsAppending (expand_gitid env)
  unfolding expand_gitid with_stream write_encoded
  expand_gitid-IsAppending p f lin off td td' e =
      with_stream-Appending _ _
        (written-Appending (λ td. output_cstr_encoded_html [] (some (env.gitid)))) td td' e

  pub expand_lastgitcommit-IsAppending : IsAppending (expand_lastgitcommit env)
  unfolding expand_lastgitcommit with_stream write_encoded
  expand_lastgitcommit-IsAppending p f lin off td td' e =
      with_stream-Appending _ _
        (written-Appending (λ td. output_cstr_encoded_html [] (some (env.lastgitcommit)))) td td' e

  pub expand_timestamp-IsAppending : IsAppending (expand_timestamp env)
  unfolding expand_timestamp with_stream write_encoded
  expand_timestamp-IsAppending p f lin off td td' e =
      with_stream-Appending _ _
        (written-Appending (λ td. output_cstr_encoded_html [] (some (env.timestamp)))) td td' e

  pub expand_pid-IsAppending : IsAppending (expand_pid env)
  unfolding expand_pid with_stream write_encoded
  expand_pid-IsAppending p f lin off td td' e =
      with_stream-Appending _ _ (written-Appending (λ td. decimal env.pid)) td td' e

  pub expand_hostname-IsAppending : IsAppending (expand_hostname env)
  unfolding expand_hostname with_stream write_encoded
  expand_hostname-IsAppending p f lin off td td' e =
      with_stream-Appending _ _ (written-Appending (λ td. env.hostname)) td td' e

  pub expand_webroot-IsAppending : IsAppending (expand_webroot env)
  unfolding expand_webroot with_stream write_encoded
  expand_webroot-IsAppending p f lin off td td' e =
      with_stream-Appending _ _
        (written-Appending (λ td. output_cstr_encoded_html [] (some (env.web_root)))) td td' e

  pub expand_filename-IsAppending : IsAppending (expand_filename env)
  unfolding expand_filename with_stream write_encoded
  expand_filename-IsAppending p f lin off td td' e =
      with_stream-Appending _ _ (written-Appending (λ td. output_cstr_encoded_html [] (some (f))))
        td td' e

  pub expand_lineno-IsAppending : IsAppending (expand_lineno env)
  unfolding expand_lineno with_stream write_encoded
  expand_lineno-IsAppending p f lin off td td' e =
      with_stream-Appending _ _ (written-Appending (λ td. decimal lin)) td td' e

  pub expand_offset-IsAppending : IsAppending (expand_offset env)
  unfolding expand_offset with_stream write_encoded
  expand_offset-IsAppending p f lin off td td' e =
      with_stream-Appending _ _ (written-Appending (λ td. decimal off)) td td' e

  pub expand_request_method-IsAppending : IsAppending (expand_request_method env)
  unfolding expand_request_method with_stream write_encoded
  expand_request_method-IsAppending p f lin off td td' e =
      with_stream-Appending _ _
        (λ td.
          write-if-Appending (is_http td.kind)
            (λ td. output_cstr_encoded_html [] (some (request_method td))) td)
        td td' e

  pub expand_request_path-IsAppending : IsAppending (expand_request_path env)
  unfolding expand_request_path with_stream write_encoded
  expand_request_path-IsAppending p f lin off td td' e =
      with_stream-Appending _ _
        (λ td.
          write-if-Appending (is_http td.kind)
            (λ td. output_cstr_encoded_html [] (some (request_path td))) td)
        td td' e

  pub expand_half_gitid-IsAppending : IsAppending (expand_half_gitid env)
  unfolding expand_half_gitid with_stream
  expand_half_gitid-IsAppending p f lin off td td' e =
      with_stream-Appending _ _
        (required-Appending (ltb 4 (length (c_str env.gitid))) 638 (half_gitid (c_str env.gitid)))
        td td' e

  pub expand_html_config-IsAppending : IsAppending (expand_html_config env)
  unfolding expand_html_config
  expand_html_config-IsAppending p f lin off td td' e =
      let (_, known, _) = >>=-eq-ok (require (not (is_no_kind td.kind)) template 559) _ e in
      let kind : is_no_kind td.kind ≡ false = ground (arith, require-eq-ok _ template 559 known) in
      ok-Extends td td' (sym (expand_html_config-silent env p f lin off td kind) ∙ e)

  pub expand_basefilepos-IsAppending : IsAppending (expand_basefilepos env)
  unfolding expand_basefilepos
  expand_basefilepos-IsAppending p f lin off td td' e =
      let (_, _, k) = >>=-eq-ok (require (not (is_no_kind td.kind)) template 857) _ e in
      written_if-Extends _ _ td td' k

  pub expand_register_form_token-IsAppending : IsAppending (expand_register_form_token env)
  unfolding expand_register_form_token with_stream
  expand_register_form_token-IsAppending p f lin off td td' e =
      with_stream-Appending _ _ (output-Appending (register_form_token env.random)) td td' e

  pub expand_msg_instruction-IsAppending : IsAppending (expand_msg_instruction env)
  unfolding expand_msg_instruction with_stream
  expand_msg_instruction-IsAppending p f lin off td td' e =
      with_stream-Appending _ _
        (asking-Appending (λ td. or_fatal 951 (expand_msg env.globchunk env.dgettext p td))
          (λ td td' text e.
            expand_msg-Extends env.globchunk env.dgettext p td td' text (or_fatal-eq-ok 951 _ e)))
        td td' e

  pub expand_confmsg_instruction-IsAppending : IsAppending (expand_confmsg_instruction env)
  unfolding expand_confmsg_instruction with_stream
  expand_confmsg_instruction-IsAppending p f lin off td td' e =
      with_stream-Appending _ _
        (asking-Appending (λ td. or_fatal 993 (expand_confmsg p td >>= λ text. ok (td, text)))
          (λ td td' text e.
            kept-Extends (expand_confmsg p td) td td' text (or_fatal-eq-ok 993 _ e)))
        td td' e
