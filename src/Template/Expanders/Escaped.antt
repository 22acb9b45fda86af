-- ===== src/Template/Expanders/Escaped.antt =====
-- The expanders of hcv_template.cc that output what the request says encode it for HTML.
use helpcovid.Template.Registry.{is_some}
use helpcovid.Cstr.{c_str}
use mathlib.Core.Bool.{false}
use helpcovid.Template.Extends.{append_out-nil}
use helpcovid.Html.{output_cstr_encoded_html}
use helpcovid.Html.RoundTrip.{
  output_cstr_encoded_html-c_str, output_encoded_html-is_plain, is_plain,
}
use helpcovid.Outcome.{template, require, >>=-eq-ok, ok-injective, ok}
use helpcovid.Template.Expanders.{
  is_some, c_str, output_cstr_encoded_html, Env, ok, expand_request_path, write_encoded,
  with_stream, expand_request_method,
}
use helpcovid.Template.Data.{
  request_path, request_method, is_no_kind, is_http, append_out, write, TemplateData,
}
use helpcovid.Prelude.{
  if-false, ◌∙◌, if-true, Bool-cases, inr, refl, not, sym, some, inl, ◌⊎◌, true, [], if◌then◌else◌,
  ◌≡◌, all, Bool, Bytes, ℕ,
}

-- What has been appended to the stream opens no tag and ends no attribute.
abbrev pub Escaped : TemplateData → TemplateData → Type 0
Escaped td td' = (text : Bytes) × (td'.out ≡ append_out text td.out) × (all is_plain text ≡ true)

output_cstr-is_plain : (s : Bytes) → all is_plain (output_cstr_encoded_html [] (some s)) ≡ true
output_cstr-is_plain s =
    let (added, whole, plain) = output_encoded_html-is_plain [] (c_str s) in
    rw (output_cstr_encoded_html-c_str [] s) (rw whole plain)

same-Escaped : (td td' : TemplateData) → ok td ≡ ok td' → Escaped td td'
same-Escaped td td' e = rw (← ok-injective e) ([], sym (append_out-nil td.out), refl)

encoded-Escaped :
    (asked : Bool) (s : Bytes) (td td' : TemplateData)
    → ok (if asked then write_encoded s td else td) ≡ ok td'
    → Escaped td td'
unfolding write_encoded write
encoded-Escaped true s td td' e =
    rw (← ok-injective e) (output_cstr_encoded_html [] (some s), refl, output_cstr-is_plain s)
encoded-Escaped false s td td' e = same-Escaped td td' e

with_stream-Escaped :
    (lin : ℕ) (asked : TemplateData → Bool) (s : TemplateData → Bytes) (td td' : TemplateData)
    → with_stream lin (λ td. ok (if asked td then write_encoded (s td) td else td)) td ≡ ok td'
    → Escaped td td'
unfolding with_stream
with_stream-Escaped lin asked s td td' e =
    let (_, _, k) = >>=-eq-ok (require (not (is_no_kind td.kind)) template lin) _ e in
    elim (Bool-cases (is_some td.out)) [
      | inl x ↦ encoded-Escaped (asked td) (s td) td td' (sym (if-true _ _ x) ∙ k)
      | inr x ↦ same-Escaped td td' (sym (if-false _ _ x) ∙ k)
    ]

-- What `<?hcv request_method?>` and `<?hcv request_path?>` output of a request, whatever bytes it
-- has, holds none of < > ' " and so opens no tag and ends no attribute.
pub expand_request-Escaped :
    (env : Env) (p f : Bytes) (lin off : ℕ) (td td' : TemplateData)
    → (expand_request_method env p f lin off td ≡ ok td')
      ⊎ (expand_request_path env p f lin off td ≡ ok td')
    → Escaped td td'
unfolding expand_request_method expand_request_path
expand_request-Escaped env p f lin off td td' (inl e) =
    with_stream-Escaped _ (λ td. is_http td.kind) request_method td td' e
expand_request-Escaped env p f lin off td td' (inr e) =
    with_stream-Escaped _ (λ td. is_http td.kind) request_path td td' e
