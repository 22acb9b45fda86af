-- ===== src/Html.antt =====
-- hcv_web.cc: the encoding of text for HTML. A stream is the text written so far.
pub mod RoundTrip
use helpcovid.Prelude.{
  ℕ, Bool, List, [], ◌∷◌, ◌++◌, Option, none, some, ◌==◌, if◌then◌else◌, Bytes, codes,
}
use helpcovid.Cstr.{c_str}

-- What the switch writes for one byte.
unfoldable pub encode_byte : ℕ → Bytes
encode_byte c =
    if c == b'<'
    then codes "&lt;"
    else if c == b'>'
    then codes "&gt;"
    else if c == b'\''
    then codes "&apos;"
    else if c == b'&'
    then codes "&amp;"
    else if c == b'"'
    then codes "&quot;"
    else c ∷ []

-- `hcv_output_encoded_html`
unfoldable pub output_encoded_html : Bytes → Bytes → Bytes
unfolding encode_byte
output_encoded_html out [] = out
output_encoded_html out (c ∷ s) = output_encoded_html (out ++ encode_byte c) s

-- The loop of `hcv_output_cstr_encoded_html`, which stops at the first NUL.
unfoldable pub output_until_nul : Bytes → Bytes → Bytes
unfolding encode_byte
output_until_nul out [] = out
output_until_nul out (c ∷ s) =
    let rest = output_until_nul (out ++ encode_byte c) s in if c == 0 then out else rest

-- `hcv_output_cstr_encoded_html`; `none` is the null pointer.
unfoldable pub output_cstr_encoded_html : Bytes → Option Bytes → Bytes
unfolding output_until_nul
output_cstr_encoded_html out none = out
output_cstr_encoded_html out (some s) = output_until_nul out s
