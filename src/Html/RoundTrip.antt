-- ===== src/Html/RoundTrip.antt =====
-- Encoded text holds no markup, and can be decoded.
use helpcovid.Prelude.{
  zero, if◌then◌else◌, ◌≤◌, drop, suc, length, ℕ, Bool, true, not, ◌&&◌, [], ◌∷◌, ◌++◌, some, ◌≡◌,
  refl, sym, ◌∙◌, arith, ◌==◌, Bytes, all, append-nil, append_assoc,
}
use helpcovid.Cstr.{starts_with, c_str}
use helpcovid.Cstr.Laws.{all-append}
use helpcovid.Html.{
  codes, encode_byte, output_encoded_html, output_until_nul, output_cstr_encoded_html,
}

-- The encoding with no stream.
abbrev pub encoded : Bytes → Bytes
encoded [] = []
encoded (c ∷ s) = encode_byte c ++ encoded s

pub output_encoded_html-encoded : (s out : Bytes) → output_encoded_html out s ≡ out ++ encoded s
unfolding output_encoded_html
output_encoded_html-encoded [] out = sym (append-nil out)
output_encoded_html-encoded (c ∷ s) out =
    output_encoded_html-encoded s (out ++ encode_byte c)
    ∙ append_assoc out (encode_byte c) (encoded s)

output_until_nul-encoded : (s out : Bytes) → output_until_nul out s ≡ out ++ encoded (c_str s)
unfolding output_until_nul c_str
output_until_nul-encoded [] out = sym (append-nil out)
output_until_nul-encoded (c ∷ s) out = ground (
  arith,
  output_until_nul-encoded s (out ++ encode_byte c),
  append_assoc out (encode_byte c) (encoded (c_str s)),
  append-nil out,
)

-- The two writers agree: on a C string as on the std::string of its bytes before the first NUL.
pub output_cstr_encoded_html-c_str :
    (out s : Bytes) → output_cstr_encoded_html out (some s) ≡ output_encoded_html out (c_str s)
unfolding output_cstr_encoded_html
output_cstr_encoded_html-c_str out s =
    output_until_nul-encoded s out ∙ sym (output_encoded_html-encoded (c_str s) out)

-- Not one of < > ' "
abbrev pub is_plain : ℕ → Bool
is_plain c = not (c == b'<') && not (c == b'>') && not (c == b'\'') && not (c == b'"')

is_plain-encode_byte : (c : ℕ) → all is_plain (encode_byte c) ≡ true
unfolding encode_byte
is_plain-encode_byte c = ground arith

is_plain-encoded : (s : Bytes) → all is_plain (encoded s) ≡ true
is_plain-encoded [] = refl
is_plain-encoded (c ∷ s) =
    rw (all-append is_plain (encode_byte c) (encoded s), is_plain-encode_byte c)
      (is_plain-encoded s)

-- What is appended to the stream holds none of < > ' " whatever the text, so it opens no tag and
-- ends no attribute; what was there stays.
pub output_encoded_html-is_plain :
    (out s : Bytes)
    → (added : Bytes) × (output_encoded_html out s ≡ out ++ added) × (all is_plain added ≡ true)
output_encoded_html-is_plain out s =
    (encoded s, output_encoded_html-encoded s out, is_plain-encoded s)

-- The reading of the five entities, and of any other byte as itself, for at most `n` characters.
pub decode : ℕ → Bytes → Bytes
decode zero s = []
decode (suc n) [] = []
decode (suc n) (c ∷ s) =
    let lt = b'<' ∷ decode n (drop 3 s) in
    let gt = b'>' ∷ decode n (drop 3 s) in
    let apos = b'\'' ∷ decode n (drop 5 s) in
    let amp = b'&' ∷ decode n (drop 4 s) in
    let quot = b'"' ∷ decode n (drop 5 s) in
    let other = c ∷ decode n s in
    if starts_with (codes "&lt;") (c ∷ s)
    then lt
    else if starts_with (codes "&gt;") (c ∷ s)
    then gt
    else if starts_with (codes "&apos;") (c ∷ s)
    then apos
    else if starts_with (codes "&amp;") (c ∷ s)
    then amp
    else if starts_with (codes "&quot;") (c ∷ s)
    then quot
    else other

decode-encoded : (s : Bytes) (n : ℕ) → length s ≤ n → decode n (encoded s) ≡ s
unfolding decode encode_byte starts_with
decode-encoded [] zero h = refl
decode-encoded [] (suc n) h = refl
decode-encoded (c ∷ s) zero h = absurd (omega arith)
decode-encoded (c ∷ s) (suc n) h = ground (arith, decode-encoded s n)

-- Decoding gives the text back, whatever its bytes.
pub decode-output_encoded_html : (s : Bytes) → decode (length s) (output_encoded_html [] s) ≡ s
decode-output_encoded_html s =
    rw (output_encoded_html-encoded s []) (decode-encoded s (length s) (omega arith))
