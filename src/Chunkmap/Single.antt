-- ===== src/Chunkmap/Single.antt =====
-- Single-line chunks: `!NAME'text up to the end of the line`.
use helpcovid.Prelude.{
  ℕ, suc, ◌+◌, ◌-◌, ◌≤◌, true, false, [], ◌∷◌, ◌++◌, some, ◌≡◌, refl, arith, Bytes, length, drop,
  all, is_empty, get_or, length-append,
}
use helpcovid.Outcome.{ok}
use helpcovid.Cstr.{c_str, char_at, is_alpha, is_word, is_space}
use helpcovid.Cstr.Laws.{is_text, c_str-is_text, is_text-is_word, all-append}
use helpcovid.Scan.{sscanf}
use helpcovid.Scan.Laws.{span-append}
use helpcovid.Dict.{insert}
use helpcovid.Chunkmap.{skip_spaces, Parser, single_format, starts_chunk, skip_line}

-- A chunk name: letters, digits and `_`, a letter first, at most 60 bytes.
pub record IsName (name : Bytes) : Type 0 where
  pub first : is_alpha (char_at name 0) ≡ true
  pub word : all is_word name ≡ true
  pub short : length name ≤ 60

-- The line that defines the chunk `name` as `body`.
abbrev pub single_line : Bytes → Bytes → Bytes
single_line name body = b'!' ∷ (name ++ b'\'' ∷ body)

is_text_line :
    (name : Bytes) (c : ℕ) (body : Bytes)
    → all is_word name ≡ true
    → is_text (c ∷ body) ≡ true
    → is_text (name ++ c ∷ body) ≡ true
is_text_line name c body w t = rw (all-append, is_text-is_word name w) t

scan_single :
    (name body : Bytes)
    → all is_word name ≡ true
    → length name ≤ 60
    → is_empty name ≡ false
    → is_text body ≡ true
    → sscanf (c_str (single_line name body)) single_format
      ≡ record { fields = name ∷ []; endpos = some (length name + 2) }
unfolding sscanf is_word
scan_single name body w s e t =
    rw (c_str-is_text (single_line name body) (is_text_line name b'\'' body w t))
      (rw (span-append 60 is_word name b'\'' body w s refl) (rw e (ground arith)))

pub get_or_at : (w : Bytes) (c : ℕ) (s : Bytes) → get_or (w ++ c ∷ s) (length w) 0 ≡ c
get_or_at [] c s = refl
get_or_at (x ∷ w) c s = get_or_at w c s

pub drop_past : (w : Bytes) (c : ℕ) (s : Bytes) → drop (suc (length w)) (w ++ c ∷ s) ≡ s
drop_past [] c s = refl
drop_past (x ∷ w) c s = drop_past w c s

pub IsName-ne-nil : (name : Bytes) → IsName name → is_empty name ≡ false
unfolding is_alpha
IsName-ne-nil [] h = ground (arith, h.first)
IsName-ne-nil (c ∷ cs) h = refl

-- A header line of either kind starts a chunk.
pub starts_chunk-IsName :
    (name : Bytes) (c : ℕ) (s : Bytes) → IsName name → starts_chunk (b'!' ∷ (name ++ c ∷ s)) ≡ true
unfolding is_alpha
starts_chunk-IsName [] c s h = ground (arith, h.first)
starts_chunk-IsName (x ∷ w) c s h = ground (arith, h.first, length-append {0} w (c ∷ s))

-- The state behind the line `!name'body`.
abbrev pub after_single : Parser → Bytes → Bytes → Parser
after_single p name body = record p {
  state = skip_spaces;
  chunkname = name;
  chunkbody = body;
  resultmap = insert name body p.resultmap;
}

single_char : (name body : Bytes) → char_at (single_line name body) (length name + 2 - 1) ≡ b'\''
single_char name body =
    let e : length name + 2 - 1 ≡ suc (length name) = omega arith in
    rw e (get_or_at name b'\'' body)

single_drop :
    (name body : Bytes)
    → all is_word name ≡ true
    → is_text body ≡ true
    → drop (length name + 2) (c_str (single_line name body)) ≡ body
single_drop name body w t =
    let e : length name + 2 ≡ suc (suc (length name)) = omega arith in
    rw (c_str-is_text (single_line name body) (is_text_line name b'\'' body w t))
      (rw e (drop_past name b'\'' body))

pub length-IsName : (name : Bytes) → is_empty name ≡ false → 1 ≤ length name
length-IsName [] e = cc
length-IsName (c ∷ cs) e = omega arith

pub skip_line-single_line :
    (p : Parser) (name body : Bytes)
    → IsName name
    → is_text body ≡ true
    → skip_line p (single_line name body) ≡ ok (after_single p name body)
unfolding skip_line is_space
skip_line-single_line p name body h t = rw (starts_chunk-IsName name b'\'' body h) (
    rw (scan_single name body h.word h.short (IsName-ne-nil name h) t) (
      ground (
        arith,
        single_char name body,
        single_drop name body h.word t,
        length-IsName name (IsName-ne-nil name h),
      )))
