-- ===== src/Chunkmap/Multiline.antt =====
-- Multi-line chunks: the header line `!NAME"label(`, and the lines behind it.
use native.Mathlib.Nat.{add_assoc}
use helpcovid.Prelude.{
  ℕ, suc, ◌+◌, ◌-◌, ◌≤◌, ◌<◌, true, false, not, List, [], ◌∷◌, ◌++◌, Option, none, some, ◌≡◌, refl,
  ap, ◌∙◌, arith, ◌==◌, Bytes, length, all, append-nil, append_assoc, is_empty, All, length-append,
  equal,
}
use helpcovid.Outcome.{ok}
use helpcovid.Cstr.{c_str, char_at, is_alpha, is_word, is_space}
use helpcovid.Cstr.Laws.{
  lines-line, unlines, is_line, is_text, all-append, c_str-is_text, is_text-is_word,
}
use helpcovid.Scan.{sscanf}
use helpcovid.Scan.Laws.{span-append}
use helpcovid.Dict.{merge}
use helpcovid.Chunkmap.{
  lines, skip_spaces, header_line, inside_chunk, open_multi, Parser, skip_line, is_end, round, run,
  start, multi_format, single_format, end_format, parse_chunk_map, max_chunkmap_size,
  max_chunkmap_linelen,
}
use helpcovid.Chunkmap.Single.{IsName, IsName-ne-nil, length-IsName, starts_chunk-IsName, get_or_at}
use helpcovid.Chunkmap.Text.{
  extent, entry_lines, after_singles, IsEntry, InLimits, run-unlines, resultmap-after_singles,
  state-after_singles, lincnt-after_singles, is_line-is_word,
}

-- The lines one behind the other, as the parser joins them.
abbrev pub joined : List Bytes → Bytes
joined [] = []
joined (l ∷ ls) = l ++ joined ls

-- No line ends a chunk whose end label is empty.
is_end-nil : (fields : List Bytes) (e : Option ℕ) → is_end [] fields e ≡ false
unfolding is_end equal is_alpha
is_end-nil [] e = refl
is_end-nil (label ∷ fs) none = refl
is_end-nil ([] ∷ fs) (some e) = ground arith
is_end-nil ((c ∷ cs) ∷ fs) (some e) = ground arith

round-inside :
    (p : Parser) (off : ℕ) (l : Bytes)
    → p.state ≡ inside_chunk
    → p.lincnt + 1 < max_chunkmap_linelen
    → off ≤ max_chunkmap_size
    → round p off l ≡ ok (record p { lincnt = p.lincnt + 1; chunkbody = p.chunkbody ++ l })
unfolding round
round-inside p off l st few small =
    ground
      (arith, is_end-nil (sscanf (c_str l) end_format).fields (sscanf (c_str l) end_format).endpos)

-- Inside a chunk every line is taken as text, and the map stays.
run-inside :
    (ls : List Bytes) (p : Parser) (off : ℕ)
    → p.state ≡ inside_chunk
    → InLimits p off (length ls) (extent ls)
    → run p off ls
      ≡ ok (record p { lincnt = p.lincnt + length ls; chunkbody = p.chunkbody ++ joined ls })
unfolding run
run-inside [] p off st lim =
    let e : p.lincnt + 0 ≡ p.lincnt = omega arith in rw (e, append-nil p.chunkbody)
run-inside (l ∷ ls) p off st lim =
    let next = record p { lincnt = p.lincnt + 1; chunkbody = p.chunkbody ++ l } in
    rw (round-inside p off l st (omega (arith, lim.few)) (omega (arith, lim.small))) (
      run-inside ls next (off + (length l + 1)) st
        (record { few = omega (arith, lim.few); small = omega (arith, lim.small) })
      ∙ ground (arith, add_assoc p.lincnt 1 (length ls), append_assoc p.chunkbody l (joined ls)))

-- The header line of a multi-line chunk, with what follows the `(`.
abbrev pub multi_line : Bytes → Bytes → Bytes → Bytes
multi_line name label tail = b'!' ∷ (name ++ b'"' ∷ (label ++ b'(' ∷ tail))

-- An end label: letters, digits and `_`, a letter first, at most 30 bytes.
pub record IsLabel (label : Bytes) : Type 0 where
  pub first : is_alpha (char_at label 0) ≡ true
  pub word : all is_word label ≡ true
  pub short : length label ≤ 30

IsLabel-ne-nil : (label : Bytes) → IsLabel label → is_empty label ≡ false
unfolding is_alpha
IsLabel-ne-nil [] h = ground (arith, h.first)
IsLabel-ne-nil (c ∷ cs) h = refl

module _ (name label tail : Bytes) (n : IsName name) (m : IsLabel label)
    (t : is_text tail ≡ true) where
  is_text-multi_line : is_text (multi_line name label tail) ≡ true
  is_text-multi_line =
      rw
        (
          all-append (λ c. not (c == 0)) name (b'"' ∷ (label ++ b'(' ∷ tail)),
          is_text-is_word name n.word,
          all-append (λ c. not (c == 0)) label (b'(' ∷ tail),
          is_text-is_word label m.word,
        )
        t

  scan_single-multi_line :
      sscanf (c_str (multi_line name label tail)) single_format
      ≡ record { fields = name ∷ []; endpos = none }
  unfolding sscanf is_word
  scan_single-multi_line = rw (c_str-is_text (multi_line name label tail) is_text-multi_line) (
      rw (span-append 60 is_word name b'"' (label ++ b'(' ∷ tail) n.word n.short refl)
        (rw (IsName-ne-nil name n)))

  scan_multi-multi_line :
      sscanf (c_str (multi_line name label tail)) multi_format
      ≡ record { fields = name ∷ label ∷ []; endpos = some (length name + length label + 3) }
  unfolding sscanf is_word
  scan_multi-multi_line = rw (c_str-is_text (multi_line name label tail) is_text-multi_line) (
      rw (span-append 60 is_word name b'"' (label ++ b'(' ∷ tail) n.word n.short refl) (
        rw (IsName-ne-nil name n) (
          rw (span-append 30 is_word label b'(' tail m.word m.short refl)
            (rw (IsLabel-ne-nil label m) (ground arith)))))

  char_at-multi_line :
      char_at (multi_line name label tail) (length name + length label + 3 - 1) ≡ b'('
  char_at-multi_line =
      let w : Bytes = name ++ b'"' ∷ label in
      let e : length name + length label + 3 - 1 ≡ suc (length w) =
        omega (arith, length-append {0} name (b'"' ∷ label)) in
      rw e (rw (← append_assoc name (b'"' ∷ label) (b'(' ∷ tail)) (get_or_at w b'(' tail))

  -- The state behind the header line.
  abbrev pub opened : Parser → Parser
  opened p =
      open_multi (record p { state = header_line; chunkname = []; chunkbody = [] })
        (multi_line name label tail) name (length name + length label + 3)

  skip_line-multi_line : (p : Parser) → skip_line p (multi_line name label tail) ≡ ok (opened p)
  unfolding skip_line is_space
  skip_line-multi_line p = rw (starts_chunk-IsName name b'"' (label ++ b'(' ∷ tail) n) (
      rw (scan_single-multi_line, scan_multi-multi_line)
        (ground (
          arith,
          char_at-multi_line,
          m.first,
          length-IsName name (IsName-ne-nil name n),
          length-IsName label (IsLabel-ne-nil label m),
        )))

  round-multi_line :
      (p : Parser) (off : ℕ)
      → p.state ≡ skip_spaces
      → p.lincnt + 1 < max_chunkmap_linelen
      → off ≤ max_chunkmap_size
      → round p off (multi_line name label tail) ≡ ok (opened (record p { lincnt = p.lincnt + 1 }))
  unfolding round
  round-multi_line p off st few small =
      ground (arith, skip_line-multi_line (record p { lincnt = p.lincnt + 1 }))

  -- A header line and whatever lines follow it leave the map as it was.
  resultmap-multi_line :
      (p : Parser) (off : ℕ) (ls : List Bytes)
      → p.state ≡ skip_spaces
      → InLimits p off (suc (length ls)) (extent (multi_line name label tail ∷ ls))
      → (q : Parser) × (run p off (multi_line name label tail ∷ ls) ≡ ok q)
        × (q.resultmap ≡ p.resultmap)
        × (q.state ≡ inside_chunk)
  unfolding run open_multi
  resultmap-multi_line p off ls st lim =
      let q = opened (record p { lincnt = p.lincnt + 1 }) in
      (
        record q { lincnt = q.lincnt + length ls; chunkbody = q.chunkbody ++ joined ls },
        rw (round-multi_line p off st (omega (arith, lim.few)) (omega (arith, lim.small))) (
            run-inside ls q _ refl
              (record { few = omega (arith, lim.few); small = omega (arith, lim.small) })),
        refl,
        refl,
      )

is_line-multi_line :
    (name label tail : Bytes)
    → IsName name
    → IsLabel label
    → is_line tail ≡ true
    → is_line (multi_line name label tail) ≡ true
is_line-multi_line name label tail n m i =
    rw
      (
        all-append (λ c. not (c == b'\n')) name (b'"' ∷ (label ++ b'(' ∷ tail)),
        is_line-is_word name n.word,
        all-append (λ c. not (c == b'\n')) label (b'(' ∷ tail),
        is_line-is_word label m.word,
      )
      i

-- A multi-line chunk never ends: whatever bytes `rest` follow its header line, its own closing line
-- and later chunks included, the parsed map has the entries of the lines before the header only.
-- The names and the label are letters, digits and `_` with a letter first, of at most 60 and 30
-- bytes; texts hold no NUL and no newline; the file has fewer than 65536 lines and at most 524288
-- bytes.
pub parse_chunk_map-multi_line :
    (es : List (Bytes × Bytes)) (name label tail rest : Bytes)
    → All IsEntry es
    → IsName name
    → IsLabel label
    → is_text tail ≡ true
    → is_line tail ≡ true
    → length es + suc (length (lines rest)) < max_chunkmap_linelen
    → extent (entry_lines es) + extent (multi_line name label tail ∷ lines rest) ≤ max_chunkmap_size
    → parse_chunk_map
        (some (unlines (entry_lines es) ++ (multi_line name label tail ++ b'\n' ∷ rest)))
      ≡ ok (merge [] es)
unfolding parse_chunk_map
parse_chunk_map-multi_line es name label tail rest h n m t i few small =
    let p = after_singles start es in
    let (q, ran, kept, _) =
      resultmap-multi_line name label tail n m t p (extent (entry_lines es)) (lines rest)
        (state-after_singles start es refl)
        (record { few = omega (arith, lincnt-after_singles start es); small = small }) in
    rw
      (run-unlines es (multi_line name label tail ++ b'\n' ∷ rest) h (omega (arith, few))
        (omega (arith, small)))
      (rw (lines-line (multi_line name label tail) rest (is_line-multi_line name label tail n m i))
        (rw ran (ap ok (kept ∙ resultmap-after_singles start es))))
