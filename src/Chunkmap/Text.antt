-- ===== src/Chunkmap/Text.antt =====
-- Files of single-line chunks, read whole.
use helpcovid.Prelude.{
  ℕ, ◌+◌, ◌≤◌, ◌<◌, true, not, List, [], ◌∷◌, ◌++◌, some, ◌≡◌, refl, ap, ◌∙◌, arith, ◌==◌, Bytes,
  length, all, append-nil, All,
}
use helpcovid.Outcome.{ok}
use native.Mathlib.Nat.{add_assoc}
use helpcovid.Cstr.{lines, is_word, is_alnum}
use helpcovid.Cstr.Laws.{is_line, unlines, lines-unlines, is_text, all-append}
use helpcovid.Dict.{merge}
use helpcovid.Chunkmap.{
  skip_spaces, Parser, round, run, start, parse_chunk_map, max_chunkmap_size, max_chunkmap_linelen,
}
use helpcovid.Chunkmap.Single.{IsName, single_line, after_single, skip_line-single_line}

-- A name and a text that stand on one line.
pub record IsEntry (e : Bytes × Bytes) : Type 0 where
  pub name : IsName e.0
  pub text : is_text e.1 ≡ true
  pub line : is_line e.1 ≡ true

-- The bytes that lines take in a file, their newlines included.
abbrev pub extent : List Bytes → ℕ
extent [] = 0
extent (l ∷ ls) = (length l + 1) + extent ls

abbrev pub entry_lines : List (Bytes × Bytes) → List Bytes
entry_lines [] = []
entry_lines (e ∷ es) = single_line e.0 e.1 ∷ entry_lines es

-- The state behind the lines of entries.
abbrev pub after_singles : Parser → List (Bytes × Bytes) → Parser
after_singles p [] = p
after_singles p (e ∷ es) =
    after_singles (after_single (record p { lincnt = p.lincnt + 1 }) e.0 e.1) es

-- Neither limit of the loop is met on `n` lines of `size` bytes in all.
pub record InLimits (p : Parser) (off n size : ℕ) : Type 0 where
  pub few : p.lincnt + n < max_chunkmap_linelen
  pub small : off + size ≤ max_chunkmap_size

pub round-single_line :
    (p : Parser) (off : ℕ) (e : Bytes × Bytes)
    → p.state ≡ skip_spaces
    → IsEntry e
    → p.lincnt + 1 < max_chunkmap_linelen
    → off ≤ max_chunkmap_size
    → round p off (single_line e.0 e.1)
      ≡ ok (after_single (record p { lincnt = p.lincnt + 1 }) e.0 e.1)
unfolding round
round-single_line p off e st h few small =
    ground (arith, skip_line-single_line (record p { lincnt = p.lincnt + 1 }) e.0 e.1 h.name h.text)

pub run-entry_lines :
    (es : List (Bytes × Bytes)) (p : Parser) (off : ℕ) (ls : List Bytes)
    → p.state ≡ skip_spaces
    → All IsEntry es
    → InLimits p off (length es) (extent (entry_lines es))
    → run p off (entry_lines es ++ ls) ≡ run (after_singles p es) (off + extent (entry_lines es)) ls
unfolding run
run-entry_lines [] p off ls st h lim = let e : off + 0 ≡ off = omega arith in rw e
run-entry_lines (e ∷ es) p off ls st h lim =
    let here =
      round-single_line p off e st h.0 (omega (arith, lim.few)) (omega (arith, lim.small)) in
    let next = after_single (record p { lincnt = p.lincnt + 1 }) e.0 e.1 in
    let left =
      run-entry_lines es next (off + (length (single_line e.0 e.1) + 1)) ls refl h.1
        (record { few = omega (arith, lim.few); small = omega (arith, lim.small) }) in
    rw here (
      left
      ∙ ap (λ n. run (after_singles next es) n ls)
          (add_assoc off (length (single_line e.0 e.1) + 1) (extent (entry_lines es))))

pub resultmap-after_singles :
    (p : Parser) (es : List (Bytes × Bytes)) → (after_singles p es).resultmap ≡ merge p.resultmap es
unfolding merge
resultmap-after_singles p [] = refl
resultmap-after_singles p ((name, body) ∷ es) =
    resultmap-after_singles (after_single (record p { lincnt = p.lincnt + 1 }) name body) es

pub state-after_singles :
    (p : Parser) (es : List (Bytes × Bytes))
    → p.state ≡ skip_spaces
    → (after_singles p es).state ≡ skip_spaces
state-after_singles p [] h = h
state-after_singles p (e ∷ es) h =
    state-after_singles (after_single (record p { lincnt = p.lincnt + 1 }) e.0 e.1) es refl

pub lincnt-after_singles :
    (p : Parser) (es : List (Bytes × Bytes)) → (after_singles p es).lincnt ≡ p.lincnt + length es
lincnt-after_singles p [] = omega arith
lincnt-after_singles p (e ∷ es) =
    omega
      (arith, lincnt-after_singles (after_single (record p { lincnt = p.lincnt + 1 }) e.0 e.1) es)

pub is_line-is_word : (s : Bytes) → all is_word s ≡ true → is_line s ≡ true
unfolding is_word is_alnum
is_line-is_word [] h = refl
is_line-is_word (c ∷ s) h = ground (arith, is_line-is_word s)

is_line-single_line : (e : Bytes × Bytes) → IsEntry e → is_line (single_line e.0 e.1) ≡ true
is_line-single_line e h =
    rw (all-append (λ c. not (c == b'\n')) e.0 (b'\'' ∷ e.1), is_line-is_word e.0 h.name.word)
      h.line

pub All-is_line-entry_lines :
    (es : List (Bytes × Bytes)) → All IsEntry es → All (λ l. is_line l ≡ true) (entry_lines es)
All-is_line-entry_lines [] h = tt
All-is_line-entry_lines (e ∷ es) h = (is_line-single_line e h.0, All-is_line-entry_lines es h.1)

-- The parser's state behind such a file, before any further text `s`.
pub run-unlines :
    (es : List (Bytes × Bytes)) (s : Bytes)
    → All IsEntry es
    → length es < max_chunkmap_linelen
    → extent (entry_lines es) ≤ max_chunkmap_size
    → run start 0 (lines (unlines (entry_lines es) ++ s))
      ≡ run (after_singles start es) (extent (entry_lines es)) (lines s)
run-unlines es s h few small =
    let e : 0 + extent (entry_lines es) ≡ extent (entry_lines es) = omega arith in
    let f : 0 + length es ≡ length es = omega arith in
    rw (lines-unlines (entry_lines es) s (All-is_line-entry_lines es h)) (
      run-entry_lines es start 0 (lines s) refl h (record { few = rw f few; small = rw e small })
      ∙ ap (λ n. run (after_singles start es) n (lines s)) e)

-- A file of single-line chunks, each `!NAME'text`, with names of 1 to 60 letters, digits and `_`, a
-- letter first, and texts with no NUL and no newline, with fewer than 65536 lines and at most
-- 524288 bytes, is parsed to the map in which each name has the text of its first line.
pub parse_chunk_map-unlines :
    (es : List (Bytes × Bytes))
    → All IsEntry es
    → length es < max_chunkmap_linelen
    → extent (entry_lines es) ≤ max_chunkmap_size
    → parse_chunk_map (some (unlines (entry_lines es))) ≡ ok (merge [] es)
unfolding parse_chunk_map
parse_chunk_map-unlines es h few small =
    rw (← append-nil (unlines (entry_lines es)))
      (rw (run-unlines es [] h few small) (ap ok (resultmap-after_singles start es)))
