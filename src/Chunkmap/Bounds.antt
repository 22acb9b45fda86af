-- ===== src/Chunkmap/Bounds.antt =====
-- What holds of every file that is parsed without a fatal error.
use helpcovid.Prelude.{
  ◌<◌, ◌+◌, ℕ, suc, true, List, [], ◌∷◌, Option, none, some, ◌≡◌, refl, arith, Bytes, All,
  Bool-cases, inl, inr, ◌⊎◌,
}
use helpcovid.Outcome.{>>=-eq-ok, Outcome, ok}
use helpcovid.Cstr.{c_str, char_at, is_alpha, is_word, is_alnum}
use helpcovid.Scan.{sscanf, span}
use helpcovid.Scan.Laws.{sscanf-Stored, sscanf-first}
use helpcovid.Dict.{Dict, insert}
use helpcovid.Chunkmap.{
  lines, start, length, run, round, parse_chunk_map, State, none_state, max_chunkmap_linelen,
  switch, single_format, position, field, lit, drop, Directive, skip_spaces, inside_chunk,
  header_line, Parser, skip_line, inside_line, multi_format, header_multi, header_single,
  parse_header, starts_chunk,
}
use helpcovid.Chunkmap.Single.{IsName}

abbrev pub Named : Dict Bytes → Type 0
Named = All (λ e. IsName e.0)

insert-Named : (k v : Bytes) (m : Dict Bytes) → IsName k → Named m → Named (insert k v m)
unfolding insert
insert-Named k v [] h n = (h, tt)
insert-Named k v ((j, w) ∷ m) h n = ground (arith, insert-Named k v m h n.1)

span_first :
    (n : ℕ) (y : ℕ) (s : Bytes)
    → is_alpha y ≡ true
    → is_alpha (char_at (span (suc n) is_word (y ∷ s)).0 0) ≡ true
unfolding span is_word is_alnum
span_first n y s h = ground arith

c_str-starts_chunk :
    (x y : ℕ) (l : Bytes)
    → starts_chunk (x ∷ y ∷ l) ≡ true
    → (c_str (x ∷ y ∷ l) ≡ b'!' ∷ y ∷ c_str l) × (is_alpha y ≡ true)
unfolding c_str is_alpha
c_str-starts_chunk x y l st = ground arith

-- The name that either format stores from a line that starts a chunk.
IsName-sscanf :
    (ds : List Directive) (l : Bytes) (name : Bytes) (ws : List Bytes)
    → starts_chunk l ≡ true
    → (sscanf (c_str l) (lit b'!' ∷ field 60 is_word ∷ ds)).fields ≡ name ∷ ws
    → IsName name
IsName-sscanf ds [] name ws st e = ground arith
IsName-sscanf ds (x ∷ []) name ws st e = ground arith
IsName-sscanf ds (x ∷ y ∷ l) name ws st e =
    let (cut, alpha) = c_str-starts_chunk x y l st in
    let found = rw cut at e in
    let ((word, short), _) =
      rw e at (sscanf-Stored (c_str (x ∷ y ∷ l)) (lit b'!' ∷ field 60 is_word ∷ ds)) in
    record {
      first =
          rw (sscanf-first b'!' 60 is_word ds b'!' (y ∷ c_str l) found)
            (span_first 59 y (c_str l) alpha);
      word = word;
      short = short;
    }

-- Between the lines the parser waits for a chunk or is inside one, whose name is well formed; so
-- are the names in the map.
pub record IsValid (p : Parser) : Type 0 where
  pub mode : (p.state ≡ skip_spaces) ⊎ ((p.state ≡ inside_chunk) × IsName p.chunkname)
  pub named : Named p.resultmap

-- The outcome is a valid state at the line `n`, or no state.
abbrev Keeps : ℕ → Outcome Parser → Type 0
Keeps n (ok q) = IsValid q × (q.lincnt ≡ n)
Keeps n _ = Unit

header_multi-Keeps :
    (p : Parser) (l : Bytes) (fields : List Bytes) (e : Option ℕ)
    → Named p.resultmap
    → ((name : Bytes) (ws : List Bytes) → fields ≡ name ∷ ws → IsName name)
    → Keeps p.lincnt (header_multi p l fields e)
unfolding header_multi
header_multi-Keeps p l [] e n h = tt
header_multi-Keeps p l (name ∷ []) e n h = tt
header_multi-Keeps p l (name ∷ label ∷ ws) none n h = tt
header_multi-Keeps p l (name ∷ label ∷ ws) (some e) n h = ground (arith, h name (label ∷ ws) refl)

abbrev multi_tail : List Directive
multi_tail = lit b'"' ∷ field 30 is_word ∷ lit b'(' ∷ position ∷ []

second-Keeps :
    (p : Parser) (l : Bytes)
    → Named p.resultmap
    → starts_chunk l ≡ true
    → Keeps p.lincnt (
        header_multi p l
          (sscanf (c_str l) multi_format).fields
          (sscanf (c_str l) multi_format).endpos)
second-Keeps p l n st =
    let second = sscanf (c_str l) multi_format in
    header_multi-Keeps p l second.fields second.endpos n
      (λ name ws k. IsName-sscanf multi_tail l name ws st k)

header_single-Keeps :
    (p : Parser) (l : Bytes) (fields : List Bytes) (e : Option ℕ)
    → Named p.resultmap
    → starts_chunk l ≡ true
    → ((name : Bytes) (ws : List Bytes) → fields ≡ name ∷ ws → IsName name)
    → Keeps p.lincnt (header_single p l fields e)
unfolding header_single
header_single-Keeps p l [] e n st h = second-Keeps p l n st
header_single-Keeps p l (name ∷ ws) none n st h = second-Keeps p l n st
header_single-Keeps p l (name ∷ ws) (some e) n st h = ground (
  arith,
  insert-Named name (drop e (c_str l)) p.resultmap (h name ws refl) n,
  second-Keeps p l n st,
)

parse_header-Keeps :
    (p : Parser) (l : Bytes) → Named p.resultmap → Keeps p.lincnt (parse_header p l)
unfolding parse_header
parse_header-Keeps p l n = elim (Bool-cases (starts_chunk l)) [
  | inl st ↦
      let first = sscanf (c_str l) single_format in
      rw st (
        header_single-Keeps p l first.fields first.endpos n st
          (λ name ws k. IsName-sscanf (lit b'\'' ∷ position ∷ []) l name ws st k))
  | inr bad ↦ rw bad tt
]

skip_line-Keeps :
    (p : Parser) (l : Bytes)
    → Named p.resultmap
    → p.state ≡ skip_spaces
    → Keeps p.lincnt (skip_line p l)
unfolding skip_line
skip_line-Keeps p l n s =
    let header = record p { chunkname = []; chunkbody = []; state = header_line } in
    ground (arith, parse_header-Keeps header l n)

inside_line-Keeps :
    (endstr : Bytes) (p : Parser) (l : Bytes)
    → p.state ≡ inside_chunk
    → IsName p.chunkname
    → Named p.resultmap
    → Keeps p.lincnt (inside_line endstr p l)
unfolding inside_line
inside_line-Keeps endstr p l s h n =
    ground (arith, insert-Named p.chunkname p.chunkbody p.resultmap h n)

switch-Keeps :
    (s : State) (p : Parser) (l : Bytes)
    → p.state ≡ s
    → IsValid p
    → Keeps p.lincnt (switch s [] p l)
unfolding switch
switch-Keeps none_state p l e v = tt
switch-Keeps skip_spaces p l e v = skip_line-Keeps p l v.named e
switch-Keeps header_line p l e v = parse_header-Keeps p l v.named
switch-Keeps inside_chunk p l e v = elim v.mode [
  | inl s ↦ absurd (cc)
  | inr (s, h) ↦ inside_line-Keeps [] p l s h v.named
]

round_keeps :
    (p : Parser) (off : ℕ) (l : Bytes) {q : Parser}
    → IsValid p
    → round p off l ≡ ok q
    → (IsValid q × (q.lincnt ≡ p.lincnt + 1)) × (q.lincnt < max_chunkmap_linelen)
unfolding round
round_keeps p off l v e =
    let r = record p { lincnt = p.lincnt + 1 } in
    let w : IsValid r = record { mode = v.mode; named = v.named } in
    ground (arith, switch-Keeps r.state r l refl w)

run_keeps :
    (ls : List Bytes) (p : Parser) (off : ℕ) {q : Parser}
    → IsValid p
    → p.lincnt < max_chunkmap_linelen
    → run p off ls ≡ ok q
    → IsValid q × (q.lincnt ≡ p.lincnt + length ls) × (q.lincnt < max_chunkmap_linelen)
unfolding run
run_keeps [] p off v few e = ground arith
run_keeps (l ∷ ls) p off v few e =
    let (r, here, later) = >>=-eq-ok (round p off l) _ e in
    let ((w, one), few') = round_keeps p off l v here in
    let (done, count, bound) = run_keeps ls r _ w few' later in
    (done, omega (arith, one, count), bound)

-- Whatever the bytes of a chunkmap file, if it is parsed then every name in the map is 1 to 60
-- letters, digits and `_` with a letter first, and the file has fewer than 65536 lines.
pub parse_chunk_map-Named :
    (text : Bytes) {m : Dict Bytes}
    → parse_chunk_map (some text) ≡ ok m
    → Named m × (length (lines text) < max_chunkmap_linelen)
unfolding parse_chunk_map
parse_chunk_map-Named text e =
    let (q, ran, same) = >>=-eq-ok (run start 0 (lines text)) _ e in
    let valid : IsValid start = record { mode = inl refl; named = tt } in
    let (v, count, bound) = run_keeps (lines text) start 0 valid (omega arith) ran in
    (ground (arith, v.named), omega (arith, count, bound))
