-- ===== src/Chunkmap.antt =====
-- hcv_chunkmap.cc: the parser of chunkmap files and the global chunk map.
-- A line is the text that std::getline delivers; a file is its bytes, or none if it is not readable.
pub mod Single
pub mod Text
pub mod Global
pub mod Bounds
pub mod Multiline
use helpcovid.Prelude.{
  ℕ, zero, suc, ◌+◌, ◌-◌, ◌*◌, Bool, true, false, not, ◌&&◌, ◌||◌, List, [], ◌∷◌, ◌++◌, Option,
  none, some, leb, ltb, ◌==◌, if◌then◌else◌, Bytes, codes, length, drop, all, is_empty, equal,
}
use mathlib.Core.Option
use helpcovid.Outcome.{Outcome, ok, fatal, ◌>>=◌, ◌>>◌, require, chunkmap}
use helpcovid.Cstr.{lines, c_str, char_at, is_alpha, is_alnum, is_space, is_word}
use helpcovid.Scan.{Directive, lit, space, field, position, Scan, sscanf}
use helpcovid.Dict.{Dict, lookup, insert, merge}

abbrev pub max_chunkmap_size : ℕ
max_chunkmap_size = 512 * 1024

abbrev pub max_chunkmap_linelen : ℕ
max_chunkmap_linelen = 65536

-- `access(path, R_OK)`
abbrev pub is_readable : Option Bytes → Bool
is_readable none = false
is_readable (some text) = true

-- `enum hcvchunkstate_en`
pub data State : Type 0 where
  none_state skip_spaces header_line inside_chunk : State

-- The variables that live across the rounds of the loop.
pub record Parser : Type 0 where
  pub state : State
  pub lincnt : ℕ
  pub chunkname : Bytes
  pub chunkbody : Bytes
  pub resultmap : Dict Bytes

-- "!%60[A-Za-z0-9_]'%n"
abbrev pub single_format : List Directive
single_format = lit b'!' ∷ field 60 is_word ∷ lit b'\'' ∷ position ∷ []

-- "!%60[A-Za-z0-9_]\"%30[A-Za-z0-9_](%n"
abbrev pub multi_format : List Directive
multi_format = lit b'!' ∷ field 60 is_word ∷ lit b'"' ∷ field 30 is_word ∷ lit b'(' ∷ position ∷ []

-- ")%30[A-Za-z0-9_] %n"
abbrev pub end_format : List Directive
end_format = lit b')' ∷ field 30 is_word ∷ space ∷ position ∷ []

-- The test of the first line character that both cases make.
abbrev pub starts_chunk : Bytes → Bool
starts_chunk l = leb 3 (length l) && char_at l 0 == b'!' && is_alpha (char_at l 1)

-- A single-line chunk: the name is `name`, and the text starts at `endpos`.
unfoldable pub finish_single : Parser → Bytes → Bytes → ℕ → Parser
finish_single p l name endpos =
    let body = drop endpos (c_str l) in
    record p {
      state = skip_spaces;
      chunkname = name;
      chunkbody = body;
      resultmap = insert name body p.resultmap;
    }

-- A multi-line chunk opens.
unfoldable pub open_multi : Parser → Bytes → Bytes → ℕ → Parser
open_multi p l name endpos = record p {
  state = inside_chunk;
  chunkname = name;
  chunkbody =
      if ltb endpos (length l) && not (is_space (char_at l endpos))
      then drop endpos (c_str l)
      else [];
}

-- The second sscanf of `parse_headerline`, on what it has stored.
unfoldable pub header_multi : Parser → Bytes → List Bytes → Option ℕ → Outcome Parser
unfolding open_multi
header_multi p l (name ∷ label ∷ _) (some e) =
    if ltb 4 e && is_alpha (char_at label 0) && char_at l (e - 1) == b'('
    then ok (open_multi p l name e)
    else fatal chunkmap 181
header_multi p l _ _ = fatal chunkmap 181

-- The first sscanf of `parse_headerline`, on what it has stored.
unfoldable pub header_single : Parser → Bytes → List Bytes → Option ℕ → Outcome Parser
unfolding finish_single header_multi
header_single p l (name ∷ _) (some e) =
    let second = sscanf (c_str l) multi_format in
    if ltb 2 e && char_at l (e - 1) == b'\''
    then ok (finish_single p l name e)
    else header_multi p l second.fields second.endpos
header_single p l _ _ =
    let second = sscanf (c_str l) multi_format in header_multi p l second.fields second.endpos

-- `case HCVCHUNKSTATE_HEADERLINE`
unfoldable pub parse_header : Parser → Bytes → Outcome Parser
unfolding header_single
parse_header p l =
    let first = sscanf (c_str l) single_format in
    if starts_chunk l then header_single p l first.fields first.endpos else fatal chunkmap 181

-- `case HCVCHUNKSTATE_SKIPSPACES`
unfoldable pub skip_line : Parser → Bytes → Outcome Parser
unfolding parse_header
skip_line p l =
    let cleared = record p { chunkname = []; chunkbody = [] } in
    if is_empty l || char_at l 0 == b'#' || all is_space l
    then ok cleared
    else if starts_chunk l
    then parse_header (record cleared { state = header_line }) l
    else fatal chunkmap 120

-- The guard of `case HCVCHUNKSTATE_INSIDECHUNK`; `strncmp` compares two C strings of the buffers.
unfoldable pub is_end : Bytes → List Bytes → Option ℕ → Bool
is_end endstr (label ∷ _) (some e) = ltb 2 e && is_alpha (char_at label 0) && equal label endstr
is_end endstr _ _ = false

-- `case HCVCHUNKSTATE_INSIDECHUNK`
unfoldable pub inside_line : Bytes → Parser → Bytes → Outcome Parser
unfolding is_end
inside_line endstr p l =
    let got = sscanf (c_str l) end_format in
    if is_end endstr got.fields got.endpos
    then ok
        (record p { resultmap = insert p.chunkname p.chunkbody p.resultmap; state = skip_spaces })
    else ok (record p { chunkbody = p.chunkbody ++ l })

-- The switch. `endstrbuf` is declared in the loop's body and cleared there, so that it is empty in
-- each round but in the one whose header line fills it.
unfoldable pub switch : State → Bytes → Parser → Bytes → Outcome Parser
unfolding skip_line parse_header inside_line
switch skip_spaces endstr p l = skip_line p l
switch header_line endstr p l = parse_header p l
switch inside_chunk endstr p l = inside_line endstr p l
switch none_state endstr p l = fatal chunkmap 219

-- One round of the loop on the line `l`, which starts at the offset `off` of the file.
unfoldable pub round : Parser → ℕ → Bytes → Outcome Parser
unfolding switch
round p off l =
    let q = record p { lincnt = p.lincnt + 1 } in
    if leb max_chunkmap_linelen q.lincnt
    then fatal chunkmap 85
    else if ltb max_chunkmap_size off
    then fatal chunkmap 87
    else switch q.state [] q l

-- The loop over the lines from the offset `off` on.
unfoldable pub run : Parser → ℕ → List Bytes → Outcome Parser
unfolding round
run p off [] = ok p
run p off (l ∷ ls) = do q ← round p off l; run q (off + (length l + 1)) ls

abbrev pub start : Parser
start = record { state = skip_spaces; lincnt = 0; chunkname = []; chunkbody = []; resultmap = [] }

-- `hcv_parse_chunk_map`: an unfinished chunk is only logged.
unfoldable pub parse_chunk_map : Option Bytes → Outcome (Dict Bytes)
unfolding run lines
parse_chunk_map none = fatal chunkmap 51
parse_chunk_map (some text) = do p ← run start 0 (lines text); ok p.resultmap

-- `hcv_add_chunkmap_file` on the global map, a path and what the file system has there.
unfoldable pub add_chunkmap_file : Dict Bytes → Bytes → Option Bytes → Outcome (Dict Bytes)
unfolding parse_chunk_map
add_chunkmap_file globchunk path content = do
  require (not (is_empty path)) chunkmap 248
  require (is_readable content) chunkmap 250
  require (is_alnum (char_at path (length path - 1))) chunkmap 253
  gotmap ← parse_chunk_map content
  ok (merge globchunk gotmap)

-- `hcv_get_chunkmap_entry`
unfoldable pub get_chunkmap_entry : Dict Bytes → Bytes → Bytes
get_chunkmap_entry globchunk name =
    if is_empty name then [] else Option.get_or (lookup name globchunk) []
