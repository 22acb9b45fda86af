-- ===== src/Chunkmap/Global.antt =====
-- The global chunk map: `hcv_add_chunkmap_file` and `hcv_get_chunkmap_entry`.
use helpcovid.Prelude.{◌-◌, true, false, not, Option, some, ◌≡◌, arith, Bytes, length, is_empty}
use helpcovid.Outcome.{ok, >>=-eq-ok, require}
use helpcovid.Cstr.{char_at, is_alnum}
use helpcovid.Dict.{Dict, lookup, lookup-merge, or_else}
use helpcovid.Chunkmap.{parse_chunk_map, add_chunkmap_file, get_chunkmap_entry, is_readable}

-- What a successful call has found true of its arguments, and what it makes of the global map.
pub record Added (globchunk : Dict Bytes) (path : Bytes) (content : Option Bytes) (m : Dict Bytes)
    : Type 0 where
  pub named : is_empty path ≡ false
  pub readable : is_readable content ≡ true
  pub suffix : is_alnum (char_at path (length path - 1)) ≡ true
  pub got : Dict Bytes
  pub parsed : parse_chunk_map content ≡ ok got
  pub found : (k : Bytes) → lookup k m ≡ or_else (lookup k globchunk) (lookup k got)

-- If `hcv_add_chunkmap_file` returns, then the path is not empty, readable and ends with a letter or
-- a digit, its file was parsed, and each name has the text it had in the global map before, or
-- else the one that the file gives it.
pub add_chunkmap_file-Added :
    (globchunk : Dict Bytes) (path : Bytes) (content : Option Bytes) {m : Dict Bytes}
    → add_chunkmap_file globchunk path content ≡ ok m
    → Added globchunk path content m
unfolding add_chunkmap_file
add_chunkmap_file-Added globchunk path content e =
    let (_, named, e1) = >>=-eq-ok (require (not (is_empty path)) _ 248) _ e in
    let (_, readable, e2) = >>=-eq-ok (require (is_readable content) _ 250) _ e1 in
    let (_, suffix, e3) =
      >>=-eq-ok (require (is_alnum (char_at path (length path - 1))) _ 253) _ e2 in
    let (got, parsed, e4) = >>=-eq-ok (parse_chunk_map content) _ e3 in
    record {
      named = ground arith;
      readable = ground arith;
      suffix = ground arith;
      got = got;
      parsed = parsed;
      found = λ k. ground (arith, lookup-merge k globchunk got);
    }

-- A name that the global map has keeps its text when a file is added, whatever the file defines.
pub get_chunkmap_entry-add_chunkmap_file :
    (globchunk : Dict Bytes) (path : Bytes) (content : Option Bytes) {m : Dict Bytes} (k : Bytes)
    {v : Bytes}
    → add_chunkmap_file globchunk path content ≡ ok m
    → lookup k globchunk ≡ some v
    → get_chunkmap_entry m k ≡ get_chunkmap_entry globchunk k
unfolding get_chunkmap_entry
get_chunkmap_entry-add_chunkmap_file globchunk path content k e h =
    let a = add_chunkmap_file-Added globchunk path content e in rw (a.found k) (rw h)
