-- ===== src/Main/ConfigGroup/Custom.antt =====
-- The files of custom messages refine a function from names to texts, which the first file that has a
-- name settles.
use helpcovid.Chunkmap.Global.{add_chunkmap_file-Added}
use helpcovid.Outcome.{main, require, >>=-eq-ok, ok-injective, ok}
use helpcovid.Chunkmap.{add_chunkmap_file, parse_chunk_map}
use helpcovid.Prelude.{ap, false, is_empty, ◌∷◌, ◌≡◌, Bytes}
use helpcovid.Main.ConfigGroup.{
  other_error, bad_syntax, command_substitution, bad_value, bad_char, words, Words, GroupSystem,
  expand_words, add_custom_messages, main, is_empty, not, require, ok, [], List, Option,
  add_message_files,
}
use helpcovid.Dict.{or_else, lookup, Dict}

-- The texts of the names.
abbrev pub Texts : Type 0
Texts = Bytes → Option Bytes

-- A file that is added to the texts.
abbrev pub define_all : Texts → Dict Bytes → Texts
define_all texts got k = or_else (texts k) (lookup k got)

-- Files that are read one after the other, from the texts before them to those after them.
pub data Reads (content : Bytes → Option Bytes) : List Bytes → Texts → Texts → Type 0 where
  done : {texts : Texts} → Reads content [] texts texts
  file :
      {path : Bytes} {rest : List Bytes} {texts after : Texts} (got : Dict Bytes)
      → parse_chunk_map (content path) ≡ ok got
      → Reads content rest (define_all texts got) after
      → Reads content (path ∷ rest) texts after

-- The map's texts.
abbrev pub texts_of : Dict Bytes → Texts
texts_of m k = lookup k m

add_message_files-Reads :
    (content : Bytes → Option Bytes) (paths : List Bytes) (globchunk : Dict Bytes) {m : Dict Bytes}
    → add_message_files content paths globchunk ≡ ok m
    → Reads content paths (texts_of globchunk) (texts_of m)
unfolding add_message_files
add_message_files-Reads content [] globchunk e = rw (← ok-injective e) done
add_message_files-Reads content (curpath ∷ rest) globchunk {m} e =
    let (_, _, e1) = >>=-eq-ok (require (not (is_empty curpath)) main 912) _ e in
    let (after, added, e2) =
      >>=-eq-ok (add_chunkmap_file globchunk curpath (content curpath)) _ e1 in
    let a = add_chunkmap_file-Added globchunk curpath (content curpath) added in
    let same : texts_of after ≡ define_all (texts_of globchunk) (a.got) = λ i k. a.found k i in
    file (a.got) (a.parsed) (rw (← same) (add_message_files-Reads content rest after e2))

expand_words-words :
    (expansion : Words) {ws : List Bytes} → expand_words expansion ≡ ok ws → expansion ≡ words ws
unfolding expand_words
expand_words-words (words []) e = cc
expand_words-words (words (w ∷ ws)) e = ap words (ok-injective e)
expand_words-words bad_char e = cc
expand_words-words bad_value e = cc
expand_words-words command_substitution e = cc
expand_words-words bad_syntax e = cc
expand_words-words other_error e = cc

-- When `hcv_config_handle_helpcovid_config_group` has added the custom messages of a path that is not
-- empty, wordexp has expanded this to files, and the global map's texts are those that result from its
-- texts before by reading these files one after the other, where each file is parsed without an error
-- and gives texts to the names that have none.
pub add_custom_messages-Reads :
    (sys : GroupSystem) (custmsgpath : Bytes) (globchunk : Dict Bytes) {m : Dict Bytes}
    → is_empty custmsgpath ≡ false
    → add_custom_messages sys custmsgpath globchunk ≡ ok m
    → (paths : List Bytes) × (sys.wordexp custmsgpath ≡ words paths)
      × Reads (sys.content) paths (texts_of globchunk) (texts_of m)
unfolding add_custom_messages
add_custom_messages-Reads sys custmsgpath globchunk filled e =
    let e1 = rw filled at e in
    let (paths, expanded, e2) = >>=-eq-ok (expand_words (sys.wordexp custmsgpath)) _ e1 in
    (
      paths,
      expand_words-words (sys.wordexp custmsgpath) expanded,
      add_message_files-Reads (sys.content) paths globchunk e2,
    )
