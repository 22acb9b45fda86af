-- ===== src/Database/Rows.antt =====
-- Which SQL texts may change the rows of the table of running instances (hcv_database.cc).
use helpcovid.Prelude.{
  zero, true, not, ◌==◌, ◌+◌, ◌-◌, ◌&&◌, suc, length, leb, if◌then◌else◌, false, ◌∷◌, ℕ, codes,
  Bool, Bytes,
}
use helpcovid.Cstr.{starts_with}
use mathlib.Core.List.{List, []}

abbrev lower_case : Bytes → Bytes
lower_case [] = []
lower_case (c ∷ s) = (if leb b'A' c && leb c b'Z' then c + 32 else c) ∷ lower_case s

-- The length of the first of these phrases that a text starts with, 0 if it starts with none.
abbrev length_of_phrase : List Bytes → Bytes → ℕ
length_of_phrase [] s = 0
length_of_phrase (phrase ∷ rest) s =
    let later = length_of_phrase rest s in if starts_with phrase s then length phrase else later

-- How a text may name the table and leave its rows: to create it unless it is there, to index it, and in
-- two comments.
abbrev harmless_phrases : List Bytes
harmless_phrases =
    codes "create table if not exists tb_helpcovidinstance ("
    ∷ codes "on tb_helpcovidinstance("
    ∷ codes "-- end of table tb_helpcovidinstance"
    ∷ codes "related to tb_helpcovidinstance"
    ∷ []

-- Another use of its name, and the commands that can change a table without its name.
abbrev harmful_phrases : List Bytes
harmful_phrases =
    codes "tb_helpcovidinstance"
    ∷ codes "drop"
    ∷ codes "truncate"
    ∷ codes "alter"
    ∷ codes "execute"
    ∷ codes "perform"
    ∷ codes "call"
    ∷ codes "rollback"
    ∷ codes "abort"
    ∷ codes "trigger"
    ∷ codes "rule"
    ∷ []

-- A harmful phrase stands in the text, in lower case, behind the bytes to skip.
abbrev is_harmful : ℕ → Bytes → Bool
is_harmful skip [] = false
is_harmful (suc skip) (c ∷ s) = is_harmful skip s
is_harmful zero (c ∷ s) =
    let known = length_of_phrase harmless_phrases (c ∷ s) in
    let later = is_harmful (known - 1) s in
    if known == 0 && not (length_of_phrase harmful_phrases (c ∷ s) == 0) then true else later

-- May a text change the rows of the table? Any text that does, in a database whose functions, triggers
-- and rules leave the table alone, is among these.
unfoldable pub may_change_rows : Bytes → Bool
unfolding starts_with
may_change_rows sql = is_harmful 0 (lower_case sql)
