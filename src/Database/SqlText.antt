-- ===== src/Database/SqlText.antt =====
-- Texts of several lines: the raw literals of hcv_database.cc, of ASCII.
use Prim.Native.String.{String}
use helpcovid.Prelude.{◌∷◌, [], ◌++◌, codes, List, Bytes}

-- The lines with a newline between two of them.
abbrev pub sql_lines : List String → Bytes
sql_lines [] = []
sql_lines (l ∷ []) = codes l
sql_lines (l ∷ rest) = codes l ++ (b'\n' ∷ sql_lines rest)
