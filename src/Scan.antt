-- ===== src/Scan.antt =====
-- `sscanf` for the directives that the code uses on text: literal bytes, white space, `%N[set]`
-- and `%n`. A set is the test of its bytes.
pub mod Laws
pub mod Number
use helpcovid.Prelude.{
  ℕ, zero, suc, ◌+◌, ◌-◌, Bool, List, [], ◌∷◌, ◌++◌, Option, none, some, ◌==◌, if◌then◌else◌, Bytes,
  length, map, is_empty,
}
use helpcovid.Cstr.{is_space}

pub data Directive : Type 0 where
  lit : ℕ → Directive
  space : Directive
  field : ℕ → (ℕ → Bool) → Directive
  position : Directive

-- What the conversions have stored: the fields in order, and the last `%n`.
pub record Scan : Type 0 where
  pub fields : List Bytes
  pub endpos : Option ℕ

-- The longest prefix of at most `n` bytes of the set, and what follows it.
unfoldable pub span : ℕ → (ℕ → Bool) → Bytes → Bytes × Bytes
span zero p s = ([], s)
span (suc n) p [] = ([], [])
span (suc n) p (c ∷ s) = let rest = span n p s in if p c then (c ∷ rest.0, rest.1) else ([], c ∷ s)

unfoldable pub skip_spaces : Bytes → Bytes
skip_spaces [] = []
skip_spaces (c ∷ s) = let rest = skip_spaces s in if is_space c then rest else c ∷ s

-- `at` counts the bytes read.
unfoldable pub scan_from : List Directive → Bytes → ℕ → Scan → Scan
unfolding span skip_spaces
scan_from [] s at got = got
scan_from (lit c ∷ ds) [] at got = got
scan_from (lit c ∷ ds) (x ∷ s) at got =
    let rest = scan_from ds s (at + 1) got in if c == x then rest else got
scan_from (space ∷ ds) s at got =
    let left = skip_spaces s in scan_from ds left (at + (length s - length left)) got
scan_from (field n p ∷ ds) s at got =
    let (taken, left) = span n p s in
    let rest =
      scan_from ds left (at + length taken) (record got { fields = got.fields ++ taken ∷ [] }) in
    if is_empty taken then got else rest
scan_from (position ∷ ds) s at got = scan_from ds s at (record got { endpos = some at })

-- The format's literal bytes.
abbrev pub literal : Bytes → List Directive
literal = map lit

unfoldable pub sscanf : Bytes → List Directive → Scan
unfolding scan_from
sscanf s format = scan_from format s 0 (record { fields = []; endpos = none })
