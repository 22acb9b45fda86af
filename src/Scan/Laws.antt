-- ===== src/Scan/Laws.antt =====
-- What a `%N[set]` conversion stores: bytes of the set only, at most N of them.
use helpcovid.Prelude.{
  append_assoc, ◌∙◌, is_empty, some, ◌-◌, inr, ◌+◌, inl, ◌==◌, append-nil, sym, none, Bool-cases,
  List, ℕ, zero, suc, ◌≤◌, Bool, true, false, [], ◌∷◌, ◌++◌, ◌≡◌, refl, arith, Bytes, length, all,
}
use helpcovid.Scan.{
  skip_spaces, sscanf, scan_from, Directive, lit, space, field, position, Scan, span,
}

pub span-all : (n : ℕ) (p : ℕ → Bool) (s : Bytes) → all p (span n p s).0 ≡ true
unfolding span
span-all zero p s = refl
span-all (suc n) p [] = refl
span-all (suc n) p (c ∷ s) = ground (arith, span-all n p s)

pub length-span : (n : ℕ) (p : ℕ → Bool) (s : Bytes) → length (span n p s).0 ≤ n
unfolding span
length-span zero p s = omega arith
length-span (suc n) p [] = omega arith
length-span (suc n) p (c ∷ s) = ground (arith, length-span n p s)

-- The conversion takes a run of the set that a byte outside it ends.
pub span-append :
    (n : ℕ) (p : ℕ → Bool) (w : Bytes) (c : ℕ) (s : Bytes)
    → all p w ≡ true
    → length w ≤ n
    → p c ≡ false
    → span n p (w ++ c ∷ s) ≡ (w, c ∷ s)
unfolding span
span-append zero p [] c s h l e = refl
span-append (suc n) p [] c s h l e = ground arith
span-append zero p (x ∷ w) c s h l e = absurd (omega arith)
span-append (suc n) p (x ∷ w) c s h l e = ground (arith, span-append n p w c s)

abbrev pub Fits : ℕ → (ℕ → Bool) → Bytes → Type 0
Fits n p w = (all p w ≡ true) × (length w ≤ n)

-- The fields that a format stores: for each conversion in turn, bytes of its set within its width;
-- a failed conversion ends them.
abbrev pub Stored : List Directive → List Bytes → Type 0
Stored ds [] = Unit
Stored [] (w ∷ ws) = ⊥
Stored (lit c ∷ ds) (w ∷ ws) = Stored ds (w ∷ ws)
Stored (space ∷ ds) (w ∷ ws) = Stored ds (w ∷ ws)
Stored (position ∷ ds) (w ∷ ws) = Stored ds (w ∷ ws)
Stored (field n p ∷ ds) (w ∷ ws) = Fits n p w × Stored ds ws

abbrev is_field : Directive → Bool
is_field (field n p) = true
is_field _ = false

Stored-nil : (ds : List Directive) → Stored ds []
Stored-nil [] = tt
Stored-nil (d ∷ ds) = tt

Stored-cons :
    (d : Directive) (ds : List Directive) (ws : List Bytes)
    → is_field d ≡ false
    → Stored ds ws
    → Stored (d ∷ ds) ws
Stored-cons d ds [] e h = tt
Stored-cons (lit c) ds (w ∷ ws) e h = h
Stored-cons space ds (w ∷ ws) e h = h
Stored-cons position ds (w ∷ ws) e h = h
Stored-cons (field n p) ds (w ∷ ws) e h = cc

-- What a scan adds to the fields it has.
abbrev Adds : List Directive → Scan → Scan → Type 0
Adds ds got res = (ws : List Bytes) × (res.fields ≡ got.fields ++ ws) × Stored ds ws

Adds-nothing : (ds : List Directive) (got : Scan) → Adds ds got got
Adds-nothing ds got = ([], sym (append-nil got.fields), Stored-nil ds)

scan_from-Adds :
    (ds : List Directive) (s : Bytes) (at : ℕ) (got : Scan) → Adds ds got (scan_from ds s at got)
unfolding scan_from
scan_from-Adds [] s at got = Adds-nothing [] got
scan_from-Adds (lit c ∷ ds) [] at got = Adds-nothing (lit c ∷ ds) got
scan_from-Adds (lit c ∷ ds) (x ∷ s) at got = elim (Bool-cases (c == x)) [
  | inl same ↦
      let (ws, e, h) = scan_from-Adds ds s (at + 1) got in
      (ws, rw same e, Stored-cons (lit c) ds ws refl h)
  | inr other ↦ rw other (Adds-nothing (lit c ∷ ds) got)
]
scan_from-Adds (space ∷ ds) s at got =
    let left = skip_spaces s in
    let (ws, e, h) = scan_from-Adds ds left (at + (length s - length left)) got in
    (ws, e, Stored-cons space ds ws refl h)
scan_from-Adds (position ∷ ds) s at got =
    let (ws, e, h) = scan_from-Adds ds s at (record got { endpos = some at }) in
    (ws, e, Stored-cons position ds ws refl h)
scan_from-Adds (field n p ∷ ds) s at got = elim (Bool-cases (is_empty (span n p s).0)) [
  | inl empty ↦ rw empty (Adds-nothing (field n p ∷ ds) got)
  | inr taken ↦
      let w = (span n p s).0 in
      let (ws, e, h) =
        scan_from-Adds ds (span n p s).1 (at + length w)
          (record got { fields = got.fields ++ w ∷ [] }) in
      (
        w ∷ ws,
        rw taken (e ∙ append_assoc got.fields (w ∷ []) ws),
        ((span-all n p s, length-span n p s), h),
      )
]

-- Every field that sscanf stores is made of bytes of its conversion's set, and no longer than the
-- conversion's width.
pub sscanf-Stored : (s : Bytes) (ds : List Directive) → Stored ds (sscanf s ds).fields
unfolding sscanf
sscanf-Stored s ds =
    let (ws, e, h) = scan_from-Adds ds s 0 (record { fields = []; endpos = none }) in rw e h

-- The first field of a format that begins with a byte and a conversion.
pub sscanf-first :
    (c n : ℕ) (p : ℕ → Bool) (ds : List Directive) (x : ℕ) (s : Bytes) {w : Bytes} {ws : List Bytes}
    → (sscanf (x ∷ s) (lit c ∷ field n p ∷ ds)).fields ≡ w ∷ ws
    → w ≡ (span n p s).0
unfolding sscanf scan_from
sscanf-first c n p ds x s {w} {ws} h =
    let taken = (span n p s).0 in
    let (more, e, _) =
      scan_from-Adds ds (span n p s).1 (1 + length taken)
        (record { fields = taken ∷ []; endpos = none }) in
    ground arith
