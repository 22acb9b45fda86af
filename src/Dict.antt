-- ===== src/Dict.antt =====
-- std::map by lookups alone: an association list whose order is not observed. `insert` is the
-- member function of that name, which leaves a key that is there; `merge` moves the entries of the
-- other map whose keys are not there.
use helpcovid.Prelude.{
  List, [], ◌∷◌, Option, none, some, ◌≡◌, refl, arith, if◌then◌else◌, Bytes, equal, equal_iff,
}

abbrev pub Dict {ℓ} : Type ℓ → Type ℓ
Dict V = List (Bytes × V)

-- The value of the first option that has one.
abbrev pub or_else {ℓ} : {A : Type ℓ} → Option A → Option A → Option A
or_else none o = o
or_else (some a) o = some a

module _ {ℓ} {V : Type ℓ} where
  unfoldable pub lookup : Bytes → Dict V → Option V
  lookup k [] = none
  lookup k ((j, v) ∷ m) = if equal j k then some v else lookup k m

  unfoldable pub insert : Bytes → V → Dict V → Dict V
  insert k v [] = (k, v) ∷ []
  insert k v ((j, w) ∷ m) = if equal j k then (j, w) ∷ m else (j, w) ∷ insert k v m

  unfoldable pub erase : Bytes → Dict V → Dict V
  erase k [] = []
  erase k ((j, v) ∷ m) = if equal j k then erase k m else (j, v) ∷ erase k m

  unfoldable pub merge : Dict V → Dict V → Dict V
  merge m [] = m
  merge m ((k, v) ∷ other) = merge (insert k v m) other

  pub lookup-insert :
      (k j : Bytes) (v : V) (m : Dict V)
      → lookup j (insert k v m) ≡ or_else (lookup j m) (if equal k j then some v else none)
  unfolding lookup insert
  lookup-insert k j v [] = ground arith
  lookup-insert k j v ((i, w) ∷ m) =
      ground (arith, equal_iff i k, equal_iff k j, equal_iff i j, lookup-insert k j v m)

  pub lookup-erase :
      (k j : Bytes) (m : Dict V) → lookup j (erase k m) ≡ (if equal k j then none else lookup j m)
  unfolding lookup erase
  lookup-erase k j [] = ground arith
  lookup-erase k j ((i, w) ∷ m) =
      ground (arith, equal_iff i k, equal_iff k j, equal_iff i j, lookup-erase k j m)

  or_else_assoc : (a b c : Option V) → or_else (or_else a b) c ≡ or_else a (or_else b c)
  or_else_assoc none b c = refl
  or_else_assoc (some a) b c = refl

  pub lookup-merge :
      (k : Bytes) (m other : Dict V)
      → lookup k (merge m other) ≡ or_else (lookup k m) (lookup k other)
  unfolding lookup merge
  lookup-merge k m [] = ground arith
  lookup-merge k m ((j, v) ∷ other) =
      simp (lookup-merge k (insert j v m) other, lookup-insert j k v m)
        (rw or_else_assoc (ground arith))
