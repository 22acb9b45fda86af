-- ===== src/Random/Pool.antt =====
-- The pool of random bits of `Hcv_Random` (hcv_header.hh), and its deterministic mode.
use native.Mathlib.Numerals.{towards_suc}
use helpcovid.Random.{
  Generator, Random, generate_32u, generate_bits, generate_quickly_4bits, generate_quickly_8bits,
}
use helpcovid.Prelude.{
  refl, inr, inl, ltb, ◌∙◌, ◌%◌, if◌then◌else◌, Bool-cases, ap, Bool, ◌/◌, ◌-◌, ◌*◌, ◌≡◌, ◌+◌, ◌^◌,
  ◌<◌, ◌≤◌, ℕ, arith,
}

-- The pool has at most 32 bits, and holds a number of that many.
pub record IsPool {ℓ} {G : Type ℓ} (r : Random G) : Type 0 where
  pub is_bounded : r.remainbits ≤ 32
  pub is_small : r.advance < 2 ^ r.remainbits

pow_four : (m : ℕ) → 2 ^ (m + 4) ≡ 16 * 2 ^ m
pow_four m = simp towards_suc (omega arith)

pow_eight : (m : ℕ) → 2 ^ (m + 8) ≡ 256 * 2 ^ m
pow_eight m = simp towards_suc (omega arith)

-- Four or eight bits are taken from a number that has them.
taken_four : (n a : ℕ) → 4 ≤ n → a < 2 ^ n → a / 16 < 2 ^ (n - 4)
taken_four n a enough h =
    let split : n ≡ (n - 4) + 4 = omega arith in
    let whole : 2 ^ n ≡ 16 * 2 ^ (n - 4) = ap (λ m. 2 ^ m) split ∙ pow_four (n - 4) in omega arith

taken_eight : (n a : ℕ) → 8 ≤ n → a < 2 ^ n → a / 256 < 2 ^ (n - 8)
taken_eight n a enough h =
    let split : n ≡ (n - 8) + 8 = omega arith in
    let whole : 2 ^ n ≡ 256 * 2 ^ (n - 8) = ap (λ m. 2 ^ m) split ∙ pow_eight (n - 8) in omega arith

module _ {ℓ κ} {G : Type ℓ} {P : Type κ} (gen : Generator G P) (is_deterministic : Bool)
    (words : (g : G) → (gen.next g).0 < 2 ^ 32) where
  abbrev filled : ℕ → Random G → P → Random G
  filled bits r shared =
      let fresh = generate_32u gen is_deterministic r shared in
      if ltb (r.remainbits) bits then record (fresh.1) { advance = fresh.0; remainbits = 32 } else r

  word_bounded :
      (r : Random G) (shared : P) → (generate_32u gen is_deterministic r shared).0 < 2 ^ 32
  unfolding generate_32u
  word_bounded r shared = words _

  -- The pool has the bits that are asked for, once it is filled.
  filled-IsPool :
      (bits : ℕ) (r : Random G) (shared : P)
      → bits ≤ 32
      → IsPool r
      → IsPool (filled bits r shared) × (bits ≤ (filled bits r shared).remainbits)
  filled-IsPool bits r shared h pool = elim (Bool-cases (ltb (r.remainbits) bits)) [
    | inl few ↦ rw few (record { is_bounded = omega arith; is_small = word_bounded r shared }, h)
    | inr enough ↦ rw enough (pool, ground (arith, enough))
  ]

  bits_shape :
      (bits : ℕ) (r : Random G) (shared : P)
      → ((generate_bits gen is_deterministic bits r shared).0
          ≡ (filled bits r shared).advance % 2 ^ bits)
        × ((generate_bits gen is_deterministic bits r shared).1.advance
            ≡ (filled bits r shared).advance / 2 ^ bits)
        × ((generate_bits gen is_deterministic bits r shared).1.remainbits
            ≡ (filled bits r shared).remainbits - bits)
  unfolding generate_bits
  bits_shape bits r shared = elim (Bool-cases (ltb (r.remainbits) bits)) [
    | inl few ↦ rw few (refl, refl, refl)
    | inr enough ↦ rw enough (refl, refl, refl)
  ]

-- If the pool of a thread is one, `generate_quickly_4bits` and `generate_quickly_8bits` give numbers
-- below 16 and 256, and leave a pool; the generator's words have 32 bits.
pub generate_quickly-IsPool {ℓ κ} :
    {G : Type ℓ} {P : Type κ} (gen : Generator G P) (is_deterministic : Bool) (r : Random G)
    (shared : P)
    → ((g : G) → (gen.next g).0 < 2 ^ 32)
    → IsPool r
    → ((generate_quickly_4bits gen is_deterministic r shared).0 < 16)
      × IsPool ((generate_quickly_4bits gen is_deterministic r shared).1)
      × ((generate_quickly_8bits gen is_deterministic r shared).0 < 256)
      × IsPool ((generate_quickly_8bits gen is_deterministic r shared).1)
unfolding generate_quickly_4bits generate_quickly_8bits
generate_quickly-IsPool gen is_deterministic r shared words pool =
    let (pool4, enough4) = filled-IsPool gen is_deterministic words 4 r shared (omega arith) pool in
    let (pool8, enough8) = filled-IsPool gen is_deterministic words 8 r shared (omega arith) pool in
    let (value4, advance4, left4) = bits_shape gen is_deterministic words 4 r shared in
    let (value8, advance8, left8) = bits_shape gen is_deterministic words 8 r shared in
    let some4 = filled gen is_deterministic words 4 r shared in
    let some8 = filled gen is_deterministic words 8 r shared in
    (
      rw value4 (omega arith),
      record {
        is_bounded = rw left4 (omega (arith, pool4.is_bounded));
        is_small =
            rw (advance4, left4) (taken_four some4.remainbits some4.advance enough4 pool4.is_small);
      },
      rw value8 (omega arith),
      record {
        is_bounded = rw left8 (omega (arith, pool8.is_bounded));
        is_small =
            rw (advance8, left8)
              (taken_eight some8.remainbits some8.advance enough8 pool8.is_small);
      },
    )
