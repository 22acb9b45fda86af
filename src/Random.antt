-- ===== src/Random.antt =====
-- `Hcv_Random` (hcv_header.hh and hcv_main.cc): the random numbers of a thread. The generators of the C++ library and
-- their seeds are parameters.
pub mod Pool
use helpcovid.Prelude.{
  zero, some, suc, none, true, Option, ◌-◌, ◌==◌, ◌/◌, ◌^◌, ◌%◌, ltb, ◌+◌, ◌*◌, if◌then◌else◌, ℕ,
  Bool,
}

-- std::mt19937: the next number of 32 bits; its seed from the device, and from the deterministic
-- generator of the program, which is a state `P` that all threads share; the generator before any seed,
-- and the deterministic generator from a seed.
pub record Generator {ℓ κ} (G : Type ℓ) (P : Type κ) : Type (ℓ ⊔ κ) where
  pub next : G → ℕ × G
  pub seed_device : G → G
  pub seed_deterministic : P → G × P
  pub unseeded : G
  pub deterministic_of : ℕ → P

-- The state of a thread.
pub record Random {ℓ} (G : Type ℓ) : Type ℓ where
  pub count : ℕ
  pub generator : G
  pub advance : ℕ
  pub remainbits : ℕ

abbrev pub reseed_period : ℕ
reseed_period = 65536

-- `start_deterministic`: the shared generator, and `_rand_is_deterministic_`.
unfoldable pub start_deterministic {ℓ κ} : {G : Type ℓ} {P : Type κ} → Generator G P → ℕ → P × Bool
start_deterministic gen seed = (gen.deterministic_of seed, true)

module _ {ℓ κ} {G : Type ℓ} {P : Type κ} (gen : Generator G P) (is_deterministic : Bool) where
  -- The constructor of a thread's state, with `init_deterministic`.
  unfoldable pub new_random : P → Random G × P
  new_random shared =
      let seeded = gen.seed_deterministic shared in
      let fresh : Random G = record {
        count = 0;
        generator = gen.unseeded;
        advance = 0;
        remainbits = 0;
      } in
      if is_deterministic
      then (record fresh { generator = seeded.0 }, seeded.1)
      else (fresh, shared)

  -- The test of the count, which is an unsigned long of 64 bits: the thread and the shared generator.
  unfoldable pub reseed : Random G → P → Random G × P
  reseed r shared =
      let counted = record r { count = (r.count + 1) % 2 ^ 64 } in
      let seeded = gen.seed_deterministic shared in
      if r.count % reseed_period == 0
      then (if is_deterministic
          then (record counted { generator = seeded.0 }, seeded.1)
          else (record counted { generator = gen.seed_device (r.generator) }, shared))
      else (counted, shared)

  -- `generate_32u`
  unfoldable pub generate_32u : Random G → P → ℕ × Random G × P
  unfolding reseed
  generate_32u r shared =
      let ready = reseed r shared in
      let drawn = gen.next (ready.0.generator) in
      (drawn.0, record (ready.0) { generator = drawn.1 }, ready.1)

  -- `generate_nonzero_32u`, on fuel for the draws: none when all of them were 0.
  unfoldable pub generate_nonzero_32u : ℕ → Random G → P → Option (ℕ × Random G × P)
  unfolding generate_32u
  generate_nonzero_32u zero r shared = none
  generate_nonzero_32u (suc fuel) r shared =
      let drawn = generate_32u r shared in
      let again = generate_nonzero_32u fuel (drawn.1) (drawn.2) in
      if drawn.0 == 0 then again else some drawn

  -- `generate_64u`; C++ leaves the order of its two calls open, and the left one is first here.
  unfoldable pub generate_64u : Random G → P → ℕ × Random G × P
  unfolding generate_32u
  generate_64u r shared =
      let high = generate_32u r shared in
      let low = generate_32u (high.1) (high.2) in (high.0 * 2 ^ 32 + low.0, low.1, low.2)

  -- A number of `bits` bits from the pool, which is filled when it has fewer.
  unfoldable pub generate_bits : ℕ → Random G → P → ℕ × Random G × P
  unfolding generate_32u
  generate_bits bits r shared =
      let fresh = generate_32u r shared in
      let filled : Random G × P =
        if ltb (r.remainbits) bits
        then (record (fresh.1) { advance = fresh.0; remainbits = 32 }, fresh.2)
        else (r, shared) in
      (
        filled.0.advance % 2 ^ bits,
        record (filled.0) {
          advance = filled.0.advance / 2 ^ bits;
          remainbits = filled.0.remainbits - bits;
        },
        filled.1,
      )

  -- `generate_quickly_4bits` and `generate_quickly_8bits`
  unfoldable pub generate_quickly_4bits : Random G → P → ℕ × Random G × P
  unfolding generate_bits
  generate_quickly_4bits = generate_bits 4

  unfoldable pub generate_quickly_8bits : Random G → P → ℕ × Random G × P
  unfolding generate_bits
  generate_quickly_8bits = generate_bits 8
