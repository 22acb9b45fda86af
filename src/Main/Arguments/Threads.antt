-- ===== src/Main/Arguments/Threads.antt =====
-- The number of worker threads: `hcv_early_initialize`, the option `--threads` and the key "threads"
-- of the configuration (hcv_main.cc).
use helpcovid.Scan.Number.{atoi}
use helpcovid.Prelude.{
  leb, ◌&&◌, ◌%◌, none, arith, ◌^◌, ◌-◌, some, ltb, codes, ◌≤◌, ◌<◌, ◌+◌, if◌then◌else◌, Option,
  Bytes, ℕ,
}

-- `std::thread::hardware_concurrency() - 1` in unsigned arithmetic of 32 bits.
unfoldable pub one_less : ℕ → ℕ
one_less hardware = (hardware + (2 ^ 32 - 1)) % 2 ^ 32

-- What `hcv_parse1opt` and main make of a number of threads that is asked for.
unfoldable pub limit_threads : ℕ → ℕ → ℕ
unfolding one_less
limit_threads hardware requested =
    if ltb requested 2
    then 2
    else if ltb 4 requested && ltb (one_less hardware) requested
    then (if ltb 8 hardware then one_less hardware else 4)
    else requested

-- `hcv_early_initialize`, on the number before it and on what getenv gives; the variable's name has a
-- dollar.
unfoldable pub early_threads : (Bytes → Option Bytes) → ℕ → ℕ → ℕ
unfolding one_less atoi
early_threads getenv hardware before =
    let asked : ℕ = elim (getenv (codes "$HELPCOVID_NBWORKERTHREADS")) [
      | none ↦ before
      | some arg ↦ atoi arg
    ] in
    let bounded = if leb hardware asked then one_less hardware else asked in
    if ltb bounded 2 then 2 else bounded

-- The key "threads" of the group "helpcovid", a number of 64 bits, if the configuration has it.
unfoldable pub config_threads : ℕ → Option ℕ → ℕ → ℕ
unfolding limit_threads
config_threads hardware none before = before
config_threads hardware (some value) before = limit_threads hardware (value % 2 ^ 32)

-- At least two threads, and no more than the larger of four and one less than the processors.
abbrev pub AreBounded : ℕ → ℕ → Type 0
AreBounded hardware n = (2 ≤ n) × (n ≤ 4 + (hardware - 5))

pub limit_threads-AreBounded :
    (hardware requested : ℕ)
    → 0 < hardware
    → hardware < 2 ^ 32
    → AreBounded hardware (limit_threads hardware requested)
unfolding limit_threads one_less
limit_threads-AreBounded hardware requested h l = (ground arith, ground arith)

pub early_threads-AreBounded :
    (getenv : Bytes → Option Bytes) (hardware before : ℕ)
    → 0 < hardware
    → hardware < 2 ^ 32
    → AreBounded hardware (early_threads getenv hardware before)
unfolding early_threads one_less
early_threads-AreBounded getenv hardware before h l = (ground arith, ground arith)

pub config_threads-AreBounded :
    (hardware : ℕ) (value : Option ℕ) (before : ℕ)
    → 0 < hardware
    → hardware < 2 ^ 32
    → AreBounded hardware before
    → AreBounded hardware (config_threads hardware value before)
unfolding config_threads
config_threads-AreBounded hardware none before h l f = f
config_threads-AreBounded hardware (some value) before h l f =
    limit_threads-AreBounded hardware (value % 2 ^ 32) h l
