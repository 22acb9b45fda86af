-- ===== src/Database/Thrown.antt =====
-- A call of libpqxx, which may throw, at its line of hcv_database.cc.
use helpcovid.Outcome.{Outcome, ok, thrown, database}
use helpcovid.Prelude.{ℕ, Option, none, some, ◌≡◌}

abbrev pub or_thrown {ℓ} : {A : Type ℓ} → Option A → ℕ → Outcome A
or_thrown none lin = thrown database lin
or_thrown (some a) lin = ok a

-- A call that has returned.
pub or_thrown-eq-ok {ℓ} :
    {A : Type ℓ} (o : Option A) (lin : ℕ) {a : A} → or_thrown o lin ≡ ok a → o ≡ some a
or_thrown-eq-ok none lin e = cc
or_thrown-eq-ok (some b) lin e = cc
