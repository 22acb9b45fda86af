-- ===== src/Outcome.antt =====
-- How a call ends: hcv_header.hh's HCV_FATALOUT and HCV_ASSERT stop the process by hcv_fatal_stop_at
-- (hcv_main.cc) with the file and the line of the call; a C++ exception leaves the function.
use helpcovid.Prelude.{
  if◌then◌else◌, ap, Option, none, some, arith, ℕ, ◌≡◌, refl, Bool, true, false, ◌⊎◌, inl, inr,
}

-- The implementation files that hold a fatal call of the model.
pub data File : Type 0 where
  chunkmap template views web models background plugins database main : File

pub data Outcome {ℓ} (A : Type ℓ) : Type ℓ where
  ok : A → Outcome A
  fatal : File → ℕ → Outcome A
  thrown : File → ℕ → Outcome A

infixl 5 ◌>>=◌ ◌>>◌
abbrev pub ◌>>=◌ {ℓ κ} : {A : Type ℓ} {B : Type κ} → Outcome A → (A → Outcome B) → Outcome B
ok a >>= f = f a
fatal fil lin >>= f = fatal fil lin
thrown fil lin >>= f = thrown fil lin

abbrev pub ◌>>◌ {ℓ} : {B : Type ℓ} → Outcome (Unit {0}) → Outcome B → Outcome B
m >> k = m >>= λ _. k

-- `if (!cond) HCV_FATALOUT(...)`
abbrev pub require : Bool → File → ℕ → Outcome (Unit {0})
require true fil lin = ok tt
require false fil lin = fatal fil lin

-- A call whose second part has returned: what the first part gave.
pub >>=-eq-ok {κ ℓ} :
    {X : Type κ} {Y : Type ℓ} (first : Outcome X) (next : X → Outcome Y) {y : Y}
    → (first >>= next) ≡ ok y
    → (x : X) × (first ≡ ok x) × (next x ≡ ok y)
>>=-eq-ok (thrown _ _) next returned = cc
>>=-eq-ok (fatal _ _) next returned = cc
>>=-eq-ok (ok x) next returned = (x, refl, returned)

pub Outcome-cases {ℓ} :
    {A : Type ℓ} (m : Outcome A)
    → ((a : A) × (m ≡ ok a))
      ⊎ (((fil : File) × (lin : ℕ) × (m ≡ fatal fil lin))
          ⊎ ((fil : File) × (lin : ℕ) × (m ≡ thrown fil lin)))
Outcome-cases (ok a) = inl (a, refl)
Outcome-cases (fatal f l) = inr (inl (f, l, refl))
Outcome-cases (thrown f l) = inr (inr (f, l, refl))

-- A test that has been passed.
pub require-eq-ok :
    (b : Bool) (fil : File) (lin : ℕ) {u : Unit {0}} → require b fil lin ≡ ok u → b ≡ true
require-eq-ok true fil lin e = refl
require-eq-ok false fil lin e = cc

pub ok-injective {ℓ} : {A : Type ℓ} {a b : A} → ok a ≡ ok b → a ≡ b
ok-injective e = ground (arith, e)

-- `if (!pointer) HCV_FATALOUT(...)`, for a pointer that may be null.
abbrev pub require_some {ℓ} : {A : Type ℓ} → Option A → File → ℕ → Outcome A
require_some none fil lin = fatal fil lin
require_some (some a) fil lin = ok a

pub require_some-eq-ok {ℓ} :
    {A : Type ℓ} (o : Option A) (fil : File) (lin : ℕ) {a : A}
    → require_some o fil lin ≡ ok a
    → o ≡ some a
require_some-eq-ok none fil lin e = cc
require_some-eq-ok (some x) fil lin e = ap some (ok-injective e)

-- A property of a state that a step keeps holds also where the step is left out.
pub if-keeps {ℓ κ} :
    {A : Type ℓ} (P : A → Type κ) (b : Bool) (m : Outcome A) (a : A) {q : A}
    → P a
    → ((x : A) → m ≡ ok x → P x)
    → (if b then m else ok a) ≡ ok q
    → P q
if-keeps P true m a {q} h step e = step q e
if-keeps P false m a h step e = rw (← ok-injective e) h

-- The branch that a conditional has taken.
pub if-taken {ℓ} :
    {A : Type ℓ} (b : Bool) (m n : A) {q : A} → (if b then m else n) ≡ q → (m ≡ q) ⊎ (n ≡ q)
if-taken true m n e = inl e
if-taken false m n e = inr e

pub some-injective {ℓ} : {A : Type ℓ} {a b : A} → some a ≡ some b → a ≡ b
some-injective e = ground (arith, e)
