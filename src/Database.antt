-- ===== src/Database.antt =====
-- The database: the calls of prepared statements (hcv_database.cc). The server and its SQL are a
-- parameter.
pub mod Tables
pub mod UserFunctions
pub mod SessionFunctions
pub mod InstanceSql
pub mod SqlText
pub mod Thrown
pub mod Connection
pub mod Instance
pub mod Initialize
pub mod Log
pub mod Logged
pub mod Tracked
pub mod Kept
pub mod Rows
pub mod Registered
use helpcovid.Web.Cookie.Make.{is_positive_long}
use mathlib.Core.List.{[]}
use Option.{none}
use helpcovid.Outcome.{thrown, ok, database, require, ◌>>◌, Outcome}
use mathlib.Core.Option.{Option}
use helpcovid.Prelude.{
  ◌++◌, refl, ◌≡◌, false, ◌==◌, all, ◌||◌, not, is_empty, ◌-◌, if◌then◌else◌, [], ◌∷◌, ◌^◌, codes,
  Bool, ℕ, some, List, Bytes,
}
use mathlib.Core.Option

-- The arguments of a prepared statement: a text, a double that is a whole number, an int of 32 bits.
pub data Param : Type 0 where
  text_param : Bytes → Param
  double_param : ℕ → Param
  int_param : ℕ → Param

-- What libpqxx does with a prepared statement and at a commit, on the state of the database: the first
-- column of the rows as longs of 64 bits, and the state; none where it throws.
pub record Server {ℓ} (D : Type ℓ) : Type ℓ where
  pub exec_prepared : Bytes → List Param → D → Option (List ℕ × D)
  pub commit : D → Option D

-- The long of the last row.
abbrev pub last_row : ℕ → List ℕ → ℕ
last_row id [] = id
last_row id (row ∷ rows) = last_row row rows

-- The longs -1 and -2.
abbrev pub minus_one : ℕ
minus_one = 2 ^ 64 - 1

abbrev pub minus_two : ℕ
minus_two = 2 ^ 64 - 2

abbrev pub and_then {ℓ κ} : {A : Type ℓ} {B : Type κ} → Option A → (A → Option B) → Option B
and_then none f = none
and_then (some a) f = f a

-- What is made of an exception that is caught.
abbrev pub or_failed {ℓ} : {A : Type ℓ} → Option A → A → A
or_failed none failed = failed
or_failed (some a) failed = a

-- `Hcv_PreparedStatement`: its name and the arguments bound so far, by `bind`.
pub record PreparedStatement : Type 0 where
  pub name : Bytes
  pub bound : List Param

unfoldable pub prepared_statement : Bytes → PreparedStatement
prepared_statement name = record { name = name; bound = [] }

unfoldable pub bind_param : Param → PreparedStatement → PreparedStatement
bind_param arg stmt = record stmt { bound = stmt.bound ++ arg ∷ [] }

-- `Hcv_PreparedStatement::query` on the arguments that are bound: the result and the state, with the run
-- of a prepared statement by libpqxx, whose results are in `R`, and the commit as parameters.
unfoldable pub prepared_query {ℓ κ} :
    {D : Type ℓ} {R : Type κ}
    → (Bytes → List Param → D → Option (R × D))
    → (D → Option D)
    → PreparedStatement
    → D
    → Outcome (R × D)
prepared_query {D} {R} exec_prepared commit stmt db =
    elim (and_then {B = R × D} (exec_prepared (stmt.name) (stmt.bound) db)
      (λ res. Option.map (λ after. (res.0, after)) (commit (res.1)))) [
        | none ↦ thrown database 91
        | some res ↦ ok res
      ]

module _ {ℓ} {D : Type ℓ} (server : Server D) where
  -- `hcv_database_with_known_email`
  unfoldable pub database_with_known_email : Bytes → D → Outcome (Bool × D)
  database_with_known_email emailstr db =
      if is_empty emailstr || all (λ c. not (c == b'@')) emailstr
      then ok (false, db)
      else elim (server.exec_prepared (codes "find_user_by_email_pstm") (text_param emailstr ∷ [])
          db) [
            | none ↦ thrown database 806
            | some res ↦ elim (server.commit (res.1)) [
              | none ↦ thrown database 811
              | some after ↦ ok (is_positive_long (last_row minus_one (res.0)), after)
            ]
          ]

  -- The transaction that adds a cookie; none where something throws.
  unfoldable pub add_web_cookie : Bytes → ℕ → ℕ → D → Option (ℕ × D)
  add_web_cookie randomstr exptime webagenthash db =
      and_then
        (server.exec_prepared (codes "add_web_cookie_pstm")
          (text_param randomstr ∷ double_param exptime ∷ int_param webagenthash ∷ []) db)
        (λ added. and_then (server.exec_prepared (codes "lastval_pstm") [] (added.1)) (λ res.
          Option.map (λ after. (last_row minus_one (res.0), after)) (server.commit (res.1))))

  -- `hcv_database_get_id_of_added_web_cookie`; a transaction that is not committed is undone.
  unfoldable pub database_get_id_of_added_web_cookie : Bytes → ℕ → ℕ → D → Outcome (ℕ × D)
  unfolding add_web_cookie
  database_get_id_of_added_web_cookie randomstr exptime webagenthash db = do
    require (not (is_empty randomstr)) database 819
    ok (or_failed (add_web_cookie randomstr exptime webagenthash db) (minus_two, db))

-- Two calls that have both given a result.
pub and_then-eq-some {ℓ κ} :
    {A : Type ℓ} {B : Type κ} (o : Option A) (f : A → Option B) {b : B}
    → and_then o f ≡ some b
    → (a : A) × (o ≡ some a) × (f a ≡ some b)
and_then-eq-some none f e = cc
and_then-eq-some (some a) f e = (a, refl, e)
