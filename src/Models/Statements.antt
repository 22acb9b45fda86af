-- ===== src/Models/Statements.antt =====
-- How the functions of hcv_models.cc run a statement: a `Hcv_PreparedStatement` (hcv_database.cc), its
-- arguments bound in order, and its query. The run of the statement by libpqxx and the commit are
-- parameters.
use helpcovid.Outcome.{ok, database, ◌>>=◌, thrown, Outcome}
use helpcovid.Prelude.{◌∙◌, ap, refl, none, ◌≡◌, ◌∷◌, Option, List, Bytes}
use helpcovid.Database.{
  text_param, PreparedStatement, Param, prepared_query, prepared_statement, bind_param,
}
use mathlib.Core.List.{[]}

-- `bind` on each text.
unfoldable pub bind_all : List Bytes → PreparedStatement → PreparedStatement
unfolding bind_param
bind_all [] stmt = stmt
bind_all (arg ∷ args) stmt = bind_all args (bind_param (text_param arg) stmt)

module _ {ℓ κ} {D : Type ℓ} {R : Type κ} (exec_prepared : Bytes → List Param → D → Option (R × D))
    (commit : D → Option D) where
  -- The result of the query and the database.
  unfoldable pub run_statement : Bytes → List Bytes → D → Outcome (R × D)
  unfolding bind_all prepared_statement prepared_query
  run_statement name args db =
      prepared_query exec_prepared commit (bind_all args (prepared_statement name)) db

  -- The same where the result is not looked at.
  abbrev pub run_for_effect : Bytes → List Bytes → D → Outcome D
  run_for_effect name args db = run_statement name args db >>= λ res. ok (res.1)

-- The arguments do not change the name.
pub name-bind_all :
    (args : List Bytes) (stmt : PreparedStatement) → (bind_all args stmt).name ≡ stmt.name
unfolding bind_all bind_param
name-bind_all [] stmt = refl
name-bind_all (arg ∷ args) stmt = name-bind_all args (bind_param (text_param arg) stmt)

-- A statement that libpqxx does not run.
prepared_query-none {ℓ κ} :
    {D : Type ℓ} {R : Type κ} (exec_prepared : Bytes → List Param → D → Option (R × D))
    (commit : D → Option D) (stmt : PreparedStatement) (db : D)
    → exec_prepared (stmt.name) (stmt.bound) db ≡ none
    → prepared_query exec_prepared commit stmt db ≡ thrown database 91
unfolding prepared_query
prepared_query-none exec_prepared commit stmt db h = rw (h, prepared_query) refl

pub run_statement-none {ℓ κ} :
    {D : Type ℓ} {R : Type κ} (exec_prepared : Bytes → List Param → D → Option (R × D))
    (commit : D → Option D) (name : Bytes) (args : List Bytes) (db : D)
    → ((params : List Param) → exec_prepared name params db ≡ none)
    → run_statement exec_prepared commit name args db ≡ thrown database 91
unfolding run_statement prepared_statement
run_statement-none exec_prepared commit name args db h =
    let stmt = bind_all args (prepared_statement name) in
    prepared_query-none exec_prepared commit stmt db (
      ap (λ n. exec_prepared n (stmt.bound) db) (name-bind_all args (prepared_statement name))
      ∙ h (stmt.bound))
