-- ===== src/Models/Refused.antt =====
-- hcv_models.cc on the connection that `hcv_initialize_database` (hcv_database.cc) has made, and
-- `hcv_login_view_post` (hcv_views.cc).
use helpcovid.Template.Data.{Request}
use helpcovid.Views.Home.{login_view_post, Json}
use helpcovid.Models.Login.{user_model_authenticate}
use helpcovid.Models.Statements.{run_statement-none, run_statement, run_for_effect}
use helpcovid.Models.{Outcome, user_model_create, true, user_model_validate, UserModel}
use helpcovid.Outcome.{◌>>=◌, some-injective, Outcome, database, thrown, ok}
use helpcovid.Main.Settings.{KeyFile}
use helpcovid.Plugins.{initialize_plugins_for_database, Plugin}
use helpcovid.Database.{Param}
use helpcovid.Database.Registered.{initialize_database-registered, Registers, has_name}
use helpcovid.Prelude.{◌∙◌, sym, some, refl, false, Bool, ◌≡◌, Option, codes, List, equal, Bytes}
use helpcovid.Database.Initialize.{initialize_database, database_connection, prepared_statements}
use helpcovid.Database.Connection.{Database, ProcessInfo, Connector}
use mathlib.Core.List.{[]}

-- The two statements of hcv_models.cc are not among those that are prepared.
user_create-unprepared : has_name (codes "user_create") prepared_statements ≡ false
unfolding prepared_statements equal
user_create-unprepared = refl

user_get_password_by_email-unprepared :
    has_name (codes "user_get_password_by_email") prepared_statements ≡ false
unfolding prepared_statements equal
user_get_password_by_email-unprepared = refl

module _ {D : Type 0} (query : Bytes → List Bytes → D → Outcome (Option Bytes × D)) where
  user_model_create-thrown :
      (is_email : Bytes → Bool) (model status : UserModel) (db : D)
      → (user_model_validate is_email model status).0 ≡ true
      → ((args : List Bytes) → query (codes "user_create") args db ≡ thrown database 91)
      → user_model_create is_email
          (λ name args db. query name args db >>= λ res. ok (res.1))
          model
          status
          db
        ≡ thrown database 91
  unfolding user_model_create
  user_model_create-thrown is_email model status db valid h = rw (valid, h _) refl

  login_view_post-thrown :
      (write_json : List (Bytes × Json) → Bytes) (req : Request) (db : D)
      → equal (req.method) (codes "POST") ≡ true
      → ((args : List Bytes)
          → query (codes "user_get_password_by_email") args db ≡ thrown database 91)
      → login_view_post query write_json req db ≡ thrown database 91
  unfolding login_view_post user_model_authenticate
  login_view_post-thrown write_json req db post h = rw (post, h _) refl

-- If `hcv_initialize_database` returns with a connection, and no plugin has an initializer for the
-- database, then on this connection `hcv_user_model_create` throws for a user that
-- `hcv_user_model_validate` accepts, and `hcv_login_view_post` throws for a POST request, whatever its
-- address and password. libpqxx runs only statements that were registered on the connection
-- (`Registers`).
pub login_view_post-initialize_database :
    {D : Type 0} (pq : Connector D)
    (exec_prepared : Bytes → List Param → D → Option (Option Bytes × D))
    (registered : Bytes → D → Bool) (law : Registers pq exec_prepared registered)
    (proc : ProcessInfo) (loaded : List Plugin) (kf : KeyFile) (uri address : Bytes)
    (cleardata : Bool) (before : Database D) {opened : Database D} (is_email : Bytes → Bool)
    (model status : UserModel) (write_json : List (Bytes × Json) → Bytes) (req : Request)
    → database_connection kf uri ≡ ok (some address)
    → initialize_plugins_for_database loaded ≡ []
    → initialize_database pq proc loaded kf uri cleardata before ≡ ok opened
    → (user_model_validate is_email model status).0 ≡ true
    → equal (req.method) (codes "POST") ≡ true
    → (db : D) × (opened.dbconn ≡ some db)
      × (user_model_create is_email (run_for_effect exec_prepared pq.commit) model status db
          ≡ thrown database 91)
      × (login_view_post (run_statement exec_prepared pq.commit) write_json req db
          ≡ thrown database 91)
login_view_post-initialize_database pq exec_prepared registered law proc loaded kf uri address
      cleardata before is_email model status write_json req chosen alone e valid post =
    let (db, is_open, creating) =
      initialize_database-registered pq exec_prepared registered law (codes "user_create") proc
        loaded kf uri address cleardata before chosen alone e in
    let (db', is_open', reading) =
      initialize_database-registered pq exec_prepared registered law
        (codes "user_get_password_by_email") proc loaded kf uri address cleardata before chosen
        alone e in
    let same : db' ≡ db = some-injective (sym is_open' ∙ is_open) in
    let absent = rw same at (reading ∙ user_get_password_by_email-unprepared) in
    let refused = λ (name : Bytes) (h : registered name db ≡ false) (args : List Bytes).
      run_statement-none exec_prepared (pq.commit) name args db
        (λ params. law.exec_needs name params db h) in
    let query = run_statement exec_prepared (pq.commit) in
    (
      db,
      is_open,
      user_model_create-thrown query is_email model status db valid
          (refused (codes "user_create") (creating ∙ user_create-unprepared)),
      login_view_post-thrown query write_json req db post
          (refused (codes "user_get_password_by_email") absent),
    )
