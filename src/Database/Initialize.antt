-- ===== src/Database/Initialize.antt =====
-- `hcv_initialize_database` and `hcv_close_database` (hcv_database.cc).
use helpcovid.Plugins.{initialize_plugins_for_database, Plugin}
use helpcovid.Database.SessionFunctions.{
  is_session_valid_sql, ping_session_sql, close_session_sql, open_session_sql,
}
use helpcovid.Database.UserFunctions.{
  delete_dormant_users_sql, get_email_verification_token_sql, verify_email_token_sql,
  create_new_user_sql,
}
use mathlib.Core.List.{[]}
use helpcovid.Prelude.{equal, ◌||◌, ◌++◌, is_empty, ◌∷◌, some, if◌then◌else◌, codes, none, Bytes}
use helpcovid.Database.Tables.{
  tb_session_sql, tb_web_cookie_sql, tb_password_sql, tb_email_confirmation_sql, tb_user_sql,
  en_gender_sql, en_status_sql,
}
use helpcovid.Database.Log.{logreqbuf, fullreqbuf, is_loggable}
use helpcovid.Database.Connection.{Connector, Database, ProcessInfo}
use helpcovid.Database.Instance.{register_helpcovid_instance, unregister_helpcovid_instance}
use helpcovid.Database.{not, is_empty, some, codes, Option, ℕ, none, List, Bytes, Bool}
use helpcovid.Database.Thrown.{or_thrown}
use helpcovid.Main.Settings.{KeyFile, config_has_group, or_throw}
use helpcovid.Outcome.{Outcome, ok, database, require, require_some, ◌>>=◌, ◌>>◌}

-- A connection, unless the text is empty or a dash.
abbrev pub connects : Bytes → Option Bytes
connects connstr = if is_empty connstr || equal connstr (codes "-") then none else some connstr

-- The connection string of `hcv_initialize_database`; none where no database is used.
unfoldable pub database_connection : KeyFile → Bytes → Outcome (Option Bytes)
database_connection kf uri = if not (is_empty uri) then ok (connects uri) else (do
  in_config ← config_has_group kf (codes "postgresql")
  if in_config
      then (do
        has ← or_throw (kf.has_key (codes "postgresql") (codes "connection")) 635
        require has database 636
        connstr ← or_throw (kf.get_string (codes "postgresql") (codes "connection")) 637
        ok (connects connstr))
      else ok none)

-- `exec0` on each text.
abbrev pub exec_all {ℓ} : {D : Type ℓ} → Connector D → List (Bytes × ℕ) → D → Outcome D
exec_all pq [] db = ok db
exec_all pq ((sql, lin) ∷ rest) db = or_thrown (pq.exec0 sql db) lin >>= exec_all pq rest

-- The statements of the transaction that creates types, tables and functions, in order.
unfoldable pub schema : List (Bytes × ℕ)
unfolding en_status_sql en_gender_sql tb_user_sql tb_email_confirmation_sql tb_password_sql
    tb_web_cookie_sql tb_session_sql create_new_user_sql verify_email_token_sql
    get_email_verification_token_sql delete_dormant_users_sql open_session_sql close_session_sql
    ping_session_sql is_session_valid_sql
schema =
    (en_status_sql, 109)
    ∷ (en_gender_sql, 131)
    ∷ (tb_user_sql, 150)
    ∷ (tb_email_confirmation_sql, 174)
    ∷ (tb_password_sql, 190)
    ∷ (tb_web_cookie_sql, 212)
    ∷ (tb_session_sql, 231)
    ∷ (create_new_user_sql, 248)
    ∷ (verify_email_token_sql, 289)
    ∷ (get_email_verification_token_sql, 333)
    ∷ (delete_dormant_users_sql, 365)
    ∷ (open_session_sql, 383)
    ∷ (close_session_sql, 408)
    ∷ (ping_session_sql, 428)
    ∷ (is_session_valid_sql, 456)
    ∷ []

-- The statements of `hcv_prepare_statements_in_database` and of `prepare_user_model_statements`, with
-- their names.
unfoldable pub prepared_statements : List (Bytes × Bytes × ℕ)
prepared_statements =
    (
      codes "find_user_by_email_pstm",
      codes "\nSELECT user_id FROM tb_user WHERE user_email=$1\n",
      756,
    )
    ∷ (
      codes "add_web_cookie_pstm",
      codes
            "\nINSERT INTO tb_web_cookie\n     (wcookie_random, wcookie_exptime, wcookie_webagenthash)\n"
          ++ codes "VALUES ($1, to_timestamp($2), $3)\n",
      763,
    )
    ∷ (codes "lastval_pstm", codes "SELECT LASTVAL()", 770)
    ∷ (
      codes "user_create_pstm",
      codes "INSERT INTO tb_user (user_firstname, user_familyname, user_email, user_gender "
          ++ codes " VALUES ($1, $2, $3, $4);",
      785,
    )
    ∷ (
      codes "user_get_password_by_email_pstm",
      codes "SELECT passwd_encr FROM tb_password WHERE passw_userid = "
          ++ codes "(SELECT user_id WHERE user_email = $1) ORDER BY passw_mtime DESC LIMIT 1;",
      785,
    )
    ∷ []

module _ {ℓ} {D : Type ℓ} (pq : Connector D) where
  abbrev pub prepare_all : List (Bytes × Bytes × ℕ) → D → Outcome D
  prepare_all [] db = ok db
  prepare_all ((name, sql, lin) ∷ rest) db =
      or_thrown (pq.prepare name sql db) lin >>= prepare_all rest

  -- `hcv_prepare_statements_in_database`
  unfoldable pub prepare_statements_in_database : D → Outcome D
  unfolding prepared_statements
  prepare_statements_in_database = prepare_all prepared_statements

  -- The clearing of the database.
  unfoldable pub clear_data : Bool → D → Outcome D
  clear_data cleardata db =
      if cleardata
      then or_thrown (pq.exec_at_once (codes "DROP OWNED BY CURRENT_USER CASCADE;") db) 667
      else ok db

  -- The first transaction: the message for the log, and the version of the server.
  unfoldable pub first_transaction : ProcessInfo → Bool → D → Outcome (Bytes × D)
  unfolding logreqbuf fullreqbuf
  first_transaction proc cleardata db = do
    require (is_loggable (logreqbuf proc cleardata)) database 687
    logged ← or_thrown (pq.exec0 (fullreqbuf (logreqbuf proc cleardata)) db) 692
    rversion ← or_thrown (pq.exec1 (codes "SELECT VERSION();") logged) 695
    r2version ← or_thrown (pq.exec1 (codes "SHOW SERVER_VERSION;") (rversion.1)) 697
    committed ← or_thrown (pq.commit (r2version.1)) 701
    ok (r2version.0, committed)

  -- The second transaction: the row's serial.
  unfoldable pub create_tables : ProcessInfo → D → Outcome (ℕ × D)
  unfolding register_helpcovid_instance schema
  create_tables proc db = do
    created ← exec_all pq schema db
    registered ← register_helpcovid_instance pq proc created
    committed ← or_thrown (pq.commit (registered.1)) 723
    ok (registered.0, committed)

  -- The calls of the plugins' initializers, in order.
  unfoldable pub call_initializers : List (ℕ × Option Bytes) → D → Outcome D
  call_initializers [] db = ok db
  call_initializers ((init, arg) ∷ rest) db =
      or_thrown (pq.call_initializer init arg db) 727 >>= call_initializers rest

  -- What follows the connection.
  unfoldable pub set_up_database : ProcessInfo → List Plugin → Bool → D → Outcome (Database D)
  unfolding clear_data first_transaction create_tables prepare_statements_in_database
      call_initializers initialize_plugins_for_database
  set_up_database proc loaded cleardata db = do
    cleared ← clear_data cleardata db
    first ← first_transaction proc cleardata cleared
    second ← create_tables proc (first.1)
    prepared ← prepare_statements_in_database (second.1)
    plugged ← call_initializers (initialize_plugins_for_database loaded) prepared
    ok (record { dbconn = some plugged; server_version = first.0; serial = second.0 })

  -- `hcv_initialize_database`
  unfoldable pub initialize_database :
      ProcessInfo → List Plugin → KeyFile → Bytes → Bool → Database D → Outcome (Database D)
  unfolding database_connection set_up_database
  initialize_database proc loaded kf uri cleardata before = do
    connstr ← database_connection kf uri
    elim connstr [
      | none ↦ ok before
      | some address ↦
          (or_thrown (pq.connect address) 655 >>= set_up_database proc loaded cleardata)
    ]

  -- `hcv_close_database`: the state that the session ends with, and the variables.
  unfoldable pub close_database : Database D → Outcome (D × Database D)
  unfolding unregister_helpcovid_instance
  close_database before = do
    db ← require_some (before.dbconn) database 860
    removed ← unregister_helpcovid_instance pq (before.serial) db
    committed ← or_thrown (pq.commit (removed.1)) 866
    ok (committed, record before { dbconn = none; serial = removed.0 })
