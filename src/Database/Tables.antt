-- ===== src/Database/Tables.antt =====
-- The SQL text of the types and the tables that hcv_database.cc creates.
use helpcovid.Database.SqlText.{sql_lines}
use helpcovid.Prelude.{◌∷◌, [], Bytes}

-- `sql_en_status`
unfoldable pub en_status_sql : Bytes
en_status_sql = sql_lines (
    "" ∷ "        DO $$" ∷ "        BEGIN" ∷ "            CREATE TYPE en_status as enum("
    ∷ "                    'STATUS_REJECTED'," ∷ "                    'STATUS_EXPIRED',"
    ∷ "                    'STATUS_PENDING'," ∷ "                    'STATUS_VERIFIED');"
    ∷ "        EXCEPTION" ∷ "            WHEN duplicate_object THEN NULL;" ∷ "        END"
    ∷ "        $$ language plpgsql;" ∷ "    " ∷ [])

-- `sql_en_gender`
unfoldable pub en_gender_sql : Bytes
en_gender_sql = sql_lines (
    "" ∷ "        DO $$" ∷ "        BEGIN" ∷ "            CREATE TYPE en_gender as enum("
    ∷ "                    'GENDER_MALE'," ∷ "                    'GENDER_FEMALE',"
    ∷ "                    'GENDER_OTHER'," ∷ "                    'GENDER_UNDISCLOSED');"
    ∷ "        EXCEPTION" ∷ "            WHEN duplicate_object THEN NULL;" ∷ "        END"
    ∷ "        $$ language plpgsql;" ∷ "    " ∷ [])

-- `sql_tb_user`
unfoldable pub tb_user_sql : Bytes
tb_user_sql = sql_lines (
    "" ∷ "        CREATE TABLE IF NOT EXISTS tb_user ("
    ∷ "            user_id SERIAL PRIMARY KEY NOT NULL,"
    ∷ "            user_firstname VARCHAR(31) NOT NULL,"
    ∷ "            user_familyname VARCHAR(62) NOT NULL,"
    ∷ "            user_email VARCHAR(71) NOT NULL,"
    ∷ "            user_telephone VARCHAR(23) NOT NULL,"
    ∷ "            user_gender en_gender NOT NULL,"
    ∷ "            user_status en_status NOT NULL DEFAULT 'STATUS_PENDING',"
    ∷ "            user_crtime TIMESTAMP DEFAULT current_timestamp" ∷ "        );"
    ∷ "        CREATE INDEX IF NOT EXISTS ix_user_familyname "
    ∷ "            ON tb_user(user_familyname);"
    ∷ "        CREATE INDEX IF NOT EXISTS ix_user_email " ∷ "            ON tb_user(user_email);"
    ∷ "        CREATE INDEX IF NOT EXISTS ix_user_crtime " ∷ "            ON tb_user(user_crtime);"
    ∷ "    " ∷ [])

-- `sql_tb_email_confirmation`
unfoldable pub tb_email_confirmation_sql : Bytes
tb_email_confirmation_sql = sql_lines (
    "" ∷ "        CREATE TABLE IF NOT EXISTS tb_email_confirmation("
    ∷ "            confirm_id serial PRIMARY KEY NOT NULL,"
    ∷ "            confirm_userid INTEGER NOT NULL REFERENCES tb_user(user_id) "
    ∷ "                ON DELETE CASCADE," ∷ "            confirm_token UUID NOT NULL,"
    ∷ "            confirm_expiry TIMESTAMP NOT NULL DEFAULT CURRENT_TIMESTAMP "
    ∷ "                + interval '1 hour'" ∷ "        );" ∷ "    " ∷ [])

-- `sql_tb_password`
unfoldable pub tb_password_sql : Bytes
tb_password_sql = sql_lines (
    "" ∷ "        CREATE TABLE IF NOT EXISTS tb_password("
    ∷ "            passw_id SERIAL PRIMARY KEY NOT NULL," ∷ "            passw_userid INT NOT NULL,"
    ∷ "            passw_encr TEXT NOT NULL,"
    ∷ "            passw_mtime TIMESTAMP DEFAULT current_timestamp " ∷ "        );" ∷ "    " ∷ [])

-- `sql_tb_web_cookie`
unfoldable pub tb_web_cookie_sql : Bytes
tb_web_cookie_sql = sql_lines (
    "" ∷ "        CREATE TABLE IF NOT EXISTS tb_web_cookie("
    ∷ "            wcookie_id SERIAL PRIMARY  KEY NOT NULL,"
    ∷ "            wcookie_random CHAR(24) NOT NULL,"
    ∷ "            wcookie_exptime TIMESTAMP NOT NULL,"
    ∷ "            wcookie_webagenthash INT NOT NULL" ∷ "        );"
    ∷ "        CREATE INDEX IF NOT EXISTS ix_cookie_random"
    ∷ "            ON tb_web_cookie(wcookie_random);"
    ∷ "        CREATE INDEX IF NOT EXISTS ix_cookie_exptime"
    ∷ "            on tb_web_cookie(wcookie_exptime);" ∷ "    " ∷ [])

-- `sql_tb_session`
unfoldable pub tb_session_sql : Bytes
tb_session_sql = sql_lines (
    "" ∷ "        CREATE TABLE IF NOT EXISTS tb_session("
    ∷ "                id UUID PRIMARY KEY DEFAULT gen_random_uuid(),"
    ∷ "                user_id INT NOT NULL REFERENCES tb_user(user_id) ON DELETE CASCADE,"
    ∷ "                http_ua TEXT NOT NULL," ∷ "                ip INET NOT NULL,"
    ∷ "                start TIMESTAMP NOT NULL DEFAULT now(),"
    ∷ "                expiry TIMESTAMP NOT NULL DEFAULT now() + interval '1 hour');" ∷ "    " ∷ [])
