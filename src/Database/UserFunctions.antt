-- ===== src/Database/UserFunctions.antt =====
-- The SQL text of the stored functions on users (hcv_database.cc).
use helpcovid.Database.SqlText.{sql_lines}
use helpcovid.Prelude.{◌∷◌, [], Bytes}

-- `sql_create_new_user`
unfoldable pub create_new_user_sql : Bytes
create_new_user_sql = sql_lines (
    "" ∷ "        CREATE OR REPLACE FUNCTION create_new_user(" ∷ "                p_email varchar, "
    ∷ "                p_password text, " ∷ "                p_firstname varchar, "
    ∷ "                p_familyname varchar, " ∷ "                p_telephone varchar, "
    ∷ "                p_gender en_gender) RETURNS integer " ∷ "        as $func$" ∷ "        BEGIN"
    ∷ "            INSERT INTO tb_user(" ∷ "                    user_firstname, "
    ∷ "                    user_familyname, " ∷ "                    user_email,"
    ∷ "                    user_telephone, " ∷ "                    user_gender) VALUES ("
    ∷ "                    p_firstname, " ∷ "                    p_familyname,"
    ∷ "                    p_email," ∷ "                    p_telephone, "
    ∷ "                    p_gender);" ∷ "" ∷ "            INSERT INTO tb_password("
    ∷ "                    passw_userid, " ∷ "                    passw_encr) values("
    ∷ "                    (SELECT user_id from tb_user where user_email = p_email),"
    ∷ "                    crypt(p_password, gen_salt('md5')));" ∷ ""
    ∷ "            RETURN (SELECT user_id FROM tb_user WHERE user_email = _email);"
    ∷ "        end; " ∷ "        $func$ language plpgsql;" ∷ "    " ∷ [])

-- `sql_verify_email_token`
unfoldable pub verify_email_token_sql : Bytes
verify_email_token_sql = sql_lines (
    "" ∷ "        CREATE OR REPLACE FUNCTION verify_email_token(" ∷ "            _user_id integer,"
    ∷ "            _token uuid) RETURNS integer" ∷ "        as $func$" ∷ "        DECLARE"
    ∷ "            expires timestamp;" ∷ "            check_id integer;" ∷ "        BEGIN"
    ∷ "            SELECT expiry FROM tb_email_confirmation where user_id = _user_id"
    ∷ "                into expires;" ∷ "" ∷ "            IF NOT FOUND THEN"
    ∷ "                RAISE EXCEPTION 'e-mail token not generated';" ∷ "            END IF;" ∷ ""
    ∷ "            IF expires >= current_timestamp THEN" ∷ "                UPDATE tb_user "
    ∷ "                    set user_status = get_status_id('STATUS_EXPIRED');"
    ∷ "                RETURN get_status_id('STATUS_EXPIRED');" ∷ "            END IF;" ∷ ""
    ∷ "            SELECT user_id FROM tb_email_confirmation WHERE token = _token"
    ∷ "                INTO check_id;" ∷ "" ∷ "            IF check_id = _userid THEN"
    ∷ "                UPDATE tb_user "
    ∷ "                    SET user_status = get_status_id('STATUS_VERIFIED');"
    ∷ "                DELETE FROM tb_email_confirmation WHERE user_id = _user_id;"
    ∷ "                RETURN get_status_id('STATUS_VERIFIED');" ∷ "            ELSE"
    ∷ "                UPDATE tb_user "
    ∷ "                    SET user_status = get_status_id('STATUS_REJECTED');"
    ∷ "                RETURN get_status_id('STATUS_REJECTED');" ∷ "            END IF;"
    ∷ "        END;\t\t    " ∷ "        $func$ language plpgsql;" ∷ "    " ∷ [])

-- `sql_get_email_verification_token`
unfoldable pub get_email_verification_token_sql : Bytes
get_email_verification_token_sql = sql_lines (
    "" ∷ "        CREATE OR REPLACE FUNCTION get_email_verification_token("
    ∷ "            _user_id integer) RETURNS uuid" ∷ "        as $func$" ∷ "        DECLARE"
    ∷ "            check_id integer;" ∷ "        BEGIN"
    ∷ "            SELECT user_id FROM tb_user where user_id = _user_id INTO check_id;"
    ∷ "            IF NOT check_id = _user_id THEN"
    ∷ "                RAISE EXCEPTION 'user ID does not exist: %', _user_id;"
    ∷ "            END IF;" ∷ "" ∷ "            RETURN(SELECT token FROM tb_email_confirmation "
    ∷ "                where user_id = _user_id);" ∷ "" ∷ "            IF NOT FOUND THEN"
    ∷ "                INSERT INTO tb_email_confirmation(user_id, token) VALUES("
    ∷ "                    _user_id, gen_random_uuid());"
    ∷ "                RETURN(SELECT token FROM tb_email_confirmation"
    ∷ "                    WHERE user_id = _user_id);" ∷ "            END IF;" ∷ "        END;"
    ∷ "        $func$ language plpgsql;" ∷ "    " ∷ [])

-- `sql_delete_dormant_users`
unfoldable pub delete_dormant_users_sql : Bytes
delete_dormant_users_sql = sql_lines (
    "" ∷ "        CREATE OR REPLACE PROCEDURE delete_dormant_users()" ∷ "        AS $$"
    ∷ "        BEGIN" ∷ "            DELETE FROM tb_user WHERE user_id IN (SELECT user_id FROM ("
    ∷ "                    SELECT DISTINCT ON (user_id) user_id, expiry FROM tb_session"
    ∷ "                    ORDER BY user_id, expiry DESC) AS latest_session"
    ∷ "                    WHERE expiry < now() - interval '3 months');" ∷ "        END;"
    ∷ "        $$ LANGUAGE plpgsql;" ∷ "    " ∷ [])
