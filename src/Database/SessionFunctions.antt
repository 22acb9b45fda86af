-- ===== src/Database/SessionFunctions.antt =====
-- The SQL text of the stored functions on sessions (hcv_database.cc).
use helpcovid.Database.SqlText.{sql_lines}
use helpcovid.Prelude.{◌∷◌, [], Bytes}

-- `sql_open_session`
unfoldable pub open_session_sql : Bytes
open_session_sql = sql_lines (
    "" ∷ "        CREATE OR REPLACE FUNCTION open_session(p_user INT, p_http_ua TEXT, "
    ∷ "                p_ip INET) RETURNS UUID" ∷ "        AS $func$" ∷ "        DECLARE"
    ∷ "            v_id UUID;" ∷ "        BEGIN"
    ∷ "            INSERT INTO tb_session(user_id, http_ua, ip) VALUES (p_user, "
    ∷ "                    p_http_ua, p_ip) RETURNING id INTO v_id;" ∷ ""
    ∷ "            RETURN v_id;" ∷ "" ∷ "        EXCEPTION"
    ∷ "            WHEN foreign_key_violation THEN"
    ∷ "                RAISE EXCEPTION 'user not found with ID: %', p_user;" ∷ "        END;"
    ∷ "        $func$ LANGUAGE plpgsql;" ∷ "    " ∷ [])

-- `sql_close_session`
unfoldable pub close_session_sql : Bytes
close_session_sql = sql_lines (
    "" ∷ "        CREATE OR REPLACE PROCEDURE close_session(p_session UUID)" ∷ "        AS $$"
    ∷ "        BEGIN" ∷ "            UPDATE tb_session SET expiry = now() WHERE id = p_session;"
    ∷ "" ∷ "            IF NOT FOUND THEN"
    ∷ "                RAISE EXCEPTION 'session not found with ID: %', p_session ;"
    ∷ "            END IF;" ∷ "        END;" ∷ "        $$ LANGUAGE plpgsql;" ∷ "    " ∷ [])

-- `sql_ping_session`
unfoldable pub ping_session_sql : Bytes
ping_session_sql = sql_lines (
    "" ∷ "        CREATE OR REPLACE PROCEDURE ping_session(p_session UUID)" ∷ "        AS $$"
    ∷ "        DECLARE" ∷ "            v_expiry TIMESTAMP;" ∷ "        BEGIN"
    ∷ "            v_expiry := (SELECT expiry FROM tb_session WHERE id = p_session);" ∷ ""
    ∷ "            IF NOT FOUND THEN"
    ∷ "                RAISE EXCEPTION 'session not found with ID: %', p_session;"
    ∷ "            END IF;" ∷ "" ∷ "            IF v_expiry < now() THEN"
    ∷ "                raise exception 'session already closed for ID: %', p_session;"
    ∷ "            END IF;" ∷ ""
    ∷ "            UPDATE tb_session SET expiry = now() + INTERVAL '1 hour' "
    ∷ "                    WHERE id = p_session;" ∷ "        END;" ∷ "        $$ LANGUAGE plpgsql;"
    ∷ "    " ∷ [])

-- `sql_is_session_valid`
unfoldable pub is_session_valid_sql : Bytes
is_session_valid_sql = sql_lines (
    "" ∷ "        CREATE OR REPLACE FUNCTION is_session_valid(p_session UUID, "
    ∷ "                p_http_ua TEXT, p_ip INET) RETURNS BOOLEAN" ∷ "        AS $func$"
    ∷ "        BEGIN" ∷ "            SELECT id FROM tb_session WHERE id = p_session "
    ∷ "                    AND http_ua = p_http_ua AND ip = p_ip AND expiry < now();" ∷ ""
    ∷ "            IF NOT FOUND THEn" ∷ "                RETURN false;" ∷ "            END IF;" ∷ ""
    ∷ "            RETURN true;" ∷ "        END;" ∷ "        $func$ LANGUAGE plpgsql;" ∷ "    "
    ∷ [])
