-- ===== src/Database/InstanceSql.antt =====
-- The SQL text of the table of running instances (hcv_database.cc).
use helpcovid.Database.SqlText.{sql_lines}
use helpcovid.Prelude.{◌∷◌, [], Bytes}

-- The table of `sql_register_helpcovid_instance` and its indexes.
unfoldable pub create_instance_sql : Bytes
create_instance_sql = sql_lines (
    "" ∷ "CREATE TABLE IF NOT EXISTS tb_helpcovidinstance ("
    ∷ "hcvinst_id SERIAL PRIMARY KEY          -- unique serial" ∷ "           NOT NULL,"
    ∷ "hcvinst_host VARCHAR(80) NOT NULL,     -- the hostname running helpcovid"
    ∷ "hcvinst_pid  INTEGER NOT NULL,         -- the Linux process id"
    ∷ "hcvinst_execelf VARCHAR(80) NOT NULL,  -- the path of the Linux ELF executable"
    ∷ "hcvinst_startime TIMESTAMP             -- the start time of the process"
    ∷ "    DEFAULT current_timestamp,"
    ∷ "hcvinst_buildtime TIMESTAMP NOT NULL,  -- the executable build time from hcv_timelong"
    ∷ "hcvinst_cwd  VARCHAR(255) NOT NULL,    -- the current working directory from getcwd(3)"
    ∷ "hcvinst_topdir VARCHAR(255) NOT NULL,  -- the top directory from hcv_topdirectory"
    ∷ "hcvinst_gitid VARCHAR(63) NOT NULL,    -- the git id from hcv_gitid"
    ∷ "hcvinst_lastgitcommit VARCHAR(383)     -- from hcv_lastgitcommit" ∷ "    NOT NULL,"
    ∷ "hcvinst_md5sum VARCHAR(47) NOT NULL,   -- the md5sum from hcv_md5sum"
    ∷ "hcvinst_linuxuid INTEGER NOT NULL,     -- from getuid(2)"
    ∷ "hcvinst_linuxeuid INTEGER NOT NULL,    -- from geteuid(2)"
    ∷ "hcvinst_linuxuser VARCHAR(15)          -- from getuid(2) then getpwuid(3)" ∷ "    NOT NULL,"
    ∷ "hcvinst_linuxeffuser VARCHAR(15)       -- from geteuid(2) then getpwuid(3)" ∷ "    NOT NULL,"
    ∷ "hcvinst_linuxgid INTEGER NOT NULL,     -- from getgid(2)"
    ∷ "hcvinst_linuxegid INTEGER NOT NULL     -- from getegid(2)" ∷ "    NOT NULL,"
    ∷ "hcvinst_compiler_version VARCHAR(80)   -- from hcv_cxx_compiler" ∷ "    NOT NULL "
    ∷ "); --------- end of table tb_helpcovidinstance" ∷ ""
    ∷ "CREATE INDEX IF NOT EXISTS ix_helpcovinst_hostpid "
    ∷ "    ON tb_helpcovidinstance(hcvinst_host, hcvinst_pid);"
    ∷ "CREATE INDEX IF NOT EXISTS ix_helpcovinst_linuxuser "
    ∷ "    ON tb_helpcovidinstance(hcvinst_linuxuid, hcvinst_linuxuser);"
    ∷ "CREATE INDEX IF NOT EXISTS ix_helpcovinst_build"
    ∷ "    ON tb_helpcovidinstance(hcvinst_buildtime, hcvinst_gitid);"
    ∷ "CREATE INDEX IF NOT EXISTS ix_helpcovinst_meta"
    ∷ "    ON tb_helpcovidinstance(hcvinst_gitid, hcvinst_lastgitcommit);"
    ∷ "CREATE INDEX IF NOT EXISTS ix_helpcovinst_md5"
    ∷ "    ON tb_helpcovidinstance(hcvinst_md5sum);"
    ∷ "------------------------ end of indexes related to tb_helpcovidinstance" ∷ "" ∷ [])

-- The columns of the row of `sql_register_helpcovid_instance`.
unfoldable pub insert_instance_sql : Bytes
insert_instance_sql = sql_lines (
    "" ∷ "INSERT INTO tb_helpcovidinstance" ∷ "    (hcvinst_host, hcvinst_pid, hcvinst_execelf, "
    ∷ "            hcvinst_startime, hcvinst_buildtime,"
    ∷ "            hcvinst_cwd, hcvinst_topdir," ∷ "\t    hcvinst_gitid, hcvinst_lastgitcommit,"
    ∷ "\t    hcvinst_md5sum," ∷ "            hcvinst_linuxuid, hcvinst_linuxeuid,"
    ∷ "            hcvinst_linuxuser, hcvinst_linuxeffuser,"
    ∷ "            hcvinst_linuxgid, hcvinst_linuxegid," ∷ "\t    hcvinst_compiler_version)" ∷ ""
    ∷ [])
