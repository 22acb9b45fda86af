-- ===== src/Database/Instance.antt =====
-- The row of this process in the table of running instances: `sql_register_helpcovid_instance` and
-- `sql_unregister_helpcovid_instance` (hcv_database.cc).
use helpcovid.Database.Connection.{Connector, ProcessInfo, signed_text}
use helpcovid.Database.InstanceSql.{create_instance_sql, insert_instance_sql}
use helpcovid.Database.Thrown.{or_thrown}
use helpcovid.Web.Cookie.Make.{is_positive_long}
use helpcovid.Cstr.{c_str}
use helpcovid.Outcome.{Outcome, ok, database, require, require_some, ◌>>=◌, ◌>>◌}
use helpcovid.Prelude.{List, ℕ, ltb, length, codes, [], ◌∷◌, ◌++◌, if◌then◌else◌, Bytes}

-- A part of the text of the values: a literal, a text that libpqxx quotes, a signed number of some bits,
-- and the rest `file:line` of a comment, with its end of line.
pub data Piece : Type 0 where
  plain quoted : Bytes → Piece
  number : ℕ → ℕ → Piece
  place : Bytes → ℕ → Piece

unfoldable pub piece_text : (Bytes → Bytes) → Piece → Bytes
unfolding signed_text
piece_text quote (plain text) = text
piece_text quote (quoted text) = quote text
piece_text quote (number w n) = signed_text w n
piece_text quote (place file lin) = file ++ (codes ":" ++ (signed_text 32 lin ++ codes "\n"))

unfoldable pub pieces_text : (Bytes → Bytes) → List Piece → Bytes
unfolding piece_text
pieces_text quote [] = []
pieces_text quote (piece ∷ rest) = piece_text quote piece ++ pieces_text quote rest

-- The values of the row. The two names of users are empty.
unfoldable pub instance_values : ProcessInfo → Bytes → Bytes → List Piece
unfolding c_str
instance_values proc curexepath cwdpath =
    plain (codes "\n VALUES (")
    ∷ quoted (c_str (proc.hostname))
    ∷ plain (codes ", ")
    ∷ number 32 (proc.pid)
    ∷ plain (codes ", ")
    ∷ quoted curexepath
    ∷ plain (codes ",")
    ∷ plain (codes "\n ---  @")
    ∷ place (proc.cxx_file) 575
    ∷ plain (codes " to_timestamp(")
    ∷ number 64 (proc.now)
    ∷ plain (codes "), ")
    ∷ plain (codes " to_timestamp(")
    ∷ number 64 (proc.timelong)
    ∷ plain (codes "), ")
    ∷ quoted cwdpath
    ∷ plain (codes ", ")
    ∷ quoted (c_str (proc.topdirectory))
    ∷ plain (codes ", -- @! ")
    ∷ place (proc.cxx_file) 579
    ∷ plain (codes " ")
    ∷ quoted (c_str (proc.gitid))
    ∷ plain (codes ",\n")
    ∷ plain (codes " ")
    ∷ quoted (c_str (proc.lastgitcommit))
    ∷ plain (codes ",\n")
    ∷ plain (codes " ")
    ∷ quoted (c_str (proc.md5sum))
    ∷ plain (codes ",")
    ∷ plain (codes "\n ---  @")
    ∷ place (proc.cxx_file) 583
    ∷ number 32 (proc.uid)
    ∷ plain (codes ", ")
    ∷ number 32 (proc.euid)
    ∷ plain (codes ", ")
    ∷ quoted []
    ∷ plain (codes ", ")
    ∷ quoted []
    ∷ plain (codes ",")
    ∷ plain (codes "\n ---  @")
    ∷ place (proc.cxx_file) 588
    ∷ number 32 (proc.gid)
    ∷ plain (codes ", ")
    ∷ number 32 (proc.egid)
    ∷ plain (codes ", ")
    ∷ quoted (c_str (proc.cxx_compiler))
    ∷ plain (codes " )\n")
    ∷ []

-- The statement that inserts the row.
unfoldable pub instance_sql : (Bytes → Bytes) → ProcessInfo → Bytes → Bytes → Bytes
unfolding instance_values insert_instance_sql pieces_text
instance_sql quote proc curexepath cwdpath =
    insert_instance_sql ++ pieces_text quote (instance_values proc curexepath cwdpath)

unfoldable pub delete_instance_sql : ℕ → Bytes
unfolding signed_text
delete_instance_sql serial =
    codes "DELETE FROM tb_helpcovidinstance WHERE hcvinst_id = "
    ++ (signed_text 64 serial ++ codes "\n")

module _ {ℓ} {D : Type ℓ} (pq : Connector D) where
  -- `sql_register_helpcovid_instance`: the row's serial, which `hcv_database_serial` takes, and the
  -- transaction.
  unfoldable pub register_helpcovid_instance : ProcessInfo → D → Outcome (ℕ × D)
  unfolding create_instance_sql instance_sql c_str
  register_helpcovid_instance proc db = do
    created ← or_thrown (pq.exec0 create_instance_sql db) 488
    curexepath ← require_some (proc.executable) database 537
    require (ltb (length curexepath) 198) database 537
    cwdpath ← require_some (proc.working_directory) database 541
    inserted ←
        or_thrown
          (pq.exec0 (instance_sql (pq.quote) proc (c_str curexepath) (c_str cwdpath)) created) 597
    r2serial ← or_thrown (pq.exec1 (codes "SELECT LASTVAL();") inserted) 599
    helpcovidinstserial ← or_thrown (pq.as_long (r2serial.0)) 600
    ok (helpcovidinstserial, r2serial.1)

  -- `sql_unregister_helpcovid_instance` on the serial: the new one, and the transaction.
  unfoldable pub unregister_helpcovid_instance : ℕ → D → Outcome (ℕ × D)
  unfolding is_positive_long delete_instance_sql
  unregister_helpcovid_instance serial db =
      if is_positive_long serial
      then (do deleted ← or_thrown (pq.exec (delete_instance_sql serial) db) 618; ok (0, deleted))
      else ok (serial, db)
