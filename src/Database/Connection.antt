-- ===== src/Database/Connection.antt =====
-- What hcv_database.cc uses of libpqxx besides prepared statements, and of the process.
use helpcovid.Prelude.{◌^◌, ◌-◌, ◌∷◌, ltb, if◌then◌else◌, ℕ, Option, Bytes}
use helpcovid.Decimal.{decimal}

-- A session of a server has a state `D`; none where libpqxx throws. `exec0` and `exec1` are calls of a
-- transaction, which throw unless the result has no row, or one; `exec1` gives the row's first field.
-- `exec_at_once` is the `exec0` of a nontransaction; `call_initializer` is a plugin's function, at its
-- address, on the connection.
pub record Connector {ℓ} (D : Type ℓ) : Type ℓ where
  pub connect : Bytes → Option D
  pub exec_at_once : Bytes → D → Option D
  pub exec0 : Bytes → D → Option D
  pub exec1 : Bytes → D → Option (Bytes × D)
  pub exec : Bytes → D → Option D
  pub commit : D → Option D
  pub prepare : Bytes → Bytes → D → Option D
  pub quote : Bytes → Bytes
  pub as_long : Bytes → Option ℕ
  pub call_initializer : ℕ → Option Bytes → D → Option D

-- The global variables of hcv_database.cc: `hcv_dbconn`, `hcv_our_postgresql_server_version` and
-- `hcv_database_serial`, a long of 64 bits.
pub record Database {ℓ} (D : Type ℓ) : Type ℓ where
  pub dbconn : Option D
  pub server_version : Bytes
  pub serial : ℕ

-- The process: its build strings, the host, the file of its source, what readlink and getcwd give of
-- their buffers of 200 and 127 bytes, the time and the ids as patterns of 64 and 32 bits.
pub record ProcessInfo : Type 0 where
  pub cxx_file : Bytes
  pub gitid : Bytes
  pub lastgitcommit : Bytes
  pub md5sum : Bytes
  pub timestamp : Bytes
  pub timelong : ℕ
  pub topdirectory : Bytes
  pub cxx_compiler : Bytes
  pub hostname : Bytes
  pub pid : ℕ
  pub executable : Option Bytes
  pub working_directory : Option Bytes
  pub now : ℕ
  pub uid : ℕ
  pub euid : ℕ
  pub gid : ℕ
  pub egid : ℕ

-- A signed number of `w` bits, as `<<` and `%d` print it.
unfoldable pub signed_text : ℕ → ℕ → Bytes
unfolding decimal
signed_text w n = if ltb n (2 ^ (w - 1)) then decimal n else b'-' ∷ decimal (2 ^ w - n)
