-- ===== src/Database/Tracked.antt =====
-- What the server makes of the table of running instances, and the steps of `hcv_initialize_database`
-- (hcv_database.cc) that leave it alone.
pub mod Closed
use helpcovid.Decimal.{decimal}
use helpcovid.Database.Rows.{may_change_rows}
use helpcovid.Database.Logged.{length-logreqbuf, fullreqbuf_whole}
use helpcovid.Database.Kept.{Keeps}
use helpcovid.Main.Settings.{KeyFile}
use helpcovid.Plugins.{initialize_plugins_for_database, Plugin}
use mathlib.Core.List.{[]}
use helpcovid.Database.Log.{is_loggable, logreqbuf, fullreqbuf}
use helpcovid.Database.Connection.{signed_text, Database, Connector, ProcessInfo}
use helpcovid.Database.Instance.{
  place, plain, pieces_text, Piece, instance_values, unregister_helpcovid_instance, instance_sql,
  delete_instance_sql, register_helpcovid_instance,
}
use helpcovid.Database.InstanceSql.{create_instance_sql, insert_instance_sql}
use helpcovid.Database.Initialize.{
  prepared_statements, database_connection, prepare_statements_in_database, clear_data,
  set_up_database, initialize_database, create_tables, close_database, exec_all, prepare_all,
  first_transaction, call_initializers, schema,
}
use helpcovid.Database.Thrown.{or_thrown, or_thrown-eq-ok}
use helpcovid.Cstr.{starts_with, c_str}
use helpcovid.Web.Cookie.Make.{is_positive_long}
use helpcovid.Outcome.{
  require_some-eq-ok, some-injective, ok, database, require, require_some, >>=-eq-ok, ok-injective,
}
use helpcovid.Prelude.{
  ◌||◌, ◌^◌, ◌-◌, ◌+◌, ◌++◌, ◌&&◌, not-eq-true, none, length, ltb, ◌∙◌, sym, and-eq-true, ◌==◌,
  if◌then◌else◌, arith, ap, Option, ◌∷◌, true, some, refl, not, codes, all, false, List, Bytes,
  Bool, ℕ, ◌≡◌,
}

-- How the statement that inserts a row starts.
abbrev pub insert_prefix : Bytes
insert_prefix = codes "\nINSERT INTO tb_helpcovidinstance"

-- The other rows.
abbrev pub without : ℕ → List ℕ → List ℕ
without n [] = []
without n (m ∷ rows) = if m == n then without n rows else m ∷ without n rows

-- How an INSERT into the table starts, up to its values: one statement.
abbrev pub is_insert : Bytes → Bool
is_insert head = starts_with insert_prefix head && all (λ c. not (c == b';')) head

-- The parentheses of a literal: how many are open behind it, and how many were opened at the outside;
-- none if it has a semicolon, a quote or a parenthesis too many.
abbrev pub parentheses : Bytes → ℕ × ℕ → Option (ℕ × ℕ)
parentheses [] counts = some counts
parentheses (c ∷ s) (depth, rows) =
    let counts : ℕ × ℕ =
      if c == b'('
      then (depth + 1, if depth == 0 then rows + 1 else rows)
      else if c == b')'
      then (depth - 1, rows)
      else (depth, rows) in
    let later = parentheses s counts in
    if c == b';' || (c == 39 || (c == b')' && depth == 0)) then none else later

-- The same for the literals among the parts of a text.
abbrev pub outside : List Piece → ℕ × ℕ → Option (ℕ × ℕ)
outside [] counts = some counts
outside (plain text ∷ rest) counts = elim (parentheses text counts) [
  | none ↦ none
  | some after ↦ outside rest after
]
outside (_ ∷ rest) counts = outside rest counts

-- No name of a file in a comment has a newline.
abbrev pub comments_end : List Piece → Bool
comments_end [] = true
comments_end (place file lin ∷ rest) = all (λ c. not (c == b'\n')) file && comments_end rest
comments_end (_ ∷ rest) = comments_end rest

-- The values of one row, in one pair of parentheses behind VALUES.
abbrev pub IsRow : List Piece → Type 0
IsRow [] = ⊥
IsRow (plain text ∷ rest) =
    (text ≡ codes "\n VALUES (")
    × (outside (plain (codes "(") ∷ rest) (0, 0) ≡ some (0, 1))
    × (comments_end rest ≡ true)
IsRow (_ ∷ rest) = ⊥

-- What the server makes of the table, whose rows are given by their serials, while no other process
-- changes it. A text that does not name the table but to create it or to index it, and that has no
-- command that changes a table without its name (`may_change_rows`), leaves the rows, as does a message
-- for the log. The INSERT of a row adds one, with a new positive serial, which LASTVAL then gives; the
-- DELETE removes the rows of its serial; the initializers of plugins leave the table alone.
pub record Tracks {ℓ} {D : Type ℓ} (pq : Connector D) (rows : D → List ℕ) (lastval : D → ℕ)
    : Type ℓ where
  pub text_keeps : Keeps pq rows may_change_rows
  pub log_keeps :
      (message : Bytes) (db after : D)
      → is_loggable message ≡ true
      → pq.exec0 (codes "DO $$BEGIN RAISE LOG '" ++ (message ++ codes "'; END;$$;")) db ≡ some after
      → rows after ≡ rows db
  pub exec0_inserts :
      (head : Bytes) (values : List Piece) (db after : D)
      → is_insert head ≡ true
      → IsRow values
      → pq.exec0 (head ++ pieces_text (pq.quote) values) db ≡ some after
      → (rows after ≡ lastval after ∷ rows db)
        × (is_positive_long (lastval after) ≡ true)
        × (all (λ m. not (m == lastval after)) (rows db) ≡ true)
  pub exec1_lastval :
      (db : D) (row : Bytes × D) (n : ℕ)
      → pq.exec1 (codes "SELECT LASTVAL();") db ≡ some row
      → pq.as_long (row.0) ≡ some n
      → n ≡ lastval db
  pub exec_deletes :
      (n : ℕ) (db after : D)
      → is_positive_long n ≡ true
      → pq.exec
          (codes "DELETE FROM tb_helpcovidinstance WHERE hcvinst_id = "
            ++ (decimal n ++ codes "\n"))
          db
        ≡ some after
      → rows after ≡ without n (rows db)
  pub prepare_keeps :
      (name sql : Bytes) (db after : D) → pq.prepare name sql db ≡ some after → rows after ≡ rows db
  pub initializer_keeps :
      (init : ℕ) (arg : Option Bytes) (db after : D)
      → pq.call_initializer init arg db ≡ some after
      → rows after ≡ rows db

without_absent :
    (n : ℕ) (rows : List ℕ) → all (λ m. not (m == n)) rows ≡ true → without n rows ≡ rows
without_absent n [] h = refl
without_absent n (m ∷ rows) h =
    let (here, later) = and-eq-true (not (m == n)) (all (λ m. not (m == n)) rows) h in
    ground (arith, here, without_absent n rows later)

pub without_added :
    (n : ℕ) (rows : List ℕ) → all (λ m. not (m == n)) rows ≡ true → without n (n ∷ rows) ≡ rows
without_added n rows h = ground (arith, without_absent n rows h)

-- No text of the schema changes the rows, nor the one that creates the table.
pub schema_keeps : all (λ (s : Bytes × ℕ). not (may_change_rows s.0)) schema ≡ true
unfolding schema may_change_rows
schema_keeps = refl

pub create_instance_keeps : may_change_rows create_instance_sql ≡ false
unfolding create_instance_sql may_change_rows
create_instance_keeps = refl

-- The texts that give a row.
pub asks_keep :
    (may_change_rows (codes "SELECT VERSION();") ≡ false)
    × (may_change_rows (codes "SHOW SERVER_VERSION;") ≡ false)
    × (may_change_rows (codes "SELECT LASTVAL();") ≡ false)
unfolding may_change_rows
asks_keep = (refl, refl, refl)

pub insert_instance-is_insert : is_insert insert_instance_sql ≡ true
unfolding insert_instance_sql starts_with
insert_instance-is_insert = refl

four_comments : (b : Bool) → b ≡ true → (b && (b && (b && (b && true)))) ≡ true
four_comments b h = rw h refl

-- The row of this process, for a source file whose name has no newline.
pub instance_values-IsRow :
    (proc : ProcessInfo) (exe cwd : Bytes)
    → all (λ c. not (c == b'\n')) (proc.cxx_file) ≡ true
    → IsRow (instance_values proc exe cwd)
unfolding instance_values
instance_values-IsRow proc exe cwd h =
    (refl, refl, four_comments (all (λ c. not (c == b'\n')) (proc.cxx_file)) h)

-- The statement that deletes a row.
pub delete_instance_sql-decimal :
    (n : ℕ)
    → is_positive_long n ≡ true
    → delete_instance_sql n
      ≡ codes "DELETE FROM tb_helpcovidinstance WHERE hcvinst_id = " ++ (decimal n ++ codes "\n")
unfolding delete_instance_sql signed_text is_positive_long
delete_instance_sql-decimal n h =
    let (_, small) = and-eq-true (ltb 0 n) (ltb n (2 ^ 63)) h in rw small refl

-- The statement of the log leaves the rows.
pub logs_keep {ℓ} :
    {D : Type ℓ} (pq : Connector D) (rows : D → List ℕ) (lastval : D → ℕ)
    (law : Tracks pq rows lastval) (proc : ProcessInfo) (cleardata : Bool) (db logged : D)
    → is_loggable (logreqbuf proc cleardata) ≡ true
    → pq.exec0 (fullreqbuf (logreqbuf proc cleardata)) db ≡ some logged
    → rows logged ≡ rows db
logs_keep pq rows lastval law proc cleardata db logged checked run =
    law.log_keeps (logreqbuf proc cleardata) db logged checked
      (rw (← fullreqbuf_whole (logreqbuf proc cleardata) (length-logreqbuf proc cleardata)) run)

module _ {ℓ} {D : Type ℓ} (pq : Connector D) (rows : D → List ℕ) (lastval : D → ℕ)
    (law : Tracks pq rows lastval) where
  pub prepare_all_keeps :
      (stmts : List (Bytes × Bytes × ℕ)) (db : D) {after : D}
      → prepare_all pq stmts db ≡ ok after
      → rows after ≡ rows db
  prepare_all_keeps [] db e = ap rows (sym (ok-injective e))
  prepare_all_keeps ((name, sql, lin) ∷ rest) db e =
      let (next, run, e1) = >>=-eq-ok (or_thrown (pq.prepare name sql db) lin) _ e in
      prepare_all_keeps rest next e1
      ∙ law.prepare_keeps name sql db next (or_thrown-eq-ok (pq.prepare name sql db) lin run)

  pub call_initializers_keeps :
      (calls : List (ℕ × Option Bytes)) (db : D) {after : D}
      → call_initializers pq calls db ≡ ok after
      → rows after ≡ rows db
  unfolding call_initializers
  call_initializers_keeps [] db e = ap rows (sym (ok-injective e))
  call_initializers_keeps ((init, arg) ∷ rest) db e =
      let (next, run, e1) = >>=-eq-ok (or_thrown (pq.call_initializer init arg db) 727) _ e in
      call_initializers_keeps rest next e1
      ∙ law.initializer_keeps init arg db next
          (or_thrown-eq-ok (pq.call_initializer init arg db) 727 run)
