-- ===== src/Database/Registered.antt =====
-- Which statements can be run by name once `hcv_initialize_database` (hcv_database.cc) has returned.
use mathlib.Core.Bool.{true}
use helpcovid.Cstr.{c_str}
use helpcovid.Database.InstanceSql.{create_instance_sql}
use helpcovid.Main.Settings.{KeyFile}
use helpcovid.Database.Thrown.{or_thrown, or_thrown-eq-ok}
use helpcovid.Database.Kept.{first_transaction_keeps, exec_all_keeps, Keeps}
use helpcovid.Plugins.{initialize_plugins_for_database, Plugin}
use helpcovid.Outcome.{require, database, require_some, ok-injective, >>=-eq-ok, ok}
use helpcovid.Database.Instance.{instance_sql, register_helpcovid_instance}
use helpcovid.Database.{codes, require, database, none, some, ok, false, Option, Bool, Param}
use helpcovid.Prelude.{
  refl, codes, length, ltb, ◌∙◌, ℕ, false, arith, ℕ, false, sym, none, false, ap, ◌||◌, equal, ◌∷◌,
  some, ◌≡◌, ℕ, List, Bytes,
}
use helpcovid.Database.Initialize.{
  first_transaction, prepared_statements, database_connection, exec_all, call_initializers, schema,
  prepare_statements_in_database, set_up_database, prepare_all, create_tables, clear_data,
  initialize_database,
}
use helpcovid.Database.Connection.{ProcessInfo, ProcessInfo, Database, ProcessInfo, Connector}
use mathlib.Core.List.{[]}

-- libpqxx keeps the names of the statements that the program has registered on a connection: a new
-- connection has none, `prepare` adds its name, transactions leave them alone, and the run of a
-- statement of another name throws.
pub record Registers {ℓ κ} {D : Type ℓ} {R : Type κ} (pq : Connector D)
    (exec_prepared : Bytes → List Param → D → Option (R × D)) (registered : Bytes → D → Bool)
    : Type (ℓ ⊔ κ) where
  pub connect_fresh :
      (address name : Bytes) (db : D) → pq.connect address ≡ some db → registered name db ≡ false
  pub at_once_keeps :
      (name sql : Bytes) (db after : D)
      → pq.exec_at_once sql db ≡ some after
      → registered name after ≡ registered name db
  pub transaction_keeps : (name : Bytes) → Keeps pq (registered name) (λ sql. false)
  pub prepare_adds :
      (name other sql : Bytes) (db after : D)
      → pq.prepare other sql db ≡ some after
      → registered name after ≡ (equal name other || registered name db)
  pub exec_needs :
      (name : Bytes) (params : List Param) (db : D)
      → registered name db ≡ false
      → exec_prepared name params db ≡ none

-- Is a statement of this name in a list of statements?
abbrev pub has_name : Bytes → List (Bytes × Bytes × ℕ) → Bool
has_name name [] = false
has_name name ((other, sql, lin) ∷ rest) = equal name other || has_name name rest

module _ {ℓ κ} {D : Type ℓ} {R : Type κ} (pq : Connector D)
    (exec_prepared : Bytes → List Param → D → Option (R × D)) (registered : Bytes → D → Bool)
    (law : Registers pq exec_prepared registered) (name : Bytes) where
  prepare_all_registers :
      (stmts : List (Bytes × Bytes × ℕ)) (db : D) {after : D}
      → prepare_all pq stmts db ≡ ok after
      → registered name after ≡ (has_name name stmts || registered name db)
  prepare_all_registers [] db e = ap (registered name) (sym (ok-injective e))
  prepare_all_registers ((other, sql, lin) ∷ rest) db e =
      let (next, run, e1) = >>=-eq-ok (or_thrown (pq.prepare other sql db) lin) _ e in
      let later = prepare_all_registers rest next e1 in
      let added =
        law.prepare_adds name other sql db next
          (or_thrown-eq-ok (pq.prepare other sql db) lin run) in
      ground (arith, later, added)

  clear_data_keeps :
      (cleardata : Bool) (db : D) {after : D}
      → clear_data pq cleardata db ≡ ok after
      → registered name after ≡ registered name db
  unfolding clear_data
  clear_data_keeps true db e = law.at_once_keeps name _ db _ (or_thrown-eq-ok _ 667 e)
  clear_data_keeps false db e = ap (registered name) (sym (ok-injective e))

  register_keeps :
      (proc : ProcessInfo) (db : D) {r : ℕ × D}
      → register_helpcovid_instance pq proc db ≡ ok r
      → registered name (r.1) ≡ registered name db
  unfolding register_helpcovid_instance
  register_keeps proc db e =
      let keeps = law.transaction_keeps name in
      let (created, run1, e1) = >>=-eq-ok (or_thrown (pq.exec0 create_instance_sql db) 488) _ e in
      let (exe, _, e2) = >>=-eq-ok (require_some (proc.executable) database 537) _ e1 in
      let (_, _, e3) = >>=-eq-ok (require (ltb (length exe) 198) database 537) _ e2 in
      let (cwd, _, e4) = >>=-eq-ok (require_some (proc.working_directory) database 541) _ e3 in
      let sql = instance_sql (pq.quote) proc (c_str exe) (c_str cwd) in
      let (inserted, run2, e5) = >>=-eq-ok (or_thrown (pq.exec0 sql created) 597) _ e4 in
      let (row, run3, e6) =
        >>=-eq-ok (or_thrown (pq.exec1 (codes "SELECT LASTVAL();") inserted) 599) _ e5 in
      let (n, _, e7) = >>=-eq-ok (or_thrown (pq.as_long (row.0)) 600) _ e6 in
      ap (λ (r : ℕ × D). registered name (r.1)) (sym (ok-injective e7))
      ∙ keeps.exec1_keeps _ inserted row refl (or_thrown-eq-ok _ 599 run3)
      ∙ keeps.exec0_keeps sql created inserted refl (or_thrown-eq-ok _ 597 run2)
      ∙ keeps.exec0_keeps create_instance_sql db created refl (or_thrown-eq-ok _ 488 run1)

  create_tables_keeps :
      (proc : ProcessInfo) (db : D) {r : ℕ × D}
      → create_tables pq proc db ≡ ok r
      → registered name (r.1) ≡ registered name db
  unfolding create_tables schema
  create_tables_keeps proc db e =
      let keeps = law.transaction_keeps name in
      let (created, run1, e1) = >>=-eq-ok (exec_all pq schema db) _ e in
      let (entered, run2, e2) = >>=-eq-ok (register_helpcovid_instance pq proc created) _ e1 in
      let (committed, run3, e3) = >>=-eq-ok (or_thrown (pq.commit (entered.1)) 723) _ e2 in
      ap (λ (r : ℕ × D). registered name (r.1)) (sym (ok-injective e3))
      ∙ keeps.commit_keeps (entered.1) committed (or_thrown-eq-ok _ 723 run3)
      ∙ register_keeps proc created run2
      ∙ exec_all_keeps pq (registered name) (λ sql. false) keeps schema db refl run1

  no_initializers :
      (calls : List (ℕ × Option Bytes)) (db : D) {after : D}
      → calls ≡ []
      → call_initializers pq calls db ≡ ok after
      → db ≡ after
  unfolding call_initializers
  no_initializers [] db h e = ok-injective e
  no_initializers (call ∷ calls) db h e = ground (arith, h)

  set_up_registers :
      (proc : ProcessInfo) (loaded : List Plugin) (cleardata : Bool) (db : D) {opened : Database D}
      → initialize_plugins_for_database loaded ≡ []
      → registered name db ≡ false
      → set_up_database pq proc loaded cleardata db ≡ ok opened
      → (after : D) × (opened.dbconn ≡ some after)
        × (registered name after ≡ has_name name prepared_statements)
  unfolding set_up_database prepare_statements_in_database
  set_up_registers proc loaded cleardata db alone fresh e =
      let (cleared, run1, e1) = >>=-eq-ok (clear_data pq cleardata db) _ e in
      let (first, run2, e2) = >>=-eq-ok (first_transaction pq proc cleardata cleared) _ e1 in
      let (second, run3, e3) = >>=-eq-ok (create_tables pq proc (first.1)) _ e2 in
      let (prepared, run4, e4) = >>=-eq-ok (prepare_statements_in_database pq (second.1)) _ e3 in
      let before =
        create_tables_keeps proc (first.1) run3
        ∙ first_transaction_keeps pq (registered name) (λ sql. false) (law.transaction_keeps name)
            proc cleardata cleared
            (λ logged checked. (law.transaction_keeps name).exec0_keeps _ cleared logged refl) refl
            refl run2
        ∙ clear_data_keeps cleardata db run1
        ∙ fresh in
      let later = prepare_all_registers prepared_statements (second.1) run4 in
      let (plugged, run5, e5) =
        >>=-eq-ok (call_initializers pq (initialize_plugins_for_database loaded) prepared) _ e4 in
      let same = no_initializers (initialize_plugins_for_database loaded) prepared alone run5 in
      rw (← ok-injective e5, ← same) (prepared, refl, ground (arith, before, later))

-- Where no plugin has an initializer for the database, the statements that can be run on the connection
-- after `hcv_initialize_database` are those of `hcv_prepare_statements_in_database`.
pub initialize_database-registered {ℓ κ} :
    {D : Type ℓ} {R : Type κ} (pq : Connector D)
    (exec_prepared : Bytes → List Param → D → Option (R × D)) (registered : Bytes → D → Bool)
    (law : Registers pq exec_prepared registered) (name : Bytes) (proc : ProcessInfo)
    (loaded : List Plugin) (kf : KeyFile) (uri address : Bytes) (cleardata : Bool)
    (before : Database D) {opened : Database D}
    → database_connection kf uri ≡ ok (some address)
    → initialize_plugins_for_database loaded ≡ []
    → initialize_database pq proc loaded kf uri cleardata before ≡ ok opened
    → (after : D) × (opened.dbconn ≡ some after)
      × (registered name after ≡ has_name name prepared_statements)
unfolding initialize_database
initialize_database-registered pq exec_prepared registered law name proc loaded kf uri address
      cleardata before chosen alone e =
    let (db, connected, e1) = >>=-eq-ok (or_thrown (pq.connect address) 655) _ (rw chosen at e) in
    let fresh =
      law.connect_fresh address name db (or_thrown-eq-ok (pq.connect address) 655 connected) in
    set_up_registers pq exec_prepared registered law name proc loaded cleardata db alone fresh e1
