-- ===== src/Database/Kept.antt =====
-- The steps of `hcv_initialize_database` (hcv_database.cc) that leave some part of the session's state
-- alone, whichever that part is.
use helpcovid.Database.Thrown.{or_thrown-eq-ok, or_thrown}
use helpcovid.Outcome.{require-eq-ok, ok-injective, database, require, >>=-eq-ok, ok}
use helpcovid.Database.Log.{is_loggable, logreqbuf, fullreqbuf}
use helpcovid.Database.Initialize.{exec_all, first_transaction}
use helpcovid.Prelude.{
  not-eq-true, ◌∙◌, codes, and-eq-true, ◌∷◌, sym, ap, true, not, some, all, ℕ, false, ◌≡◌, List,
  Bool, Bytes,
}
use helpcovid.Database.Connection.{ProcessInfo, Connector}
use mathlib.Core.List.{[]}

-- A part of the state that no commit changes, nor an `exec0` or an `exec1` of a text outside `writes`.
pub record Keeps {ℓ} {D : Type ℓ} {X : Type 0} (pq : Connector D) (part : D → X)
    (writes : Bytes → Bool) : Type ℓ where
  pub exec0_keeps :
      (sql : Bytes) (db after : D)
      → writes sql ≡ false
      → pq.exec0 sql db ≡ some after
      → part after ≡ part db
  pub exec1_keeps :
      (sql : Bytes) (db : D) (row : Bytes × D)
      → writes sql ≡ false
      → pq.exec1 sql db ≡ some row
      → part (row.1) ≡ part db
  pub commit_keeps : (db after : D) → pq.commit db ≡ some after → part after ≡ part db

module _ {ℓ} {D : Type ℓ} {X : Type 0} (pq : Connector D) (part : D → X) (writes : Bytes → Bool)
    (law : Keeps pq part writes) where
  pub exec_all_keeps :
      (sqls : List (Bytes × ℕ)) (db : D) {after : D}
      → all (λ (s : Bytes × ℕ). not (writes s.0)) sqls ≡ true
      → exec_all pq sqls db ≡ ok after
      → part after ≡ part db
  exec_all_keeps [] db h e = ap part (sym (ok-injective e))
  exec_all_keeps ((sql, lin) ∷ rest) db h e =
      let (this, others) =
        and-eq-true (not (writes sql)) (all (λ (s : Bytes × ℕ). not (writes s.0)) rest) h in
      let (next, run, e1) = >>=-eq-ok (or_thrown (pq.exec0 sql db) lin) _ e in
      exec_all_keeps rest next others e1
      ∙ law.exec0_keeps sql db next (not-eq-true _ this) (or_thrown-eq-ok (pq.exec0 sql db) lin run)

  pub first_transaction_keeps :
      (proc : ProcessInfo) (cleardata : Bool) (db : D) {r : Bytes × D}
      → ((logged : D)
          → is_loggable (logreqbuf proc cleardata) ≡ true
          → pq.exec0 (fullreqbuf (logreqbuf proc cleardata)) db ≡ some logged
          → part logged ≡ part db)
      → writes (codes "SELECT VERSION();") ≡ false
      → writes (codes "SHOW SERVER_VERSION;") ≡ false
      → first_transaction pq proc cleardata db ≡ ok r
      → part (r.1) ≡ part db
  unfolding first_transaction
  first_transaction_keeps proc cleardata db logs quiet quiet' e =
      let sql = fullreqbuf (logreqbuf proc cleardata) in
      let (_, checked, e1) =
        >>=-eq-ok (require (is_loggable (logreqbuf proc cleardata)) database 687) _ e in
      let (logged, run1, e2) = >>=-eq-ok (or_thrown (pq.exec0 sql db) 692) _ e1 in
      let (v, run2, e3) =
        >>=-eq-ok (or_thrown (pq.exec1 (codes "SELECT VERSION();") logged) 695) _ e2 in
      let (w, run3, e4) =
        >>=-eq-ok (or_thrown (pq.exec1 (codes "SHOW SERVER_VERSION;") (v.1)) 697) _ e3 in
      let (done, run4, e5) = >>=-eq-ok (or_thrown (pq.commit (w.1)) 701) _ e4 in
      ap (λ (r : Bytes × D). part (r.1)) (sym (ok-injective e5))
      ∙ law.commit_keeps (w.1) done (or_thrown-eq-ok _ 701 run4)
      ∙ law.exec1_keeps _ (v.1) w quiet' (or_thrown-eq-ok _ 697 run3)
      ∙ law.exec1_keeps _ logged v quiet (or_thrown-eq-ok _ 695 run2)
      ∙ logs logged (require-eq-ok (is_loggable (logreqbuf proc cleardata)) database 687 checked)
          (or_thrown-eq-ok _ 692 run1)
