-- ===== src/Database/Tracked/Closed.antt =====
-- The rows of running instances through the transactions of `hcv_initialize_database` and through
-- `hcv_close_database` (hcv_database.cc).
use helpcovid.Database.Rows.{may_change_rows}
use helpcovid.Database.Connection.{Database, Connector}
use helpcovid.Web.Cookie.Make.{is_positive_long}
use helpcovid.Prelude.{◌==◌, ◌∷◌, true, not, all, List, ℕ, ◌≡◌}
use helpcovid.Database.Tracked.{may_change_rows, Tracks}

module _ {ℓ} {D : Type ℓ} (pq : Connector D) (rows : D → List ℕ) (lastval : D → ℕ)
    (law : Tracks pq rows lastval) where
  -- A new row: its serial is positive and no other row has it.
  abbrev Adds : ℕ → D → D → Type 0
  Adds n db after =
      (rows after ≡ n ∷ rows db)
      × (is_positive_long n ≡ true)
      × (all (λ m. not (m == n)) (rows db) ≡ true)
