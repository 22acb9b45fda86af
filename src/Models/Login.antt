-- ===== src/Models/Login.antt =====
-- `hcv_user_model_authenticate` (hcv_models.cc), with the run of a prepared statement, which gives the
-- text of the first row's first column or none, as a parameter.
use helpcovid.Outcome.{ok, models, thrown, ◌>>=◌, Outcome}
use helpcovid.Prelude.{equal, some, none, [], ◌∷◌, codes, Bool, Option, List, Bytes}

-- The text of a row that is missing is asked for by `as`, which throws.
unfoldable pub user_model_authenticate {ℓ} :
    {D : Type ℓ}
    → (Bytes → List Bytes → D → Outcome (Option Bytes × D))
    → Bytes
    → Bytes
    → D
    → Outcome (Bool × D)
user_model_authenticate query email passwd db = do
  res ← query (codes "user_get_password_by_email") (email ∷ []) db
  elim (res.0) [ none ↦ thrown models 122 | some stored ↦ ok (equal stored passwd, res.1) ]
