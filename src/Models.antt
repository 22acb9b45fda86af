-- ===== src/Models.antt =====
-- hcv_models.cc: the validators, the validation of a user and its creation. The messages go to a
-- `status` of the same shape as the user.
pub mod Validation
pub mod Login
pub mod Statements
pub mod Refused
use helpcovid.Outcome.{ok, ◌>>=◌, Outcome}
use helpcovid.Prelude.{
  ◌++◌, [], ◌∷◌, true, false, ◌&&◌, not, is_empty, if◌then◌else◌, codes, List, Bool, Bytes, ℕ,
}

-- `hcv_user_model`, its fields that are validated
pub record UserModel : Type 0 where
  pub first_name : Bytes
  pub family_name : Bytes
  pub email : Bytes
  pub gender : Bytes

-- `hcv_model_validator_required`: the result and the message.
unfoldable pub validator_required : Bytes → Bytes → Bool × Bytes
validator_required field tag =
    if is_empty field
    then (false, codes "The " ++ (tag ++ codes " is required"))
    else (true, codes "OK")

-- Does a string match the pattern "(\\w+)(\\.|_)?(\\w*)@(\\w+)(\\.(\\w+))+"? `std::regex_match`.
module _ (is_email : Bytes → Bool) where
  -- `hcv_model_validator_email`
  unfoldable pub validator_email : Bytes → Bytes → Bool × Bytes
  validator_email field tag =
      if not (is_email field)
      then (false, codes "The " ++ (tag ++ codes " is invalid"))
      else (true, codes "OK")

  -- `hcv_user_model_validate`: the result and the status.
  unfoldable pub user_model_validate : UserModel → UserModel → Bool × UserModel
  unfolding validator_required validator_email
  user_model_validate model status =
      let first = validator_required model.first_name (codes "first name") in
      let family = validator_required model.family_name (codes "family name") in
      let email = validator_required model.email (codes "e-mail address") in
      let gender = validator_required model.gender (codes "gender") in
      let valid = validator_email model.email (codes "e-mail address") in
      let required : UserModel = record {
        first_name = first.1;
        family_name = family.1;
        email = email.1;
        gender = gender.1;
      } in
      if first.0 && family.0 && email.0 && gender.0
      then (valid.0, record required { email = valid.1 })
      else (true, required)

  -- `hcv_user_model_create` on the database `D`, with `query`, the run of a prepared statement on its
  -- bound values: the result and the status, and the database.
  unfoldable pub user_model_create :
      {D : Type 0}
      → (Bytes → List Bytes → D → Outcome D)
      → UserModel
      → UserModel
      → D
      → Outcome ((Bool × UserModel) × D)
  user_model_create query model status db =
      let checked = user_model_validate model status in
      let created =
        query (codes "user_create")
          (model.first_name ∷ model.family_name ∷ model.email ∷ model.gender ∷ []) db
        >>= λ db. ok ((true, checked.1), db) in
      if not checked.0 then ok (checked, db) else created
