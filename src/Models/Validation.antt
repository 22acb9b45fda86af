-- ===== src/Models/Validation.antt =====
-- hcv_models.cc: which users `hcv_user_model_validate` refuses.
use mathlib.Core.List.{[]}
use helpcovid.Outcome.{◌>>=◌, ok, Outcome}
use helpcovid.Models.{
  true, ok, codes, ◌∷◌, false, is_empty, Outcome, not, List, validator_email, Bytes, Bool,
  validator_required, user_model_validate, user_model_create, UserModel,
}
use helpcovid.Prelude.{◌∙◌, ap, if-false, codes, arith, ◌&&◌, is_empty, ◌≡◌, Bytes}

-- All four fields are filled in.
abbrev pub is_complete : UserModel → Bool
is_complete model =
    not (is_empty model.first_name)
    && not (is_empty model.family_name)
    && not (is_empty model.email)
    && not (is_empty model.gender)

-- `hcv_user_model_validate` refuses a user exactly if all four fields are filled in and the address
-- does not match the pattern; it accepts every user with an empty field.
pub user_model_validate-refuses :
    (is_email : Bytes → Bool) (model status : UserModel)
    → (user_model_validate is_email model status).0
      ≡ not (is_complete model && not (is_email model.email))
unfolding user_model_validate validator_required validator_email
user_model_validate-refuses is_email model status = ground arith

-- `hcv_user_model_create` runs the statement on a user with an empty field as on a valid one: if the
-- statement returns, the user is said to be created.
pub user_model_create-incomplete :
    {D : Type 0} (is_email : Bytes → Bool) (query : Bytes → List Bytes → D → Outcome D)
    (model status : UserModel) (db db' : D)
    → is_complete model ≡ false
    → query
        (codes "user_create")
        (model.first_name ∷ model.family_name ∷ model.email ∷ model.gender ∷ [])
        db
      ≡ ok db'
    → user_model_create is_email query model status db
      ≡ ok ((true, (user_model_validate is_email model status).1), db')
unfolding user_model_create
user_model_create-incomplete is_email query model status db db' h e =
    let all_right = user_model_validate-refuses is_email model status in
    let accepted : (user_model_validate is_email model status).0 ≡ true =
      ground (arith, all_right, h) in
    if-false _ _ (ap not accepted)
    ∙ ap (λ m. m >>= λ db. ok ((true, (user_model_validate is_email model status).1), db)) e
