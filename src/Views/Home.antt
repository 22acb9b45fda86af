-- ===== src/Views/Home.antt =====
-- `hcv_home_view_get`, `hcv_register_view_get` and the views of POST requests (hcv_views.cc). The text
-- of a JSON object, the response of httplib, and the run of a prepared statement are parameters.
use helpcovid.Template.Language.{request_language}
use helpcovid.Cstr.{c_str}
use mathlib.Core.Option.{none}
use mathlib.Core.Bool.{false, true}
use helpcovid.Database.{Server}
use helpcovid.Template.Expand.{expand_template_file, FileStat}
use helpcovid.Outcome.{views, ok, ◌>>=◌, require, ◌>>◌, Outcome}
use helpcovid.Template.Registry.{Expander}
use helpcovid.Prelude.{length, ltb, equal, ◌∷◌, ◌++◌, some, codes, [], ℕ, Option, List, Bool, Bytes}
use helpcovid.Dict.{Dict}
use helpcovid.Template.Data.{TemplateData, Request, http_template_data}
use helpcovid.Web.Cookie.Register.{Exchange, web_forget_cookie, web_register_fresh_cookie}
use helpcovid.Models.Login.{user_model_authenticate}

abbrev pub html_response_max_len : ℕ
html_response_max_len = 131072

-- The values of a JSON object.
pub data Json : Type 0 where
  json_bool : Bool → Json
  json_text : Bytes → Json
  json_int : ℕ → Json

-- The value of the header, or the empty text without it.
abbrev pub agent_text : Option Bytes → Bytes
agent_text none = []
agent_text (some s) = s

-- What the two cookie functions read of the data of a request.
abbrev pub exchange {ℓ} : {R : Type ℓ} → Request → R → Option (Exchange R)
exchange req resp =
    some (record { agent = some (agent_text (req.user_agent)); response = some resp })

module _ (dict : Dict Expander) (web_root : Bytes) (files : Bytes → FileStat) where
  -- A view's template file, for data whose language has been asked for or not.
  unfoldable pub expand_page : Bytes → TemplateData → Outcome Bytes
  expand_page page td = do
    let thtml = web_root ++ page
    r ← expand_template_file dict thtml (files thtml) td
    ok r.1

  module _ {ℓ κ} {D : Type ℓ} {R : Type κ} (server : Server D) (set_header : Bytes → Bytes → R → R)
      (hash : Bytes → ℕ) where
    -- `hcv_home_view_get`: the text and the response.
    unfoldable pub home_view_get : Request → R → ℕ → Outcome (Bytes × Option R)
    unfolding expand_page web_forget_cookie
    home_view_get req resp reqcnt = do
      require (equal (req.method) (codes "GET")) views 101
      res ←
          expand_page (codes "html/login.html")
            ((request_language (http_template_data req reqcnt)).0)
      require (ltb (length res) html_response_max_len) views 111
      ok (res, web_forget_cookie server set_header hash (exchange req resp))

    -- `hcv_register_view_get`: the text, the response and the database; none while the random bytes
    -- run out.
    unfoldable pub register_view_get :
        List ℕ → Option ℕ → Request → R → ℕ → D → Outcome (Option (Bytes × Option R × D))
    unfolding expand_page web_register_fresh_cookie
    register_view_get draws now req resp reqnum db = do
      require (equal (req.method) (codes "GET")) views 148
      elim (web_register_fresh_cookie server set_header hash (exchange req resp) draws now db) [
        | none ↦ ok none
        | some registering ↦ (do
          registered ← registering
          html ← expand_page (codes "html/register.html") (http_template_data req reqnum)
          ok (some (html, registered.1, registered.2)))
      ]

-- `hcv_register_view_post`; `write_json` is Json::writeString.
unfoldable pub register_view_post :
    (List (Bytes × Json) → Bytes) → Bytes → Bytes → Request → ℕ → Outcome Bytes
register_view_post write_json cxx_file gitid req reqnum = do
  require (equal (req.method) (codes "POST")) views 174
  ok (
      write_json (
        (codes "unimplemented_cxx_function", json_text (codes "hcv_expand_template_file"))
        ∷ (codes "unimplemented_request_number", json_int reqnum)
        ∷ (codes "unimplemented_request_path", json_text (c_str (req.path)))
        ∷ (codes "unimplemented_cxx_file", json_text cxx_file)
        ∷ (codes "unimplemented_cxx_line", json_int 211)
        ∷ (codes "gitid", json_text gitid)
        ∷ []))

abbrev pub message_en : Bool → Bytes
message_en true = codes "OK"
message_en false = codes "Your e-mail address and password do not match. Please try again."

abbrev pub message_fr : Bool → Bytes
message_fr true = codes "OK"
message_fr false =
    codes "Votre adresse e-mail et votre mot de  passe ne correspondent pas. Veuillez r"
    ++ (195 ∷ 169 ∷ codes "essayer.")

-- `hcv_login_view_post`
unfoldable pub login_view_post {ℓ} :
    {D : Type ℓ}
    → (Bytes → List Bytes → D → Outcome (Option Bytes × D))
    → (List (Bytes × Json) → Bytes)
    → Request
    → D
    → Outcome (Bytes × D)
unfolding user_model_authenticate
login_view_post query write_json req db = do
  require (equal (req.method) (codes "POST")) views 55
  checked ←
      user_model_authenticate query (req.param_value (codes "email"))
        (req.param_value (codes "password")) db
  ok (
    write_json (
        (codes "status", json_bool (checked.0))
        ∷ (codes "msg_en", json_text (message_en (checked.0)))
        ∷ (codes "msg_fr", json_text (message_fr (checked.0)))
        ∷ []),
    checked.1,
  )
