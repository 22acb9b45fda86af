-- ===== src/Web/Routes.antt =====
-- The handlers that `hcv_webserver_run` (hcv_web.cc) sets for the pages and the forms.
pub mod Answers
use helpcovid.Database.{Server}
use helpcovid.Template.Expand.{FileStat}
use helpcovid.Template.Registry.{Expander}
use helpcovid.Template.Data.{Request}
use helpcovid.Prelude.{some, none, length, leb, ℕ, codes, Option, List, Bytes}
use helpcovid.Outcome.{◌>>◌, web, ok, ◌>>=◌, require, Outcome}
use helpcovid.Dict.{Dict}
use helpcovid.Web.Server.{WebServer, incremented_request_counter}
use helpcovid.Views.Pages.{login_view_get, profile_view_get}
use helpcovid.Views.Home.{
  html_response_max_len, login_view_post, register_view_post, home_view_get, register_view_get,
  Json,
}
use mathlib.Core.Option

-- What the handlers use: the registered expanders, the web root and the files; httplib's set_header
-- and set_content; the database and its query of a password; std::hash and Json::writeString.
pub record Site {ℓ κ} (D : Type ℓ) (R : Type κ) : Type (ℓ ⊔ κ) where
  pub dict : Dict Expander
  pub web_root : Bytes
  pub files : Bytes → FileStat
  pub set_header : Bytes → Bytes → R → R
  pub set_content : Bytes → Bytes → R → R
  pub server : Server D
  pub query : Bytes → List Bytes → D → Outcome (Option Bytes × D)
  pub hash : Bytes → ℕ
  pub write_json : List (Bytes × Json) → Bytes
  pub cxx_file : Bytes
  pub gitid : Bytes

-- The handlers: Get of "", "/" and "^/?$"; Get of "/login" and Post of "/ajax/login"; Get and Post of
-- "/register"; Get of "/profile".
pub data Route : Type 0 where
  root_empty root_slash root_regex login_get login_post register_get register_post profile_get :
      Route

abbrev pub json_response_max_len : ℕ
json_response_max_len = 262144

-- The content type, and the test of the size.
abbrev pub content_type : Route → Bytes
content_type login_post = codes "application/json"
content_type register_post = codes "application/json"
content_type _ = codes "text/html"

unfoldable pub check_size : Route → Bytes → Outcome (Unit {0})
check_size root_empty text = require (leb (length text) html_response_max_len) web 728
check_size root_slash text = ok tt
check_size root_regex text = require (leb (length text) html_response_max_len) web 750
check_size login_get text = require (leb (length text) html_response_max_len) web 765
check_size login_post text = require (leb (length text) json_response_max_len) web 780
check_size register_get text = require (leb (length text) html_response_max_len) web 793
check_size register_post text = require (leb (length text) json_response_max_len) web 808
check_size profile_get text = require (leb (length text) html_response_max_len) web 823

module _ {ℓ κ} {D : Type ℓ} {R : Type κ} (site : Site D R) where
  -- A view without a use of the database.
  abbrev pub keeping : R → D → Outcome Bytes → Outcome (Option (Bytes × Option R × D))
  keeping resp db view = view >>= λ text. ok (some (text, some resp, db))

  abbrev pub home : Request → R → ℕ → D → Outcome (Option (Bytes × Option R × D))
  home req resp reqcnt db = do
    shown ←
        home_view_get (site.dict) (site.web_root) (site.files) (site.server) (site.set_header)
          (site.hash) req resp reqcnt
    ok (some (shown.0, shown.1, db))

  -- The view that a handler calls: the text, the response and the database; none while random bytes
  -- run out.
  unfoldable pub view_of :
      List ℕ → Option ℕ → Route → Request → R → ℕ → D → Outcome (Option (Bytes × Option R × D))
  unfolding home_view_get login_view_get profile_view_get register_view_get register_view_post
      login_view_post
  view_of draws now root_empty req resp reqcnt db = home req resp reqcnt db
  view_of draws now root_slash req resp reqcnt db = home req resp reqcnt db
  view_of draws now root_regex req resp reqcnt db = home req resp reqcnt db
  view_of draws now login_get req resp reqcnt db =
      keeping resp db (login_view_get (site.dict) (site.web_root) (site.files) req reqcnt)
  view_of draws now login_post req resp reqcnt db = do
    posted ← login_view_post (site.query) (site.write_json) req db
    ok (some (posted.0, some resp, posted.1))
  view_of draws now register_get req resp reqcnt db =
      register_view_get (site.dict) (site.web_root) (site.files) (site.server) (site.set_header)
        (site.hash) draws now req resp reqcnt db
  view_of draws now register_post req resp reqcnt db =
      keeping resp db (register_view_post (site.write_json) (site.cxx_file) (site.gitid) req reqcnt)
  view_of draws now profile_get req resp reqcnt db =
      keeping resp db (profile_view_get (site.dict) (site.web_root) (site.files) req reqcnt)

  -- A handler: the web server with its counter, the response and the database.
  unfoldable pub handle :
      List ℕ
      → Option ℕ
      → Route
      → Request
      → R
      → D
      → WebServer
      → Outcome (Option (WebServer × Option R × D))
  unfolding view_of check_size incremented_request_counter
  handle draws now route req resp db s = do
    let counted = incremented_request_counter s
    shown ← view_of draws now route req resp (counted.0) db
    elim shown [
      | none ↦ ok none
      | some answer ↦ (do
        check_size route (answer.0)
        ok (
            some (
              counted.1,
              Option.map (site.set_content (answer.0) (content_type route)) (answer.1),
              answer.2,
            )))
    ]
