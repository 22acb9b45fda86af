-- ===== src/Web/Handlers.antt =====
-- All handlers of `hcv_webserver_run` (hcv_web.cc), and the routes under which it sets them. Which
-- handler httplib runs for a request is a parameter.
pub mod Head
use mathlib.Core.Option
use helpcovid.Template.Data.{Request}
use helpcovid.Prelude.{[], ◌∷◌, none, codes, Bool, if◌then◌else◌, Bytes, ℕ, Option, List, some}
use helpcovid.Web.Cookie.Make.{is_positive_long}
use helpcovid.Database.Connection.{ProcessInfo}
use helpcovid.Web.Routes.{Route, Site, handle}
use helpcovid.Web.Status.{Doubles, Snapshot, Member, web_get_json_status}
use helpcovid.Web.Status.Page.{web_get_html_status}
use helpcovid.Web.Server.{WebServer, incremented_request_counter}
use helpcovid.Random.{Generator, Random}
use helpcovid.Outcome.{◌>>=◌, Outcome, ok}

-- The handlers of the pages and forms; those of /status.json and /status.html; and those of /ajax/ and
-- /images/, which only log.
pub data Handler : Type 0 where
  page : Route → Handler
  status_json status_html ajax_get ajax_post images_get : Handler

-- The calls of `Get` and of `Post`, in order, with their patterns.
unfoldable pub get_routes : List (Bytes × Handler)
get_routes =
    (codes "/status.json", status_json)
    ∷ (codes "/status.html", status_html)
    ∷ (codes "/ajax/", ajax_get)
    ∷ ([], page Route.root_empty)
    ∷ (codes "/", page Route.root_slash)
    ∷ (codes "^/?$", page Route.root_regex)
    ∷ (codes "/login", page Route.login_get)
    ∷ (codes "/register", page Route.register_get)
    ∷ (codes "/profile", page Route.profile_get)
    ∷ (codes "/images/", images_get)
    ∷ []

unfoldable pub post_routes : List (Bytes × Handler)
post_routes =
    (codes "/ajax/", ajax_post)
    ∷ (codes "/ajax/login", page Route.login_post)
    ∷ (codes "/register", page Route.register_post)
    ∷ []

-- What the status pages use: the doubles, the process and its snapshot, the plugins, Json::writeString,
-- and the random generator.
pub record StatusSite (F G P : Type 0) : Type 0 where
  pub doubles : Doubles F
  pub process : ProcessInfo
  pub snapshot : Snapshot F
  pub loaded : List Bytes
  pub write_status : List (Bytes × Member F) → Bytes
  pub generator : Generator G P
  pub is_deterministic : Bool

-- What a handler acts on: the web server, the response, the database and the thread's random numbers.
pub record Serving (R D G P : Type 0) : Type 0 where
  pub web_server : WebServer
  pub response : Option R
  pub database : D
  pub random : Random G
  pub shared : P

-- `if (reqcnt<=0) reqcnt=1;`
abbrev pub positive_count : ℕ → ℕ
positive_count reqcnt = if is_positive_long reqcnt then reqcnt else 1

module _ {R D F G P : Type 0} (site : Site D R) (status : StatusSite F G P) where
  -- The handler of /status.json.
  unfoldable pub handle_status_json : R → Serving R D G P → Serving R D G P
  unfolding incremented_request_counter web_get_json_status is_positive_long
  handle_status_json resp s =
      let counted = incremented_request_counter (s.web_server) in
      record s {
        web_server = counted.1;
        response = some (
            web_get_json_status (status.doubles) (status.process) (status.snapshot) (status.loaded)
              (positive_count (counted.0)) (status.write_status) (site.set_content) resp);
      }

  -- The handler of /status.html.
  unfoldable pub handle_status_html : R → Serving R D G P → Serving R D G P
  unfolding incremented_request_counter web_get_html_status is_positive_long
  handle_status_html resp s =
      let counted = incremented_request_counter (s.web_server) in
      let shown =
        web_get_html_status (status.doubles) (s.web_server.weburl) (status.process)
          (status.snapshot) (status.loaded) (positive_count (counted.0)) (site.set_content)
          (status.generator) (status.is_deterministic) (s.random) (s.shared) resp in
      record s {
        web_server = counted.1;
        response = some (shown.0);
        random = shown.1;
        shared = shown.2;
      }

  -- The handlers that only log.
  unfoldable pub handle_unimplemented : Serving R D G P → Serving R D G P
  unfolding incremented_request_counter
  handle_unimplemented s = record s { web_server = (incremented_request_counter (s.web_server)).1 }

  -- A handler on a request and its response; none while the random bytes of a cookie run out.
  unfoldable pub run_handler :
      List ℕ
      → Option ℕ
      → Handler
      → Request
      → R
      → Serving R D G P
      → Outcome (Option (Serving R D G P))
  unfolding handle_status_json handle_status_html handle_unimplemented
  run_handler draws now (page route) req resp s = do
    answered ← handle site draws now route req resp (s.database) (s.web_server)
    ok (
        Option.map
          (λ answer. record s { web_server = answer.0; response = answer.1; database = answer.2 })
          answered)
  run_handler draws now status_json req resp s = ok (some (handle_status_json resp s))
  run_handler draws now status_html req resp s = ok (some (handle_status_html resp s))
  run_handler draws now ajax_get req resp s = ok (some (handle_unimplemented s))
  run_handler draws now ajax_post req resp s = ok (some (handle_unimplemented s))
  run_handler draws now images_get req resp s = ok (some (handle_unimplemented s))

  -- A request, by the handler that httplib finds among the routes for the method and the path.
  unfoldable pub serve :
      (List (Bytes × Handler) → List (Bytes × Handler) → Bytes → Bytes → Option Handler)
      → List ℕ
      → Option ℕ
      → Request
      → R
      → Serving R D G P
      → Outcome (Option (Serving R D G P))
  unfolding run_handler
  serve dispatch draws now req resp s =
      elim (dispatch get_routes post_routes (req.method) (req.path)) [
        | none ↦ ok (some s)
        | some found ↦ run_handler draws now found req resp s
      ]
