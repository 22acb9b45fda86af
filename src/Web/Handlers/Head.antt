-- ===== src/Web/Handlers/Head.antt =====
-- A request whose method is not the one of its handler, and the counting of requests.
use Option.{none}
use helpcovid.Template.Data.{Request}
use helpcovid.Prelude.{
  sym, ap, arith, ◌^◌, ◌%◌, ◌∙◌, ◌+◌, refl, some, false, ◌≡◌, codes, Option, Bytes, equal,
}
use helpcovid.Web.Handlers.{
  Request, ℕ, List, Handler, page, status_json, status_html, ajax_get, ajax_post, images_get,
  get_routes, post_routes, Serving, StatusSite, run_handler, serve, handle_status_json,
  handle_status_html, handle_unimplemented,
}
use helpcovid.Web.Routes.{Route, Site, handle, view_of}
use helpcovid.Web.Routes.Answers.{method_of, handle-IsAnswered}
use helpcovid.Web.Server.{WebServer, incremented_request_counter}
use helpcovid.Views.Home.{home_view_get, register_view_get, register_view_post, login_view_post}
use helpcovid.Views.Pages.{login_view_get, profile_view_get, page_view}
use helpcovid.Outcome.{some-injective, ok-injective, >>=-eq-ok, ok, fatal, views}
use mathlib.Core.Option

-- Where a view stops the process on another method.
abbrev pub method_line : Route → ℕ
method_line Route.root_empty = 101
method_line Route.root_slash = 101
method_line Route.root_regex = 101
method_line Route.login_get = 42
method_line Route.login_post = 55
method_line Route.register_get = 148
method_line Route.register_post = 174
method_line Route.profile_get = 229

module _ {D R : Type 0} (site : Site D R) where
  view_of-refuses :
      (draws : List ℕ) (now : Option ℕ) (route : Route) (req : Request) (resp : R) (reqcnt : ℕ)
      (db : D)
      → equal (req.method) (method_of route) ≡ false
      → view_of site draws now route req resp reqcnt db ≡ fatal views (method_line route)
  unfolding view_of home_view_get login_view_get page_view profile_view_get register_view_get
      register_view_post login_view_post
  view_of-refuses draws now Route.root_empty req resp reqcnt db h = rw h
  view_of-refuses draws now Route.root_slash req resp reqcnt db h = rw h
  view_of-refuses draws now Route.root_regex req resp reqcnt db h = rw h
  view_of-refuses draws now Route.login_get req resp reqcnt db h = rw h
  view_of-refuses draws now Route.login_post req resp reqcnt db h = rw h
  view_of-refuses draws now Route.register_get req resp reqcnt db h = rw h
  view_of-refuses draws now Route.register_post req resp reqcnt db h = rw h
  view_of-refuses draws now Route.profile_get req resp reqcnt db h = rw h

  handle-refuses :
      (draws : List ℕ) (now : Option ℕ) (route : Route) (req : Request) (resp : R) (db : D)
      (s : WebServer)
      → equal (req.method) (method_of route) ≡ false
      → handle site draws now route req resp db s ≡ fatal views (method_line route)
  unfolding handle
  handle-refuses draws now route req resp db s h =
      rw (view_of-refuses draws now route req resp ((incremented_request_counter s).0) db h)

head_get : equal (codes "HEAD") (codes "GET") ≡ false
unfolding equal
head_get = refl

-- A HEAD request on the path of a page that is served by a GET handler ends the process, by the view's
-- HCV_FATALOUT: httplib runs the handlers of GET for HEAD, and the views demand GET.
pub serve-head :
    {D R F G P : Type 0} (site : Site D R) (status : StatusSite F G P)
    (dispatch : List (Bytes × Handler) → List (Bytes × Handler) → Bytes → Bytes → Option Handler)
    (draws : List ℕ) (now : Option ℕ) (route : Route) (req : Request) (resp : R)
    (s : Serving R D G P)
    → ((gets posts : List (Bytes × Handler)) (path : Bytes)
        → dispatch gets posts (codes "HEAD") path ≡ dispatch gets posts (codes "GET") path)
    → dispatch get_routes post_routes (codes "GET") (req.path) ≡ some (page route)
    → method_of route ≡ codes "GET"
    → req.method ≡ codes "HEAD"
    → serve site status dispatch draws now req resp s ≡ fatal views (method_line route)
unfolding serve run_handler
serve-head site status dispatch draws now route req resp s heads found of_get head =
    let chosen : dispatch get_routes post_routes (req.method) (req.path) ≡ some (page route) =
      rw head (heads get_routes post_routes (req.path) ∙ found) in
    let other : equal (req.method) (method_of route) ≡ false = rw (head, of_get) head_get in
    rw (chosen, serve)
      (rw (handle-refuses site draws now route req resp (s.database) (s.web_server) other))

-- What a page's handler has counted.
page_counts :
    {D R G P : Type 0} (site : Site D R) (draws : List ℕ) (now : Option ℕ) (route : Route)
    (req : Request) (resp : R) (s : Serving R D G P) (answered : Option (WebServer × Option R × D))
    {after : Serving R D G P}
    → handle site draws now route req resp (s.database) (s.web_server) ≡ ok answered
    → Option.map
        (λ (answer : WebServer × Option R × D). record s {
          web_server = answer.0;
          response = answer.1;
          database = answer.2;
        })
        answered
      ≡ some after
    → after.web_server
      ≡ record (s.web_server) { request_counter = (s.web_server.request_counter + 1) % 2 ^ 64 }
page_counts site draws now route req resp s none handled e = ground (arith, e)
page_counts site draws now route req resp s (some (counted, sent, db)) handled e =
    let answer =
      handle-IsAnswered site draws now route req resp (s.database) (s.web_server) handled in
    ap (λ t. t.web_server) (sym (some-injective e)) ∙ answer.is_counted

-- Every handler that returns has counted its request once, in arithmetic of 64 bits, and has left the
-- rest of the web server as it was.
pub run_handler-counts :
    {D R F G P : Type 0} (site : Site D R) (status : StatusSite F G P) (draws : List ℕ)
    (now : Option ℕ) (handler : Handler) (req : Request) (resp : R) (s : Serving R D G P)
    {after : Serving R D G P}
    → run_handler site status draws now handler req resp s ≡ ok (some after)
    → after.web_server
      ≡ record (s.web_server) { request_counter = (s.web_server.request_counter + 1) % 2 ^ 64 }
unfolding run_handler handle_status_json handle_status_html handle_unimplemented
    incremented_request_counter
run_handler-counts site status draws now (page route) req resp s e =
    let (answered, handled, e1) =
      >>=-eq-ok (handle site draws now route req resp (s.database) (s.web_server)) _ e in
    page_counts site draws now route req resp s answered handled (ok-injective e1)
run_handler-counts site status draws now status_json req resp s e =
    ap (λ t. t.web_server) (sym (some-injective (ok-injective e)))
run_handler-counts site status draws now status_html req resp s e =
    ap (λ t. t.web_server) (sym (some-injective (ok-injective e)))
run_handler-counts site status draws now ajax_get req resp s e =
    ap (λ t. t.web_server) (sym (some-injective (ok-injective e)))
run_handler-counts site status draws now ajax_post req resp s e =
    ap (λ t. t.web_server) (sym (some-injective (ok-injective e)))
run_handler-counts site status draws now images_get req resp s e =
    ap (λ t. t.web_server) (sym (some-injective (ok-injective e)))
