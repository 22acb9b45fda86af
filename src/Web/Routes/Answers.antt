-- ===== src/Web/Routes/Answers.antt =====
-- What a handler's answer is, when it returns.
use helpcovid.Template.Language.{request_language}
use helpcovid.Web.Server.{incremented_request_counter, WebServer}
use helpcovid.Views.Pages.{profile_view_get, page_view, login_view_get}
use helpcovid.Outcome.{
  some-injective, web, ok-injective, require-eq-ok, >>=-eq-ok, ◌>>=◌, views, ok, require, Outcome,
}
use helpcovid.Views.Home.{
  expand_page, login_view_post, register_view_post, register_view_get, html_response_max_len,
  home_view_get,
}
use helpcovid.Template.Data.{http_template_data, Request}
use helpcovid.Web.Routes.{
  incremented_request_counter, handle, profile_get, content_type, check_size, register_get,
  login_get, root_regex, root_slash, root_empty, register_post, home, login_view_get, login_post,
  json_response_max_len, WebServer, Outcome, view_of, home_view_get, Request, Site, Route,
}
use helpcovid.Prelude.{
  ◌∙◌, inr, inl, Option-cases, equal_iff, ◌^◌, ◌%◌, leb→le, ◌+◌, leb, arith, sym, ap, ltb, List,
  some, ◌≤◌, true, length, equal, ◌≡◌, Option, ℕ, codes, Bytes,
}
use mathlib.Core.Option

abbrev pub method_of : Route → Bytes
method_of login_post = codes "POST"
method_of register_post = codes "POST"
method_of _ = codes "GET"

abbrev pub limit_of : Route → ℕ
limit_of login_post = json_response_max_len
limit_of register_post = json_response_max_len
limit_of _ = html_response_max_len

-- An answer to a request of the route's method has a text within the route's limit, which is sent with
-- the route's type in what the view has made of the response, and has counted the request.
pub record IsAnswered {ℓ κ} {D : Type ℓ} {R : Type κ} (site : Site D R) (route : Route)
    (req : Request) (before after : WebServer) (sent : Option R) : Type κ where
  pub text : Bytes
  pub viewed : Option R
  pub is_method : req.method ≡ method_of route
  pub is_small : length text ≤ limit_of route
  pub is_sent : sent ≡ Option.map (site.set_content text (content_type route)) viewed
  pub is_counted : after ≡ record before { request_counter = (before.request_counter + 1) % 2 ^ 64 }

-- A step behind the test of a request's method.
tested {ℓ} :
    {A : Type ℓ} (method : Bytes) (lin : ℕ) (req : Request) (next : Unit {0} → Outcome A) {a : A}
    → (require (equal (req.method) method) views lin >>= next) ≡ ok a
    → equal (req.method) method ≡ true
tested method lin req next e =
    let (_, same, _) = >>=-eq-ok (require (equal (req.method) method) views lin) next e in
    require-eq-ok (equal (req.method) method) views lin same

within_limit :
    (limit lin : ℕ) (text : Bytes) {u : Unit {0}}
    → require (leb (length text) limit) web lin ≡ ok u
    → length text ≤ limit
within_limit limit lin text e =
    leb→le (length text) limit (require-eq-ok (leb (length text) limit) web lin e)

module _ {ℓ κ} {D : Type ℓ} {R : Type κ} (site : Site D R) where
  home-tested :
      (req : Request) (resp : R) (reqcnt : ℕ) (db : D) {shown : Option (Bytes × Option R × D)}
      → home site req resp reqcnt db ≡ ok shown
      → (equal (req.method) (codes "GET") ≡ true)
        × ((text : Bytes) × (sent : Option R) × (after : D) × (shown ≡ some (text, sent, after))
            × (length text ≤ html_response_max_len))
  unfolding home_view_get
  home-tested req resp reqcnt db e =
      let (shown, viewed, e1) =
        >>=-eq-ok
          (home_view_get (site.dict) (site.web_root) (site.files) (site.server) (site.set_header)
            (site.hash) req resp reqcnt)
          _ e in
      let td = (request_language (http_template_data req reqcnt)).0 in
      let (_, method, e2) =
        >>=-eq-ok (require (equal (req.method) (codes "GET")) views 101) _ viewed in
      let (res, _, e3) =
        >>=-eq-ok
          (expand_page (site.dict) (site.web_root) (site.files) (codes "html/login.html") td) _
          e2 in
      let (_, short, e4) =
        >>=-eq-ok (require (ltb (length res) html_response_max_len) views 111) _ e3 in
      let same = ap (λ t. t.0) (ok-injective e4) in
      (
        require-eq-ok (equal (req.method) (codes "GET")) views 101 method,
        (
          shown.0,
          shown.1,
          db,
          sym (ok-injective e1),
          rw (← same) (
              ground
                (arith, require-eq-ok (ltb (length res) html_response_max_len) views 111 short)),
        ),
      )

  view_of-method :
      (draws : List ℕ) (now : Option ℕ) (route : Route) (req : Request) (resp : R) (reqcnt : ℕ)
      (db : D) {shown : Option (Bytes × Option R × D)}
      → view_of site draws now route req resp reqcnt db ≡ ok shown
      → equal (req.method) (method_of route) ≡ true
  unfolding view_of login_view_get page_view profile_view_get register_view_get register_view_post
      login_view_post
  view_of-method draws now root_empty req resp reqcnt db e = (home-tested req resp reqcnt db e).0
  view_of-method draws now root_slash req resp reqcnt db e = (home-tested req resp reqcnt db e).0
  view_of-method draws now root_regex req resp reqcnt db e = (home-tested req resp reqcnt db e).0
  view_of-method draws now login_get req resp reqcnt db e =
      let (text, viewed, _) =
        >>=-eq-ok (login_view_get (site.dict) (site.web_root) (site.files) req reqcnt) _ e in
      tested (codes "GET") 42 req _ viewed
  view_of-method draws now login_post req resp reqcnt db e =
      let (posted, viewed, _) =
        >>=-eq-ok (login_view_post (site.query) (site.write_json) req db) _ e in
      tested (codes "POST") 55 req _ viewed
  view_of-method draws now register_get req resp reqcnt db e = tested (codes "GET") 148 req _ e
  view_of-method draws now register_post req resp reqcnt db e =
      let (text, viewed, _) =
        >>=-eq-ok (register_view_post (site.write_json) (site.cxx_file) (site.gitid) req reqcnt) _
          e in
      tested (codes "POST") 174 req _ viewed
  view_of-method draws now profile_get req resp reqcnt db e =
      let (text, viewed, _) =
        >>=-eq-ok (profile_view_get (site.dict) (site.web_root) (site.files) req reqcnt) _ e in
      tested (codes "GET") 229 req _ viewed

  -- The size of the answer: the handler's test, or that of the home page.
  sizes-small :
      (draws : List ℕ) (now : Option ℕ) (route : Route) (req : Request) (resp : R) (reqcnt : ℕ)
      (db : D) {text : Bytes} {sent : Option R} {after : D} {u : Unit {0}}
      → view_of site draws now route req resp reqcnt db ≡ ok (some (text, sent, after))
      → check_size route text ≡ ok u
      → length text ≤ limit_of route
  unfolding view_of check_size
  sizes-small draws now root_empty req resp reqcnt db {text} e c =
      within_limit html_response_max_len 728 text c
  sizes-small draws now root_slash req resp reqcnt db {text} e c =
      let (_, (shown_text, _, _, same, small)) = home-tested req resp reqcnt db e in
      let same_text = ap (λ t. t.0) (some-injective same) in rw same_text small
  sizes-small draws now root_regex req resp reqcnt db {text} e c =
      within_limit html_response_max_len 750 text c
  sizes-small draws now login_get req resp reqcnt db {text} e c =
      within_limit html_response_max_len 765 text c
  sizes-small draws now login_post req resp reqcnt db {text} e c =
      within_limit json_response_max_len 780 text c
  sizes-small draws now register_get req resp reqcnt db {text} e c =
      within_limit html_response_max_len 793 text c
  sizes-small draws now register_post req resp reqcnt db {text} e c =
      within_limit json_response_max_len 808 text c
  sizes-small draws now profile_get req resp reqcnt db {text} e c =
      within_limit html_response_max_len 823 text c

pub handle-IsAnswered {ℓ κ} :
    {D : Type ℓ} {R : Type κ} (site : Site D R) (draws : List ℕ) (now : Option ℕ) (route : Route)
    (req : Request) (resp : R) (db : D) (before : WebServer) {after : WebServer} {sent : Option R}
    {db' : D}
    → handle site draws now route req resp db before ≡ ok (some (after, sent, db'))
    → IsAnswered site route req before after sent
unfolding handle incremented_request_counter
handle-IsAnswered site draws now route req resp db before {after} {sent} {db'} e =
    let counted = incremented_request_counter before in
    let (shown, viewed, e1) =
      >>=-eq-ok (view_of site draws now route req resp (counted.0) db) _ e in
    let method =
      (equal_iff (req.method) (method_of route)).0
        (view_of-method site draws now route req resp (counted.0) db viewed) in
    elim (Option-cases shown) [
      | inl none_shown ↦ ground (arith, rw none_shown at e1)
      | inr (answer, found) ↦
          let e2 = rw found at e1 in
          let (_, fits, e3) = >>=-eq-ok (check_size route (answer.0)) _ e2 in
          let same = some-injective (ok-injective e3) in
          record {
            text = answer.0;
            viewed = answer.1;
            is_method = method;
            is_small =
                sizes-small site draws now route req resp (counted.0) db (viewed ∙ ap ok found)
                  fits;
            is_sent = sym (ap (λ t. t.1) same);
            is_counted = sym (ap (λ t. t.0) same);
          }
    ]
