-- ===== src/Tests/Status.antt =====
-- Runs of all the handlers of the web server, for the results that have hypotheses.
use helpcovid.Decimal.{decimal, digits}
use helpcovid.Outcome.{views, ok, fatal}
use helpcovid.Web.Cookie.Make.{is_positive_long}
use helpcovid.Web.Server.{incremented_request_counter}
use helpcovid.Prelude.{
  ◌||◌, ◌/◌, ◌++◌, ◌*◌, refl, if◌then◌else◌, false, ◌∷◌, ◌-◌, some, none, Option, ◌+◌, ℕ, codes, [],
  List, ◌≡◌, length, equal, Bytes,
}
use helpcovid.Tests.Routes.{ask, some_site, idle_server}
use helpcovid.Tests.Databases.{some_process}
use helpcovid.Web.Status.{Member, json_status_members, Doubles, Snapshot}
use helpcovid.Web.Status.Page.{plugin_names, html_status_text, item}
use helpcovid.Web.Status.Elapsed.{html_status_text-json_status_members, member_of}
use helpcovid.Web.Handlers.{
  Handler, page, ajax_get, StatusSite, Serving, run_handler, handle_unimplemented, serve,
  get_routes, post_routes,
}
use helpcovid.Web.Handlers.Head.{serve-head}
use helpcovid.Web.Routes.{Route}

-- Doubles that are whole numbers.
abbrev whole_doubles : Doubles ℕ
whole_doubles = record {
  minus = λ a b. a - b;
  times = λ a b. a * b;
  over = λ a b. a / b;
  of_long = λ n. n;
  million = 1000000;
  thousand = 1000;
  text = decimal;
}

abbrev some_snapshot : Snapshot ℕ
some_snapshot = record {
  procsize = 10;
  procrss = 5;
  procshared = 0;
  cpu_time = λ reading. 8 + reading;
  monotonic_time = λ reading. 100 + reading;
  startcputime = 2;
  startmonotonictime = 40;
  date = codes "now";
  hostname = codes "host";
  server_version = codes "12.2";
}

abbrev some_status : StatusSite ℕ ℕ ℕ
some_status = record {
  doubles = whole_doubles;
  process = some_process;
  snapshot = some_snapshot;
  loaded = codes "foo" ∷ codes "bar" ∷ [];
  write_status = λ members. [];
  generator = record {
    next = λ g. (g, g + 1);
    seed_device = λ g. g;
    seed_deterministic = λ s. (s, s);
    unseeded = 0;
    deterministic_of = λ n. n;
  };
  is_deterministic = false;
}

abbrev some_serving : Serving (Bytes × List Bytes) ℕ ℕ ℕ
some_serving = record {
  web_server = idle_server;
  response = some ([], []);
  database = 0;
  random = record { count = 0; generator = 5; advance = 0; remainbits = 0 };
  shared = 0;
}

-- The first route of the method whose pattern is the path; HEAD as GET.
abbrev find_route : Bytes → List (Bytes × Handler) → Option Handler
find_route path [] = none
find_route path ((pattern_text, h) ∷ rest) =
    if equal path pattern_text then some h else find_route path rest

abbrev plain_dispatch :
    List (Bytes × Handler) → List (Bytes × Handler) → Bytes → Bytes → Option Handler
plain_dispatch gets posts method path =
    if equal method (codes "GET") || equal method (codes "HEAD")
    then find_route path gets
    else if equal method (codes "POST")
    then find_route path posts
    else none

heads_as_gets :
    (gets posts : List (Bytes × Handler)) (path : Bytes)
    → plain_dispatch gets posts (codes "HEAD") path ≡ plain_dispatch gets posts (codes "GET") path
unfolding equal
heads_as_gets gets posts path = refl

finds_login :
    plain_dispatch get_routes post_routes (codes "GET") (codes "/login")
    ≡ some (page Route.login_get)
unfolding get_routes equal
finds_login = refl

serve-head_example :
    serve some_site some_status plain_dispatch [] none
      (ask (codes "HEAD") (codes "/login"))
      ([], [])
      some_serving
    ≡ fatal views 42
serve-head_example =
    serve-head some_site some_status plain_dispatch [] none Route.login_get
      (ask (codes "HEAD") (codes "/login")) ([], []) some_serving heads_as_gets finds_login refl
      refl

abbrev logged_serving : Serving (Bytes × List Bytes) ℕ ℕ ℕ
logged_serving = record some_serving { web_server = record idle_server { request_counter = 7 } }

run_logged :
    run_handler some_site some_status [] none ajax_get
      (ask (codes "GET") (codes "/ajax/"))
      ([], [])
      some_serving
    ≡ ok (some logged_serving)
unfolding run_handler handle_unimplemented incremented_request_counter
run_logged = refl

html_status_text-json_status_members_example :
    ((t : ℕ → ℕ)
      → member_of (codes "elapsed_time_per_request") (
          json_status_members whole_doubles some_process
            (record some_snapshot { monotonic_time = t })
            (codes "foo" ∷ codes "bar" ∷ [])
            3)
        ≡ some (Member.double_member ((t 1 - 40) / 3)))
    × ((before : Bytes) × (after : Bytes) × ((t : ℕ → ℕ)
          → html_status_text whole_doubles
              (codes "http://b")
              some_process
              (record some_snapshot { monotonic_time = t })
              (codes "foo" ∷ codes "bar" ∷ [])
              3
            ≡ before
              ++ (item (codes "<li>total elapsed time: ") (decimal (t 0 - 40)) (codes " (seconds)")
                  ++ (item
                        (codes "<li>CPU time per request: ")
                        (codes "2333333")
                        (codes " (" ++ (194 ∷ 181 ∷ codes "s)"))
                      ++ (item
                            (codes "<li>elapsed time per request: ")
                            (codes "2666")
                            (codes " (ms)")
                          ++ after)))))
unfolding decimal digits
html_status_text-json_status_members_example =
    html_status_text-json_status_members whole_doubles (codes "http://b") some_process some_snapshot
      (codes "foo" ∷ codes "bar" ∷ []) 3

-- The JSON object of a third request, and the names of plugins.
abbrev third_json : List (Bytes × Member ℕ)
third_json = json_status_members whole_doubles some_process some_snapshot [] 3

json_runs : length third_json ≡ 20
unfolding json_status_members is_positive_long
json_runs = refl

names_run : plugin_names [] (codes "foo" ∷ codes "bar" ∷ []) ≡ codes " <tt>foo</tt>, <tt>bar</tt>"
unfolding plugin_names
names_run = refl
