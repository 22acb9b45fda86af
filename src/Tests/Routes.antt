-- ===== src/Tests/Routes.antt =====
-- Runs of the handlers of the web server, for the results that have hypotheses.
use helpcovid.Dict.{lookup}
use helpcovid.Scan.{sscanf}
use helpcovid.Cstr.{
  is_alpha, is_digit, is_alnum, is_space, is_word, c_str, starts_with, strstr, lines,
}
use helpcovid.Tests.Server.{some_database}
use helpcovid.Template.Expand.{
  expand_rest, expand_processing_instruction, expand_stream_line, regular, expand_stream_lines,
  expand_template_input_stream, missing, expand_template_string, FileStat,
}
use helpcovid.Web.Server.{WebServer}
use helpcovid.Web.Routes.{Site}
use helpcovid.Web.ErrorPage.{
  web_error_handler-same, is_good_html, error_text, web_error_handler, has_error_page,
}
use helpcovid.Template.Data.{is_no_kind, http_template_data, Request}
use helpcovid.Prelude.{refl, equal, ◌∷◌, some, if◌then◌else◌, ◌≡◌, ℕ, none, [], List, codes, Bytes}
use helpcovid.Outcome.{thrown, fatal, ok, Outcome}

abbrev pub ask : Bytes → Bytes → Request
ask method path = record {
  method = method;
  path = path;
  accept_language = [];
  user_agent = some (codes "agent");
  param_value = λ key. [];
}

-- A site whose only page is the form of registration; the response is its body and its headers.
abbrev pub form_file : Bytes → FileStat
form_file path =
    if equal path (codes "/srv/html/register.html") then regular 5 (codes "form\n") else missing

abbrev pub some_site : Site ℕ (Bytes × List Bytes)
some_site = record {
  dict = [];
  web_root = codes "/srv/";
  files = form_file;
  set_header = λ key val r. (r.0, val ∷ r.1);
  set_content = λ text type r. (text, r.1);
  server = some_database;
  query = λ name params n. ok (none, n);
  hash = λ s. 77;
  write_json = λ fields. [];
  cxx_file = codes "hcv_views.cc";
  gitid = [];
}

abbrev pub idle_server : WebServer
idle_server = record {
  weburl = codes "http://b";
  webroot = codes "/srv/";
  ssl = none;
  request_counter = 6;
}

abbrev form_sent : Bytes × List Bytes
form_sent = (
  codes "form\n",
  codes "HelpCovid_COOKIE=HCV000002-abcd123456789abcdefghijk-A0000004d; Max-Age=5400" ∷ [],
)

abbrev returned {ℓ} : {A : Type ℓ} → Outcome A → A → A
returned (ok a) other = a
returned (fatal f l) other = other
returned (thrown f l) other = other

-- The error page for a request, without a file.
abbrev error_page : Request → ℕ → Outcome Bytes
error_page req reqnum =
    web_error_handler [] (codes "/srv") (λ path. missing) (λ path. none) (λ text type r. text) req
      [] reqnum

abbrev first_page : Bytes
first_page = returned (error_page (ask (codes "GET") (codes "/nowhere")) 1) []

abbrev second_page : Bytes
second_page = returned (error_page (ask (codes "POST") (codes "/other")) 2) []

error_runs : Unit {0}
unfolding is_no_kind http_template_data web_error_handler error_text has_error_page is_good_html
    expand_template_string expand_template_input_stream expand_stream_lines expand_stream_line
    expand_processing_instruction expand_rest lines sscanf strstr starts_with c_str lookup equal
    is_word is_space is_alnum is_digit is_alpha
error_runs = tt

first_run : error_page (ask (codes "GET") (codes "/nowhere")) 1 ≡ ok first_page
unfolding error_runs
first_run = refl

second_run : error_page (ask (codes "POST") (codes "/other")) 2 ≡ ok second_page
unfolding error_runs
second_run = refl

web_error_handler-same_example : first_page ≡ second_page
unfolding has_error_page is_good_html
web_error_handler-same_example =
    web_error_handler-same [] (codes "/srv") (λ path. missing) (λ path. none) (λ text type r. text)
      (ask (codes "GET") (codes "/nowhere")) (ask (codes "POST") (codes "/other")) [] 1 2 refl
      first_run second_run
