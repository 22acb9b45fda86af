-- ===== src/Tests/Server.antt =====
-- Runs of the start of the program, of the plugins and of the web server, for the results that have
-- hypotheses.
use helpcovid.Outcome.{ok}
use helpcovid.Plugins.Loaded.{load_plugin-AreLoaded, AreLoaded}
use helpcovid.Web.Cookie.RoundTrip.{extract_cookie_string-make_cookie_string}
use helpcovid.Web.Url.Laws.{parse_weburl-weburl_text}
use helpcovid.Web.Cookie.Register.Fresh.{web_register_fresh_cookie-IsRegistered, IsRegistered}
use helpcovid.Web.Cookie.{extract_cookie_string}
use helpcovid.Cstr.{starts_with, strstr, c_str, is_word, is_digit, is_alpha, is_alnum}
use helpcovid.Web.Url.{parse_weburl, is_host}
use helpcovid.Web.Server.Started.{initialize_web-IsStarted, IsStarted}
use helpcovid.Hex.{repeat, pad, hex_char, hex_digits, hex}
use helpcovid.Web.Server.{FileStatus, check_ssl_files, initialize_web, WebServer}
use helpcovid.Web.Cookie.Register.{
  web_agent_hash, draw_char, random_string, register_cookie, web_register_fresh_cookie,
}
use helpcovid.Web.Cookie.Make.{is_positive_long, make_cookie_string}
use helpcovid.Prelude.{
  arith, ◌≡◌, equal, refl, false, true, [], ◌∷◌, ◌+◌, ◌++◌, ℕ, some, none, codes, Option, List,
  Bytes,
}
use helpcovid.Plugins.{
  get_loaded_plugins_vector, is_elf_library, is_loaded, library_path, open_plugin,
  check_plugin_name, load_plugin, Plugin, Loader,
}
use helpcovid.Decimal.{digits, decimal}
use helpcovid.Database.{add_web_cookie, database_get_id_of_added_web_cookie, Server}

abbrev some_random : Bytes
some_random = codes "abcdefghijklmnopqrstuvwx"

extract_cookie_string-make_cookie_string_example :
    (text : Bytes) × (make_cookie_string 5 some_random 300 ≡ ok text)
    × (extract_cookie_string text ≡ some (record { id = 5; random = some_random; hash = 300 }))
unfolding is_positive_long is_alnum is_alpha is_digit
extract_cookie_string-make_cookie_string_example =
    extract_cookie_string-make_cookie_string 5 some_random 300 refl refl (omega arith)

parse_weburl-weburl_text_example :
    parse_weburl 8080 (codes "https://www.example.org:8443/help")
    ≡ some (codes "www.example.org", 8443)
unfolding decimal digits is_host is_alnum is_alpha is_digit
parse_weburl-weburl_text_example =
    parse_weburl-weburl_text 8080 true (codes "www.example.org") (some 8443) (codes "/help") refl
      refl refl

-- A library that is known as echo.
abbrev pub echo_loader : Loader
echo_loader = record {
  dlopen = λ _. some 1;
  text_symbol = λ _ _. some (codes "echo");
  code_symbol = λ _ _. some 7;
  file = λ _. none;
}

abbrev echo_plugin : Plugin
echo_plugin = record {
  name = codes "echo";
  handle = 1;
  arg = some (codes "hi");
  gitid = codes "echo";
  license = codes "echo";
  initweb = 7;
  initdatabase = some 7;
}

load_plugin-AreLoaded_example :
    AreLoaded echo_loader (echo_plugin ∷ [])
    × (get_loaded_plugins_vector (echo_plugin ∷ [])
        ≡ get_loaded_plugins_vector [] ++ codes "echo" ∷ [])
unfolding load_plugin check_plugin_name open_plugin library_path is_loaded is_word is_alnum is_alpha
    is_digit equal strstr starts_with c_str is_elf_library
load_plugin-AreLoaded_example =
    load_plugin-AreLoaded echo_loader (codes "echo") (some (codes "hi")) []
      (record { distinct = refl; each = tt }) refl

abbrev pub private_file : Bytes → Option FileStatus
private_file _ = some (record { is_regular = true; for_others = false })

abbrev some_server : WebServer
some_server = record {
  weburl = codes "https://localhost";
  webroot = codes "/srv/";
  ssl = some (codes "cert", codes "key");
  request_counter = 0;
}

initialize_web-IsStarted_example : IsStarted private_file some_server
unfolding initialize_web check_ssl_files
initialize_web-IsStarted_example =
    initialize_web-IsStarted private_file (codes "https://localhost") (codes "/srv/") (codes "cert")
      (codes "key") refl

-- A database whose state is the number of its cookies.
abbrev pub some_database : Server ℕ
some_database = record {
  exec_prepared = λ name params n. some ((n + 1) ∷ [], n + 1);
  commit = λ n. some n;
}

abbrev put_header : Bytes → Bytes → List (Bytes × Bytes) → List (Bytes × Bytes)
put_header key val headers = headers ++ (key, val) ∷ []

abbrev pub some_draws : List ℕ
some_draws =
    10 ∷ 11 ∷ 12 ∷ 0 ∷ 13 ∷ 1 ∷ 2 ∷ 3 ∷ 4 ∷ 5 ∷ 6 ∷ 7 ∷ 8 ∷ 9 ∷ 10 ∷ 11 ∷ 12 ∷ 13 ∷ 14 ∷ 15 ∷ 16
    ∷ 17 ∷ 18 ∷ 19 ∷ 20 ∷ []

web_register_fresh_cookie-IsRegistered_example :
    IsRegistered some_database put_header
      (λ s. 77)
      (codes "agent")
      (codes "HCV000002-abcd123456789abcdefghijk-A0000004d")
      []
      ((
        codes "Set-Cookie",
        codes "HelpCovid_COOKIE=HCV000002-abcd123456789abcdefghijk-A0000004d; Max-Age=5400",
      )
        ∷ [])
unfolding web_register_fresh_cookie register_cookie random_string draw_char web_agent_hash
    database_get_id_of_added_web_cookie add_web_cookie make_cookie_string is_positive_long hex
    hex_digits hex_char pad repeat c_str decimal digits
web_register_fresh_cookie-IsRegistered_example =
    web_register_fresh_cookie-IsRegistered some_database put_header (λ s. 77) (codes "agent") []
      some_draws (some 1000) 0 refl
