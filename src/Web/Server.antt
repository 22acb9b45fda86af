-- ===== src/Web/Server.antt =====
-- The web server's state: `hcv_initialize_web`, `hcv_stop_web`, `hcv_incremented_request_counter` and
-- the checks of `hcv_webserver_run` (hcv_web.cc).
pub mod Started
use helpcovid.Cstr.{c_str}
use helpcovid.Outcome.{ok, web, require_some, require, ◌>>◌, ◌>>=◌, Outcome}
use helpcovid.Prelude.{
  some, ◌&&◌, if◌then◌else◌, ◌==◌, ◌-◌, length, none, get_or, is_empty, not, ◌^◌, ◌%◌, ◌+◌, ℕ,
  Option, Bool, Bytes,
}
use helpcovid.Web.Url.{parse_weburl, default_web_port}

-- What stat says of a file: it is a regular file, and others have some permission on it.
pub record FileStatus : Type 0 where
  pub is_regular : Bool
  pub for_others : Bool

-- The server, with the certificate and the key of a httplib::SSLServer, and the global variables of
-- the file.
pub record WebServer : Type 0 where
  pub weburl : Bytes
  pub webroot : Bytes
  pub ssl : Option (Bytes × Bytes)
  pub request_counter : ℕ

-- The checks of the certificate and of the key.
unfoldable pub check_ssl_files : (Bytes → Option FileStatus) → Bytes → Bytes → Outcome (Unit {0})
check_ssl_files stat opensslcert opensslkey = do
  certstat ← require_some (stat opensslcert) web 96
  keystat ← require_some (stat opensslkey) web 98
  require (certstat.is_regular) web 100
  require (keystat.is_regular) web 102
  require (not (keystat.for_others)) web 104

-- `hcv_initialize_web`, on the file status, the URL, the root, the certificate and the key.
unfoldable pub initialize_web :
    (Bytes → Option FileStatus) → Bytes → Bytes → Bytes → Bytes → Outcome WebServer
unfolding check_ssl_files
initialize_web stat url root opensslcert opensslkey = do
  require (not (is_empty url)) web 82
  require (not (is_empty root)) web 84
  require (get_or root (length root - 1) 0 == b'/') web 86
  if not (is_empty opensslcert) && not (is_empty opensslkey)
      then (check_ssl_files stat opensslcert opensslkey
          >> ok (record {
            weburl = url;
            webroot = root;
            ssl = some (opensslcert, opensslkey);
            request_counter = 0;
          }))
      else ok (record { weburl = url; webroot = root; ssl = none; request_counter = 0 })

-- `hcv_stop_web`: no server is left.
unfoldable pub stop_web : Option WebServer → Outcome (Option WebServer)
stop_web server = do stopped ← require_some server web 130; ok none

-- `hcv_incremented_request_counter`, on a long of 64 bits: the request's number, and the counter.
unfoldable pub incremented_request_counter : WebServer → ℕ × WebServer
incremented_request_counter s =
    let n = (s.request_counter + 1) % 2 ^ 64 in (n, record s { request_counter = n })

-- `hcv_webserver_run` before the handlers are set: the host and the port.
unfoldable pub webserver_address : ℕ → Option WebServer → Outcome (Bytes × ℕ)
unfolding parse_weburl default_web_port
webserver_address uid server = do
  running ← require_some server web 599
  require (not (is_empty (running.weburl))) web 602
  require_some (parse_weburl (default_web_port uid) (c_str (running.weburl))) web 647
