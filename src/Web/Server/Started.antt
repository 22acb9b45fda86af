-- ===== src/Web/Server/Started.antt =====
-- The servers that `hcv_initialize_web` starts.
use helpcovid.Outcome.{
  ok-injective, ◌>>◌, require-eq-ok, require_some-eq-ok, web, require_some, require, >>=-eq-ok, ok,
}
use helpcovid.Web.Server.{ok, WebServer, FileStatus, initialize_web, check_ssl_files}
use helpcovid.Prelude.{
  ◌&&◌, none, ==_iff, if◌then◌else◌, arith, ◌==◌, Bool, ◌-◌, not, length, true, get_or, some, false,
  is_empty, ◌≡◌, Option, Bytes,
}

-- A server has a URL and a root that ends with a slash, and the key of one with SSL is a regular
-- file on which others have no permission.
pub record IsStarted (stat : Bytes → Option FileStatus) (s : WebServer) : Type 0 where
  pub has_url : is_empty (s.weburl) ≡ false
  pub ends_root : get_or (s.webroot) (length (s.webroot) - 1) 0 ≡ b'/'
  pub safe_key :
      (cert key : Bytes)
      → s.ssl ≡ some (cert, key)
      → (status : FileStatus) × (stat key ≡ some status)
        × (status.is_regular ≡ true)
        × (status.for_others ≡ false)

check_ssl_files-safe :
    (stat : Bytes → Option FileStatus) (opensslcert opensslkey : Bytes) {u : Unit {0}}
    → check_ssl_files stat opensslcert opensslkey ≡ ok u
    → (status : FileStatus) × (stat opensslkey ≡ some status)
      × (status.is_regular ≡ true)
      × (status.for_others ≡ false)
unfolding check_ssl_files
check_ssl_files-safe stat opensslcert opensslkey e =
    let (certstat, _, e1) = >>=-eq-ok (require_some (stat opensslcert) web 96) _ e in
    let (keystat, found, e2) = >>=-eq-ok (require_some (stat opensslkey) web 98) _ e1 in
    let (_, _, e3) = >>=-eq-ok (require (certstat.is_regular) web 100) _ e2 in
    let (_, regular, e4) = >>=-eq-ok (require (keystat.is_regular) web 102) _ e3 in
    (
      keystat,
      require_some-eq-ok (stat opensslkey) web 98 found,
      require-eq-ok (keystat.is_regular) web 102 regular,
      ground (arith, require-eq-ok (not (keystat.for_others)) web 104 e4),
    )

-- The server that is started, with SSL or without.
server_of :
    (stat : Bytes → Option FileStatus) (url root opensslcert opensslkey : Bytes) {s : WebServer}
    → is_empty url ≡ false
    → get_or root (length root - 1) 0 ≡ b'/'
    → (b : Bool)
    → (if b
        then (check_ssl_files stat opensslcert opensslkey
            >> ok (record {
              weburl = url;
              webroot = root;
              ssl = some (opensslcert, opensslkey);
              request_counter = 0;
            }))
        else ok (record { weburl = url; webroot = root; ssl = none; request_counter = 0 }))
      ≡ ok s
    → IsStarted stat s
server_of stat url root opensslcert opensslkey u r false e =
    rw (← ok-injective e) (record {
      has_url = u;
      ends_root = r;
      safe_key = λ cert key without. ground (arith, without);
    })
server_of stat url root opensslcert opensslkey u r true e =
    let (_, checked, e1) = >>=-eq-ok (check_ssl_files stat opensslcert opensslkey) _ e in
    rw (← ok-injective e1) (record {
      has_url = u;
      ends_root = r;
      safe_key = λ cert key same.
          let same_key : opensslkey ≡ key = ground (arith, same) in
          rw (← same_key) (check_ssl_files-safe stat opensslcert opensslkey checked);
    })

-- If `hcv_initialize_web` returns, then the server has a URL and a root that ends with a slash, and, if
-- it has SSL, its key is a regular file on which others have no permission.
pub initialize_web-IsStarted :
    (stat : Bytes → Option FileStatus) (url root opensslcert opensslkey : Bytes) {s : WebServer}
    → initialize_web stat url root opensslcert opensslkey ≡ ok s
    → IsStarted stat s
unfolding initialize_web
initialize_web-IsStarted stat url root opensslcert opensslkey e =
    let (_, has_url, e1) = >>=-eq-ok (require (not (is_empty url)) web 82) _ e in
    let (_, _, e2) = >>=-eq-ok (require (not (is_empty root)) web 84) _ e1 in
    let (_, slash, e3) =
      >>=-eq-ok (require (get_or root (length root - 1) 0 == b'/') web 86) _ e2 in
    server_of stat url root opensslcert opensslkey
      (ground (arith, require-eq-ok (not (is_empty url)) web 82 has_url))
      ((==_iff (get_or root (length root - 1) 0) b'/').0
        (require-eq-ok (get_or root (length root - 1) 0 == b'/') web 86 slash))
      (not (is_empty opensslcert) && not (is_empty opensslkey)) e3
