-- ===== src/Web/Url/Bounds.antt =====
-- The port that is found is positive and of 32 bits.
use helpcovid.Scan.Number.{scan_decimal, scan_set, scan_literal}
use helpcovid.Scan.Number.Laws.{>>=-eq-some}
use helpcovid.Cstr.{c_str}
use helpcovid.Outcome.{
  require_some-eq-ok, require, web, some-injective, require_some, >>=-eq-ok, ok,
}
use helpcovid.Web.Url.{
  is_host, scan_literal, otherwise, scan_host_port, scan_host, parse_weburl, default_web_port,
}
use helpcovid.Web.Server.{WebServer, webserver_address}
use helpcovid.Prelude.{
  if-false, ltb→lt, ap, ◌∙◌, is_empty, not, if-true, sym, inr, codes, Bool-cases, ◌⊎◌, ◌%◌, inl,
  ◌^◌, some, ltb, ◌≡◌, ◌<◌, none, if◌then◌else◌, arith, ℕ, Option, Bytes,
}

abbrev pub IsPort : ℕ → Type 0
IsPort port = (0 < port) × (port < 2 ^ 32)

otherwise-found :
    (o later : Option (Bytes × ℕ)) {r : Bytes × ℕ}
    → otherwise o later ≡ some r
    → (o ≡ some r) ⊎ (later ≡ some r)
otherwise-found none later e = inr e
otherwise-found (some a) later e = inl e

if-IsPort :
    (host : Bytes) (port : ℕ) {r : Bytes × ℕ}
    → (if ltb 0 (port % 2 ^ 32) then some (host, port % 2 ^ 32) else none) ≡ some r
    → IsPort (r.1)
if-IsPort host port {r} e = elim (Bool-cases (ltb 0 (port % 2 ^ 32))) [
  | inl positive ↦
      let same = some-injective (sym (if-true _ _ positive) ∙ e) in
      rw (← ap (λ t. t.1) same) (ltb→lt 0 (port % 2 ^ 32) positive, omega arith)
  | inr other ↦ let e1 = sym (if-false _ _ other) ∙ e in ground (arith, e1)
]

scan_host_port-IsPort :
    (scheme weburl : Bytes) {r : Bytes × ℕ} → scan_host_port scheme weburl ≡ some r → IsPort (r.1)
unfolding scan_host_port
scan_host_port-IsPort scheme weburl e =
    let (s1, _, e1) = >>=-eq-some (scan_literal scheme weburl) _ e in
    let ((webhost, s2), _, e2) = >>=-eq-some (scan_set 60 is_host s1) _ e1 in
    let (s3, _, e3) = >>=-eq-some (scan_literal (codes ":") s2) _ e2 in
    let ((port, s4), _, e4) = >>=-eq-some (scan_decimal s3) _ e3 in if-IsPort webhost port e4

scan_host-IsPort :
    (scheme : Bytes) (default : ℕ) (weburl : Bytes) {r : Bytes × ℕ}
    → IsPort default
    → scan_host scheme default weburl ≡ some r
    → IsPort (r.1)
unfolding scan_host
scan_host-IsPort scheme default weburl h e =
    let (s1, _, e1) = >>=-eq-some (scan_literal scheme weburl) _ e in
    let ((webhost, s2), _, e2) = >>=-eq-some (scan_set 60 is_host s1) _ e1 in
    let same = some-injective e2 in rw (← ap (λ t. t.1) same) h

parse_weburl-IsPort :
    (default : ℕ) (weburl : Bytes) {r : Bytes × ℕ}
    → IsPort default
    → parse_weburl default weburl ≡ some r
    → IsPort (r.1)
unfolding parse_weburl
parse_weburl-IsPort default weburl h e = elim (otherwise-found _ _ e) [
  | inl http_port ↦ scan_host_port-IsPort (codes "http://") weburl http_port
  | inr e1 ↦ elim (otherwise-found _ _ e1) [
    | inl https_port ↦ scan_host_port-IsPort (codes "https://") weburl https_port
    | inr e2 ↦ elim (otherwise-found _ _ e2) [
      | inl http_host ↦ scan_host-IsPort (codes "http://") default weburl h http_host
      | inr https_host ↦ scan_host-IsPort (codes "https://") default weburl h https_host
    ]
  ]
]

IsPort-default_web_port : (uid : ℕ) → IsPort (default_web_port uid)
unfolding default_web_port
IsPort-default_web_port uid = (ground arith, ground arith)

pub webserver_address-IsPort :
    (uid : ℕ) (server : Option WebServer) {r : Bytes × ℕ}
    → webserver_address uid server ≡ ok r
    → IsPort (r.1)
unfolding webserver_address
webserver_address-IsPort uid server e =
    let (running, _, e1) = >>=-eq-ok (require_some server web 599) _ e in
    let (_, _, e2) = >>=-eq-ok (require (not (is_empty running.weburl)) web 602) _ e1 in
    parse_weburl-IsPort (default_web_port uid) (c_str running.weburl) (IsPort-default_web_port uid)
      (require_some-eq-ok (parse_weburl (default_web_port uid) (c_str running.weburl)) web 647 e2)
