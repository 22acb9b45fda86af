-- ===== src/Web/Url/Laws.antt =====
-- The URLs that are written from a scheme, a host, a port and a path are read as that host and port.
use mathlib.Core.Option.{none}
use helpcovid.Web.Url.{scan_host_port, scan_host, parse_weburl, is_host}
use helpcovid.Scan.Number.Laws.{scan_set-append, scan_literal-append, scan_decimal-append, stops}
use helpcovid.Scan.Number.{scan_literal, scan_decimal, digit_value, strtoul_value, number}
use helpcovid.Prelude.{
  length, leb, ◌==◌, ◌&&◌, not, none, ltb, codes, Option, Bool, ◌-◌, zero, ◌/◌, ◌*◌, ◌%◌, some,
  refl, suc, arith, [], ◌∷◌, true, false, ◌≡◌, ◌^◌, ◌+◌, ◌++◌, ◌<◌, is_empty, all, ℕ, Bytes,
}
use helpcovid.Decimal.{value-decimal, value, digits, decimal}
use helpcovid.Cstr.{is_alpha, is_alnum, is_digit}

all-last :
    (s : Bytes) (c : ℕ)
    → all is_digit s ≡ true
    → is_digit c ≡ true
    → all is_digit (s ++ c ∷ []) ≡ true
all-last [] c h e = ground arith
all-last (d ∷ s) c h e = ground (arith, all-last s c)

is_empty-last : (s : Bytes) (c : ℕ) → is_empty (s ++ c ∷ []) ≡ false
is_empty-last [] c = refl
is_empty-last (d ∷ s) c = refl

is_digit-code : (d : ℕ) → d < 10 → is_digit (b'0' + d) ≡ true
unfolding is_digit
is_digit-code d h = ground arith

all-digits : (f n : ℕ) → all is_digit (digits f n) ≡ true
unfolding digits
all-digits zero n = refl
all-digits (suc f) n =
    let last = is_digit-code (n % 10) (omega arith) in
    ground (
      arith,
      is_digit-code n,
      all-last (digits f (n / 10)) (b'0' + n % 10) (all-digits f (n / 10)) last,
    )

is_empty-digits : (f n : ℕ) → 0 < f → is_empty (digits f n) ≡ false
unfolding digits
is_empty-digits zero n h = absurd (omega arith)
is_empty-digits (suc f) n h = ground (arith, is_empty-last (digits f (n / 10)) (b'0' + n % 10))

number-value : (a : ℕ) (s : Bytes) → all is_digit s ≡ true → number 10 a s ≡ value a s
unfolding number value digit_value is_digit
number-value a [] h = refl
number-value a (c ∷ s) h = ground (arith, number-value (a * 10 + (c - b'0')) s)

-- `%u` reads a number that is printed.
scan_decimal-decimal :
    (n : ℕ) (rest : Bytes)
    → n < 2 ^ 64
    → stops is_digit rest ≡ true
    → scan_decimal (decimal n ++ rest) ≡ some (n, rest)
unfolding decimal strtoul_value
scan_decimal-decimal n rest h e =
    let shown = all-digits (n + 1) n in
    rw
      (scan_decimal-append (digits (n + 1) n) rest shown e
        (is_empty-digits (n + 1) n (omega arith)))
      (rw (number-value 0 (digits (n + 1) n) shown) (rw (value-decimal n) (ground arith)))

-- The text of a URL: https or http, the host, the port if there is one, and the path.
abbrev pub scheme_text : Bool → Bytes
scheme_text true = codes "https://"
scheme_text false = codes "http://"

abbrev pub port_text : Option ℕ → Bytes
port_text none = []
port_text (some port) = codes ":" ++ decimal port

abbrev pub weburl_text : Bool → Bytes → Option ℕ → Bytes → Bytes
weburl_text secure webhost port path = scheme_text secure ++ (webhost ++ (port_text port ++ path))

-- 1 to 60 bytes of a host.
abbrev pub is_webhost : Bytes → Bool
is_webhost s = not (is_empty s) && leb (length s) 60 && all is_host s

-- The empty path, or one with a slash first.
abbrev pub is_path : Bytes → Bool
is_path = stops (λ c. not (c == b'/'))

-- The port is positive, and of 32 bits.
abbrev pub is_port : Option ℕ → Bool
is_port none = true
is_port (some port) = ltb 0 port && ltb port (2 ^ 32)

abbrev pub port_or : ℕ → Option ℕ → ℕ
port_or default none = default
port_or default (some port) = port

stops-is_digit : (path : Bytes) → is_path path ≡ true → stops is_digit path ≡ true
unfolding is_digit
stops-is_digit [] h = refl
stops-is_digit (c ∷ path) h = ground arith

stops-is_host : (path : Bytes) → is_path path ≡ true → stops is_host path ≡ true
unfolding is_host is_alnum is_alpha is_digit
stops-is_host [] h = refl
stops-is_host (c ∷ path) h = ground arith

no_colon : (path : Bytes) → is_path path ≡ true → scan_literal (codes ":") path ≡ none
unfolding scan_literal
no_colon [] h = refl
no_colon (c ∷ path) h = ground arith

-- The attempt for a scheme, on a URL of this scheme with a port, without a port, and of no such scheme.
scan_host_port-port :
    (scheme webhost path : Bytes) (port : ℕ)
    → is_webhost webhost ≡ true
    → is_path path ≡ true
    → is_port (some port) ≡ true
    → scan_host_port scheme (scheme ++ (webhost ++ (codes ":" ++ (decimal port ++ path))))
      ≡ some (webhost, port)
unfolding scan_host_port is_host is_alnum is_alpha is_digit
scan_host_port-port scheme webhost path port w p b =
    let small : port % 2 ^ 32 ≡ port = ground (arith, b) in
    let positive : ltb 0 port ≡ true = ground (arith, b) in
    let rest = codes ":" ++ (decimal port ++ path) in
    rw (scan_literal-append scheme (webhost ++ rest)) (
      rw
        (scan_set-append 60 is_host webhost rest (ground (arith, w)) (ground (arith, w))
          (ground (arith, w)) refl)
        (rw (scan_literal-append (codes ":") (decimal port ++ path)) (
          rw (scan_decimal-decimal port path (ground (arith, b)) (stops-is_digit path p))
            (rw small (rw positive refl)))))

scan_host_port-none :
    (scheme webhost path : Bytes)
    → is_webhost webhost ≡ true
    → is_path path ≡ true
    → scan_host_port scheme (scheme ++ (webhost ++ path)) ≡ none
unfolding scan_host_port
scan_host_port-none scheme webhost path w p = rw (scan_literal-append scheme (webhost ++ path)) (
    rw
      (scan_set-append 60 is_host webhost path (ground (arith, w)) (ground (arith, w))
        (ground (arith, w)) (stops-is_host path p))
      (rw (no_colon path p) refl))

scan_host-found :
    (scheme webhost path : Bytes) (default : ℕ)
    → is_webhost webhost ≡ true
    → is_path path ≡ true
    → scan_host scheme default (scheme ++ (webhost ++ path)) ≡ some (webhost, default)
unfolding scan_host
scan_host-found scheme webhost path default w p =
    rw (scan_literal-append scheme (webhost ++ path)) (
      rw
        (scan_set-append 60 is_host webhost path (ground (arith, w)) (ground (arith, w))
          (ground (arith, w)) (stops-is_host path p))
        refl)

-- The attempts for the other scheme fail.
not_http :
    (s : Bytes) (default : ℕ)
    → (scan_host_port (codes "http://") (codes "https://" ++ s) ≡ none)
      × (scan_host (codes "http://") default (codes "https://" ++ s) ≡ none)
unfolding scan_host_port scan_host scan_literal
not_http s default = (refl, refl)

not_https : (s : Bytes) → scan_host_port (codes "https://") (codes "http://" ++ s) ≡ none
unfolding scan_host_port scan_literal
not_https s = refl

-- `hcv_webserver_run` reads, from a URL of the scheme http or https, of a host of 1 to 60 letters,
-- digits, underscores, dots and dashes, of a positive port of 32 bits or none, and of a path that is empty or starts with a slash, this host, and
-- this port, or the default port when the URL has none.
pub parse_weburl-weburl_text :
    (default : ℕ) (secure : Bool) (webhost : Bytes) (port : Option ℕ) (path : Bytes)
    → is_webhost webhost ≡ true
    → is_port port ≡ true
    → is_path path ≡ true
    → parse_weburl default (weburl_text secure webhost port path)
      ≡ some (webhost, port_or default port)
unfolding parse_weburl
parse_weburl-weburl_text default false webhost (some port) path w b p =
    rw (scan_host_port-port (codes "http://") webhost path port w p b) refl
parse_weburl-weburl_text default true webhost (some port) path w b p =
    rw ((not_http (webhost ++ (codes ":" ++ (decimal port ++ path))) default).0)
      (rw (scan_host_port-port (codes "https://") webhost path port w p b) refl)
parse_weburl-weburl_text default false webhost none path w b p =
    rw (scan_host_port-none (codes "http://") webhost path w p) (
      rw (not_https (webhost ++ path))
        (rw (scan_host-found (codes "http://") webhost path default w p) refl))
parse_weburl-weburl_text default true webhost none path w b p =
    let (no_port, no_host) = not_http (webhost ++ path) default in
    rw no_port (
      rw (scan_host_port-none (codes "https://") webhost path w p)
        (rw no_host (rw (scan_host-found (codes "https://") webhost path default w p) refl)))
