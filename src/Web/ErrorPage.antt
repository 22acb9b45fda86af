-- ===== src/Web/ErrorPage.antt =====
-- `hcv_web_error_handler` (hcv_web.cc): the page that is sent for an error.
use helpcovid.Template.Expand.Stream.{expand_template_input_stream-same}
use mathlib.Core.Option.{none}
use helpcovid.Outcome.{ok-injective, >>=-eq-ok, ◌>>=◌, ok, Outcome}
use helpcovid.Template.Registry.{Expander}
use helpcovid.Template.Expand.{expand_template_file, FileStat, expand_template_string}
use helpcovid.Prelude.{
  ap, ◌∙◌, sym, zero, ◌==◌, ◌&&◌, ◌∷◌, some, is_empty, if◌then◌else◌, ◌≡◌, suc, not, false, ◌++◌,
  [], Bool, ℕ, codes, Option, Bytes,
}
use helpcovid.Dict.{Dict}
use helpcovid.Template.Data.{Request, http_template_data}
use helpcovid.Cstr.{starts_with, c_str, char_at}

-- The page that the handler has itself.
abbrev pub builtin_error_html : Bytes
builtin_error_html =
    codes "<!DOCTYPE html>\n<html>\n<head>\n <meta charset=\"utf-8\">\n"
    ++ (codes
          " <title>HelpCovid builtin error</title>\n</head>\n<body>\n<h1>HelpCovid builtin error</h1>\n"
        ++ (codes
              "  <p>Please ask the webmaster to add a proper <tt>html/error.html</tt> file.<br/></p>\n"
            ++ (codes "  <p>Error on <?hcv now?> for request #<?hcv request_number?> to "
                ++ (codes "<?hcv request_method?> of <?hcv request_path?>.<br/>\n"
                    ++ (codes "    HelpCovid git <tt><?hcv gitid?></tt> pid <?hcv pid?> on "
                        ++ (codes "<tt><i><?hcv hostname?></i></tt>.<br/> \n"
                            ++ codes
                                "    Please go back to <a href='/'>root webpage</a>.\n  </p>\n</body>\n</html>\n"))))))

-- fgets with a buffer of `n + 1` bytes: the bytes up to a newline, with it.
unfoldable pub fgets : ℕ → Bytes → Bytes
fgets zero s = []
fgets (suc n) [] = []
fgets (suc n) (c ∷ s) = let rest = fgets n s in if c == b'\n' then c ∷ [] else c ∷ rest

-- The file's first line starts as HTML 5 does; `content` is what fopen gives.
unfoldable pub is_good_html : Option Bytes → Bool
unfolding fgets starts_with c_str
is_good_html none = false
is_good_html (some text) = starts_with (codes "<!DOCTYPE html") (c_str (fgets 79 text))

-- The path of the page under the web root, which is absolute.
unfoldable pub has_error_page : Bytes → (Bytes → Option Bytes) → Bool
unfolding is_good_html
has_error_page web_root content =
    not (is_empty web_root)
    && char_at web_root 0 == b'/'
    && is_good_html (content (web_root ++ codes "/html/error.html"))

module _ {ℓ} {R : Type ℓ} (dict : Dict Expander) (web_root : Bytes) (files : Bytes → FileStat)
    (content : Bytes → Option Bytes) (set_content : Bytes → Bytes → R → R) where
  -- The text of the page.
  unfoldable pub error_text : Request → ℕ → Outcome Bytes
  unfolding has_error_page
  error_text req reqnum =
      let errfilpath = web_root ++ codes "/html/error.html" in
      if has_error_page web_root content
      then (do
        r ← expand_template_file dict errfilpath (files errfilpath) (http_template_data req reqnum)
        ok r.1)
      else (do
        r ←
            expand_template_string dict builtin_error_html (some (codes "*builtin-error*"))
              (http_template_data req reqnum)
        ok r.0)

  -- `hcv_web_error_handler`: the response.
  unfoldable pub web_error_handler : Request → R → ℕ → Outcome R
  unfolding error_text c_str
  web_error_handler req resp reqnum = do
    outhtmlstr ← error_text req reqnum
    ok (set_content (c_str outhtmlstr) (codes "text/html") resp)

-- Without a good page of the web root, `hcv_web_error_handler` sends the same text for any two requests
-- for which it returns, although its own page has instructions for the request's number, method and
-- path.
pub web_error_handler-same {ℓ} :
    {R : Type ℓ} (dict : Dict Expander) (web_root : Bytes) (files : Bytes → FileStat)
    (content : Bytes → Option Bytes) (set_content : Bytes → Bytes → R → R) (req req' : Request)
    (resp : R) (reqnum reqnum' : ℕ) {sent sent' : R}
    → has_error_page web_root content ≡ false
    → web_error_handler dict web_root files content set_content req resp reqnum ≡ ok sent
    → web_error_handler dict web_root files content set_content req' resp reqnum' ≡ ok sent'
    → sent ≡ sent'
unfolding web_error_handler error_text expand_template_string
web_error_handler-same dict web_root files content set_content req req' resp reqnum reqnum' h e e' =
    let name = some (codes "*builtin-error*") in
    let (text, expanded, e1) =
      >>=-eq-ok (error_text dict web_root files content set_content req reqnum) _ e in
    let (text', expanded', e1') =
      >>=-eq-ok (error_text dict web_root files content set_content req' reqnum') _ e' in
    let (r, run, e2) =
      >>=-eq-ok
        (expand_template_string dict builtin_error_html name (http_template_data req reqnum)) _
        (rw h at expanded) in
    let (r', run', e2') =
      >>=-eq-ok
        (expand_template_string dict builtin_error_html name (http_template_data req' reqnum')) _
        (rw h at expanded') in
    let same =
      expand_template_input_stream-same dict dict builtin_error_html name name
        (http_template_data req reqnum) (http_template_data req' reqnum') run run' in
    let texts : text ≡ text' = sym (ok-injective e2) ∙ same ∙ ok-injective e2' in
    sym (ok-injective e1)
    ∙ ap (λ t. set_content (c_str t) (codes "text/html") resp) texts
    ∙ ok-injective e1'
