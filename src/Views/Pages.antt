-- ===== src/Views/Pages.antt =====
-- `hcv_login_view_get` and `hcv_profile_view_get` (hcv_views.cc): pages that are a template file.
use helpcovid.Template.Extends.Initialized.{expand_template_file-Extends_initialized}
use helpcovid.Template.Initialize.{initialize_templates}
use helpcovid.Outcome.{
  ◌>>◌, ◌>>=◌, ok-injective, require-eq-ok, views, require, >>=-eq-ok, ok, Outcome,
}
use helpcovid.Template.Expand.{expand_template_file, FileStat}
use helpcovid.Template.Registry.{Expander}
use helpcovid.Template.Expanders.{Env}
use helpcovid.Template.Data.{TemplateData, http_template_data, Request}
use helpcovid.Dict.{Dict}
use helpcovid.Prelude.{
  ap, ◌∙◌, equal_iff, ◌++◌, inr, equal, inl, ◌⊎◌, some, [], codes, ◌≡◌, Bytes, ℕ,
}

-- What the views use: the registered expanders, `hcv_get_web_root()` and the file system.
module _ (dict : Dict Expander) (web_root : Bytes) (files : Bytes → FileStat) where
  -- The body that both views have, with the line of its fatal call and the page's path.
  unfoldable pub page_view : ℕ → Bytes → Request → ℕ → Outcome Bytes
  page_view lin page req reqnum = do
    require (equal req.method (codes "GET")) views lin
    let thtml = web_root ++ page
    r ← expand_template_file dict thtml (files thtml) (http_template_data req reqnum)
    ok r.1

  -- `hcv_login_view_get`
  unfoldable pub login_view_get : Request → ℕ → Outcome Bytes
  unfolding page_view
  login_view_get req reqnum = page_view 42 (codes "html/login.html") req reqnum

  -- `hcv_profile_view_get`
  unfoldable pub profile_view_get : Request → ℕ → Outcome Bytes
  unfolding page_view
  profile_view_get req reqnum = page_view 229 (codes "html/profile.html") req reqnum

-- The page `path` is shown: the request is a GET request, and the template file at the path has been
-- expanded to the text, for template data that start with an empty stream, hold all that was written
-- in the end, and keep the request and its number.
pub record Shown (dict : Dict Expander) (path : Bytes) (file : FileStat) (req : Request)
    (reqnum : ℕ) (text : Bytes) : Type 0 where
  pub is_get : req.method ≡ codes "GET"
  pub data_after : TemplateData
  pub expanded :
      expand_template_file dict path file (http_template_data req reqnum) ≡ ok (data_after, text)
  pub whole : data_after.out ≡ some text
  pub numbered : data_after.serial ≡ reqnum
  pub answered : data_after.request ≡ some req

page_view-Shown :
    (env : Env) (dict : Dict Expander) (web_root : Bytes) (files : Bytes → FileStat) (lin : ℕ)
    (page : Bytes) (req : Request) (reqnum : ℕ) {text : Bytes}
    → initialize_templates env [] ≡ ok dict
    → page_view dict web_root files lin page req reqnum ≡ ok text
    → Shown dict (web_root ++ page) (files (web_root ++ page)) req reqnum text
unfolding page_view http_template_data
page_view-Shown env dict web_root files lin page req reqnum i e =
    let (_, method, k) = >>=-eq-ok (require (equal req.method (codes "GET")) views lin) _ e in
    let thtml = web_root ++ page in
    let ((td, shown), run, done) =
      >>=-eq-ok (expand_template_file dict thtml (files thtml) (http_template_data req reqnum)) _
        k in
    let (extends, all_text) =
      expand_template_file-Extends_initialized env dict thtml (files thtml)
        (http_template_data req reqnum) i run in
    record {
      is_get = (equal_iff req.method (codes "GET")).0 (require-eq-ok _ views lin method);
      data_after = td;
      expanded = run ∙ ap (λ t. ok (td, t)) (ok-injective done);
      whole = all_text ∙ ap some (ok-injective done);
      numbered = extends.1;
      answered = extends.2;
    }

abbrev pub login_page : Bytes
login_page = codes "html/login.html"

abbrev pub profile_page : Bytes
profile_page = codes "html/profile.html"

-- With the expanders of `hcv_initialize_templates`, when `hcv_login_view_get` or
-- `hcv_profile_view_get` returns, the request was a GET request, and what is returned is the expansion
-- of the view's own page under the web root, all of what the instructions have written included, for
-- template data that keep the request and its number.
pub view_get-Shown :
    (env : Env) (dict : Dict Expander) (web_root : Bytes) (files : Bytes → FileStat) (page : Bytes)
    (req : Request) (reqnum : ℕ) (text : Bytes)
    → initialize_templates env [] ≡ ok dict
    → ((page ≡ login_page) × (login_view_get dict web_root files req reqnum ≡ ok text))
      ⊎ ((page ≡ profile_page) × (profile_view_get dict web_root files req reqnum ≡ ok text))
    → Shown dict (web_root ++ page) (files (web_root ++ page)) req reqnum text
unfolding login_view_get profile_view_get
view_get-Shown env dict web_root files page req reqnum text i (inl (p, e)) =
    rw p (page_view-Shown env dict web_root files 42 login_page req reqnum i e)
view_get-Shown env dict web_root files page req reqnum text i (inr (p, e)) =
    rw p (page_view-Shown env dict web_root files 229 profile_page req reqnum i e)
