-- ===== src/Template/Initialize.antt =====
-- `hcv_initialize_templates` (hcv_template.cc): the registrations, in the order of the source.
pub mod Names
use mathlib.Core.List.{[]}
use helpcovid.Outcome.{◌>>=◌, ok, Outcome}
use helpcovid.Template.Registry.{register, Expander}
use helpcovid.Dict.{Dict}
use helpcovid.Template.Expanders.{
  expand_confmsg_instruction, expand_msg_instruction, expand_register_form_token,
  expand_basefilepos, expand_offset, expand_lineno, expand_filename, expand_webroot,
  expand_request_path, expand_request_method, expand_hostname, expand_pid, expand_timestamp,
  expand_lastgitcommit, expand_half_gitid, expand_gitid, expand_request_number, expand_html_config,
  expand_now, expand_date, Env,
}
use helpcovid.Prelude.{some, ◌∷◌, codes, Bytes, List}

-- The names and the closures of the calls of `hcv_register_template_expander_closure`.
unfoldable pub registrations : Env → List (Bytes × Expander)
registrations env =
    (codes "date", expand_date env)
    ∷ (codes "now", expand_now env)
    ∷ (codes "html_config", expand_html_config env)
    ∷ (codes "request_number", expand_request_number env)
    ∷ (codes "gitid", expand_gitid env)
    ∷ (codes "half_gitid", expand_half_gitid env)
    ∷ (codes "gitid", expand_lastgitcommit env)
    ∷ (codes "timestamp", expand_timestamp env)
    ∷ (codes "pid", expand_pid env)
    ∷ (codes "hostname", expand_hostname env)
    ∷ (codes "request_method", expand_request_method env)
    ∷ (codes "request_path", expand_request_path env)
    ∷ (codes "webroot", expand_webroot env)
    ∷ (codes "filename", expand_filename env)
    ∷ (codes "lineno", expand_lineno env)
    ∷ (codes "offset", expand_offset env)
    ∷ (codes "basefilepos", expand_basefilepos env)
    ∷ (codes "register_form_token", expand_register_form_token env)
    ∷ (codes "msg", expand_msg_instruction env)
    ∷ (codes "confmsg", expand_confmsg_instruction env)
    ∷ []

unfoldable pub register_all : List (Bytes × Expander) → Dict Expander → Outcome (Dict Expander)
register_all [] dict = ok dict
register_all ((name, clos) ∷ more) dict = register name (some clos) dict >>= register_all more

-- `hcv_initialize_templates`, on the dictionary before the call.
unfoldable pub initialize_templates : Env → Dict Expander → Outcome (Dict Expander)
unfolding registrations register_all
initialize_templates env dict = register_all (registrations env) dict
