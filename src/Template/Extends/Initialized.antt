-- ===== src/Template/Extends/Initialized.antt =====
-- The dictionary of `hcv_initialize_templates` (hcv_template.cc) holds expanders that only append.
use helpcovid.Template.Extends.Files.{expand_template_file-Extends}
use helpcovid.Template.Initialize.Names.{initialize_templates-lookup}
use helpcovid.Outcome.{ok-injective, ok}
use helpcovid.Template.Data.{TemplateData}
use helpcovid.Template.Extends.{IsAppending, Extends, ok, TemplateData, AllAppending}
use helpcovid.Template.Expand.{expand_template_file, FileStat}
use helpcovid.Template.Registry.{Expander}
use helpcovid.Template.Extends.Builtin.{
  expand_confmsg_instruction-IsAppending, expand_msg_instruction-IsAppending,
  expand_register_form_token-IsAppending, expand_basefilepos-IsAppending, expand_offset-IsAppending,
  expand_lineno-IsAppending, expand_filename-IsAppending, expand_webroot-IsAppending,
  expand_request_path-IsAppending, expand_request_method-IsAppending, expand_hostname-IsAppending,
  expand_pid-IsAppending, expand_timestamp-IsAppending, expand_lastgitcommit-IsAppending,
  expand_half_gitid-IsAppending, expand_gitid-IsAppending, expand_request_number-IsAppending,
  expand_html_config-IsAppending, expand_now-IsAppending, expand_date-IsAppending,
}
use helpcovid.Template.Initialize.{initialize_templates, registrations}
use helpcovid.Template.Expanders.{Env}
use helpcovid.Dict.{Dict, lookup}
use helpcovid.Prelude.{
  inr, inl, equal, Bool-cases, ◌∷◌, ap, ◌∙◌, sym, some, ◌≡◌, arith, [], Bytes, List,
}

abbrev EachAppending : List (Bytes × Expander) → Type 0
EachAppending [] = Unit
EachAppending ((name, clos) ∷ more) = IsAppending clos × EachAppending more

EachAppending-AllAppending :
    (regs : List (Bytes × Expander)) → EachAppending regs → AllAppending regs
unfolding lookup
EachAppending-AllAppending [] h k e found = ground (arith, found)
EachAppending-AllAppending ((name, clos) ∷ more) (first, rest) k e found =
    elim (Bool-cases (equal name k)) [
      | inl x ↦
          let found1 = rw x at found in
          let same : clos ≡ e = ground (arith, found1) in rw (← same) first
      | inr x ↦ let found1 = rw x at found in EachAppending-AllAppending more rest k e found1
    ]

registrations-EachAppending : (env : Env) → EachAppending (registrations env)
unfolding registrations
registrations-EachAppending env = (
  expand_date-IsAppending env,
  (
    expand_now-IsAppending env,
    (
      expand_html_config-IsAppending env,
      (
        expand_request_number-IsAppending env,
        (
          expand_gitid-IsAppending env,
          (
            expand_half_gitid-IsAppending env,
            (
              expand_lastgitcommit-IsAppending env,
              (
                expand_timestamp-IsAppending env,
                (
                  expand_pid-IsAppending env,
                  (
                    expand_hostname-IsAppending env,
                    (
                      expand_request_method-IsAppending env,
                      (
                        expand_request_path-IsAppending env,
                        (
                          expand_webroot-IsAppending env,
                          (
                            expand_filename-IsAppending env,
                            (
                              expand_lineno-IsAppending env,
                              (
                                expand_offset-IsAppending env,
                                (
                                  expand_basefilepos-IsAppending env,
                                  (
                                    expand_register_form_token-IsAppending env,
                                    (
                                      expand_msg_instruction-IsAppending env,
                                      (expand_confmsg_instruction-IsAppending env, tt),
                                    ),
                                  ),
                                ),
                              ),
                            ),
                          ),
                        ),
                      ),
                    ),
                  ),
                ),
              ),
            ),
          ),
        ),
      ),
    ),
  ),
)

pub initialize_templates-AllAppending :
    (env : Env) (dict : Dict Expander) → initialize_templates env [] ≡ ok dict → AllAppending dict
unfolding lookup
initialize_templates-AllAppending env dict e k clos found =
    let (dict', e', names) = initialize_templates-lookup env [] in
    let same : dict' ≡ dict = ok-injective (sym e' ∙ e) in
    EachAppending-AllAppending (registrations env) (registrations-EachAppending env) k clos
      (sym (names k) ∙ (ap (lookup k) same ∙ found))

-- With the expanders of `hcv_initialize_templates`, `hcv_expand_template_file`, whenever it returns,
-- has only appended to the stream of the template data, whose kind, number and request are the same,
-- and the text that it returns is all that the stream then holds.
pub expand_template_file-Extends_initialized :
    (env : Env) (dict : Dict Expander) (path : Bytes) (file : FileStat) (td : TemplateData)
    {td' : TemplateData} {text : Bytes}
    → initialize_templates env [] ≡ ok dict
    → expand_template_file dict path file td ≡ ok (td', text)
    → Extends td td' × (td'.out ≡ some text)
expand_template_file-Extends_initialized env dict path file td e =
    expand_template_file-Extends dict (initialize_templates-AllAppending env dict e) path file td
