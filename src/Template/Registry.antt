-- ===== src/Template/Registry.antt =====
-- `hcv_template_expander_dict`: registering and forgetting expanders.
pub mod Names
use helpcovid.Prelude.{
  ℕ, Bool, true, false, not, ◌&&◌, ◌||◌, Option, none, some, leb, is_empty, all, length, Bytes,
  ◌==◌,
}
use helpcovid.Outcome.{Outcome, ok, template, require, ◌>>◌}
use helpcovid.Cstr.{c_str, char_at, is_alpha, is_word}
use helpcovid.Dict.{Dict, insert, erase}
use helpcovid.Template.Data.{TemplateData}

-- An expander takes the processing instruction, the file's name, the line and the offset.
abbrev pub Expander : Type 0
Expander = Bytes → Bytes → ℕ → ℕ → TemplateData → Outcome TemplateData

abbrev pub template_name_maxlen : ℕ
template_name_maxlen = 64

abbrev pub is_some {ℓ} : {A : Type ℓ} → Option A → Bool
is_some none = false
is_some (some a) = true

-- `hcv_register_template_expander_closure`; `none` is an empty std::function.
unfoldable pub register : Bytes → Option Expander → Dict Expander → Outcome (Dict Expander)
unfolding is_word
register name expfun dict = do
  require (not (is_empty name) && (is_alpha (char_at name 0) || char_at name 0 == b'_')) template
      275
  require (is_some expfun) template 277
  require (leb (length (c_str name)) template_name_maxlen) template 279
  require (all is_word name) template 282
  ok (elim expfun [ none ↦ dict | some clos ↦ insert name clos dict ])

-- `hcv_forget_template_expander`: an unknown name is only logged.
unfoldable pub forget : Bytes → Dict Expander → Dict Expander
forget name dict = erase name dict
