-- ===== src/Template/Expanders/Silent.antt =====
-- Two expanders of hcv_template.cc that never output anything.
use mathlib.Core.List.{[]}
use helpcovid.Outcome.{ok}
use helpcovid.Template.Data.{is_no_kind, TemplateData}
use helpcovid.Scan.{sscanf}
use helpcovid.Cstr.{c_str}
use helpcovid.Scan.Laws.{sscanf-Stored, Stored}
use helpcovid.Template.Expanders.{
  ok, sscanf, html_config_format, c_str, TemplateData, Env, expand_html_config, expand_basefilepos,
}
use helpcovid.Prelude.{codes, ◌∷◌, false, ◌≡◌, arith, ◌≤◌, length, equal, List, Bytes, ℕ}

few_fields : (ws : List Bytes) → Stored html_config_format ws → length ws ≤ 1
few_fields [] h = omega arith
few_fields (w ∷ []) h = omega arith
few_fields (w ∷ v ∷ ws) h = absurd h.1

-- The format of html_config has one conversion, so that its sscanf returns at most one.
html_config-fields : (s : Bytes) → length (sscanf s html_config_format).fields ≤ 1
html_config-fields s = few_fields _ (sscanf-Stored s html_config_format)

-- `<?hcv html_config NAME?>` leaves the template data of every kind but none as it is, whatever the
-- configuration: it never outputs a configured text.
pub expand_html_config-silent :
    (env : Env) (procinstr filename : Bytes) (lineno offset : ℕ) (td : TemplateData)
    → is_no_kind td.kind ≡ false
    → expand_html_config env procinstr filename lineno offset td ≡ ok td
unfolding expand_html_config
expand_html_config-silent env procinstr filename lineno offset td k =
    rw k (ground (arith, html_config-fields (c_str procinstr)))

-- `<?hcv basefilepos comment?>` leaves them so too: the comment is never output.
pub expand_basefilepos-comment :
    (env : Env) (filename : Bytes) (lineno offset : ℕ) (td : TemplateData)
    → is_no_kind td.kind ≡ false
    → expand_basefilepos env (codes "<?hcv basefilepos comment?>") filename lineno offset td ≡ ok td
unfolding expand_basefilepos equal c_str
expand_basefilepos-comment env filename lineno offset td k = rw k (λ i. ok td)
