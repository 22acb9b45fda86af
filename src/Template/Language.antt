-- ===== src/Template/Language.antt =====
-- `Hcv_http_template_data::request_language` (hcv_template.cc): the first code of a fixed table that
-- stands anywhere in the Accept-Language header, kept in the object.
use helpcovid.Cstr.{strstr}
use helpcovid.Template.Data.{Request, TemplateData}
use helpcovid.Prelude.{
  Bool-cases, not, Option-cases, List, [], ◌∷◌, ◌≡◌, ◌≢◌, ◌⊎◌, inl, inr, none, some, Bytes, codes,
  is_empty, if◌then◌else◌, arith,
}

-- The codes of HCV_WHENLANG, in the order of the tests.
abbrev pub language_codes : List Bytes
language_codes =
    codes "af"
    ∷ codes "hr"
    ∷ codes "el"
    ∷ codes "pl"
    ∷ codes "sx"
    ∷ codes "sq"
    ∷ codes "cs"
    ∷ codes "gu"
    ∷ codes "pt"
    ∷ codes "sw"
    ∷ codes "ar"
    ∷ codes "da"
    ∷ codes "ht"
    ∷ codes "sv"
    ∷ codes "nl"
    ∷ codes "he"
    ∷ codes "pa"
    ∷ codes "hi"
    ∷ codes "en"
    ∷ codes "hu"
    ∷ codes "ta"
    ∷ codes "is"
    ∷ codes "qe"
    ∷ codes "tt"
    ∷ codes "id"
    ∷ codes "rm"
    ∷ codes "te"
    ∷ codes "iu"
    ∷ codes "ro"
    ∷ codes "th"
    ∷ codes "ga"
    ∷ codes "tig"
    ∷ codes "it"
    ∷ codes "ru"
    ∷ codes "ts"
    ∷ codes "tn"
    ∷ codes "ja"
    ∷ codes "sz"
    ∷ codes "tr"
    ∷ codes "kn"
    ∷ codes "sg"
    ∷ codes "tk"
    ∷ codes "ks"
    ∷ codes "sa"
    ∷ codes "uk"
    ∷ codes "kk"
    ∷ codes "sc"
    ∷ codes "hsb"
    ∷ codes "km"
    ∷ codes "gd"
    ∷ codes "ur"
    ∷ codes "ky"
    ∷ codes "sd"
    ∷ codes "ve"
    ∷ codes "eo"
    ∷ codes "tlh"
    ∷ codes "si"
    ∷ codes "vi"
    ∷ codes "ar"
    ∷ codes "et"
    ∷ codes "ko"
    ∷ codes "sr"
    ∷ codes "vo"
    ∷ codes "hy"
    ∷ codes "fo"
    ∷ codes "sk"
    ∷ codes "wa"
    ∷ codes "as"
    ∷ codes "fa"
    ∷ codes "sl"
    ∷ codes "cy"
    ∷ codes "ast"
    ∷ codes "fj"
    ∷ codes "la"
    ∷ codes "so"
    ∷ codes "xh"
    ∷ codes "az"
    ∷ codes "fi"
    ∷ codes "lv"
    ∷ codes "sb"
    ∷ codes "ji"
    ∷ codes "eu"
    ∷ codes "fr"
    ∷ codes "lt"
    ∷ codes "es"
    ∷ codes "zu"
    ∷ codes "bg"
    ∷ codes "lb"
    ∷ codes "be"
    ∷ codes "mk"
    ∷ codes "bn"
    ∷ codes "ms"
    ∷ codes "bs"
    ∷ codes "ml"
    ∷ codes "br"
    ∷ codes "mt"
    ∷ codes "my"
    ∷ codes "fy"
    ∷ codes "mr"
    ∷ codes "ca"
    ∷ codes "fur"
    ∷ codes "mo"
    ∷ codes "ch"
    ∷ codes "gd"
    ∷ codes "nv"
    ∷ codes "ce"
    ∷ codes "ng"
    ∷ codes "zh"
    ∷ codes "gl"
    ∷ codes "ne"
    ∷ codes "ka"
    ∷ codes "no"
    ∷ codes "de"
    ∷ codes "co"
    ∷ codes "cr"
    ∷ codes "oc"
    ∷ codes "or"
    ∷ codes "fa"
    ∷ []

-- The chain of `else if`: the first code that is found; no code gives the empty string.
unfoldable pub pick_language : List Bytes → Bytes → Bytes
pick_language [] langstr = []
pick_language (code ∷ more) langstr =
    let rest = pick_language more langstr in
    elim (strstr code langstr) [ none ↦ rest | some at ↦ code ]

-- The body of the method, on a table of codes: the object behind the call, and what it returns. The
-- language is kept only if one is found.
unfoldable pub language_from : List Bytes → TemplateData → TemplateData × Bytes
unfolding pick_language
language_from table td = if not (is_empty td.language) then (td, td.language) else elim td.request [
  | none ↦ (td, [])
  | some req ↦
      if is_empty req.accept_language
      then (td, [])
      else let reqlanstr = pick_language table req.accept_language in
        (if is_empty reqlanstr then td else record td { language = reqlanstr }, reqlanstr)
]

-- `Hcv_http_template_data::request_language`
unfoldable pub request_language : TemplateData → TemplateData × Bytes
unfolding language_from
request_language td = language_from language_codes td

abbrev pub IsListed : List Bytes → Bytes → Type 0
IsListed [] lang = ⊥
IsListed (code ∷ more) lang = (lang ≡ code) ⊎ IsListed more lang

-- What the chain gives: nothing, or a code of the table that stands in the text.
abbrev pub IsFound : List Bytes → Bytes → Bytes → Type 0
IsFound table langstr lang = (lang ≡ []) ⊎ (IsListed table lang × (strstr lang langstr ≢ none))

pick_language-IsFound :
    (table : List Bytes) (langstr : Bytes) → IsFound table langstr (pick_language table langstr)
unfolding pick_language
pick_language-IsFound [] langstr = inl (λ i. [])
pick_language-IsFound (code ∷ more) langstr = elim (Option-cases (strstr code langstr)) [
  | inl x ↦
      rw (x, pick_language)
        (elim (pick_language-IsFound more langstr) [ inl e ↦ inl e | inr (l, h) ↦ inr (inr l, h) ])
  | inr (at, x) ↦ rw (x, pick_language) (inr (inl (λ i. code), λ e. ground (arith, x, e)))
]

language_from_idempotent :
    (table : List Bytes) (td : TemplateData)
    → language_from table (language_from table td).0 ≡ language_from table td
unfolding language_from
language_from_idempotent table td = ground arith

language_from-IsFound :
    (table : List Bytes) (td : TemplateData) (req : Request)
    → td.language ≡ []
    → td.request ≡ some req
    → IsFound table req.accept_language (language_from table td).1
unfolding language_from
language_from-IsFound table td req e h = elim (Bool-cases (is_empty req.accept_language)) [
  | inl x ↦ rw e (rw (h, language_from) (rw x (inl (λ i. []))))
  | inr x ↦ rw e (rw (h, language_from) (rw x (pick_language-IsFound table req.accept_language)))
]

-- For an object of a request that has no language yet, the language returned is empty, or it is a
-- code of the table that stands in the Accept-Language header.
pub request_language-IsFound :
    (td : TemplateData) (req : Request)
    → td.language ≡ []
    → td.request ≡ some req
    → IsFound language_codes req.accept_language (request_language td).1
unfolding request_language
request_language-IsFound td req e h = language_from-IsFound language_codes td req e h

-- A second call returns what the first one returned, and leaves the object as it is.
pub request_language_idempotent :
    (td : TemplateData) → request_language (request_language td).0 ≡ request_language td
unfolding request_language
request_language_idempotent td = language_from_idempotent language_codes td
