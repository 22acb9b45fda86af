-- ===== src/Main/Config.antt =====
-- `hcv_get_config_html` (hcv_main.cc): the html section of the configuration.
use helpcovid.Main.Settings.{or_throw}
use helpcovid.Outcome.{main, ◌>>=◌, thrown, ok, Outcome}
use helpcovid.Cstr.{is_alpha, is_alnum, is_word, char_at, c_str}
use helpcovid.Prelude.{
  refl, some, none, inr, inl, Bool-cases, ◌==◌, arith, ◌&&◌, all, [], false, ◌≤◌, not, leb, ◌||◌,
  ◌+◌, ◌∷◌, length, is_empty, true, if◌then◌else◌, ◌≡◌, Option, Bool, Bytes, ℕ,
}

abbrev pub config_html_name_maxlen : ℕ
config_html_name_maxlen = 60

-- The loop that copies the name to a buffer; `nbc` bytes are copied.
unfoldable pub copies_name : ℕ → Bytes → Bool
copies_name nbc [] = true
copies_name nbc (c ∷ s) =
    let rest = copies_name (nbc + 1) s in
    if leb config_html_name_maxlen nbc
    then false
    else if not (is_alnum c) && not (c == b'_')
    then false
    else rest

-- The section "html" of the key file: `has_key` and `get_string`, none where Glib throws; and the bytes
-- that are found at the address of the text of a string after the string has been destroyed, of which
-- nothing is known.
pub record HtmlSection : Type 0 where
  pub has_key : Bytes → Option Bool
  pub get_string : Bytes → Option Bytes
  pub after_destruction : Bytes → Bytes

-- The function that is given to `hcv_config_do`: the pointer goes into a temporary string, which is
-- destroyed before it is read.
unfoldable pub section_text : HtmlSection → Bytes → Outcome Bytes
section_text html name = do
  has ← or_throw (html.has_key name) 729
  if has
      then (do text ← or_throw (html.get_string name) 732; ok (c_str (html.after_destruction text)))
      else ok []

-- `hcv_get_config_html`
unfoldable pub get_config_html : HtmlSection → Bytes → Outcome Bytes
unfolding copies_name section_text
get_config_html html name =
    if is_empty name || not (is_alpha (char_at name 0))
    then ok []
    else if not (copies_name 0 name)
    then ok []
    else section_text html name

copies_name-limit :
    (n : ℕ) (s : Bytes)
    → n ≤ config_html_name_maxlen
    → copies_name n s ≡ (all is_word s && leb (length s + n) config_html_name_maxlen)
unfolding copies_name is_word
copies_name-limit n [] h = ground arith
copies_name-limit n (c ∷ s) h = elim (Bool-cases (leb config_html_name_maxlen n)) [
  | inl x ↦ ground arith
  | inr x ↦ ground (arith, copies_name-limit (n + 1) s)
]

-- A letter, and at most 60 letters, digits and underscores in all.
abbrev pub is_config_name : Bytes → Bool
is_config_name name =
    is_alpha (char_at name 0) && all is_word name && leb (length name) config_html_name_maxlen

-- A key that the key file has or throws for.
abbrev pub asks : HtmlSection → Bytes → Outcome Bytes
asks html name = elim (html.has_key name) [
  | none ↦ thrown main 729
  | some false ↦ ok []
  | some true ↦ elim (html.get_string name) [
    | none ↦ thrown main 732
    | some text ↦ ok (c_str (html.after_destruction text))
  ]
]

section_text-cases :
    (html : HtmlSection) (name : Bytes) (has : Option Bool) (text : Option Bytes)
    → html.has_key name ≡ has
    → html.get_string name ≡ text
    → section_text html name ≡ asks html name
unfolding section_text
section_text-cases html name none text h k = rw (h, section_text, asks) refl
section_text-cases html name (some false) text h k = rw (h, section_text, asks) refl
section_text-cases html name (some true) none h k = rw (h, section_text, asks) (rw k refl)
section_text-cases html name (some true) (some t) h k = rw (h, section_text, asks) (rw k refl)

section_text-asks : (html : HtmlSection) (name : Bytes) → section_text html name ≡ asks html name
section_text-asks html name =
    section_text-cases html name (html.has_key name) (html.get_string name) refl refl

-- `hcv_get_config_html` asks the section "html" for a name exactly if it is at most 60 letters, digits
-- and underscores with a letter first, and gives the empty string for any other name. If Glib throws
-- for the key, as it does where there is no such section, so does the function; for a key that is
-- missing it gives the empty string; for one that is there it gives what is found, up to a NUL, at the
-- address of a string that has been destroyed.
pub get_config_html-is_config_name :
    (html : HtmlSection) (name : Bytes)
    → get_config_html html name ≡ (if is_config_name name then asks html name else ok [])
unfolding get_config_html is_alpha
get_config_html-is_config_name html [] = refl
get_config_html-is_config_name html (c ∷ s) =
    ground (arith, copies_name-limit 0 (c ∷ s), section_text-asks html (c ∷ s))
