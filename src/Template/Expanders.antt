-- ===== src/Template/Expanders.antt =====
-- The expanders that `hcv_initialize_templates` (hcv_template.cc) registers, and their registration.
pub mod Silent
pub mod Escaped
use helpcovid.Main.Config.{HtmlSection, get_config_html}
use mathlib.Core.Option.{none}
use mathlib.Core.List.{[]}
use helpcovid.Html.{output_cstr_encoded_html}
use helpcovid.Decimal.{decimal}
use helpcovid.Cstr.{is_word, c_str, char_at}
use helpcovid.Views.Message.{register_form_token, expand_msg, expand_confmsg}
use helpcovid.Scan.{sscanf, position, field, space, literal, Directive}
use helpcovid.Dict.{Dict}
use helpcovid.Template.Registry.{is_some, Expander}
use helpcovid.Template.Data.{is_no_kind, request_path, request_method, is_http, write, TemplateData}
use helpcovid.Outcome.{◌>>◌, template, thrown, ◌>>=◌, fatal, require, ok, Outcome}
use helpcovid.Prelude.{
  ◌&&◌, leb, equal, ◌/◌, ◌+◌, is_empty, all, ◌||◌, ◌-◌, not, drop, ◌==◌, ◌++◌, some, ltb, codes, [],
  ◌∷◌, true, take, length, if◌then◌else◌, Option, List, Bytes, Bool, ℕ,
}

-- What the expanders read outside of the template data: the two dates of `strftime`, the generated
-- strings of the build, the process, and the state of the other modules. The dates and the random number
-- are read at each expansion; here each has one value for a run.
pub record Env : Type 0 where
  pub today : Bytes
  pub now : Bytes
  pub gitid : Bytes
  pub lastgitcommit : Bytes
  pub timestamp : Bytes
  pub pid : ℕ
  pub hostname : Bytes
  pub web_root : Bytes
  pub html_section : HtmlSection
  pub globchunk : Dict Bytes
  pub dgettext : Bytes → Option Bytes
  pub random : ℕ

-- The test of the template data's kind, and the one of the output stream, whose absence is only
-- logged.
unfoldable pub with_stream :
    ℕ → (TemplateData → Outcome TemplateData) → TemplateData → Outcome TemplateData
with_stream lin f td = do
  require (not (is_no_kind td.kind)) template lin
  if is_some td.out then f td else ok td

-- `hcv_output_cstr_encoded_html(*pouts, cstr)`
unfoldable pub write_encoded : Bytes → TemplateData → TemplateData
write_encoded cstr td = write (output_cstr_encoded_html [] (some cstr)) td

-- `<?hcv date?>`
unfoldable pub expand_date : Env → Expander
unfolding with_stream write_encoded
expand_date env procinstr filename lineno offset td =
    with_stream 508 (λ td. ok (write_encoded env.today td)) td

-- `<?hcv now?>`
unfoldable pub expand_now : Env → Expander
unfolding with_stream write_encoded
expand_now env procinstr filename lineno offset td =
    with_stream 533 (λ td. ok (write_encoded env.now td)) td

abbrev pub html_config_format : List Directive
html_config_format =
    literal (codes "<?hcv")
    ++ (space ∷ literal (codes "html_config")
        ++ (space ∷ field 60 is_word ∷ space ∷ literal (codes "?>") ++ (position ∷ [])))

-- `endpos<(int)procinstr.size()`, with -1 for no end.
unfoldable pub ends_before : Option ℕ → ℕ → Bool
ends_before none size = true
ends_before (some endpos) size = ltb endpos size

-- The configuration name that the sscanf has stored; the buffer is empty when it has stored none.
unfoldable pub first_field : List Bytes → Bytes
first_field [] = []
first_field (w ∷ _) = w

-- `<?hcv html_config configname?>`, which returns when sscanf has stored at most one field.
unfoldable pub expand_html_config : Env → Expander
unfolding ends_before first_field
expand_html_config env procinstr filename lineno offset td = do
  require (not (is_no_kind td.kind)) template 559
  let got = sscanf (c_str procinstr) html_config_format
  if leb (length got.fields) 1 || ends_before got.endpos (length procinstr)
      then ok td
      else if is_some td.out
      then (do text ← get_config_html env.html_section (first_field got.fields); ok (write text td))
      else ok td

-- `<?hcv request_number?>`
unfoldable pub expand_request_number : Env → Expander
unfolding with_stream write_encoded
expand_request_number env procinstr filename lineno offset td =
    with_stream 592 (λ td. ok (write_encoded (decimal td.serial) td)) td

-- `<?hcv gitid?>`
unfoldable pub expand_gitid : Env → Expander
unfolding with_stream write_encoded
expand_gitid env procinstr filename lineno offset td =
    with_stream 613 (λ td. ok (write_encoded env.gitid td)) td

-- `std::string::erase(pos, len)`
unfoldable pub erase_range : ℕ → ℕ → Bytes → Bytes
erase_range pos len s = take pos s ++ drop (pos + len) s

-- The first third of the identifier, and its `+` if it ends with one.
unfoldable pub half_gitid : Bytes → Bytes
unfolding erase_range
half_gitid gidstr =
    let gidsiz = length gidstr in
    if char_at gidstr (gidsiz - 1) == b'+'
    then erase_range (gidsiz / 3) (gidsiz - gidsiz / 3 - 1) gidstr
    else erase_range (gidsiz / 3) gidsiz gidstr

-- `<?hcv half_gitid?>`
unfoldable pub expand_half_gitid : Env → Expander
unfolding with_stream half_gitid
expand_half_gitid env procinstr filename lineno offset td =
    with_stream 631
      (λ td.
        require (ltb 4 (length (c_str env.gitid))) template 638
        >> ok (write (half_gitid (c_str env.gitid)) td))
      td

-- `<?hcv lastgitcommit?>`
unfoldable pub expand_lastgitcommit : Env → Expander
unfolding with_stream write_encoded
expand_lastgitcommit env procinstr filename lineno offset td =
    with_stream 662 (λ td. ok (write_encoded env.lastgitcommit td)) td

-- `<?hcv timestamp?>`
unfoldable pub expand_timestamp : Env → Expander
unfolding with_stream write_encoded
expand_timestamp env procinstr filename lineno offset td =
    with_stream 680 (λ td. ok (write_encoded env.timestamp td)) td

-- `<?hcv pid?>`
unfoldable pub expand_pid : Env → Expander
unfolding with_stream write_encoded
expand_pid env procinstr filename lineno offset td =
    with_stream 698 (λ td. ok (write (decimal env.pid) td)) td

-- `<?hcv hostname?>`
unfoldable pub expand_hostname : Env → Expander
unfolding with_stream write_encoded
expand_hostname env procinstr filename lineno offset td =
    with_stream 716 (λ td. ok (write env.hostname td)) td

-- `<?hcv request_method?>`
unfoldable pub expand_request_method : Env → Expander
unfolding with_stream write_encoded
expand_request_method env procinstr filename lineno offset td =
    with_stream 734
      (λ td. ok (if is_http td.kind then write_encoded (request_method td) td else td)) td

-- `<?hcv request_path?>`
unfoldable pub expand_request_path : Env → Expander
unfolding with_stream write_encoded
expand_request_path env procinstr filename lineno offset td =
    with_stream 757 (λ td. ok (if is_http td.kind then write_encoded (request_path td) td else td))
      td

-- `<?hcv webroot?>`
unfoldable pub expand_webroot : Env → Expander
unfolding with_stream write_encoded
expand_webroot env procinstr filename lineno offset td =
    with_stream 781 (λ td. ok (write_encoded env.web_root td)) td

-- `<?hcv filename?>`
unfoldable pub expand_filename : Env → Expander
unfolding with_stream write_encoded
expand_filename env procinstr filename lineno offset td =
    with_stream 800 (λ td. ok (write_encoded filename td)) td

-- `<?hcv lineno?>`
unfoldable pub expand_lineno : Env → Expander
unfolding with_stream write_encoded
expand_lineno env procinstr filename lineno offset td =
    with_stream 819 (λ td. ok (write (decimal lineno) td)) td

-- `<?hcv offset?>`
unfoldable pub expand_offset : Env → Expander
unfolding with_stream write_encoded
expand_offset env procinstr filename lineno offset td =
    with_stream 838 (λ td. ok (write (decimal offset) td)) td

-- What follows the last slash: `strrchr`.
unfoldable pub base_name : Bytes → Bytes
base_name [] = []
base_name (c ∷ s) =
    let rest = base_name s in
    if c == b'/' || not (all (λ d. not (d == b'/')) s) then rest else c ∷ s

abbrev pub basefilepos_format : List Directive
basefilepos_format =
    space ∷ literal (codes "basefilepos")
    ++ (space ∷ field 20 is_word ∷ space ∷ field 38 is_word ∷ space ∷ literal (codes "?>")
        ++ (position ∷ []))

unfoldable pub second_field : List Bytes → Bytes
second_field (_ ∷ w ∷ _) = w
second_field _ = []

-- The text written for the tag and the class that sscanf has stored, with `comm` for a comment.
unfoldable pub basefilepos_text : Bool → Bytes → Bytes → Bytes → ℕ → Bytes
unfolding base_name
basefilepos_text comm tag class filename lineno =
    let before : Bytes =
      if comm
      then codes "<!-- @"
      else if not (is_empty tag)
      then codes "<"
        ++ (tag
            ++ ((if is_empty class then [] else codes " class='" ++ (class ++ codes "'"))
                ++ codes ">"))
      else [] in
    let after : Bytes =
      if comm
      then codes " -->"
      else if not (is_empty tag)
      then codes "</" ++ (tag ++ codes ">")
      else [] in
    before
    ++ (output_cstr_encoded_html [] (some (base_name (c_str filename)))
        ++ (codes ":" ++ (decimal lineno ++ after)))

-- `<?hcv basefilepos [htmltag] [cssclass]?>`; the stream is looked for only if sscanf was called and
-- has stored something.
unfoldable pub expand_basefilepos : Env → Expander
unfolding first_field second_field basefilepos_text
expand_basefilepos env procinstr filename lineno offset td = do
  require (not (is_no_kind td.kind)) template 857
  let comm = equal (c_str procinstr) (codes "<?hcv basefilepos comment?>")
  let fields : List Bytes =
      if comm then [] else (sscanf (drop 5 (c_str procinstr)) basefilepos_format).fields
  ok (
      if ltb 0 (length fields) && is_some td.out
      then write (basefilepos_text comm (first_field fields) (second_field fields) filename lineno)
          td
      else td)

-- `<?hcv register_form_token?>`
unfoldable pub expand_register_form_token : Env → Expander
unfolding with_stream
expand_register_form_token env procinstr filename lineno offset td =
    with_stream 909 (λ td. register_form_token env.random td >>= λ text. ok (write text td)) td

-- `catch (std::exception& exc)`, which stops the process.
unfoldable pub or_fatal : ℕ → Outcome (TemplateData × Bytes) → Outcome (TemplateData × Bytes)
or_fatal lin (ok r) = ok r
or_fatal lin (fatal fil l) = fatal fil l
or_fatal lin (thrown fil l) = fatal template lin

-- `<?hcv msg ...?>`
unfoldable pub expand_msg_instruction : Env → Expander
unfolding with_stream or_fatal
expand_msg_instruction env procinstr filename lineno offset td =
    with_stream 928
      (λ td. or_fatal 951 (expand_msg env.globchunk env.dgettext procinstr td) >>= λ r.
        ok (write r.1 r.0))
      td

-- `<?hcv confmsg ...?>`
unfoldable pub expand_confmsg_instruction : Env → Expander
unfolding with_stream or_fatal
expand_confmsg_instruction env procinstr filename lineno offset td =
    with_stream 978
      (λ td. or_fatal 993 (expand_confmsg procinstr td >>= λ text. ok (td, text)) >>= λ r.
        ok (write r.1 r.0))
      td
