-- ===== src/Views/Message.antt =====
-- `hcv_view_expand_msg`, `hcv_view_expand_confmsg` and `hcv_view_register_form_token`
-- (hcv_views.cc).
use helpcovid.Template.Registry.{is_some}
use helpcovid.Decimal.{decimal}
use helpcovid.Cstr.{strstr, is_word, char_at, is_alpha, c_str}
use helpcovid.Chunkmap.{get_chunkmap_entry}
use helpcovid.Template.Language.{request_language}
use helpcovid.Template.Data.{is_http, TemplateData}
use helpcovid.Scan.{sscanf, position, field, space, literal, Directive}
use helpcovid.Outcome.{fatal, ◌>>◌, views, require, ok, Outcome}
use helpcovid.Dict.{Dict}
use helpcovid.Prelude.{
  take, ◌&&◌, drop, [], ◌++◌, ltb, equal, some, is_empty, codes, ◌∷◌, none, if◌then◌else◌, Option,
  List, Bytes, ℕ,
}

abbrev pub msg_format : List Directive
msg_format =
    literal (codes "<?hcv")
    ++ (space ∷ literal (codes "msg") ++ (space ∷ field 38 is_word ∷ space ∷ position ∷ []))

abbrev pub confmsg_format : List Directive
confmsg_format =
    literal (codes "<?hcv")
    ++ (space ∷ literal (codes "confmsg") ++ (space ∷ field 38 is_word ∷ space ∷ position ∷ []))

-- The chunks that are loaded, and `dgettext`, with `none` for a null pointer.
module _ (globchunk : Dict Bytes) (dgettext : Bytes → Option Bytes) where
  -- `localizedmsg && strcmp(localizedmsg, msgidbuf)`
  unfoldable pub localized : Bytes → Option Bytes
  localized msgid = elim (dgettext msgid) [
    | none ↦ none
    | some m ↦ if equal (c_str m) (c_str msgid) then none else some (c_str m)
  ]

  -- `(reqlang.empty()?chunknam:(chunknam+"_"+reqlang))`
  unfoldable pub lang_chunk_name : Bytes → Bytes → Bytes
  lang_chunk_name chunknam reqlang =
      if is_empty reqlang then chunknam else chunknam ++ (codes "_" ++ reqlang)

  -- With no chunk of the message's own name: the message in the process's language, the chunk of the
  -- request's language, or the text of the instruction.
  unfoldable pub message_text : Bytes → Bytes → TemplateData → TemplateData × Bytes
  unfolding localized lang_chunk_name
  message_text msgid rawmsg tdata =
      let asked = request_language tdata in
      let entry = get_chunkmap_entry globchunk (lang_chunk_name msgid asked.1) in
      let text : Bytes = elim (localized msgid) [
        | some m ↦ m
        | none ↦ if is_empty entry then rawmsg else entry
      ] in
      (asked.0, text)

  -- The message of an instruction with the identifier `msgid`, whose text starts at `endp`.
  unfoldable pub expand_named : Bytes → ℕ → Bytes → TemplateData → Outcome (TemplateData × Bytes)
  unfolding message_text
  expand_named msgid endp procinstr tdata = do
    require (is_alpha (char_at msgid 0)) views 259
    let begmsg = drop endp (c_str procinstr)
    elim (strstr (codes "?>") begmsg) [
      | none ↦ fatal views 265
      | some n ↦
          let chunkent = get_chunkmap_entry globchunk msgid in
          ok (
            if is_empty chunkent
            then message_text msgid (take n begmsg) tdata
            else (tdata, chunkent))
    ]

  -- On what sscanf has stored, its result being the number of fields.
  unfoldable pub expand_msg_scanned :
      List Bytes → Option ℕ → Bytes → TemplateData → Outcome (TemplateData × Bytes)
  unfolding expand_named
  expand_msg_scanned (msgid ∷ _) (some endp) procinstr tdata =
      if ltb 0 endp then expand_named msgid endp procinstr tdata else ok (tdata, [])
  expand_msg_scanned _ _ procinstr tdata = ok (tdata, [])

  -- `hcv_view_expand_msg`, on what `dynamic_cast` gives of the template data.
  unfoldable pub expand_msg : Bytes → TemplateData → Outcome (TemplateData × Bytes)
  unfolding expand_msg_scanned
  expand_msg procinstr tdata = do
    require (is_http tdata.kind && is_some tdata.request) views 250
    let got = sscanf (c_str procinstr) msg_format
    expand_msg_scanned got.fields got.endpos procinstr tdata

-- On what the sscanf of `hcv_view_expand_confmsg` has stored: the known identifiers are not
-- implemented.
unfoldable pub expand_confmsg_scanned : List Bytes → Option ℕ → Bytes → Outcome Bytes
expand_confmsg_scanned (msgid ∷ _) (some endp) procinstr =
    if ltb 0 endp
    then require (is_alpha (char_at msgid 0)) views 329
      >> elim (strstr (codes "?>") (drop endp (c_str procinstr))) [
        | none ↦ fatal views 335
        | some n ↦ fatal views 356
      ]
    else ok []
expand_confmsg_scanned _ _ procinstr = ok []

-- `hcv_view_expand_confmsg`
unfoldable pub expand_confmsg : Bytes → TemplateData → Outcome Bytes
unfolding expand_confmsg_scanned
expand_confmsg procinstr tdata = do
  require (is_http tdata.kind && is_some tdata.request) views 320
  let got = sscanf (c_str procinstr) confmsg_format
  expand_confmsg_scanned got.fields got.endpos procinstr

-- `hcv_view_register_form_token`, with the number that `Hcv_Random::random_32u` gives.
unfoldable pub register_form_token : ℕ → TemplateData → Outcome Bytes
register_form_token ur httpdata = do
  require (is_http httpdata.kind) views 128
  ok (codes "r" ++ (decimal httpdata.serial ++ (codes "/" ++ decimal ur)))
