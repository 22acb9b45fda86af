-- ===== src/Template/Expand.antt =====
-- `hcv_expand_processing_instruction`, `hcv_expand_template_file` and
-- `hcv_expand_template_input_stream`.
pub mod Loop
pub mod Step
pub mod Early
pub mod Stream
use helpcovid.Prelude.{
  ℕ, zero, suc, ◌+◌, ◌-◌, ◌*◌, not, ◌&&◌, List, [], ◌∷◌, ◌++◌, Option, none, some, leb, ltb,
  is_empty, length, take, drop, Bytes, codes, ◌==◌, if◌then◌else◌,
}
use helpcovid.Outcome.{Outcome, ok, fatal, thrown, template, require, ◌>>=◌, ◌>>◌}
use helpcovid.Cstr.{c_str, char_at, strstr, is_word, lines}
use helpcovid.Scan.{Directive, space, field, position, literal, sscanf}
use helpcovid.Dict.{Dict, lookup}
use helpcovid.Template.Data.{TemplateData, is_no_kind, write}
use helpcovid.Template.Registry.{is_some, Expander}

-- "<?hcv %64[a-zA-Z0-9_] %n"
abbrev pub instruction_format : List Directive
instruction_format = literal (codes "<?hcv") ++ (space ∷ field 64 is_word ∷ space ∷ position ∷ [])

-- The end of the instruction, and the call of its expander; an unknown name is only logged.
unfoldable pub call_expander :
    Dict Expander → Bytes → ℕ → Bytes → Bytes → ℕ → ℕ → TemplateData → Outcome TemplateData
call_expander dict name endpos procinstr filename lineno offset td =
    elim (strstr (codes "?>") (drop endpos (c_str procinstr))) [
      | none ↦ fatal template 324
      | some endpi ↦
          if not (char_at (drop endpos (c_str procinstr)) (endpi + 2) == 0)
          then fatal template 324
          else elim (lookup name dict) [
            | none ↦ ok td
            | some clos ↦ clos procinstr filename lineno offset td
          ]
    ]

-- On what its sscanf has stored; an invalid instruction is only logged.
unfoldable pub expand_scanned :
    Dict Expander
    → List Bytes
    → Option ℕ
    → Bytes
    → Bytes
    → ℕ
    → ℕ
    → TemplateData
    → Outcome TemplateData
unfolding call_expander
expand_scanned dict (name ∷ _) (some endpos) procinstr filename lineno offset td =
    call_expander dict name endpos procinstr filename lineno offset td
expand_scanned dict _ _ procinstr filename lineno offset td = ok td

-- `hcv_expand_processing_instruction`
unfoldable pub expand_processing_instruction :
    Dict Expander → Bytes → Bytes → ℕ → ℕ → TemplateData → Outcome TemplateData
unfolding expand_scanned
expand_processing_instruction dict procinstr filename lineno offset td = do
  require (not (is_no_kind td.kind)) template 308
  let got = sscanf (c_str procinstr) instruction_format
  expand_scanned dict got.fields got.endpos procinstr filename lineno offset td

-- The `while` loop over the rest `cur` of a line, which stands twice in the source. The state `S` is
-- what it writes to and what the instructions act on; a rest with no whole instruction is written.
-- `std::string(startpi, n)` with a negative `n` throws. Each round takes at least eight bytes.
module _ {S : Type 0} (put : Bytes → S → S) (instruct : Bytes → S → Outcome S) (lin : ℕ) where
  unfoldable pub expand_rest : ℕ → Bytes → S → Outcome S
  expand_rest zero cur s = ok (put cur s)
  expand_rest (suc fuel) cur s = elim (strstr (codes "<?hcv ") cur) [
    | none ↦ ok (put cur s)
    | some startpi ↦ elim (strstr (codes "?>") (drop 6 cur)) [
      | none ↦ ok (put cur s)
      | some e ↦
          let endpi = e + 6 in
          let round : Outcome S =
            instruct (take (endpi + 2 - startpi) (drop startpi cur)) (put (take startpi cur) s)
            >>= expand_rest fuel (drop (endpi + 2) cur) in
          if ltb (endpi + 2) startpi then thrown template lin else round
    ]
  ]

abbrev pub max_template_size : ℕ
max_template_size = 128 * 1024

abbrev pub newline : Bytes
newline = b'\n' ∷ []

-- What `stat` and the stream give of a path; the size and the bytes are read at different times.
pub data FileStat : Type 0 where
  missing : FileStat
  not_regular : FileStat
  regular : ℕ → Bytes → FileStat

-- `outp->str()`
unfoldable pub stream_text : TemplateData → Bytes
stream_text td = elim td.out [ none ↦ [] | some s ↦ s ]

module _ (dict : Dict Expander) (srcfilepath : Bytes) where
  -- One round of the `for` loop of `hcv_expand_template_file`.
  unfoldable pub expand_file_line : ℕ → ℕ → Bytes → TemplateData → Outcome TemplateData
  unfolding expand_rest
  expand_file_line lincnt off linbuf td =
      if is_empty linbuf
      then ok (write newline td)
      else if ltb lincnt 8
          && ltb 4 (length linbuf)
          && char_at linbuf 0 == b'<'
          && char_at linbuf 1 == b'!'
      then ok (write newline (write linbuf td))
      else do
        td' ←
            expand_rest write
              (λ procinstr td.
                expand_processing_instruction dict procinstr srcfilepath lincnt off td)
              414 (length linbuf) (c_str linbuf) td
        ok (write newline td')

  unfoldable pub expand_file_lines : ℕ → ℕ → List Bytes → TemplateData → Outcome TemplateData
  unfolding expand_file_line
  expand_file_lines lincnt off [] td = ok td
  expand_file_lines lincnt off (l ∷ ls) td = do
    td' ← expand_file_line (lincnt + 1) off l td
    expand_file_lines (lincnt + 1) (off + (length l + 1)) ls td'

  -- `hcv_expand_template_file`: the template data behind it, and the text returned.
  unfoldable pub expand_template_file : FileStat → TemplateData → Outcome (TemplateData × Bytes)
  unfolding expand_file_lines stream_text
  expand_template_file missing td = do
    require (not (is_empty srcfilepath)) template 355
    fatal template 360
  expand_template_file not_regular td = do
    require (not (is_empty srcfilepath)) template 355
    fatal template 362
  expand_template_file (regular size text) td = do
    require (not (is_empty srcfilepath)) template 355
    require (leb size max_template_size) template 365
    require (is_some td.out) template 371
    td' ← expand_file_lines 0 0 (lines text) td
    ok (td', stream_text td')

-- The state of the other loop: the local stream `outp`, and the template data.
abbrev pub put_local : Bytes → Bytes × TemplateData → Bytes × TemplateData
put_local text (outp, td) = (outp ++ text, td)

-- An instruction acts on the template data.
abbrev pub instruct_on :
    (TemplateData → Outcome TemplateData) → Bytes × TemplateData → Outcome (Bytes × TemplateData)
instruct_on f (outp, td) = do td' ← f td; ok (outp, td')

module _ (dict : Dict Expander) (inpname : Bytes) where
  unfoldable pub expand_stream_line :
      ℕ → ℕ → Bytes → Bytes × TemplateData → Outcome (Bytes × TemplateData)
  unfolding expand_rest
  expand_stream_line lincnt off linbuf s = do
    require (leb off max_template_size) template 446
    s' ←
        expand_rest put_local
          (λ procinstr.
            instruct_on (λ td. expand_processing_instruction dict procinstr inpname lincnt off td))
          470 (length linbuf) (c_str linbuf) s
    ok (put_local newline s')

  unfoldable pub expand_stream_lines :
      ℕ → ℕ → List Bytes → Bytes × TemplateData → Outcome (Bytes × TemplateData)
  unfolding expand_stream_line
  expand_stream_lines lincnt off [] s = ok s
  expand_stream_lines lincnt off (l ∷ ls) s = do
    s' ← expand_stream_line (lincnt + 1) off l s
    expand_stream_lines (lincnt + 1) (off + (length l + 1)) ls s'

-- `hcv_expand_template_input_stream` on the text of the stream; `none` is a null name.
unfoldable pub expand_template_input_stream :
    Dict Expander → Bytes → Option Bytes → TemplateData → Outcome (Bytes × TemplateData)
unfolding expand_stream_lines
expand_template_input_stream dict text inpname td =
    let name : Bytes = elim inpname [ none ↦ codes "??*null*??" | some n ↦ n ] in
    expand_stream_lines dict name 0 0 (lines text) ([], td)

-- `hcv_expand_template_string`
unfoldable pub expand_template_string :
    Dict Expander → Bytes → Option Bytes → TemplateData → Outcome (Bytes × TemplateData)
unfolding expand_template_input_stream
expand_template_string dict inpstr inpname td = expand_template_input_stream dict inpstr inpname td
