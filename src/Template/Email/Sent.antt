-- ===== src/Template/Email/Sent.antt =====
-- What is sent when `send_email` (hcv_template.cc) returns.
use helpcovid.Cstr.Laws.{c_str-is_text, all-append, is_text}
use mathlib.Core.List.{[]}
use helpcovid.Prelude.{
  append-nil, ◌∙◌, ◌++◌, all, List, Bool, ==_iff, sym, not-eq-true, and-eq-true, ◌==◌, ◌&&◌, refl,
  ◌∷◌, true, some, ap, arith, not, false, Option, ◌≡◌, is_empty, Bytes,
}
use helpcovid.Cstr.{c_str, lines_from, lines}
use helpcovid.Dict.{Dict}
use helpcovid.Template.Email.{
  Bytes, Dict, EmailData, MailSystem, get_html_email_command, email_command_line, send_email,
}
use helpcovid.Template.Data.{TemplateData}
use helpcovid.Template.Expand.{expand_stream_lines, expand_template_input_stream}
use helpcovid.Template.Registry.{Expander}
use helpcovid.Outcome.{ok, template, main, require, >>=-eq-ok, require-eq-ok, ok-injective}

-- Texts as Glib quotes them, each behind a space.
abbrev pub quoted : (Bytes → Bytes) → List Bytes → Bytes
quoted quote [] = []
quoted quote (s ∷ rest) = b' ' ∷ (quote s ++ quoted quote rest)

abbrev pub c_strs : List Bytes → List Bytes
c_strs [] = []
c_strs (s ∷ rest) = c_str s ∷ c_strs rest

-- No NUL, and no # that would start a comment.
abbrev pub is_plain_command : Bytes → Bool
is_plain_command = all (λ c. not (c == 0) && not (c == b'#'))

-- What Glib says of g_shell_quote and of g_shell_parse_argv, which splits a command to words, none for
-- one that it refuses: a quoted text is a C string, and behind a command it is one more word, the C
-- string that was quoted.
pub record Quotes (quote : Bytes → Bytes) (words : Bytes → Option (List Bytes)) : Type 0 where
  pub quotes_text : (s : Bytes) → is_text (quote s) ≡ true
  pub adds_words :
      (command : Bytes) (args added : List Bytes)
      → is_plain_command command ≡ true
      → words command ≡ some args
      → words (command ++ quoted quote added) ≡ some (args ++ c_strs added)

-- A mail that has been sent: the command has the words of the configured one and two more, the subject
-- and the recipient; the text is the expansion of a template that is not empty, is not empty itself, has
-- been written whole, and the command has succeeded.
pub record IsSent (sys : MailSystem) (words : Bytes → Option (List Bytes)) (args : List Bytes)
    (dict : Dict Expander) (mail : EmailData) (command text : Bytes) (after : TemplateData)
    : Type 0 where
  pub has_words :
      words command ≡ some (args ++ (c_str (mail.email_subject) ∷ c_str (mail.email_to) ∷ []))
  pub is_expanded :
      expand_template_input_stream dict
        (sys.content (c_str (mail.email_template_path)))
        (some (c_str (mail.email_template_path)))
        (mail.base)
      ≡ ok (text, after)
  pub has_template : is_empty (sys.content (c_str (mail.email_template_path))) ≡ false
  pub has_text : is_empty text ≡ false
  pub is_written : sys.writes text ≡ true
  pub is_successful : sys.status command text ≡ 0

and-true : {a b : Bool} → a ≡ true → b ≡ true → (a && b) ≡ true
and-true h k = rw h k

is_plain-is_text : (s : Bytes) → is_plain_command s ≡ true → is_text s ≡ true
is_plain-is_text [] h = refl
is_plain-is_text (c ∷ s) h = ground (arith, is_plain-is_text s)

-- The command has no NUL, and its words.
command-words :
    (sys : MailSystem) (words : Bytes → Option (List Bytes)) (law : Quotes sys.shell_quote words)
    (email_command : Bytes) (args : List Bytes) (mail : EmailData)
    → is_plain_command email_command ≡ true
    → words email_command ≡ some args
    → words (c_str (email_command_line sys email_command mail))
      ≡ some (args ++ (c_str (mail.email_subject) ∷ c_str (mail.email_to) ∷ []))
unfolding email_command_line
command-words sys words law email_command args mail plain h =
    let subject = sys.shell_quote (mail.email_subject) in
    let recipient = sys.shell_quote (mail.email_to) in
    let line = email_command ++ (b' ' ∷ (subject ++ (b' ' ∷ recipient))) in
    let no_nul : is_text line ≡ true =
      all-append (λ c. not (c == 0)) email_command (b' ' ∷ (subject ++ (b' ' ∷ recipient)))
      ∙ and-true (is_plain-is_text email_command plain) (
          all-append (λ c. not (c == 0)) subject (b' ' ∷ recipient)
          ∙ and-true (law.quotes_text (mail.email_subject)) (law.quotes_text (mail.email_to))) in
    let same : quoted (sys.shell_quote) (mail.email_subject ∷ mail.email_to ∷ [])
        ≡ (b' ' ∷ (subject ++ (b' ' ∷ recipient))) =
      ap (λ (s : Bytes). b' ' ∷ (subject ++ (b' ' ∷ s))) (append-nil recipient) in
    ap words (c_str-is_text line no_nul ∙ ap (λ (s : Bytes). email_command ++ s) (sym same))
    ∙ law.adds_words email_command args (mail.email_subject ∷ mail.email_to ∷ []) plain h

-- An empty stream expands to no text.
expand_empty :
    (dict : Dict Expander) (input : Bytes) (name : Option Bytes) (td : TemplateData)
    {r : Bytes × TemplateData}
    → expand_template_input_stream dict input name td ≡ ok r
    → is_empty (r.0) ≡ false
    → is_empty input ≡ false
unfolding expand_template_input_stream expand_stream_lines lines lines_from
expand_empty dict [] name td e h =
    ground (arith, ap (λ (t : Bytes × TemplateData). is_empty t.0) (ok-injective e))
expand_empty dict (c ∷ s) name td e h = refl

-- If `send_email` returns, the mail has been sent (`IsSent`): the command that it runs has the words of
-- the configured one, and the subject and the recipient as two more words, whatever bytes they have; it
-- has ended with 0; the template and its expansion are not empty; and the whole expansion has been
-- written. The configured command has no NUL and no #, and Glib can split it to words.
pub send_email-IsSent :
    (sys : MailSystem) (words : Bytes → Option (List Bytes)) (law : Quotes sys.shell_quote words)
    (dict : Dict Expander) (email_command : Bytes) (args : List Bytes) (mail : EmailData)
    {command text : Bytes} {after : TemplateData}
    → is_plain_command email_command ≡ true
    → words email_command ≡ some args
    → send_email sys dict email_command mail ≡ ok (command, text, after)
    → IsSent sys words args dict mail command text after
unfolding send_email get_html_email_command
send_email-IsSent sys words law dict email_command args mail {command} {text} {after} plain split
      e =
    let path = c_str (mail.email_template_path) in
    let (cmd, got, e1) = >>=-eq-ok (get_html_email_command email_command) _ e in
    let (_, _, e2) = >>=-eq-ok (require (not (is_empty email_command)) main 964) _ got in
    let same : email_command ≡ cmd = ok-injective e2 in
    let line = email_command_line sys cmd mail in
    let (_, _, e3) = >>=-eq-ok (require (not (is_empty cmd)) template 229) _ e1 in
    let (_, _, e4) = >>=-eq-ok (require (sys.popen (c_str line)) template 242) _ e3 in
    let (r, expanded, e5) =
      >>=-eq-ok (expand_template_input_stream dict (sys.content path) (some path) (mail.base)) _
        e4 in
    let (_, written, e6) =
      >>=-eq-ok (require (not (is_empty (r.0)) && sys.writes (r.0)) template 251) _ e5 in
    let (_, closed, e7) =
      >>=-eq-ok (require (sys.status (c_str line) (r.0) == 0) template 258) _ e6 in
    let sent = ok-injective e7 in
    let (full, whole) =
      and-eq-true (not (is_empty (r.0))) (sys.writes (r.0))
        (require-eq-ok (not (is_empty (r.0)) && sys.writes (r.0)) template 251 written) in
    let texts : r.0 ≡ text = ap (λ (t : Bytes × Bytes × TemplateData). t.1) sent in
    let afters : r.1 ≡ after = ap (λ (t : Bytes × Bytes × TemplateData). t.2) sent in
    let commands : c_str line ≡ command = ap (λ (t : Bytes × Bytes × TemplateData). t.0) sent in
    let filled : is_empty (r.0) ≡ false = not-eq-true (is_empty (r.0)) full in
    record {
      has_words =
          ap words (sym commands)
          ∙ ap (λ (c : Bytes). words (c_str (email_command_line sys c mail))) (sym same)
          ∙ command-words sys words law email_command args mail plain split;
      is_expanded = rw (← texts, ← afters) expanded;
      has_template = expand_empty dict (sys.content path) (some path) (mail.base) expanded filled;
      has_text = rw (← texts) filled;
      is_written = rw (← texts) whole;
      is_successful =
          rw (← commands, ← texts)
            ((==_iff (sys.status (c_str line) (r.0)) 0).0
              (require-eq-ok (sys.status (c_str line) (r.0) == 0) template 258 closed));
    }
