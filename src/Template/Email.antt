-- ===== src/Template/Email.antt =====
-- `Hcv_email_template_data` (hcv_header.hh and hcv_template.cc) and `hcv_get_html_email_command`
-- (hcv_main.cc). The quoting of Glib, the template's file, and the pipe are parameters.
pub mod Sent
use helpcovid.Dict.{Dict}
use helpcovid.Prelude.{◌==◌, ◌&&◌, some, is_empty, codes, ◌++◌, ℕ, not, Bool, Bytes}
use helpcovid.Cstr.{c_str}
use helpcovid.Template.Data.{TemplateData, email_template_data}
use helpcovid.Template.Expand.{expand_template_input_stream}
use helpcovid.Template.Registry.{Expander}
use helpcovid.Outcome.{Outcome, ok, fatal, template, main, require, ◌>>=◌, ◌>>◌}

-- The object: the data of the base class, the recipient, the subject and the path of the template.
pub record EmailData : Type 0 where
  pub base : TemplateData
  pub email_to : Bytes
  pub email_subject : Bytes
  pub email_template_path : Bytes

-- The constructor, on the counter of emails: the new counter and the object.
unfoldable pub new_email : ℕ → Bytes → Bytes → Bytes → ℕ × EmailData
unfolding email_template_data
new_email counter toemail emailsubject templatepath =
    let made = email_template_data counter in
    (
      made.0,
      record {
        base = made.1;
        email_to = toemail;
        email_subject = emailsubject;
        email_template_path = templatepath;
      },
    )

-- What the system gives: Glib's shell_quote, the bytes of a file, none of them if it cannot be read;
-- whether popen succeeds on a command, whether fwrite takes a text that is not empty, and the status
-- that pclose gives of a command with what was written to it.
pub record MailSystem : Type 0 where
  pub shell_quote : Bytes → Bytes
  pub content : Bytes → Bytes
  pub popen : Bytes → Bool
  pub writes : Bytes → Bool
  pub status : Bytes → Bytes → ℕ

-- `hcv_get_html_email_command`
unfoldable pub get_html_email_command : Bytes → Outcome Bytes
get_html_email_command email_command = do
  require (not (is_empty email_command)) main 964
  ok email_command

-- The command, with the subject and the recipient as quoted arguments.
unfoldable pub email_command_line : MailSystem → Bytes → EmailData → Bytes
email_command_line sys emailcmd mail =
    emailcmd
    ++ (codes " "
        ++ (sys.shell_quote (mail.email_subject) ++ (codes " " ++ sys.shell_quote (mail.email_to))))

-- `send_email`: the command, what is written to it, and the data behind the expansion. fwrite of one
-- block gives 0 for a block of no bytes.
unfoldable pub send_email :
    MailSystem → Dict Expander → Bytes → EmailData → Outcome (Bytes × Bytes × TemplateData)
unfolding get_html_email_command email_command_line expand_template_input_stream c_str
send_email sys dict email_command mail = do
  emailcmd ← get_html_email_command email_command
  require (not (is_empty emailcmd)) template 229
  let command = email_command_line sys emailcmd mail
  require (sys.popen (c_str command)) template 242
  mailstr ←
      expand_template_input_stream dict (sys.content (c_str (mail.email_template_path)))
        (some (c_str (mail.email_template_path))) (mail.base)
  require (not (is_empty (mailstr.0)) && sys.writes (mailstr.0)) template 251
  require (sys.status (c_str command) (mailstr.0) == 0) template 258
  ok (c_str command, mailstr.0, mailstr.1)

-- `~Hcv_email_template_data`
unfoldable pub destroy_email : EmailData → Outcome (Unit {0})
destroy_email mail = fatal template 220
