-- ===== src/Tests/Mail.antt =====
-- Runs of the emails, the random numbers and the options, for the results that have hypotheses.
use helpcovid.Cstr.Laws.{is_text}
use helpcovid.Tests.Start.{fresh_program, some_system}
use helpcovid.Main.Arguments.{debug, parse1opt}
use helpcovid.Outcome.{some-injective, ok}
use helpcovid.Cstr.{c_str, starts_with, strstr, lines}
use helpcovid.Template.Expand.{
  expand_rest, expand_stream_line, expand_stream_lines, expand_template_input_stream,
}
use helpcovid.Template.Data.{incremented_email_counter, Kind, email_template_data}
use helpcovid.Prelude.{
  ◌∙◌, leb, ◌==◌, ◌++◌, if◌then◌else◌, ap, Option, List, Bytes, refl, ◌-◌, ◌+◌, some, ◌≡◌, ◌^◌, ◌<◌,
  ◌%◌, true, none, ℕ, false, codes, arith, [], ◌∷◌,
}
use helpcovid.Main.Arguments.Options.{progoptions, takes_argument}
use helpcovid.Template.Email.{
  email_command_line, get_html_email_command, EmailData, MailSystem, new_email, send_email,
}
use helpcovid.Template.Email.Sent.{
  c_strs, quoted, is_plain_command, Quotes, send_email-IsSent, IsSent,
}
use helpcovid.Random.{Generator, Random, generate_quickly_4bits, generate_quickly_8bits}
use helpcovid.Random.Pool.{IsPool, generate_quickly-IsPool}
use helpcovid.Main.Arguments.Options.Declared.{parse1opt-declared}

-- A quoting: a mark, and each byte of the C string moved out of the range of the other bytes.
abbrev moved : Bytes → Bytes
moved [] = []
moved (c ∷ s) = (c + 256) ∷ moved s

abbrev mark : Bytes → Bytes
mark s = b'#' ∷ moved (c_str s)

-- The first word, and the words behind a mark; spaces are dropped.
abbrev split_words : Bytes → Bytes × List Bytes
split_words [] = ([], [])
split_words (c ∷ s) =
    let (w, ws) = split_words s in
    if c == b'#'
    then ([], w ∷ ws)
    else if c == b' '
    then (w, ws)
    else ((if leb 256 c then c - 256 else c) ∷ w, ws)

abbrev marked_words : Bytes → Option (List Bytes)
marked_words s = some ((split_words s).0 ∷ (split_words s).1)

moved-is_text : (s : Bytes) → is_text (moved s) ≡ true
moved-is_text [] = refl
moved-is_text (c ∷ s) = ground (arith, moved-is_text s)

split_words-moved :
    (s rest : Bytes) (ws : List Bytes)
    → split_words rest ≡ ([], ws)
    → split_words (moved s ++ rest) ≡ (s, ws)
split_words-moved [] rest ws h = h
split_words-moved (c ∷ s) rest ws h = rw (split_words-moved s rest ws h) (ground arith)

split_words-quoted : (added : List Bytes) → split_words (quoted mark added) ≡ ([], c_strs added)
split_words-quoted [] = refl
split_words-quoted (s ∷ rest) =
    rw (split_words-moved (c_str s) (quoted mark rest) (c_strs rest) (split_words-quoted rest)) refl

split_words-plain :
    (command rest : Bytes) (ws : List Bytes)
    → is_plain_command command ≡ true
    → split_words rest ≡ ([], ws)
    → split_words (command ++ rest) ≡ ((split_words command).0, (split_words command).1 ++ ws)
split_words-plain [] rest ws plain h = h
split_words-plain (c ∷ s) rest ws plain h = ground (arith, split_words-plain s rest ws, h, plain)

mark-Quotes : Quotes mark marked_words
mark-Quotes = record {
  quotes_text = λ s. moved-is_text (c_str s);
  adds_words = λ command args added plain e.
      ap (λ (r : Bytes × List Bytes). some (r.0 ∷ r.1))
        (split_words-plain command (quoted mark added) (c_strs added) plain
          (split_words-quoted added))
      ∙ ap (λ (ws : List Bytes). some (ws ++ c_strs added)) (some-injective e);
}

abbrev some_mail : EmailData
some_mail = record {
  base = record { kind = Kind.email; serial = 4; request = none; language = []; out = some [] };
  email_to = codes "a@b";
  email_subject = codes "hello";
  email_template_path = codes "/tmpl";
}

made_mail : new_email 3 (codes "a@b") (codes "hello") (codes "/tmpl") ≡ (4, some_mail)
unfolding new_email email_template_data incremented_email_counter
made_mail = refl

abbrev some_mail_system : MailSystem
some_mail_system = record {
  shell_quote = mark;
  content = λ path. codes "text\n";
  popen = λ command. true;
  writes = λ text. true;
  status = λ command text. 0;
}

abbrev sent_command : Bytes
sent_command = codes "mail #" ++ (moved (codes "hello") ++ (codes " #" ++ moved (codes "a@b")))

sent_mail :
    send_email some_mail_system [] (codes "mail") some_mail
    ≡ ok (sent_command, codes "text\n", some_mail.base)
unfolding send_email get_html_email_command email_command_line expand_template_input_stream
    expand_stream_lines expand_stream_line expand_rest lines strstr starts_with c_str
sent_mail = refl

send_email-IsSent_example :
    IsSent some_mail_system marked_words
      (codes "mail" ∷ [])
      []
      some_mail
      sent_command
      (codes "text\n")
      some_mail.base
send_email-IsSent_example =
    send_email-IsSent some_mail_system marked_words mark-Quotes [] (codes "mail")
      (codes "mail" ∷ []) some_mail refl refl sent_mail

-- A generator of small words.
abbrev counting : Generator ℕ ℕ
counting = record {
  next = λ g. (g % 2 ^ 32, g + 1);
  seed_device = λ g. g;
  seed_deterministic = λ s. (s, s);
  unseeded = 0;
  deterministic_of = λ n. n;
}

abbrev some_random : Random ℕ
some_random = record { count = 1; generator = 300; advance = 2 ^ 12 - 1; remainbits = 12 }

counting_words : (g : ℕ) → (counting.next g).0 < 2 ^ 32
counting_words g = omega arith

some_random-IsPool : IsPool some_random
some_random-IsPool = record { is_bounded = omega arith; is_small = omega arith }

generate_quickly-IsPool_example :
    ((generate_quickly_4bits counting false some_random 0).0 < 16)
    × IsPool ((generate_quickly_4bits counting false some_random 0).1)
    × ((generate_quickly_8bits counting false some_random 0).0 < 256)
    × IsPool ((generate_quickly_8bits counting false some_random 0).1)
generate_quickly-IsPool_example =
    generate_quickly-IsPool counting false some_random 0 counting_words some_random-IsPool

parse1opt-declared_example :
    parse1opt some_system debug [] fresh_program
    ≡ parse1opt some_system debug (codes "x") fresh_program
unfolding takes_argument progoptions
parse1opt-declared_example = parse1opt-declared some_system debug fresh_program [] (codes "x") refl
