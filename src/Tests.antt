-- ===== src/Tests.antt =====
-- Runs of the model on concrete inputs, and for each result with hypotheses an input where they hold.
mod Server
mod Databases
mod Login
mod Routes
mod Status
mod Mail
mod Start
mod Thread
use helpcovid.Template.Expanders.Escaped.{expand_request-Escaped, Escaped}
use helpcovid.Views.Pages.{login_page, view_get-Shown, login_view_get, Shown}
use helpcovid.Models.Validation.{user_model_validate-refuses, user_model_create-incomplete}
use helpcovid.Background.Loop.{background_loop-stops, background_loop-sigterm}
use helpcovid.Models.{user_model_validate, user_model_create, UserModel}
use helpcovid.Background.Order.{
  do_event-do_postpone, do_postpone-InOrder, background_loop-InOrder, InOrder,
}
use helpcovid.Background.{
  sigterm, quiet, got, arm_timer, timed_out, readable, do_event, poll_round, do_postpone,
  background_loop, Polled, Background,
}
use helpcovid.Decimal.{decimal}
use helpcovid.Template.Extends.Initialized.{expand_template_file-Extends_initialized}
use helpcovid.Template.Extends.{Extends}
use helpcovid.Template.Initialize.Names.{
  initialize_templates-lookup, initialize_templates-lastgitcommit,
}
use helpcovid.Template.Registry.Names.{register-is_template_name, is_template_name}
use helpcovid.Template.Expand.Early.{expand_file_line-early, before_early}
use helpcovid.Template.Initialize.{registrations, initialize_templates}
use helpcovid.Template.Expanders.Silent.{expand_html_config-silent, expand_basefilepos-comment}
use helpcovid.Template.Expand.Step.{expand_rest-with_instruction, with_instruction}
use helpcovid.Template.Expand.Loop.{expand_rest-fuel}
use helpcovid.Template.Registry.{Expander, register}
use helpcovid.Template.Language.{
  request_language-IsFound, request_language_idempotent, language_codes, request_language, IsFound,
}
use helpcovid.Template.Expanders.{
  expand_request_path, expand_request_number, with_stream, expand_gitid, expand_pid,
  expand_html_config, expand_basefilepos, Env,
}
use helpcovid.Template.Expand.Stream.{expand_template_input_stream-same}
use helpcovid.Template.Expand.{
  FileStat, regular, expand_template_file, expand_processing_instruction, expand_file_line,
  expand_template_input_stream, expand_rest,
}
use helpcovid.Template.Data.{
  request_path, is_http, http_template_data, write, http, is_no_kind, TemplateData, Request,
}
use helpcovid.Main.Config.{HtmlSection, get_config_html-is_config_name, get_config_html}
use helpcovid.Html.RoundTrip.{
  output_encoded_html-is_plain, is_plain, output_cstr_encoded_html-c_str,
  decode-output_encoded_html, decode,
}
use helpcovid.Html.{output_encoded_html, output_cstr_encoded_html}
use helpcovid.Cstr.Laws.{unlines}
use helpcovid.Chunkmap.Text.{parse_chunk_map-unlines, entry_lines, IsEntry}
use helpcovid.Chunkmap.Single.{IsName}
use helpcovid.Chunkmap.Multiline.{parse_chunk_map-multi_line, multi_line, IsLabel}
use helpcovid.Chunkmap.Global.{get_chunkmap_entry-add_chunkmap_file, add_chunkmap_file-Added, Added}
use helpcovid.Chunkmap.Bounds.{parse_chunk_map-Named, Named}
use helpcovid.Prelude.{
  inr, inl, zero, ◌^◌, ◌+◌, suc, false, ◌⊎◌, ℕ, List, true, ◌↔◌, ◌<◌, all, ◌++◌, none, length,
  arith, Bytes, ◌≡◌, refl, [], ◌∷◌, some, codes, equal,
}
use helpcovid.Outcome.{ok-injective, template, thrown, ◌>>=◌, Outcome, ok}
use helpcovid.Cstr.{
  is_digit, starts_with, is_alnum, strstr, lines, is_space, is_alpha, is_word, c_str,
}
use helpcovid.Scan.{sscanf}
use helpcovid.Dict.{or_else, merge, lookup, Dict, insert}
use helpcovid.Chunkmap.{
  max_chunkmap_linelen, get_chunkmap_entry, add_chunkmap_file, parse_chunk_map,
}

runs : Unit {0}
unfolding equal is_space is_alpha is_word c_str sscanf insert parse_chunk_map
runs = tt

t1 :
    parse_chunk_map (some (codes "# c\n\n!FOO'some text\n!BAR'x y\n!FOO'again"))
    ≡ ok ((codes "FOO", codes "some text") ∷ (codes "BAR", codes "x y") ∷ [])
unfolding runs
t1 = refl

t2 :
    parse_chunk_map (some (codes "!A'1\n!MULTI\"abc(\nline\n)abc\"\n!B'2\n"))
    ≡ ok ((codes "A", codes "1") ∷ [])
unfolding runs
t2 = refl

-- Test data.

abbrev entry_a : Bytes × Bytes
entry_a = (codes "A", codes "one")

IsName-a : IsName (codes "A")
unfolding is_alpha is_word
IsName-a = record { first = refl; word = refl; short = omega arith }

entry_a-IsEntry : IsEntry entry_a
entry_a-IsEntry = record { name = IsName-a; text = refl; line = refl }

IsLabel-abc : IsLabel (codes "abc")
unfolding is_alpha is_word
IsLabel-abc = record { first = refl; word = refl; short = omega arith }

abbrev env : Env
env = record {
  today = codes "2020, Apr, 01";
  now = codes "noon";
  gitid = codes "0123456789ab+";
  lastgitcommit = codes "0123 fix";
  timestamp = codes "today";
  pid = 42;
  hostname = codes "host";
  web_root = codes "/www/";
  html_section = record {
    has_key = λ name. some false;
    get_string = λ name. none;
    after_destruction = λ text. text;
  };
  globchunk = [];
  dgettext = λ msgid. none;
  random = 7;
}

abbrev request : Request
request = record {
  method = codes "GET";
  path = codes "/";
  accept_language = codes "de,fr";
  user_agent = none;
  param_value = λ key. [];
}

abbrev page : TemplateData
page = record { kind = http; serial = 3; request = some request; language = []; out = some [] }

abbrev write_name : Bytes → Bytes → Outcome Bytes
write_name procinstr s = ok (s ++ codes "*")

-- The results at these inputs.

parse_chunk_map-unlines_example :
    parse_chunk_map (some (unlines (entry_lines (entry_a ∷ [])))) ≡ ok (merge [] (entry_a ∷ []))
parse_chunk_map-unlines_example =
    parse_chunk_map-unlines (entry_a ∷ []) (entry_a-IsEntry, tt) (omega arith) (omega arith)

parse_chunk_map-multi_line_example :
    parse_chunk_map (
      some (
        unlines (entry_lines (entry_a ∷ []))
        ++ (multi_line (codes "A") (codes "abc") [] ++ b'\n' ∷ codes "line\n)abc\"\n!B'2\n")))
    ≡ ok (merge [] (entry_a ∷ []))
unfolding lines
parse_chunk_map-multi_line_example =
    parse_chunk_map-multi_line (entry_a ∷ []) (codes "A") (codes "abc") []
      (codes "line\n)abc\"\n!B'2\n") (entry_a-IsEntry, tt) IsName-a IsLabel-abc refl refl
      (omega arith) (omega arith)

parse_chunk_map-Named_example :
    Named ((codes "A", codes "1") ∷ [])
    × (length (lines (codes "!A'1\n!MULTI\"abc(\nline\n)abc\"\n!B'2\n")) < max_chunkmap_linelen)
parse_chunk_map-Named_example =
    parse_chunk_map-Named (codes "!A'1\n!MULTI\"abc(\nline\n)abc\"\n!B'2\n") t2

added_a :
    add_chunkmap_file [] (codes "chunks") (some (codes "!A'1\n")) ≡ ok ((codes "A", codes "1") ∷ [])
unfolding runs add_chunkmap_file is_alnum merge
added_a = refl

kept_a :
    add_chunkmap_file ((codes "A", codes "0") ∷ []) (codes "chunks") (some (codes "!A'1\n"))
    ≡ ok ((codes "A", codes "0") ∷ [])
unfolding runs add_chunkmap_file is_alnum merge
kept_a = refl

add_chunkmap_file-Added_example :
    Added [] (codes "chunks") (some (codes "!A'1\n")) ((codes "A", codes "1") ∷ [])
add_chunkmap_file-Added_example =
    add_chunkmap_file-Added [] (codes "chunks") (some (codes "!A'1\n")) added_a

output_cstr_encoded_html-c_str_example :
    output_cstr_encoded_html (codes "x") (some (codes "a<b"))
    ≡ output_encoded_html (codes "x") (c_str (codes "a<b"))
output_cstr_encoded_html-c_str_example = output_cstr_encoded_html-c_str (codes "x") (codes "a<b")

output_encoded_html-is_plain_example :
    (added : Bytes) × (output_encoded_html (codes "<b>") (codes "<i>") ≡ codes "<b>" ++ added)
    × (all is_plain added ≡ true)
output_encoded_html-is_plain_example = output_encoded_html-is_plain (codes "<b>") (codes "<i>")

decode-output_encoded_html_example :
    decode 5 (output_encoded_html [] (codes "a<&>b")) ≡ codes "a<&>b"
decode-output_encoded_html_example = decode-output_encoded_html (codes "a<&>b")

expand_rest-fuel_example :
    expand_rest (λ text s. s ++ text) write_name 1 14 (codes "a<?hcv now ?>b") []
    ≡ expand_rest (λ text s. s ++ text) write_name 1 20 (codes "a<?hcv now ?>b") []
expand_rest-fuel_example =
    expand_rest-fuel (λ text s. s ++ text) write_name 1 14 20 (codes "a<?hcv now ?>b") []
      (omega arith) (omega arith)

expand_rest-with_instruction_example :
    expand_rest
      (λ text s. s ++ text)
      write_name
      1
      20
      (with_instruction (codes "a") (codes "now ") (codes "b"))
      []
    ≡ (write_name (codes "<?hcv now ?>") (codes "a")
        >>= expand_rest (λ text s. s ++ text) write_name 1 1 (codes "b"))
unfolding strstr starts_with
expand_rest-with_instruction_example =
    expand_rest-with_instruction (λ text s. s ++ text) write_name 1 20 (codes "a") (codes "now ")
      (codes "b") [] (omega arith) refl refl

expand_file_line-early_example :
    expand_file_line []
      (codes "f")
      9
      0
      (with_instruction (before_early (codes "<?php x") (codes " ")) (codes "now ") (codes "b"))
      page
    ≡ thrown template 414
unfolding strstr starts_with
expand_file_line-early_example =
    expand_file_line-early [] (codes "f") 9 0 page (codes "<?php x") (codes " ") (codes "now ")
      (codes "b") refl refl (omega arith) (omega arith) refl refl

stream_runs : Unit {0}
unfolding expand_template_input_stream expand_processing_instruction sscanf lines strstr starts_with
    c_str lookup equal is_word is_space is_alnum is_digit is_alpha expand_pid with_stream decimal
    write is_no_kind
stream_runs = tt

-- The page's stream has the number, and the text returned has nothing in its place.
abbrev page_with_pid : TemplateData
page_with_pid = record page { out = some (codes "42") }

streamed :
    expand_template_input_stream [] (codes "a<?hcv pid ?>b") none page ≡ ok (codes "ab\n", page)
unfolding stream_runs
streamed = refl

streamed_with_pid :
    expand_template_input_stream
      ((codes "pid", expand_pid env) ∷ [])
      (codes "a<?hcv pid ?>b")
      none
      page
    ≡ ok (codes "ab\n", page_with_pid)
unfolding stream_runs
streamed_with_pid = refl

expand_template_input_stream-same_example : codes "ab\n" ≡ codes "ab\n"
expand_template_input_stream-same_example =
    expand_template_input_stream-same [] ((codes "pid", expand_pid env) ∷ [])
      (codes "a<?hcv pid ?>b") none none page page streamed streamed_with_pid

-- A file whose only instruction is known.
abbrev page_of_file : TemplateData
page_of_file = record page { out = some (codes "a3b\n") }

abbrev dict_of : Outcome (Dict Expander) → Dict Expander
dict_of (ok dict) = dict
dict_of _ = []

initialized : (dict : Dict Expander) × (initialize_templates env [] ≡ ok dict)
unfolding initialize_templates is_alpha is_word insert equal c_str register
initialized = (dict_of (initialize_templates env []), refl)

expanded_file :
    expand_template_file initialized.0
      (codes "f")
      (regular 27 (codes "a<?hcv request_number ?>b"))
      page
    ≡ ok (page_of_file, codes "a3b\n")
unfolding stream_runs initialized initialize_templates insert register expand_template_file
    expand_request_number output_cstr_encoded_html
expanded_file = refl

expand_template_file-Extends_initialized_example :
    Extends page page_of_file × (page_of_file.out ≡ some (codes "a3b\n"))
expand_template_file-Extends_initialized_example =
    expand_template_file-Extends_initialized env initialized.0 (codes "f")
      (regular 27 (codes "a<?hcv request_number ?>b")) page initialized.1 expanded_file

register-is_template_name_example :
    (register (codes "pid") (some (expand_pid env)) [] ≡ ok ((codes "pid", expand_pid env) ∷ []))
    ↔ ((is_template_name (codes "pid") ≡ true)
        × ((codes "pid", expand_pid env) ∷ [] ≡ insert (codes "pid") (expand_pid env) []))
register-is_template_name_example =
    register-is_template_name (codes "pid") (expand_pid env) [] ((codes "pid", expand_pid env) ∷ [])

initialize_templates-lookup_example :
    (dict' : Dict Expander) × (initialize_templates env [] ≡ ok dict')
    × ((k : Bytes) → lookup k dict' ≡ or_else (lookup k []) (lookup k (registrations env)))
initialize_templates-lookup_example = initialize_templates-lookup env []

request_language-IsFound_example : IsFound language_codes (codes "de,fr") (request_language page).1
request_language-IsFound_example = request_language-IsFound page request refl refl

-- A section whose strings can still be read.
abbrev titled : HtmlSection
titled = record {
  has_key = λ name. some true;
  get_string = λ name. some (codes "hi");
  after_destruction = λ text. text;
}

get_config_html-is_config_name_example : get_config_html titled (codes "title") ≡ ok (codes "hi")
unfolding is_alpha is_word c_str
get_config_html-is_config_name_example = get_config_html-is_config_name titled (codes "title")

abbrev login_files : Bytes → FileStat
login_files path = regular 27 (codes "a<?hcv request_number ?>b")

logged_in : login_view_get initialized.0 (codes "/www/") login_files request 3 ≡ ok (codes "a3b\n")
unfolding stream_runs initialized initialize_templates insert register expand_template_file
    expand_request_number output_cstr_encoded_html login_view_get http_template_data
logged_in = refl

view_get-Shown_example :
    Shown initialized.0
      (codes "/www/html/login.html")
      (login_files (codes "/www/html/login.html"))
      request
      3
      (codes "a3b\n")
view_get-Shown_example =
    view_get-Shown env initialized.0 (codes "/www/") login_files login_page request 3
      (codes "a3b\n") initialized.1 (inl (refl, logged_in))

abbrev attack : TemplateData
attack = record page { request = some (record request { path = codes "/<b>" }) }

abbrev attacked : TemplateData
attacked = record attack { out = some (codes "/&lt;b&gt;") }

escaped_path :
    expand_request_path env (codes "<?hcv request_path?>") (codes "f") 1 0 attack ≡ ok attacked
unfolding expand_request_path output_cstr_encoded_html is_no_kind is_http write request_path
escaped_path = refl

expand_request-Escaped_example : Escaped attack attacked
expand_request-Escaped_example =
    expand_request-Escaped env (codes "<?hcv request_path?>") (codes "f") 1 0 attack attacked
      (inr escaped_path)
