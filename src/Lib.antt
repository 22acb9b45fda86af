-- ===== src/Lib.antt =====
-- HelpCovid: a web application in C++ for mutual help in a pandemic.
--
-- The program serves pages over HTTP. Pages are expanded from template files, whose processing
-- instructions `<?hcv NAME ...?>` call registered expanders; messages come from a map of chunks that
-- is read from chunkmap files. What is modelled, and where:
--   Chunkmap      hcv_chunkmap.cc: hcv_parse_chunk_map (`parse_chunk_map`, its loop `run`, one round
--                 `round`, the switch on the state `switch`), hcv_add_chunkmap_file and
--                 hcv_get_chunkmap_entry. Single, Text, Multiline, Bounds and Global hold the proofs.
--   Html          hcv_web.cc: hcv_output_encoded_html and hcv_output_cstr_encoded_html.
--   Template      hcv_template.cc. Data has the classes of template data of hcv_header.hh; Language
--                 has request_language; Registry the dictionary of expanders; Expand the expansion of
--                 instructions, files and streams; Expanders the closures of
--                 hcv_initialize_templates, and Initialize their registration; Extends shows what
--                 expansion does to the template data; Email has Hcv_email_template_data.
--   Views         hcv_views.cc: Message has hcv_view_expand_msg, hcv_view_expand_confmsg and
--                 hcv_view_register_form_token; Pages has hcv_login_view_get and
--                 hcv_profile_view_get; Home the other GET and POST functions.
--   Background    hcv_background.cc: the map of todos, hcv_do_postpone_background, hcv_bg_do_event, the
--                 handlers of signals and of the timer, and the loop of hcv_background_thread_body.
--                 Control has its start and stop; Order, Served and Loop hold the proofs.
--   Models        hcv_models.cc: the validators, hcv_user_model_validate, hcv_user_model_create and
--                 hcv_user_model_authenticate (Login), and how they run a statement (Statements);
--                 Validation and Refused hold the proofs.
--   Main          hcv_main.cc: Arguments has hcv_parse1opt, its child Defaults
--                 hcv_parse_program_arguments, Threads the number of threads and Options the
--                 table hcv_progoptions; Early has hcv_early_initialize; Settings has
--                 hcv_load_config_file and hcv_set_euid; Config has hcv_get_config_html; ConfigGroup
--                 has hcv_config_handle_helpcovid_config_group; Start, Run and Process compose them
--                 as main does up to the call of listen.
--   Plugins       hcv_plugins.cc: hcv_load_plugin and the calls of the initializers.
--   Web           hcv_web.cc: Cookie has hcv_web_make_cookie_string, hcv_web_extract_cookie_string,
--                 hcv_web_register_fresh_cookie and hcv_web_forget_cookie; Server has
--                 hcv_initialize_web; Url and Routes have the URL and the pages of
--                 hcv_webserver_run, Handlers all its routes; Status has hcv_web_get_json_status
--                 and, in Page, hcv_web_get_html_status; ErrorPage has hcv_web_error_handler.
--   Random        hcv_header.hh and hcv_main.cc: Hcv_Random; Pool has its invariant.
--   Database      hcv_database.cc: Hcv_PreparedStatement, hcv_database_with_known_email and
--                 hcv_database_get_id_of_added_web_cookie; Tables, UserFunctions, SessionFunctions
--                 and InstanceSql have the SQL texts; Instance the row of this process, Log the
--                 message for the server's log, Initialize hcv_initialize_database and
--                 hcv_close_database; Rows says which texts may change the table of running
--                 instances; Kept, Tracked, Registered and Logged hold the proofs.
-- Shared: Prelude (names, lists, tests), Outcome (how a call ends), Cstr and Scan (what the code uses
-- of C strings and of sscanf), Dict (std::map by lookups), Decimal and Hex (printed numbers), Tests.
--
-- Conventions. A std::string or a C buffer is a list of bytes; numbers are natural numbers, since
-- line numbers, offsets and sizes are bounded by the code's own limits. A call that ends the process
-- by HCV_FATALOUT or HCV_ASSERT is `fatal` with the file and the line of the call; a C++ exception is
-- `thrown`. Logging, locks and buffers' clearing are left out. A stream is the text written so far,
-- and a null stream is `none`. A file is what stat and the stream give of it. dgettext, the key file,
-- dates, build strings and random numbers are arguments, and so are dlopen, stat, getpwnam, setlocale,
-- argp's reading of the command line and libpqxx. Where an int or an unsigned can wrap (cookies,
-- ports, numbers of threads) it is written as its pattern of 32 or 64 bits.
--
-- Fuel. `expand_rest`, the loop over a line, gets the line's length; each round takes at least eight
-- bytes of it. `decimal` and `hex` get one more than their number, which has no more digits. All
-- other functions are structural; random bytes and rounds of a poll are lists that may run out.
--
-- The background thread. Times and delays, doubles in the source, are whole nanoseconds. What poll,
-- read, write and timerfd_settime give are arguments, and so is what a todo does when it runs.
-- Calls that other threads make between two rounds of the loop are not interleaved with it.
--
-- The database. What libpqxx and the server make of the text of a statement is an argument, on a state
-- that is the server's; SQL is not interpreted. hcv_database_serial is its pattern of 64 bits.
--
-- Not modelled: the initialization of curlpp and the waits of the status pages; the vendored httplib.h,
-- whose choice of a handler is an argument; SQL, scripts, JavaScript and HTML.
pub mod Prelude
pub mod Outcome
pub mod Plugins
pub mod Cstr
pub mod Scan
pub mod Dict
pub mod Chunkmap
mod Tests
pub mod Html
pub mod Template
pub mod Decimal
pub mod Main
pub mod Views
pub mod Background
pub mod Models
pub mod Hex
pub mod Random
pub mod Database
pub mod Web
