-- ===== src/Main/Arguments/Options/Declared.antt =====
-- What the table of options promises to the parser of one option.
use helpcovid.Prelude.{refl, ◌==◌, if◌then◌else◌, Bytes, ◌≡◌}
use helpcovid.Main.Arguments.{key_number, Bytes, ProgOption, Program, System, parse1opt}
use helpcovid.Main.Arguments.Options.{false, progoptions, takes_argument, rows_of_key}

-- Each key but HCVPROGOPT__NONE has exactly one option in the table.
rows_of_key_one :
    (key : ProgOption) → rows_of_key key progoptions ≡ (if key_number key == 0 then 0 else 1)
unfolding rows_of_key progoptions
rows_of_key_one ProgOption.none_key = refl
rows_of_key_one ProgOption.weburl = refl
rows_of_key_one ProgOption.postgresuri = refl
rows_of_key_one ProgOption.syslog = refl
rows_of_key_one ProgOption.webroot = refl
rows_of_key_one ProgOption.seteuid = refl
rows_of_key_one ProgOption.config = refl
rows_of_key_one ProgOption.threads = refl
rows_of_key_one ProgOption.locale = refl
rows_of_key_one ProgOption.write_pid = refl
rows_of_key_one ProgOption.debug = refl
rows_of_key_one ProgOption.webssl_cert = refl
rows_of_key_one ProgOption.webssl_key = refl
rows_of_key_one ProgOption.plugin = refl
rows_of_key_one ProgOption.clear_database = refl
rows_of_key_one ProgOption.cleanup = refl

-- The argument of an option is read only if the table declares one: for any other key `hcv_parse1opt`
-- ends in the same way whatever the argument, which argp then leaves null.
pub parse1opt-declared :
    (sys : System) (key : ProgOption) (p : Program) (arg arg' : Bytes)
    → takes_argument key progoptions ≡ false
    → parse1opt sys key arg p ≡ parse1opt sys key arg' p
unfolding parse1opt takes_argument progoptions
parse1opt-declared sys ProgOption.none_key p arg arg' h = refl
parse1opt-declared sys ProgOption.weburl p arg arg' h = absurd (cc h)
parse1opt-declared sys ProgOption.postgresuri p arg arg' h = absurd (cc h)
parse1opt-declared sys ProgOption.syslog p arg arg' h = absurd (cc h)
parse1opt-declared sys ProgOption.webroot p arg arg' h = absurd (cc h)
parse1opt-declared sys ProgOption.seteuid p arg arg' h = refl
parse1opt-declared sys ProgOption.config p arg arg' h = absurd (cc h)
parse1opt-declared sys ProgOption.threads p arg arg' h = absurd (cc h)
parse1opt-declared sys ProgOption.locale p arg arg' h = absurd (cc h)
parse1opt-declared sys ProgOption.write_pid p arg arg' h = absurd (cc h)
parse1opt-declared sys ProgOption.debug p arg arg' h = refl
parse1opt-declared sys ProgOption.webssl_cert p arg arg' h = absurd (cc h)
parse1opt-declared sys ProgOption.webssl_key p arg arg' h = absurd (cc h)
parse1opt-declared sys ProgOption.plugin p arg arg' h = absurd (cc h)
parse1opt-declared sys ProgOption.clear_database p arg arg' h = refl
parse1opt-declared sys ProgOption.cleanup p arg arg' h = refl
