-- ===== src/Template/Data.antt =====
-- `Hcv_template_data` and its subclasses. A request is what the code reads of httplib's; a stream is
-- the text written so far.
use helpcovid.Prelude.{ℕ, ◌+◌, Bool, true, false, [], ◌++◌, Option, none, some, Bytes}

-- `TmplKind_en`
pub data Kind : Type 0 where
  no_kind http https websocket email : Kind

-- What the code reads of an httplib::Request: `get_header_value("Accept-Language")`,
-- `headers.find("User-Agent")` and `get_param_value`.
pub record Request : Type 0 where
  pub method : Bytes
  pub path : Bytes
  pub accept_language : Bytes
  pub user_agent : Option Bytes
  pub param_value : Bytes → Bytes

-- The fields of the object. `out` is what `output_stream()` points to, `none` for a null pointer;
-- `request` is `none` in an object that is not of a HTTP class.
pub record TemplateData : Type 0 where
  pub kind : Kind
  pub serial : ℕ
  pub request : Option Request
  pub language : Bytes
  pub out : Option Bytes

-- `Hcv_http_template_data(req, resp, reqnum)`
unfoldable pub http_template_data : Request → ℕ → TemplateData
http_template_data req reqnum = record {
  kind = http;
  serial = reqnum;
  request = some req;
  language = [];
  out = some [];
}

-- `1 + std::atomic_fetch_add(&_hcvemail_counter_, 1)`: the new counter and the serial number.
unfoldable pub incremented_email_counter : ℕ → ℕ × ℕ
incremented_email_counter counter = (counter + 1, 1 + counter)

-- `Hcv_email_template_data`'s constructor: the new counter and the object.
unfoldable pub email_template_data : ℕ → ℕ × TemplateData
unfolding incremented_email_counter
email_template_data counter =
    let (counter', serial) = incremented_email_counter counter in
    (
      counter',
      record { kind = email; serial = serial; request = none; language = []; out = some [] },
    )

-- `templdata->kind() == hcvtk_none`
unfoldable pub is_no_kind : Kind → Bool
is_no_kind no_kind = true
is_no_kind _ = false

-- `dynamic_cast<Hcv_http_template_data*>` is not null
unfoldable pub is_http : Kind → Bool
is_http http = true
is_http https = true
is_http _ = false

unfoldable pub append_out : Bytes → Option Bytes → Option Bytes
append_out text none = none
append_out text (some s) = some (s ++ text)

-- `*pouts << text`
unfoldable pub write : Bytes → TemplateData → TemplateData
unfolding append_out
write text td = record td { out = append_out text td.out }

unfoldable pub request_method : TemplateData → Bytes
request_method td = elim td.request [ none ↦ [] | some req ↦ req.method ]

unfoldable pub request_path : TemplateData → Bytes
request_path td = elim td.request [ none ↦ [] | some req ↦ req.path ]
