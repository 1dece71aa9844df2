-- ===== src/WebClient/Builder.antt =====
-- libs/web-client/src: FetchClient.ts, GotClient.ts, WebClient.ts, http/BodyInserter.ts and http/MediaType.ts,
-- up to the call of `fetch` or `got`, which is outside the repository. The data of a body are a text.
pub mod Agreement
use nestjs_playground.Prelude.{
  ℕ, Bool, true, false, if◌then◌else◌, String, Option, none, some, List, [], ◌∷◌,
}
use nestjs_playground.Model.{String-discrete}
use nestjs_playground.Redis.{same_text}
use nestjs_playground.WebClient.RetryPolicy.{RetryPolicy}

pub data MediaType : Type 0 where
  text_plain text_html application_json application_form_urlencoded multipart_form_data : MediaType

unfoldable pub media_text : MediaType → String
media_text text_plain = "text/plain"
media_text text_html = "text/html"
media_text application_json = "application/json"
media_text application_form_urlencoded = "application/x-www-form-urlencoded"
media_text multipart_form_data = "multipart/form-data"

pub record BodyInserter : Type 0 where
  pub media_type : MediaType
  pub content : String

unfoldable pub from_json : String → BodyInserter
from_json given = record { media_type = application_json; content = given }

unfoldable pub from_form_data : String → BodyInserter
from_form_data given = record { media_type = application_form_urlencoded; content = given }

unfoldable pub from_text : String → BodyInserter
from_text text = record { media_type = text_plain; content = text }

pub data Method : Type 0 where
  get_method post_method put_method patch_method delete_method : Method

abbrev pub Headers : Type 0
Headers = List (String × String)

-- `{ ...headers, [name]: value }`
unfoldable pub with_header : String → String → Headers → Headers
unfolding String-discrete
with_header name value [] = (name, value) ∷ []
with_header name value ((n, v) ∷ rest) =
    let kept = with_header name value rest in
    if same_text n name then (n, value) ∷ rest else (n, v) ∷ kept

-- `...undefined` spreads nothing.
abbrev pub or_empty : Option Headers → Headers
or_empty none = []
or_empty (some hs) = hs

-- The calls of the interface, but `retrieve`.
pub data Call : Type 0 where
  call_method : Method → Call
  call_url : String → Call
  call_header : Headers → Call
  call_accept : MediaType → Call
  call_body : BodyInserter → Call
  call_timeout : ℕ → Call
  call_retry : RetryPolicy → Call

-- `JSON.stringify`, `new URLSearchParams`, or the data themselves.
pub data FetchBody : Type 0 where
  json_text form_params raw_data : String → FetchBody

pub record FetchClient : Type 0 where
  pub url : Option String
  pub method : Method
  pub headers : Option Headers
  pub body : Option FetchBody
  pub timeout : ℕ
  pub retry_policy : Option RetryPolicy

abbrev url_of : Option String → Option String
url_of none = none
url_of (some u) = if same_text u "" then none else some u

unfoldable pub new_fetch_client : Option String → ℕ → FetchClient
unfolding String-discrete
new_fetch_client u request_timeout = record {
  url = url_of u;
  method = get_method;
  headers = none;
  body = none;
  timeout = request_timeout;
  retry_policy = none;
}

unfoldable pub fetch_accept : MediaType → FetchClient → FetchClient
unfolding media_text with_header
fetch_accept m c = record c {
  headers = some (with_header "Content-Type" (media_text m) (or_empty c.headers));
}

unfoldable pub fetch_body_of : MediaType → String → FetchBody
fetch_body_of application_json given = json_text given
fetch_body_of application_form_urlencoded given = form_params given
fetch_body_of _ given = raw_data given

unfoldable pub fetch_call : Call → FetchClient → FetchClient
unfolding fetch_accept fetch_body_of
fetch_call (call_method m) c = record c { method = m }
fetch_call (call_url u) c = record c { url = some u }
fetch_call (call_header hs) c = record c { headers = some hs }
fetch_call (call_accept m) c = fetch_accept m c
fetch_call (call_body b) c = record (fetch_accept b.media_type c) {
  body = some (fetch_body_of b.media_type b.content);
}
fetch_call (call_timeout t) c = record c { timeout = t }
fetch_call (call_retry p) c = record c { retry_policy = some p }

pub record GotClient : Type 0 where
  pub url : Option String
  pub method : Method
  pub headers : Option Headers
  pub json : Option String
  pub form : Option String
  pub body : Option String
  pub timeout : ℕ
  pub retry_policy : Option RetryPolicy

unfoldable pub new_got_client : Option String → ℕ → GotClient
new_got_client u request_timeout = record {
  url = u;
  method = get_method;
  headers = none;
  json = none;
  form = none;
  body = none;
  timeout = request_timeout;
  retry_policy = none;
}

unfoldable pub got_accept : MediaType → GotClient → GotClient
unfolding media_text with_header
got_accept m c = record c {
  headers = some (with_header "Content-Type" (media_text m) (or_empty c.headers));
}

-- The `switch` of `body`: each kind of data has an option of its own, and the others stay.
unfoldable pub got_body : MediaType → String → GotClient → GotClient
got_body application_json given c = record c { json = some given }
got_body application_form_urlencoded given c = record c { form = some given }
got_body _ given c = record c { body = some given }

unfoldable pub got_call : Call → GotClient → GotClient
unfolding got_accept got_body
got_call (call_method m) c = record c { method = m }
got_call (call_url u) c = record c { url = some u }
got_call (call_header hs) c = record c { headers = some hs }
got_call (call_accept m) c = got_accept m c
got_call (call_body b) c = got_body b.media_type b.content (got_accept b.media_type c)
got_call (call_timeout t) c = record c { timeout = t }
got_call (call_retry p) c = record c { retry_policy = some p }

abbrev pub fetch_calls : List Call → FetchClient → FetchClient
fetch_calls [] c = c
fetch_calls (k ∷ ks) c = fetch_calls ks (fetch_call k c)

abbrev pub got_calls : List Call → GotClient → GotClient
got_calls [] c = c
got_calls (k ∷ ks) c = got_calls ks (got_call k c)
