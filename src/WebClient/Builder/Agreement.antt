-- ===== src/WebClient/Builder/Agreement.antt =====
-- The two clients agree on the request (FetchClient.ts, GotClient.ts).
use nestjs_playground.Prelude.{
  ℕ, String, Option, none, some, List, [], ◌∷◌, ◌≡◌, ◌≢◌, refl, ap, ◌∙◌, inl, inr, Bool-cases,
  arith,
}
use nestjs_playground.Redis.{same_text}
use nestjs_playground.WebClient.Builder.{
  MediaType, media_text, application_json, application_form_urlencoded, with_header, or_empty, Call,
  call_method, call_url, call_header, call_accept, call_body, call_timeout, call_retry, FetchBody,
  json_text, form_params, raw_data, FetchClient, new_fetch_client, fetch_accept, fetch_body_of,
  fetch_call, fetch_calls, GotClient, url_of, new_got_client, got_accept, got_body, got_call,
  got_calls,
}

-- The option of a got request that holds a body of the kind.
abbrev pub slot : FetchBody → GotClient → Option String
slot (json_text t) g = g.json
slot (form_params t) g = g.form
slot (raw_data t) g = g.body

abbrev pub text_in : FetchBody → String
text_in (json_text t) = t
text_in (form_params t) = t
text_in (raw_data t) = t

-- The body that fetch sends is what got has in its option for that kind.
abbrev pub SameBody : Option FetchBody → GotClient → Type 0
SameBody none g = (g.json ≡ none) × (g.form ≡ none) × (g.body ≡ none)
SameBody (some b) g = slot b g ≡ some (text_in b)

pub record Agree (f : FetchClient) (g : GotClient) : Type 0 where
  pub urls : g.url ≡ f.url
  pub methods : g.method ≡ f.method
  pub headers : g.headers ≡ f.headers
  pub bodies : SameBody f.body g
  pub timeouts : g.timeout ≡ f.timeout
  pub retries : g.retry_policy ≡ f.retry_policy

body_kept :
    (b : Option FetchBody) (g g' : GotClient)
    → g'.json ≡ g.json
    → g'.form ≡ g.form
    → g'.body ≡ g.body
    → SameBody b g
    → SameBody b g'
body_kept none g g' p q s (j, f, b) = (p ∙ j, q ∙ f, s ∙ b)
body_kept (some (json_text t)) g g' p q s h = p ∙ h
body_kept (some (form_params t)) g g' p q s h = q ∙ h
body_kept (some (raw_data t)) g g' p q s h = s ∙ h

body_set :
    (m : MediaType) (t : String) (g : GotClient)
    → SameBody (some (fetch_body_of m t)) (got_body m t g)
unfolding fetch_body_of got_body
body_set application_json t g = refl
body_set application_form_urlencoded t g = refl
body_set _ t g = refl

-- `body` changes nothing but the three options.
got_body_rest :
    (m : MediaType) (t : String) (g : GotClient)
    → let g' = got_body m t g in
      (g'.url ≡ g.url)
      × (g'.method ≡ g.method)
      × (g'.headers ≡ g.headers)
      × (g'.timeout ≡ g.timeout)
      × (g'.retry_policy ≡ g.retry_policy)
unfolding got_body
got_body_rest application_json t g = (refl, refl, refl, refl, refl)
got_body_rest application_form_urlencoded t g = (refl, refl, refl, refl, refl)
got_body_rest _ t g = (refl, refl, refl, refl, refl)

Agree-accept :
    (m : MediaType) (f : FetchClient) (g : GotClient)
    → Agree f g
    → Agree (fetch_accept m f) (got_accept m g)
unfolding fetch_accept got_accept
Agree-accept m f g a = record {
  urls = a.urls;
  methods = a.methods;
  headers = ap (λ hs. some (with_header "Content-Type" (media_text m) (or_empty hs))) a.headers;
  bodies = body_kept f.body g (got_accept m g) refl refl refl a.bodies;
  timeouts = a.timeouts;
  retries = a.retries;
}

Agree-call :
    (k : Call) (f : FetchClient) (g : GotClient) → Agree f g → Agree (fetch_call k f) (got_call k g)
unfolding fetch_call got_call
Agree-call (call_accept m) f g a = Agree-accept m f g a
Agree-call (call_body b) f g a =
    let c = Agree-accept b.media_type f g a in
    let g' = got_accept b.media_type g in
    let (u, m, h, t, r) = got_body_rest b.media_type b.content g' in
    record {
      urls = u ∙ c.urls;
      methods = m ∙ c.methods;
      headers = h ∙ c.headers;
      bodies = body_set b.media_type b.content g';
      timeouts = t ∙ c.timeouts;
      retries = r ∙ c.retries;
    }
Agree-call (call_method m) f g a = record {
  urls = a.urls;
  methods = refl;
  headers = a.headers;
  bodies = body_kept f.body g (record g { method = m }) refl refl refl a.bodies;
  timeouts = a.timeouts;
  retries = a.retries;
}
Agree-call (call_url u) f g a = record {
  urls = refl;
  methods = a.methods;
  headers = a.headers;
  bodies = body_kept f.body g (record g { url = some u }) refl refl refl a.bodies;
  timeouts = a.timeouts;
  retries = a.retries;
}
Agree-call (call_header hs) f g a = record {
  urls = a.urls;
  methods = a.methods;
  headers = refl;
  bodies = body_kept f.body g (record g { headers = some hs }) refl refl refl a.bodies;
  timeouts = a.timeouts;
  retries = a.retries;
}
Agree-call (call_timeout t) f g a = record {
  urls = a.urls;
  methods = a.methods;
  headers = a.headers;
  bodies = body_kept f.body g (record g { timeout = t }) refl refl refl a.bodies;
  timeouts = refl;
  retries = a.retries;
}
Agree-call (call_retry p) f g a = record {
  urls = a.urls;
  methods = a.methods;
  headers = a.headers;
  bodies = body_kept f.body g (record g { retry_policy = some p }) refl refl refl a.bodies;
  timeouts = a.timeouts;
  retries = refl;
}

Agree-calls :
    (ks : List Call) (f : FetchClient) (g : GotClient)
    → Agree f g
    → Agree (fetch_calls ks f) (got_calls ks g)
Agree-calls [] f g a = a
Agree-calls (k ∷ ks) f g a = Agree-calls ks (fetch_call k f) (got_call k g) (Agree-call k f g a)

url_kept : (u : String) → u ≢ "" → some u ≡ url_of (some u)
url_kept u h = elim (Bool-cases (same_text u "")) [
  | inl e ↦ absurd (ground (arith, h))
  | inr e ↦ rw (url_of, e)
]

Agree-new :
    (u : Option String) (request_timeout : ℕ)
    → u ≢ some ""
    → Agree (new_fetch_client u request_timeout) (new_got_client u request_timeout)
unfolding new_fetch_client new_got_client
Agree-new none t h = record {
  urls = refl;
  methods = refl;
  headers = refl;
  bodies = (refl, refl, refl);
  timeouts = refl;
  retries = refl;
}
Agree-new (some u) t h = record {
  urls = url_kept u (λ e. h (ap some e));
  methods = refl;
  headers = refl;
  bodies = (refl, refl, refl);
  timeouts = refl;
  retries = refl;
}

-- The two implementations of the interface, created with the same time-out and the same URL, which is not the
-- empty text, and given the same calls: they agree on URL, method, headers, time-out and retry policy, and
-- the body that fetch would send, if any, is the one that got has in its option for that kind of data.
pub fetch_calls-got_calls :
    (u : Option String) (request_timeout : ℕ) (ks : List Call)
    → u ≢ some ""
    → Agree
        (fetch_calls ks (new_fetch_client u request_timeout))
        (got_calls ks (new_got_client u request_timeout))
fetch_calls-got_calls u t ks h =
    Agree-calls ks (new_fetch_client u t) (new_got_client u t) (Agree-new u t h)
