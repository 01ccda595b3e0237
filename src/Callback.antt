-- ===== src/Callback.antt =====
-- The package callback/client: requests to the URLs that are configured for some events
-- (callback/client/client.go, callback/client/entity.go). The templates, `http.NewRequest` and the HTTP
-- client are parameters. Times are in seconds, durations in nanoseconds.
pub mod Threshold
mod Tests
use Prim.Native.String
use Prim.Native.Char.{code}
use developer_gateway.Prelude.{
  ℕ, ◌+◌, ◌-◌, ◌*◌, ◌/◌, Bool, true, false, Option, none, some, List, [], ◌∷◌, ◌⊎◌, inl, inr,
  String, leb, ltb, ◌==◌, if◌then◌else◌,
}
use developer_gateway.Concurrent.Retry.{
  RetryConfig, Attempt, success, failure, cannot_recover, Result,
}
use developer_gateway.Concurrent.Retry.Supply.{retry_supply}

-- `Callback`; a template makes a text of a body, or fails with a text.
pub record Callback (B : Type 0) : Type 0 where
  pub enabled : Bool
  pub method : String
  pub url : String
  pub body_format : Option (B → String ⊎ String)
  pub query_url_format : Option (B → String ⊎ String)
  pub headers : List String
  pub period_limit : ℕ
  pub last_attempt : ℕ
  pub sync : Bool

-- `http.Request`
pub record HttpRequest : Type 0 where
  pub method : String
  pub url : String
  pub body : Option String
  pub headers : List (String × String)

-- What a call of `Callback` comes to: nothing, an error, a delivery with its result, or a request that a
-- goroutine delivers.
pub data Sending : Type 0 where
  skipped : Sending
  failed : (text : String) → Sending
  delivered : Result ℕ String → Sending
  started : HttpRequest → Sending

-- The text that is asked for begins with `?`.
abbrev is_query : String → Bool
is_query String.[] = false
is_query (String.◌∷◌ c s) = code c == 63

-- `strings.Replace(s, "'", "\"", -1)`
abbrev double_quoted : String → String
double_quoted String.[] = ""
double_quoted (String.◌∷◌ c s) =
    let rest = double_quoted s in if code c == 39 then String.◌++◌ "\"" rest else String.◌∷◌ c rest

-- `strings.SplitN(header, ":", 2)`, if it has two parts.
abbrev split_header : String → Option (String × String)
split_header String.[] = none
split_header (String.◌∷◌ c s) =
    let rest = elim (split_header s) as (λ _. Option (String × String)) [
      | none ↦ none
      | some (name, v) ↦ some (String.◌∷◌ c name, v)
    ] in
    if code c == 58 then some ("", s) else rest

unfoldable pub add_headers : List String → List (String × String)
add_headers [] = []
add_headers (h ∷ hs) =
    let rest = add_headers hs in elim (split_header h) [ none ↦ rest | some p ↦ p ∷ rest ]

-- A template on the body, if there are both.
abbrev execute_format :
    {B : Type 0} → Option (B → String ⊎ String) → Option B → Option (String ⊎ String)
execute_format (some f) (some b) = some (f b)
execute_format _ _ = none

abbrev query_of : String → String
query_of text = if is_query text then text else String.◌++◌ "?" text

module _ {H : Type 0} (client_do : HttpRequest → H → (ℕ ⊎ String) × H) (retry_config : RetryConfig)
    (spread : ℕ → ℕ → ℕ) where
  -- The supplier of `request`
  unfoldable pub attempt_delivery : HttpRequest → H → Attempt ℕ String × H
  attempt_delivery req h =
      let (answer, h') = client_do req h in
      (
        elim answer [
          | inr text ↦ failure text
          | inl status ↦
              if leb 500 status
              then failure "http request failed with a server error"
              else success status
        ],
        h',
      )

  -- `deliver`, with `request`
  unfoldable pub deliver : HttpRequest → H → Result ℕ String × H
  deliver req h = retry_supply retry_config spread (attempt_delivery req) h

module _ (new_request : (method url : String) → Option String) where
  -- `http.NewRequest`, which fails with a text.
  unfoldable pub make_request : (method url : String) → Option String → HttpRequest ⊎ String
  make_request method url body = elim (new_request method url) [
    | some text ↦ inr text
    | none ↦ inl (record { method = method; url = url; body = body; headers = [] })
  ]

  -- The rest of `createRequest`, with the URL.
  unfoldable pub request_to :
      {B : Type 0} → (url : String) → Callback B → Option B → HttpRequest ⊎ String
  request_to url callback body = elim (execute_format callback.body_format body) [
    | none ↦ make_request callback.method url none
    | some (inr text) ↦ inr text
    | some (inl text) ↦ make_request callback.method url (some (double_quoted text))
  ]

  unfoldable pub create_request : {B : Type 0} → Callback B → Option B → HttpRequest ⊎ String
  create_request callback body = elim (execute_format callback.query_url_format body) [
    | none ↦ request_to callback.url callback body
    | some (inr text) ↦ inr text
    | some (inl text) ↦ request_to (String.◌++◌ callback.url (query_of text)) callback body
  ]

module _ {B H : Type 0} (new_request : (method url : String) → Option String)
    (client_do : HttpRequest → H → (ℕ ⊎ String) × H) (retry_config : RetryConfig)
    (spread : ℕ → ℕ → ℕ) where
  -- The part of `Callback` after its guards.
  unfoldable pub send_request : Callback B → Option B → H → Sending × H
  send_request callback body h = elim (create_request new_request callback body) [
    | inr text ↦ (failed text, h)
    | inl req ↦
        let req' : HttpRequest = record req { headers = add_headers callback.headers } in
        let (result, h') = deliver client_do retry_config spread req' h in
        if callback.sync then (delivered result, h') else (started req', h)
  ]

  -- `Callback`, with the callback that its pointer leads to afterwards. The time since the last attempt may
  -- be negative, and is then below any limit.
  unfoldable pub send_callback : (now : ℕ) → Callback B → Option B → H → Sending × Callback B × H
  send_callback now callback body h =
      let (sending, h') = send_request callback body h in
      if callback.enabled
      then if ltb now (callback.last_attempt + callback.period_limit / 1000000000)
        then (skipped, callback, h)
        else (sending, callback, h')
      else (skipped, callback, h)

  -- Calls for one callback, at the given times.
  unfoldable pub send_callbacks : List ℕ → Callback B → Option B → H → List Sending × Callback B × H
  send_callbacks [] callback body h = ([], callback, h)
  send_callbacks (now ∷ nows) callback body h =
      let (sending, callback', h') = send_callback now callback body h in
      let (sendings, last, h'') = send_callbacks nows callback' body h' in
      (sending ∷ sendings, last, h'')
