-- ===== src/Callback/Tests.antt =====
-- A callback with templates over an HTTP client that counts requests, and the theorems at such inputs.
use developer_gateway.Prelude.{
  ℕ, ◌+◌, ◌≡◌, refl, true, false, Option, none, some, [], ◌∷◌, ◌⊎◌, inl, String, ltb, if◌then◌else◌,
  arith,
}
use developer_gateway.Concurrent.Retry.{RetryConfig}
use developer_gateway.Concurrent.Retry.Supply.{retry_supply, supply_loop}
use developer_gateway.Callback.{
  Callback, HttpRequest, add_headers, create_request, request_to, make_request, send_callbacks,
  send_callback, send_request, deliver, attempt_delivery,
}
use developer_gateway.Callback.Threshold.{notifications, threshold_notified_once, last_balance}

abbrev threshold_callback : Callback String
threshold_callback = record {
  enabled = true;
  method = "POST";
  url = "http://localhost:1234/";
  body_format = some (λ address. inl address);
  query_url_format = some (λ address. inl "address=1");
  headers = "Content-type:text/plain" ∷ "none" ∷ [];
  period_limit = 60000000000;
  last_attempt = 0;
  sync = true;
}

abbrev no_retries : RetryConfig
no_retries = record {
  random = false;
  unlimited_attempts = false;
  attempts = 0;
  base_exp = 0;
  base_timeout = 0;
  max_retry_timeout = 0;
}

abbrev new_request : (method url : String) → Option String
new_request method url = none

abbrev client_do : HttpRequest → ℕ → (ℕ ⊎ String) × ℕ
client_do req n = (inl 200, n + 1)

abbrev spread : ℕ → ℕ → ℕ
spread low high = low

abbrev request : HttpRequest
request = record {
  method = "POST";
  url = "http://localhost:1234/?address=1";
  body = some "{\"a\"}";
  headers = [];
}

creates : create_request new_request threshold_callback (some "{'a'}") ≡ inl request
unfolding create_request request_to make_request
creates = refl

headers :
    add_headers ("Content-type:text/plain" ∷ "none" ∷ []) ≡ ("Content-type", "text/plain") ∷ []
unfolding add_headers
headers = refl

-- Two requests at the same second are both delivered, and one before the period is over is not.
all_are_sent :
    (send_callbacks new_request client_do no_retries spread
      (100 ∷ 100 ∷ 59 ∷ [])
      threshold_callback
      (some "{'a'}")
      0).2
    ≡ 2
unfolding send_callbacks send_callback send_request create_request request_to make_request
    add_headers deliver attempt_delivery retry_supply supply_loop
all_are_sent = refl

threshold_notified_once_example :
    notifications 10 (some 20) (15 ∷ 5 ∷ 2 ∷ [])
    ≡ (if ltb (last_balance 20 (15 ∷ 5 ∷ 2 ∷ [])) 10 then 1 else 0)
threshold_notified_once_example =
    threshold_notified_once 10 20 (15 ∷ 5 ∷ 2 ∷ []) (omega arith) (omega arith) (
      omega arith,
      (λ e. omega (arith, e)),
      (omega arith, (λ e. omega (arith, e)), (omega arith, (λ e. omega (arith, e)), tt)),
    )
