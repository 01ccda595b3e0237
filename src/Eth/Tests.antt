-- ===== src/Eth/Tests.antt =====
-- A node with a few answers and a subscription with a few events, and the theorems at such inputs.
use developer_gateway.Prelude.{
  ℕ, ◌≡◌, refl, false, Option, none, some, [], ◌∷◌, ◌++◌, ◌⊎◌, inl, inr, String, ◌==◌,
  if◌then◌else◌, arith,
}
use developer_gateway.Eth.{invalid_nonce}
use developer_gateway.Concurrent.Retry.{RetryConfig, cannot_recover}
use developer_gateway.Eth.Logs.{
  Log, LogSubscriber, receive_all, end_subscription, resubscription_repeats_last,
}
use developer_gateway.Eth.Pool.{UniDialer, dial, infer_error, return_client}

abbrev event : (block index : ℕ) → Log
event block index = record { block_number = block; index = index; topics = []; bytes = [] }

abbrev at_event : LogSubscriber
at_event = record { from_block = none; block_number = 5; index = 1 }

resubscription_repeats_last_example :
    ((end_subscription at_event).from_block ≡ some 5)
    × ((receive_all
          ((event 5 0 ∷ []) ++ (event 5 1 ∷ (event 6 0 ∷ [])))
          (end_subscription at_event)).0
        ≡ event 5 1 ∷ (event 6 0 ∷ []))
resubscription_repeats_last_example =
    resubscription_repeats_last (event 5 0 ∷ []) (event 6 0 ∷ []) (event 5 1) at_event refl refl
      (inr (refl, omega arith), tt) (inl (omega arith), tt)

-- The node refuses the first call.
abbrev refuse_once : ℕ → ℕ → (String ⊎ String) × ℕ
refuse_once conn n = if n == 0 then (inr "connection reset", 1) else (inl "0x01", n)

abbrev dial_websocket : ℕ → Option String × ℕ
dial_websocket n = (none, n)

abbrev config : RetryConfig
config = record {
  random = false;
  unlimited_attempts = false;
  attempts = 10;
  base_exp = 2;
  base_timeout = 100;
  max_retry_timeout = 10000;
}

abbrev spread : ℕ → ℕ → ℕ
spread low high = low

abbrev connected : UniDialer ℕ
connected = record { conn = some 0; opened = 1; node = 0 }

knows_nonce :
    infer_error {V = ℕ} "Invalid transaction nonce: 3"
    ≡ cannot_recover (invalid_nonce "Invalid transaction nonce: 3")
unfolding infer_error
knows_nonce = refl

dials_again : (dial dial_websocket (return_client 0 connected)).0 ≡ inl 1
unfolding dial return_client
dials_again = refl
