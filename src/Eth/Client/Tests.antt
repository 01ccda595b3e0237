-- ===== src/Eth/Client/Tests.antt =====
-- A node that takes every transaction, and the client on it.
use developer_gateway.Prelude.{ℕ, ◌+◌, ◌≡◌, refl, false, none, some, [], ◌∷◌, inl, inr, arith}
use developer_gateway.Eth.{Transaction}
use developer_gateway.Concurrent.Retry.{RetryConfig}
use developer_gateway.Eth.Pool.{UniDialer}
use developer_gateway.Eth.Client.{
  RawResponse, NodeServices, pooled_client, parse_uint, parse_digits, trim_prefix,
}
use developer_gateway.Eth.Client.Answers.{IsResponse, sent_transaction_answers}
use developer_gateway.Eth.Client.Status.{print_status, print_digits}
use developer_gateway.Eth.Client.Reports.{accepted_transaction_reports}

abbrev answer : RawResponse
answer = record { output = "0x01"; status = print_status 1; hash = "0xab" }

-- The state is the number of the transactions that were taken.
abbrev node : NodeServices ℕ
node = record {
  dial_websocket = λ n. (none, n);
  estimate_gas = λ from to payload k n. (inl 21, n);
  balance_at = λ account k n. (inl 100, n);
  nonce_at = λ account k n. (inl n, n);
  code_at = λ account k n. (inl (96 ∷ []), n);
  transaction_receipt = λ hash k n. (inr "not found", n);
  call_expiry = λ method address k n. (inl 0, n);
  call_public_key = λ method address k n. (inr "no key", n);
  call_transaction = λ method payload k n. (inl answer, n + 1);
  encode_transaction = λ tx. inl tx.payload;
  encode_hex = λ bytes. "0x";
}

abbrev config : RetryConfig
config = record {
  random = false;
  unlimited_attempts = false;
  attempts = 10;
  base_exp = 2;
  base_timeout = 100;
  max_retry_timeout = 10000;
}

abbrev spread : ℕ → ℕ → ℕ
spread low high = low

abbrev connected : UniDialer ℕ
connected = record { conn = some 0; opened = 1; node = 5 }

abbrev transfer : Transaction
transfer = record { nonce = 5; to_address = "0xcc"; gas = 21; gas_price = 1; payload = 7 ∷ [] }

sent_transaction_answers_example :
    IsResponse node 0 transfer
      ((pooled_client node config spread).send_transaction transfer connected).0
    × (((pooled_client node config spread).send_transaction transfer connected).1.conn ≡ some 0)
sent_transaction_answers_example =
    sent_transaction_answers node 0 transfer config spread connected refl refl

accepted_transaction_reports_example :
    (pooled_client node config spread).send_transaction transfer connected
    ≡ (inl (record { output = "0x01"; status = 1; hash = "0xab" }), record connected { node = 6 })
accepted_transaction_reports_example =
    accepted_transaction_reports node config spread transfer connected 0 (7 ∷ []) 1 "0x01" "0xab" 6
      refl refl (omega arith) refl

largest_is_read : parse_uint (trim_prefix "0xFFffffffffffffff") ≡ some 18446744073709551615
unfolding parse_uint parse_digits trim_prefix
largest_is_read = refl

larger_is_refused : parse_uint (trim_prefix "0x10000000000000000") ≡ none
unfolding parse_uint parse_digits trim_prefix
larger_is_refused = refl

nothing_is_refused : parse_uint (trim_prefix "0x") ≡ none
unfolding parse_uint trim_prefix
nothing_is_refused = refl

is_printed : print_status 4096 ≡ "0x1000"
unfolding print_digits
is_printed = refl
