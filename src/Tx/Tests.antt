-- ===== src/Tx/Tests.antt =====
-- A wallet owner over a small node, and the theorems at such inputs.
use developer_gateway.Prelude.{
  ℕ, ◌+◌, ◌≡◌, refl, sym, none, [], ◌∷◌, length, inl, inr, ◌==◌, if◌then◌else◌, ap, same,
}
use mathlib.Core.Sum.{inl-injective}
use developer_gateway.Eth.{EthClient, invalid_nonce, other_error}
use developer_gateway.Tx.{WalletServices, WalletOwner, ExecuteRequest, SendTransactionRequest}
use developer_gateway.Concurrent.Retry.{exhausted}
use developer_gateway.Concurrent.Retry.Supply.{supply_loop, retry_supply}
use developer_gateway.Tx.Owner.{
  send_transaction, finish_send, attempt_to_send, generate_and_sign_transaction, sign_transaction,
  handle_send_error, update_nonce, update_balance, estimate_gas,
}
use developer_gateway.Tx.Owner.Send.{SendsOnce, KeepsNonce, send_transaction_accepts_once}
use developer_gateway.Tx.Owner.Execute.{
  execute_transaction, check_receipt, finish_execution, service_address, deployed_address,
}
use developer_gateway.Tx.Owner.Execute.Commits.{Executed, execute_transaction_commits}

-- A node that counts the transactions of the one account, and refuses those with any other nonce.
abbrev pub node : EthClient ℕ
node = record {
  estimate_gas = λ from to payload c. (inl 21, c);
  get_expiry = λ address c. (inl 0, c);
  get_public_key = λ address c. (inr (other_error "no key"), c);
  nonce_at = λ address c. (inl c, c);
  send_transaction = λ tx c.
      if tx.nonce == c
      then (inl (record { output = "0x01"; status = 1; hash = "0xab" }), c + 1)
      else (inr (invalid_nonce "invalid nonce"), c);
  transaction_receipt = λ hash c. (inl (record { contract_address = "0xcc"; gas_used = 21 }), c);
  balance_at = λ address c. (inl 100, c);
  get_code = λ address c. (inl "0x6001", c);
}

abbrev pub services : WalletServices ℕ
services = record {
  eth_client = node;
  wallet_address = "0xaa";
  sign_tx = λ tx. inl tx;
  error_text = λ e. "node";
  gateway_text = λ e. "gateway";
  retry_text = λ r. "retry";
  status_text = λ status output. output;
}

-- The node is two transactions ahead of the owner.
abbrev pub owner : WalletOwner ℕ
owner = record {
  nonce = 3;
  current_balance = none;
  start_balance = none;
  consumed_balance = 0;
  client = 5;
  notified = [];
  sent = [];
}

abbrev transfer : SendTransactionRequest
transfer = record { aad = "aad"; id = 0; address = ""; gas = 21; payload = 1 ∷ [] }

abbrev execution : ExecuteRequest
execution = record { aad = "aad"; id = 0; address = ""; payload = 1 ∷ [] }

abbrev pub spread : ℕ → ℕ → ℕ
spread low high = low

-- The second attempt is accepted.
sends_twice : length (send_transaction services spread transfer owner).1.sent ≡ 2
unfolding send_transaction finish_send retry_supply supply_loop attempt_to_send
    generate_and_sign_transaction sign_transaction handle_send_error update_nonce exhausted
sends_twice = refl

deploys :
    (execute_transaction services spread execution owner).0
    ≡ inl (record { address = "0xcc"; output = "0x01"; hash = "0xab" })
unfolding execute_transaction estimate_gas same send_transaction finish_send retry_supply
    supply_loop attempt_to_send generate_and_sign_transaction sign_transaction handle_send_error
    update_nonce exhausted check_receipt finish_execution service_address deployed_address
    update_balance
deploys = refl

pub keeps : KeepsNonce services
keeps tx tx' h = ap (λ t. t.nonce) (sym (inl-injective tx tx' h))

send_transaction_accepts_once_example :
    SendsOnce services owner (send_transaction services spread transfer owner)
send_transaction_accepts_once_example =
    send_transaction_accepts_once services keeps spread transfer owner

execute_transaction_commits_example :
    Executed services execution owner (execute_transaction services spread execution owner)
execute_transaction_commits_example =
    execute_transaction_commits services keeps spread execution owner
