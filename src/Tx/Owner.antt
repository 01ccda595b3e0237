-- ===== src/Tx/Owner.antt =====
-- `WalletOwner` of tx/owner.go, with the wallet of tx/wallet.go. The retries are those of
-- `RetryWithConfig`, with an attempt to send as the supplier; the context is not done.

pub mod Send
pub mod Execute
use Prim.Native.String
use developer_gateway.Prelude.{
  ℕ, ◌+◌, ◌%◌, ◌^◌, Bool, true, false, Option, none, some, List, [], ◌∷◌, ◌++◌, ◌⊎◌, inl, inr,
  String, leb, ◌==◌, if◌then◌else◌, same,
}
use Prim.Native.String.{count}
use developer_gateway.Errors.{Error, ErrorCode, internal_error, new}
use developer_gateway.Errors.Internal.{
  err_signed_tx, err_send_transaction, err_fetch_nonce, err_get_balance, err_estimate_gas,
  err_get_service_code, err_service_code_not_deployed, err_transaction_receipt,
}
use developer_gateway.Eth.{
  EthClient, EthError, exceeds_balance, exceeds_block_limit, invalid_nonce, other_error,
  SendTransactionResponse, Transaction, Receipt,
}
use developer_gateway.Concurrent.Retry.{
  RetryConfig, Attempt, success, failure, cannot_recover, Result, value, canceled, unrecoverable,
  max_attempts_reached, waiting,
}
use developer_gateway.Concurrent.Retry.Supply.{retry_supply}
use developer_gateway.Tx.{
  WalletServices, WalletOwner, ExecuteRequest, ExecuteResponse, SendTransactionRequest, SendFailure,
  gateway, node, Notification, transaction_committed, wallet_out_of_funds,
  wallet_reached_funds_threshold,
}

abbrev pub status_ok : ℕ
status_ok = 1

abbrev pub gas_price_wei : ℕ
gas_price_wei = 1000000000

-- Durations are in nanoseconds.
abbrev pub send_retry_config : RetryConfig
send_retry_config = record {
  random = false;
  unlimited_attempts = false;
  attempts = 10;
  base_exp = 2;
  base_timeout = 1000000000;
  max_retry_timeout = 5000000000;
}

-- The estimate of a failing execution.
abbrev failed_gas : ℕ
failed_gas = 2251799813685248

abbrev confidential_gas : ℕ
confidential_gas = 15177522

module _ {C : Type 0} (services : WalletServices C) where
  unfoldable pub update_balance : WalletOwner C → (Unit {0} ⊎ Error) × WalletOwner C
  update_balance o =
      let (answer, client) = services.eth_client.balance_at services.wallet_address o.client in
      elim answer [
        | inr e ↦
            (inr (new err_get_balance (some (services.error_text e))), record o { client = client })
        | inl balance ↦ (
          inl tt,
          record o {
            client = client;
            current_balance = some balance;
            notified =
                o.notified
                ++ (wallet_reached_funds_threshold services.wallet_address o.current_balance balance
                    ∷ []);
          },
        )
      ]

  unfoldable pub update_nonce : WalletOwner C → (Unit {0} ⊎ Error) × WalletOwner C
  update_nonce o =
      let (answer, client) = services.eth_client.nonce_at services.wallet_address o.client in
      elim answer [
        | inr e ↦
            (inr (new err_fetch_nonce (some (services.error_text e))), record o { client = client })
        | inl nonce ↦ (inl tt, record o { client = client; nonce = nonce })
      ]

  -- `NewWalletOwner`, with the properties' nonce.
  unfoldable new_wallet_owner : (nonce : ℕ) → C → (WalletOwner C ⊎ Error) × C
  new_wallet_owner nonce client =
      let fresh : WalletOwner C = record {
        nonce = nonce;
        current_balance = none;
        start_balance = none;
        consumed_balance = 0;
        client = client;
        notified = [];
        sent = [];
      } in
      let (funded, o) = update_balance fresh in
      let (counted, o') = update_nonce o in
      elim funded [
        | inr e ↦ (inr e, o.client)
        | inl _ ↦ elim counted [
          | inr e ↦ (inr e, o'.client)
          | inl _ ↦ (inl (record o' { start_balance = o'.current_balance }), o'.client)
        ]
      ]

  -- `InternalWallet.SignTransaction`
  unfoldable pub sign_transaction : Transaction → Transaction ⊎ Error
  sign_transaction tx = elim (services.sign_tx tx) [
    | inl signed ↦ inl signed
    | inr text ↦ inr (new err_signed_tx (some (String.◌++◌ "Failed to sign transaction: " text)))
  ]

  -- `estimateGas` and `estimateGasNonConfidential`.
  unfoldable pub estimate_gas :
      (address : String) (payload : List ℕ) → WalletOwner C → (ℕ ⊎ Error) × WalletOwner C
  estimate_gas address payload o =
      let (answer, client) =
        services.eth_client.estimate_gas services.wallet_address address payload o.client in
      let o' : WalletOwner C = record o { client = client } in
      if same address ""
      then elim answer [
        | inr e ↦ (inr (new err_estimate_gas (some (services.error_text e))), o')
        | inl gas ↦ (
          if gas == failed_gas
              then inr (
                  new err_estimate_gas
                    (some "gas estimation could not be completed because of execution failure"))
              else inl gas,
          o',
        )
      ]
      else (inl confidential_gas, o)

  -- `transactionNonce` and `generateAndSignTransaction`: the nonce is used up either way.
  unfoldable pub generate_and_sign_transaction :
      SendTransactionRequest → WalletOwner C → (Transaction ⊎ Error) × WalletOwner C
  generate_and_sign_transaction req o = (
    sign_transaction (record {
      nonce = o.nonce;
      to_address = req.address;
      gas = req.gas;
      gas_price = gas_price_wei;
      payload = req.payload;
    }),
    record o { nonce = (o.nonce + 1) % 2 ^ 64 },
  )

  -- What `sendTransaction` makes of an error of the client.
  unfoldable pub handle_send_error :
      EthError → WalletOwner C → Attempt SendTransactionResponse SendFailure × WalletOwner C
  handle_send_error (exceeds_balance text) o = (
    cannot_recover
        (gateway (new err_send_transaction (some (services.error_text (exceeds_balance text))))),
    record o { notified = o.notified ++ (wallet_out_of_funds services.wallet_address ∷ []) },
  )
  handle_send_error (exceeds_block_limit text) o = (
    cannot_recover (
        gateway (new err_send_transaction (some (services.error_text (exceeds_block_limit text))))),
    o,
  )
  handle_send_error (invalid_nonce text) o =
      let (updated, o') = update_nonce o in
      (
        elim updated [
          | inr e ↦ cannot_recover (gateway e)
          | inl _ ↦ failure (node (invalid_nonce text))
        ],
        o',
      )
  handle_send_error (other_error text) o = (
    cannot_recover
        (gateway (new err_send_transaction (some (services.error_text (other_error text))))),
    o,
  )

  -- The supplier of `sendTransaction`.
  unfoldable pub attempt_to_send :
      SendTransactionRequest
      → WalletOwner C
      → Attempt SendTransactionResponse SendFailure × WalletOwner C
  attempt_to_send req o =
      let (signed, o') = generate_and_sign_transaction req o in
      elim signed [
        | inr e ↦ (failure (gateway (new err_signed_tx (some (services.gateway_text e)))), o')
        | inl tx ↦
            let (answer, client) = services.eth_client.send_transaction tx o'.client in
            let o'' : WalletOwner C = record o' {
              client = client;
              sent = o'.sent ++ ((tx, answer) ∷ []);
            } in
            elim answer [ inl r ↦ (success r, o'') | inr e ↦ handle_send_error e o'' ]
      ]

  -- What `sendTransaction` makes of the result of the retries. The error of `RetryWithConfig` carries
  -- a stack trace, or is that of the attempts, so that it is never an `errors.Err` here, and is
  -- wrapped once more.
  unfoldable pub finish_send :
      SendTransactionRequest
      → Result SendTransactionResponse SendFailure
      → WalletOwner C
      → (SendTransactionResponse ⊎ Error) × WalletOwner C
  finish_send req (value r) o = (
    inl r,
    record o {
      notified = o.notified ++ (transaction_committed req.aad services.wallet_address r.hash ∷ []);
    },
  )
  finish_send req other o = (inr (new err_send_transaction (some (services.retry_text other))), o)

  unfoldable pub send_transaction :
      (spread : ℕ → ℕ → ℕ)
      → SendTransactionRequest
      → WalletOwner C
      → (SendTransactionResponse ⊎ Error) × WalletOwner C
  send_transaction spread req o =
      let (result, o') = retry_supply send_retry_config spread (attempt_to_send req) o in
      finish_send req result o'
