-- ===== src/Tx.antt =====
-- The package tx: wallets that send transactions (tx/owner.go, tx/entity.go, tx/wallet.go).
pub mod Owner
pub mod Tests
use developer_gateway.Prelude.{ℕ, Option, List, String, ◌⊎◌}
use developer_gateway.Errors.{Error}
use developer_gateway.Concurrent.Retry.{Result}
use developer_gateway.Eth.{EthClient, EthError, SendTransactionResponse, Transaction}

-- tx.ExecuteRequest
pub record ExecuteRequest : Type 0 where
  pub aad : String
  pub id : ℕ
  pub address : String
  pub payload : List ℕ

-- tx.ExecuteResponse
pub record ExecuteResponse : Type 0 where
  pub address : String
  pub output : String
  pub hash : String

pub record SendTransactionRequest : Type 0 where
  pub aad : String
  pub id : ℕ
  pub address : String
  pub gas : ℕ
  pub payload : List ℕ

-- The calls of the interface `Callbacks`.
pub data Notification : Type 0 where
  transaction_committed : (aad address hash : String) → Notification
  wallet_out_of_funds : (address : String) → Notification
  wallet_reached_funds_threshold : (address : String) (before : Option ℕ) (after : ℕ) → Notification

-- `WalletOwner`, with the state of its client, the callbacks made so far, and the transactions that
-- were handed to the client with what it answered.
pub record WalletOwner (C : Type 0) : Type 0 where
  pub nonce : ℕ
  pub current_balance : Option ℕ
  pub start_balance : Option ℕ
  pub consumed_balance : ℕ
  pub client : C
  pub notified : List Notification
  pub sent : List (Transaction × (SendTransactionResponse ⊎ EthError))

-- What an attempt to send fails with: an error of the gateway, or one of the client.
pub data SendFailure : Type 0 where
  gateway : Error → SendFailure
  node : EthError → SendFailure

-- What a wallet owner stands on: the client, the wallet's address, `types.SignTx` with the text of its
-- error, and the texts of errors: of one of the client, of one of the gateway, of what ends the
-- retries, and of a receipt's status with the output.
pub record WalletServices (C : Type 0) : Type 0 where
  pub eth_client : EthClient C
  pub wallet_address : String
  pub sign_tx : Transaction → Transaction ⊎ String
  pub error_text : EthError → String
  pub gateway_text : Error → String
  pub retry_text : Result SendTransactionResponse SendFailure → String
  pub status_text : ℕ → String → String
