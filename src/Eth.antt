-- ===== src/Eth.antt =====
-- The package eth: what the gateway uses of a client of an Ethereum node (eth/client.go, eth/entity.go).
pub mod Logs
pub mod Client
pub mod Pool
pub mod Subscription
mod Tests
use developer_gateway.Prelude.{ℕ, List, String, ◌⊎◌}

-- `eth.PublicKey`
pub record PublicKey : Type 0 where
  pub timestamp : ℕ
  pub public_key : String
  pub signature : String

pub record SendTransactionResponse : Type 0 where
  pub output : String
  pub status : ℕ
  pub hash : String

-- An error of a client: the three that the callers tell apart, or any other, with its text.
pub data EthError : Type 0 where
  exceeds_balance exceeds_block_limit invalid_nonce other_error : String → EthError

-- `types.Transaction`; no address is the creation of a contract.
pub record Transaction : Type 0 where
  pub nonce : ℕ
  pub to_address : String
  pub gas : ℕ
  pub gas_price : ℕ
  pub payload : List ℕ

-- What is used of `types.Receipt`.
pub record Receipt : Type 0 where
  pub contract_address : String
  pub gas_used : ℕ

-- The interface `Client`, on the state `C` of a client.
pub record EthClient (C : Type 0) : Type 0 where
  pub estimate_gas : (from to : String) (payload : List ℕ) → C → (ℕ ⊎ EthError) × C
  pub get_expiry : (address : String) → C → (ℕ ⊎ EthError) × C
  pub get_public_key : (address : String) → C → (PublicKey ⊎ EthError) × C
  pub nonce_at : (address : String) → C → (ℕ ⊎ EthError) × C
  pub send_transaction : Transaction → C → (SendTransactionResponse ⊎ EthError) × C
  pub transaction_receipt : (hash : String) → C → (Receipt ⊎ EthError) × C
  pub balance_at : (address : String) → C → (ℕ ⊎ EthError) × C
  pub get_code : (address : String) → C → (String ⊎ EthError) × C
