-- ===== src/Backend/Ethereum/Tests.antt =====
-- A service executed on a wallet over a small node.
use developer_gateway.Prelude.{ℕ, none, [], ◌∷◌, inl, inr}
use developer_gateway.Eth.{other_error}
use developer_gateway.Tx.{WalletOwner}
use developer_gateway.Tx.Tests.{services, owner, keeps, spread}
use developer_gateway.Backend.Requests.{ExecuteServiceRequest}
use developer_gateway.Backend.Ethereum.{EthereumServices, execute_service}
use developer_gateway.Backend.Ethereum.Wallet.{on_wallet, Served, execute_service_commits}

abbrev backend : EthereumServices (WalletOwner ℕ)
backend = record {
  decode_hex = λ text. inl (1 ∷ []);
  failure_text = λ doing address e. doing;
  get_code = λ address o. (inl "0x6001", o);
  get_expiry = λ address o. (inl 0, o);
  get_public_key = λ address o. (inr (other_error "no key"), o);
  execute = λ req o. (inl (record { address = req.address; output = ""; hash = "" }), o);
  create = λ key addresses topics o. (none, o);
  destroy = λ key o. (none, o);
}

abbrev execution : ExecuteServiceRequest
execution = record {
  aad = "aad";
  input = "0x01";
  address = "0x00000000000000000000000000000000000000cc";
  session_key = "key";
}

execute_service_commits_example :
    Served backend services spread execution.address "aad" "0x01" 4 owner
      (execute_service (on_wallet backend services spread) 4 execution owner).0
      (execute_service (on_wallet backend services spread) 4 execution owner).1
execute_service_commits_example =
    execute_service_commits backend services spread keeps 4 execution owner
