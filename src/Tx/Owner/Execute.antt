-- ===== src/Tx/Owner/Execute.antt =====
-- `executeTransaction` of tx/owner.go: a transaction is sent, and its receipt is checked.
pub mod Receipts
pub mod Commits
use Prim.Native.String.{len}
use mathlib.Core.Path.{subst}
use developer_gateway.Prelude.{
  ℕ, ◌+◌, ◌≡◌, refl, sym, ap, ◌∙◌, Bool, true, false, none, some, List, [], ◌∷◌, ◌++◌, ◌⊎◌, inl,
  inr, String, leb, ◌==◌, if◌then◌else◌, same, All, Sum-cases, Bool-cases, arith,
}
use developer_gateway.Errors.{Error, internal_error, new}
use developer_gateway.Errors.Internal.{
  err_transaction_receipt, err_get_service_code, err_service_code_not_deployed,
}
use developer_gateway.Eth.{
  EthError, exceeds_balance, exceeds_block_limit, invalid_nonce, other_error,
  SendTransactionResponse, Transaction, Receipt,
}
use developer_gateway.Tx.{
  SendFailure, WalletServices, WalletOwner, ExecuteRequest, ExecuteResponse, SendTransactionRequest,
}
use developer_gateway.Tx.Owner.{
  update_balance, update_nonce, estimate_gas, send_transaction, status_ok, handle_send_error,
  attempt_to_send, generate_and_sign_transaction, finish_send, send_retry_config,
}
use developer_gateway.Tx.Owner.Send.{
  Sent, IsNonceRefusal, KeepsNonce, IsSent, send_transaction_accepts_once,
}
use developer_gateway.Concurrent.Retry.Supply.{supply_loop, retry_supply, supply_loop_keeps}
use developer_gateway.Concurrent.Retry.{
  start, value, canceled, unrecoverable, max_attempts_reached, waiting, Result,
}

module _ {C : Type 0} (services : WalletServices C) where
  -- `getCode` and the checks for a new service; the address of the service.
  unfoldable pub deployed_address :
      (contract_address : String) → WalletOwner C → (String ⊎ Error) × WalletOwner C
  deployed_address contract_address o =
      let (answer, client) = services.eth_client.get_code contract_address o.client in
      let o' : WalletOwner C = record o { client = client } in
      elim answer [
        | inr e ↦ (inr (new err_get_service_code (some (services.error_text e))), o')
        | inl code ↦ (
          if leb (len code) 2
              then inr (new err_service_code_not_deployed (some "service code is 0x"))
              else inl contract_address,
          o',
        )
      ]

  unfoldable pub service_address :
      (address contract_address : String) → WalletOwner C → (String ⊎ Error) × WalletOwner C
  service_address address contract_address o =
      let deployed = deployed_address contract_address o in
      if same address "" then deployed else (inl address, o)

  -- From the receipt on.
  unfoldable pub finish_execution :
      ExecuteRequest
      → SendTransactionResponse
      → Receipt
      → WalletOwner C
      → (ExecuteResponse ⊎ Error) × WalletOwner C
  finish_execution req res receipt o =
      let (found, o') = service_address req.address receipt.contract_address o in
      elim found [
        | inr e ↦ (inr e, o')
        | inl address ↦ (
          inl (record { address = address; output = res.output; hash = res.hash }),
          record o' { consumed_balance = o'.consumed_balance + receipt.gas_used },
        )
      ]

  -- From the response of the client on, with `transactionReceipt`.
  unfoldable pub check_receipt :
      ExecuteRequest
      → SendTransactionResponse
      → WalletOwner C
      → (ExecuteResponse ⊎ Error) × WalletOwner C
  check_receipt req res o =
      let (_, o') = update_balance services o in
      let (answer, client) = services.eth_client.transaction_receipt res.hash o'.client in
      let o'' : WalletOwner C = record o' { client = client } in
      let text = services.status_text res.status res.output in
      let checked = elim answer as (λ _. (ExecuteResponse ⊎ Error) × WalletOwner C) [
        | inr e ↦ (inr (new err_transaction_receipt (some (services.error_text e))), o'')
        | inl receipt ↦ finish_execution req res receipt o''
      ] in
      if res.status == status_ok then checked else (
        inr (new (record { category = internal_error; code = 1000; desc = text }) (some text)),
        o',
      )

  unfoldable pub execute_transaction :
      (spread : ℕ → ℕ → ℕ)
      → ExecuteRequest
      → WalletOwner C
      → (ExecuteResponse ⊎ Error) × WalletOwner C
  execute_transaction spread req o =
      let (estimate, o') = estimate_gas services req.address req.payload o in
      elim estimate [
        | inr e ↦ (inr e, o')
        | inl gas ↦
            let (response, o'') =
              send_transaction services spread
                (record {
                  aad = req.aad;
                  id = req.id;
                  address = req.address;
                  gas = gas;
                  payload = req.payload;
                })
                o' in
            elim response [ inr e ↦ (inr e, o'') | inl res ↦ check_receipt req res o'' ]
      ]
