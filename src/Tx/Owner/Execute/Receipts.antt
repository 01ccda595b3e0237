-- ===== src/Tx/Owner/Execute/Receipts.antt =====
-- What the part of `executeTransaction` (tx/owner.go) after the receipt comes to.
use Prim.Native.String.{len}
use mathlib.Core.Path.{subst}
use developer_gateway.Prelude.{
  ◌+◌, ◌≡◌, refl, sym, ap, true, some, ◌⊎◌, inl, inr, String, leb, if◌then◌else◌, same, Sum-cases,
  Bool-cases,
}
use developer_gateway.Errors.{Error, new}
use developer_gateway.Errors.Internal.{err_get_service_code, err_service_code_not_deployed}
use developer_gateway.Eth.{SendTransactionResponse, Receipt}
use developer_gateway.Tx.{WalletServices, WalletOwner, ExecuteRequest, ExecuteResponse}
use developer_gateway.Tx.Owner.Execute.{service_address, deployed_address, finish_execution}

module _ {C : Type 0} (services : WalletServices C) where
  -- What the part after the receipt comes to.
  abbrev pub Finished :
      ExecuteRequest
      → SendTransactionResponse
      → Receipt
      → WalletOwner C
      → ExecuteResponse ⊎ Error
      → WalletOwner C
      → Type 0
  Finished req res receipt o (inr e) o' = o'.consumed_balance ≡ o.consumed_balance
  Finished req res receipt o (inl r) o' =
      (r.output ≡ res.output)
      × (r.hash ≡ res.hash)
      × (r.address ≡ (if same req.address "" then receipt.contract_address else req.address))
      × (o'.sent ≡ o.sent)
      × (o'.consumed_balance ≡ o.consumed_balance + receipt.gas_used)

  abbrev Located :
      (address contract_address : String) → WalletOwner C → String ⊎ Error → WalletOwner C → Type 0
  Located address contract o (inr e) o' = o'.consumed_balance ≡ o.consumed_balance
  Located address contract o (inl found) o' =
      (found ≡ (if same address "" then contract else address))
      × (o'.sent ≡ o.sent)
      × (o'.consumed_balance ≡ o.consumed_balance)

  deployed_address-Located :
      (address contract_address : String) (o : WalletOwner C)
      → same address "" ≡ true
      → Located address contract_address o
          (deployed_address services contract_address o).0
          (deployed_address services contract_address o).1
  unfolding deployed_address
  deployed_address-Located address contract o e =
      let client = (services.eth_client.get_code contract o.client).1 in
      let o' : WalletOwner C = record o { client = client } in
      elim (Sum-cases (services.eth_client.get_code contract o.client).0) [
        | inr (x, f) ↦
            let runs : deployed_address services contract o
                ≡ (inr (new err_get_service_code (some (services.error_text x))), o') =
              rw (deployed_address, f) refl in
            subst (λ p. Located address contract o p.0 p.1) (sym runs) refl
        | inl (code, f) ↦ elim (Bool-cases (leb (len code) 2)) [
          | inl g ↦
              let runs : deployed_address services contract o
                  ≡ (inr (new err_service_code_not_deployed (some "service code is 0x")), o') =
                rw (deployed_address, f, g) refl in
              subst (λ p. Located address contract o p.0 p.1) (sym runs) refl
          | inr g ↦
              let runs : deployed_address services contract o ≡ (inl contract, o') =
                rw (deployed_address, f, g) refl in
              subst (λ p. Located address contract o p.0 p.1) (sym runs) (rw e refl, refl, refl)
        ]
      ]

  service_address-Located :
      (address contract_address : String) (o : WalletOwner C)
      → Located address contract_address o
          (service_address services address contract_address o).0
          (service_address services address contract_address o).1
  unfolding service_address
  service_address-Located address contract o = elim (Bool-cases (same address "")) [
    | inr e ↦ rw (Located, service_address, e, e) (refl, refl, refl)
    | inl e ↦
        let runs : service_address services address contract o
            ≡ deployed_address services contract o =
          rw (service_address, e) refl in
        subst (λ p. Located address contract o p.0 p.1) (sym runs)
          (deployed_address-Located address contract o e)
  ]

  pub finish_execution-Finished :
      (req : ExecuteRequest) (res : SendTransactionResponse) (receipt : Receipt) (o : WalletOwner C)
      → Finished req res receipt o
          (finish_execution services req res receipt o).0
          (finish_execution services req res receipt o).1
  unfolding finish_execution
  finish_execution-Finished req res receipt o =
      let found = service_address services req.address receipt.contract_address o in
      let located = service_address-Located req.address receipt.contract_address o in
      elim (Sum-cases found.0) [
        | inr (x, e) ↦
            let runs : finish_execution services req res receipt o ≡ (inr x, found.1) =
              rw (finish_execution, e) refl in
            subst (λ p. Finished req res receipt o p.0 p.1) (sym runs)
              (subst (λ f. Located req.address receipt.contract_address o f found.1) e located)
        | inl (address, e) ↦
            let (at, sent, kept) =
              subst (λ f. Located req.address receipt.contract_address o f found.1) e located in
            rw (Finished, finish_execution, e)
              (refl, refl, at, sent, ap (λ n. n + receipt.gas_used) kept)
      ]
