-- ===== src/Tx/Owner/Execute/Commits.antt =====
-- What `executeTransaction` of tx/owner.go returns, and what it counts as consumed.
use mathlib.Core.Path.{subst}
use developer_gateway.Prelude.{
  ℕ, ◌+◌, ◌≡◌, refl, sym, ap, ◌∙◌, some, List, [], ◌∷◌, ◌++◌, ◌⊎◌, inl, inr, String, ◌==◌,
  if◌then◌else◌, same, All, Sum-cases, Bool-cases, arith,
}
use developer_gateway.Errors.{Error, internal_error, new}
use developer_gateway.Errors.Internal.{err_transaction_receipt}
use developer_gateway.Eth.{
  EthError, exceeds_balance, exceeds_block_limit, invalid_nonce, other_error,
  SendTransactionResponse, Transaction, Receipt,
}
use developer_gateway.Tx.{
  SendFailure, WalletServices, WalletOwner, ExecuteRequest, ExecuteResponse, SendTransactionRequest,
}
use developer_gateway.Tx.Owner.{
  update_balance, update_nonce, estimate_gas, send_transaction, status_ok, handle_send_error,
  attempt_to_send, generate_and_sign_transaction, finish_send, send_retry_config,
}
use developer_gateway.Tx.Owner.Send.{
  Sent, IsNonceRefusal, KeepsNonce, IsSent, send_transaction_accepts_once,
}
use developer_gateway.Concurrent.Retry.Supply.{retry_supply, supply_loop_keeps}
use developer_gateway.Concurrent.Retry.{
  start, value, canceled, unrecoverable, max_attempts_reached, waiting, Result,
}
use developer_gateway.Tx.Owner.Execute.{finish_execution, check_receipt, execute_transaction}
use developer_gateway.Tx.Owner.Execute.Receipts.{Finished, finish_execution-Finished}

module _ {C : Type 0} (services : WalletServices C) where
  -- What a call comes to: a returned response is that of the last transaction handed to the client.
  abbrev pub Executed :
      ExecuteRequest → WalletOwner C → (ExecuteResponse ⊎ Error) × WalletOwner C → Type 0
  Executed req o (inr e, o') = o'.consumed_balance ≡ o.consumed_balance
  Executed req o (inl r, o') =
      (tries : List Sent) × (tx : Transaction) × (res : SendTransactionResponse)
      × (receipt : Receipt) × (c : C) × All IsNonceRefusal tries
      × (o'.sent ≡ o.sent ++ (tries ++ ((tx, inl res) ∷ [])))
      × (res.status ≡ status_ok)
      × ((services.eth_client.transaction_receipt res.hash c).0 ≡ inl receipt)
      × (r.output ≡ res.output)
      × (r.hash ≡ res.hash)
      × (r.address ≡ (if same req.address "" then receipt.contract_address else req.address))
      × (o'.consumed_balance ≡ o.consumed_balance + receipt.gas_used)

  sent-update_balance : (o : WalletOwner C) → (update_balance services o).1.sent ≡ o.sent
  unfolding update_balance
  sent-update_balance o = ground arith

  consumed-update_balance :
      (o : WalletOwner C) → (update_balance services o).1.consumed_balance ≡ o.consumed_balance
  unfolding update_balance
  consumed-update_balance o = ground arith

  consumed-estimate_gas :
      (address : String) (payload : List ℕ) (o : WalletOwner C)
      → (estimate_gas services address payload o).1.consumed_balance ≡ o.consumed_balance
  unfolding estimate_gas
  consumed-estimate_gas address payload o = ground arith

  sent-estimate_gas :
      (address : String) (payload : List ℕ) (o : WalletOwner C)
      → (estimate_gas services address payload o).1.sent ≡ o.sent
  unfolding estimate_gas
  sent-estimate_gas address payload o = ground arith

  consumed-update_nonce :
      (o : WalletOwner C) → (update_nonce services o).1.consumed_balance ≡ o.consumed_balance
  unfolding update_nonce
  consumed-update_nonce o = ground arith

  consumed-handle_send_error :
      (e : EthError) (o : WalletOwner C)
      → (handle_send_error services e o).1.consumed_balance ≡ o.consumed_balance
  unfolding handle_send_error
  consumed-handle_send_error (exceeds_balance t) o = refl
  consumed-handle_send_error (exceeds_block_limit t) o = refl
  consumed-handle_send_error (invalid_nonce t) o = consumed-update_nonce o
  consumed-handle_send_error (other_error t) o = refl

  consumed-attempt_to_send :
      (req : SendTransactionRequest) (o : WalletOwner C)
      → (attempt_to_send services req o).1.consumed_balance ≡ o.consumed_balance
  unfolding attempt_to_send generate_and_sign_transaction
  consumed-attempt_to_send req o = grind (arith, consumed-handle_send_error)

  consumed-finish_send :
      (req : SendTransactionRequest) (r : Result SendTransactionResponse SendFailure)
      (o : WalletOwner C)
      → (finish_send services req r o).1.consumed_balance ≡ o.consumed_balance
  unfolding finish_send
  consumed-finish_send req (value r) o = refl
  consumed-finish_send req canceled o = refl
  consumed-finish_send req (unrecoverable f) o = refl
  consumed-finish_send req (max_attempts_reached fs) o = refl
  consumed-finish_send req waiting o = refl

  consumed-send_transaction :
      (spread : ℕ → ℕ → ℕ) (req : SendTransactionRequest) (o : WalletOwner C)
      → (send_transaction services spread req o).1.consumed_balance ≡ o.consumed_balance
  unfolding send_transaction retry_supply
  consumed-send_transaction spread req o =
      consumed-finish_send req _ _
      ∙ supply_loop_keeps send_retry_config spread (attempt_to_send services req)
          (λ o. o.consumed_balance) (consumed-attempt_to_send req) 10 o (start send_retry_config)

  Finished-Executed :
      (req : ExecuteRequest) (res : SendTransactionResponse) (o o' : WalletOwner C)
      (receipt : Receipt) (c : C) (tries : List Sent) (tx : Transaction)
      → All IsNonceRefusal tries
      → o'.sent ≡ o.sent ++ (tries ++ ((tx, inl res) ∷ []))
      → o'.consumed_balance ≡ o.consumed_balance
      → res.status ≡ status_ok
      → (services.eth_client.transaction_receipt res.hash c).0 ≡ inl receipt
      → (p : (ExecuteResponse ⊎ Error) × WalletOwner C)
      → Finished services req res receipt o' p.0 p.1
      → Executed req o p
  Finished-Executed req res o o' receipt c tries tx all sent kept ok given (inr e, o'') same =
      same ∙ kept
  Finished-Executed req res o o' receipt c tries tx all sent kept ok given (inl r, o'')
        (out, hash, at, same, more) =
      (
        tries,
        tx,
        res,
        receipt,
        c,
        all,
        same ∙ sent,
        ok,
        given,
        out,
        hash,
        at,
        more ∙ ap (λ n. n + receipt.gas_used) kept,
      )

  check_receipt-Executed :
      (req : ExecuteRequest) (res : SendTransactionResponse) (o o' : WalletOwner C)
      → o'.consumed_balance ≡ o.consumed_balance
      → (tries : List Sent) (tx : Transaction) → All IsNonceRefusal tries
      → o'.sent ≡ o.sent ++ (tries ++ ((tx, inl res) ∷ []))
      → Executed req o (check_receipt services req res o')
  unfolding check_receipt
  check_receipt-Executed req res o o' kept tries tx all sent =
      let b : WalletOwner C = (update_balance services o').1 in
      let answer = services.eth_client.transaction_receipt res.hash b.client in
      let c : WalletOwner C = record b { client = answer.1 } in
      elim (Bool-cases (res.status == status_ok)) [
        | inr e ↦
            let text = services.status_text res.status res.output in
            let runs : check_receipt services req res o' ≡ (
              inr (
                  new (record { category = internal_error; code = 1000; desc = text }) (some text)),
              b,
            ) =
              rw (check_receipt, e) refl in
            subst (Executed req o) (sym runs) (consumed-update_balance o' ∙ kept)
        | inl e ↦ elim (Sum-cases answer.0) [
          | inr (x, f) ↦
              let runs : check_receipt services req res o'
                  ≡ (inr (new err_transaction_receipt (some (services.error_text x))), c) =
                rw (check_receipt, e, f) refl in
              subst (Executed req o) (sym runs) (consumed-update_balance o' ∙ kept)
          | inl (receipt, f) ↦
              let runs : check_receipt services req res o'
                  ≡ finish_execution services req res receipt c =
                rw (check_receipt, e, f) refl in
              subst (Executed req o) (sym runs) (
                Finished-Executed req res o c receipt b.client tries tx all
                  (sent-update_balance o' ∙ sent) (consumed-update_balance o' ∙ kept)
                  (ground (arith, e)) f (finish_execution services req res receipt c)
                  (finish_execution-Finished services req res receipt c))
        ]
      ]

  -- If signing keeps the nonce and an execution succeeds, the transactions handed to the client were
  -- refused for their nonce, up to the last one, which was accepted with the status of a success. The
  -- returned output and hash are those of its response, and the address is the requested one, or for
  -- a new service that of the receipt. The consumed balance grows by the gas of a receipt that the
  -- client gave for the hash. If the execution fails, the consumed balance is unchanged.
  pub execute_transaction_commits :
      KeepsNonce services
      → (spread : ℕ → ℕ → ℕ) (req : ExecuteRequest) (o : WalletOwner C)
      → Executed req o (execute_transaction services spread req o)
  unfolding execute_transaction
  execute_transaction_commits keeps spread req o =
      let o' : WalletOwner C = (estimate_gas services req.address req.payload o).1 in
      elim (Sum-cases (estimate_gas services req.address req.payload o).0) [
        | inr (x, e) ↦
            let runs : execute_transaction services spread req o ≡ (inr x, o') =
              rw (execute_transaction, e) refl in
            subst (Executed req o) (sym runs) (consumed-estimate_gas req.address req.payload o)
        | inl (gas, e) ↦
            let sent : SendTransactionRequest = record {
              aad = req.aad;
              id = req.id;
              address = req.address;
              gas = gas;
              payload = req.payload;
            } in
            let done = send_transaction services spread sent o' in
            let kept =
              consumed-send_transaction spread sent o'
              ∙ consumed-estimate_gas req.address req.payload o in
            let (tries, last, all, given, grown, few) =
              send_transaction_accepts_once services keeps spread sent o' in
            elim (Sum-cases done.0) [
              | inr (x, f) ↦
                  let runs : execute_transaction services spread req o ≡ (inr x, done.1) =
                    rw (execute_transaction, e, f) refl in
                  subst (Executed req o) (sym runs) kept
              | inl (res, f) ↦
                  let (tx, ends, _) = subst (λ r. IsSent services r last done.1) f given in
                  let runs : execute_transaction services spread req o
                      ≡ check_receipt services req res done.1 =
                    rw (execute_transaction, e, f) refl in
                  subst (Executed req o) (sym runs) (
                    check_receipt-Executed req res o done.1 kept tries tx all (
                      grown
                      ∙ ap (λ l. l ++ (tries ++ last)) (sent-estimate_gas req.address req.payload o)
                      ∙ ap (λ l. o.sent ++ (tries ++ l)) ends))
            ]
      ]
