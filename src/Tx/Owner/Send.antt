-- ===== src/Tx/Owner/Send.antt =====
-- What `sendTransaction` of tx/owner.go hands to the client.
use mathlib.Core.List.{append_assoc, append-nil}
use mathlib.Core.Path.{subst}
use developer_gateway.Prelude.{
  ℕ, zero, suc, ◌+◌, ◌%◌, ◌^◌, ◌≤◌, ◌≡◌, refl, sym, ap, ◌∙◌, List, [], ◌∷◌, ◌++◌, ◌⊎◌, inl, inr,
  length, length-append, All, All-append, Bool-cases, Sum-cases, arith,
}
use developer_gateway.Errors.{Error}
use developer_gateway.Errors.Internal.{err_send_transaction}
use developer_gateway.Eth.{
  EthError, exceeds_balance, exceeds_block_limit, invalid_nonce, other_error,
  SendTransactionResponse, Transaction,
}
use developer_gateway.Concurrent.Retry.{
  Attempt, success, failure, cannot_recover, Result, value, canceled, unrecoverable,
  max_attempts_reached, waiting, Loop, exhausted, back_off, start,
}
use developer_gateway.Concurrent.Retry.Supply.{supply_loop, retry_supply, Attempt-cases}
use developer_gateway.Tx.{WalletServices, WalletOwner, SendTransactionRequest, SendFailure}
use developer_gateway.Tx.Owner.{
  update_nonce, sign_transaction, generate_and_sign_transaction, handle_send_error, attempt_to_send,
  finish_send, send_transaction, send_retry_config, gas_price_wei,
}

abbrev pub Sent : Type 0
Sent = Transaction × (SendTransactionResponse ⊎ EthError)

-- The client refused the transaction for its nonce.
abbrev pub IsNonceRefusal : Sent → Type 0
IsNonceRefusal (tx, inr (invalid_nonce text)) = Unit
IsNonceRefusal _ = ⊥

abbrev pub IsRefused : Sent → Type 0
IsRefused (tx, inl r) = ⊥
IsRefused (tx, inr e) = Unit

-- Signing keeps the nonce.
abbrev pub KeepsNonce : {C : Type 0} → WalletServices C → Type 0
KeepsNonce services = (tx tx' : Transaction) → services.sign_tx tx ≡ inl tx' → tx'.nonce ≡ tx.nonce

module _ {C : Type 0} (services : WalletServices C) where
  -- What one attempt hands to the client, by its outcome.
  abbrev Attempted :
      Attempt SendTransactionResponse SendFailure → WalletOwner C → WalletOwner C → Type 0
  Attempted (success r) o o' =
      (tx : Transaction) × (o'.sent ≡ o.sent ++ ((tx, inl r) ∷ []))
      × (o'.nonce ≡ (tx.nonce + 1) % 2 ^ 64)
  Attempted (cannot_recover f) o o' =
      (last : List Sent) × (o'.sent ≡ o.sent ++ last) × (length last ≤ 1) × All IsRefused last
  Attempted (failure f) o o' =
      (tries : List Sent) × (o'.sent ≡ o.sent ++ tries)
      × (length tries ≤ 1)
      × All IsNonceRefusal tries

  sent-update_nonce : (o : WalletOwner C) → (update_nonce services o).1.sent ≡ o.sent
  unfolding update_nonce
  sent-update_nonce o = ground arith

  handle_send_error-Attempted :
      (tx : Transaction) (e : EthError) (o o' : WalletOwner C)
      → o'.sent ≡ o.sent ++ ((tx, inr e) ∷ [])
      → Attempted (handle_send_error services e o').0 o (handle_send_error services e o').1
  unfolding handle_send_error
  handle_send_error-Attempted tx (exceeds_balance t) o o' h = (_, h, omega arith, (tt, tt))
  handle_send_error-Attempted tx (exceeds_block_limit t) o o' h = (_, h, omega arith, (tt, tt))
  handle_send_error-Attempted tx (other_error t) o o' h = (_, h, omega arith, (tt, tt))
  handle_send_error-Attempted tx (invalid_nonce t) o o' h =
      elim (Sum-cases (update_nonce services o').0) [
        | inl (u, e) ↦
            rw (Attempted, handle_send_error, e)
              ((tx, inr (invalid_nonce t)) ∷ [], sent-update_nonce o' ∙ h, omega arith, (tt, tt))
        | inr (f, e) ↦
            rw (Attempted, handle_send_error, e)
              ((tx, inr (invalid_nonce t)) ∷ [], sent-update_nonce o' ∙ h, omega arith, (tt, tt))
      ]

  signed_nonce :
      KeepsNonce services
      → (tx tx' : Transaction) → sign_transaction services tx ≡ inl tx'
      → tx'.nonce ≡ tx.nonce
  unfolding sign_transaction
  signed_nonce keeps tx tx' h = elim (Sum-cases (services.sign_tx tx)) [
    | inl (s, e) ↦ keeps tx tx' (ground (arith, e, h))
    | inr (t, e) ↦ absurd (ground (arith, e, h))
  ]

  attempt_to_send-Attempted :
      KeepsNonce services
      → (req : SendTransactionRequest) (o : WalletOwner C)
      → Attempted (attempt_to_send services req o).0 o (attempt_to_send services req o).1
  unfolding attempt_to_send generate_and_sign_transaction
  attempt_to_send-Attempted keeps req o =
      let tx : Transaction = record {
        nonce = o.nonce;
        to_address = req.address;
        gas = req.gas;
        gas_price = gas_price_wei;
        payload = req.payload;
      } in
      elim (Sum-cases (sign_transaction services tx)) [
        | inr (text, e) ↦
            rw (Attempted, e)
              ([], rw (attempt_to_send, e) (sym (append-nil o.sent)), omega arith, tt)
        | inl (tx', e) ↦ elim (Sum-cases (services.eth_client.send_transaction tx' o.client).0) [
          | inl (r, f) ↦
              rw (Attempted, e, f)
                (
                  tx',
                  rw (attempt_to_send, e, f, f) refl,
                  rw (attempt_to_send, e, f)
                      (ap (λ n. (n + 1) % 2 ^ 64) (sym (signed_nonce keeps tx tx' e))),
                )
          | inr (x, f) ↦
              let o' : WalletOwner C = record o {
                nonce = (o.nonce + 1) % 2 ^ 64;
                client = (services.eth_client.send_transaction tx' o.client).1;
                sent = o.sent ++ ((tx', inr x) ∷ []);
              } in
              let runs : attempt_to_send services req o ≡ handle_send_error services x o' =
                rw (attempt_to_send, e, f, f) refl in
              subst (λ p. Attempted p.0 o p.1) (sym runs)
                (handle_send_error-Attempted tx' x o o' refl)
        ]
      ]

  -- The last transaction of a call of the loop: the one that was accepted, or none but refused ones.
  abbrev IsLast : Result SendTransactionResponse SendFailure → List Sent → WalletOwner C → Type 0
  IsLast (value r) last o =
      (tx : Transaction) × (last ≡ (tx, inl r) ∷ []) × (o.nonce ≡ (tx.nonce + 1) % 2 ^ 64)
  IsLast _ last o = All IsRefused last

  -- What the loop hands to the client, in at most so many attempts.
  abbrev Ended :
      Result SendTransactionResponse SendFailure → WalletOwner C → WalletOwner C → ℕ → Type 0
  Ended r o o' most =
      (tries : List Sent) × (last : List Sent) × All IsNonceRefusal tries
      × IsLast r last o'
      × (o'.sent ≡ o.sent ++ (tries ++ last))
      × (length tries + length last ≤ most)

  joined :
      (o o' : WalletOwner C) (tries more last : List Sent)
      → o'.sent ≡ o.sent ++ tries
      → o'.sent ++ (more ++ last) ≡ o.sent ++ ((tries ++ more) ++ last)
  joined o o' tries more last same =
      ap (λ l. l ++ (more ++ last)) same
      ∙ append_assoc o.sent tries (more ++ last)
      ∙ ap (λ l. o.sent ++ l) (sym (append_assoc tries more last))

  -- One more refusal for the nonce before the rest.
  after_refusals :
      (r : Result SendTransactionResponse SendFailure) (o o' o'' : WalletOwner C)
      (tries : List Sent) (most : ℕ)
      → o'.sent ≡ o.sent ++ tries
      → length tries ≤ 1
      → All IsNonceRefusal tries
      → Ended r o' o'' most
      → Ended r o o'' (suc most)
  after_refusals r o o' o'' tries most same few refused (more, last, all, ends, sent, fits) = (
    tries ++ more,
    last,
    All-append IsNonceRefusal tries more refused all,
    ends,
    sent ∙ joined o o' tries more last same,
    omega (arith, length-append tries more),
  )

  module _ (keeps : KeepsNonce services) (spread : ℕ → ℕ → ℕ) (req : SendTransactionRequest) where
    abbrev loop :
        ℕ
        → WalletOwner C
        → Loop SendFailure
        → Result SendTransactionResponse SendFailure × WalletOwner C
    loop = supply_loop send_retry_config spread (attempt_to_send services req)

    -- After a failed attempt the loop is over or goes on.
    supply_loop-Ended_failure :
        (fuel : ℕ) (o : WalletOwner C) (l : Loop SendFailure) (f : SendFailure)
        → (attempt_to_send services req o).0 ≡ failure f
        → Ended
            (loop fuel (attempt_to_send services req o).1 (back_off send_retry_config spread l f)).0
            (attempt_to_send services req o).1
            (loop fuel (attempt_to_send services req o).1 (back_off send_retry_config spread l f)).1
            fuel
        → Attempted (failure f) o (attempt_to_send services req o).1
        → Ended (loop (suc fuel) o l).0 o (loop (suc fuel) o l).1 (suc fuel)
    unfolding supply_loop
    supply_loop-Ended_failure fuel o l f e later (tries, sent, few, refused) =
        let o' : WalletOwner C = (attempt_to_send services req o).1 in
        elim (Bool-cases (exhausted send_retry_config (l.attempts + 1))) [
          | inl b ↦
              let runs : loop (suc fuel) o l ≡ (max_attempts_reached (l.errs ++ (f ∷ [])), o') =
                rw (supply_loop, e, b) refl in
              subst (λ p. Ended p.0 o p.1 (suc fuel)) (sym runs)
                (
                  tries,
                  [],
                  refused,
                  tt,
                  sent ∙ ap (λ t. o.sent ++ t) (sym (append-nil tries)),
                  omega arith,
                )
          | inr b ↦
              let runs : loop (suc fuel) o l
                  ≡ loop fuel o' (back_off send_retry_config spread l f) =
                rw (supply_loop, e, b) refl in
              subst (λ p. Ended p.0 o p.1 (suc fuel)) (sym runs)
                (after_refusals _ o o' _ tries fuel sent few refused later)
        ]

    supply_loop-Ended :
        (fuel : ℕ) (o : WalletOwner C) (l : Loop SendFailure)
        → Ended (loop fuel o l).0 o (loop fuel o l).1 fuel
    unfolding supply_loop
    supply_loop-Ended zero o l = ([], [], tt, tt, sym (append-nil o.sent), omega arith)
    supply_loop-Ended (suc fuel) o l =
        let tried = attempt_to_send-Attempted keeps req o in
        let o' : WalletOwner C = (attempt_to_send services req o).1 in
        elim (Attempt-cases (attempt_to_send services req o).0) [
          | inl (r, e) ↦
              let (tx, sent, nonce) = subst (λ a. Attempted a o o') e tried in
              let runs : loop (suc fuel) o l ≡ (value r, o') = rw (supply_loop, e) refl in
              subst (λ p. Ended p.0 o p.1 (suc fuel)) (sym runs)
                ([], (tx, inl r) ∷ [], tt, (tx, refl, nonce), sent, omega arith)
          | inr (inl (f, e)) ↦
              let (last, sent, few, refused) = subst (λ a. Attempted a o o') e tried in
              let runs : loop (suc fuel) o l ≡ (unrecoverable f, o') = rw (supply_loop, e) refl in
              subst (λ p. Ended p.0 o p.1 (suc fuel)) (sym runs)
                ([], last, tt, refused, sent, omega arith)
          | inr (inr (f, e)) ↦
              supply_loop-Ended_failure fuel o l f e
                (supply_loop-Ended fuel o' (back_off send_retry_config spread l f))
                (subst (λ a. Attempted a o o') e tried)
        ]

  -- What a call hands to the client, by its result.
  abbrev pub IsSent : SendTransactionResponse ⊎ Error → List Sent → WalletOwner C → Type 0
  IsSent (inl r) last o =
      (tx : Transaction) × (last ≡ (tx, inl r) ∷ []) × (o.nonce ≡ (tx.nonce + 1) % 2 ^ 64)
  IsSent (inr e) last o = All IsRefused last × (e.error_code ≡ err_send_transaction)

  abbrev pub SendsOnce : WalletOwner C → (SendTransactionResponse ⊎ Error) × WalletOwner C → Type 0
  SendsOnce o p =
      (tries : List Sent) × (last : List Sent) × All IsNonceRefusal tries
      × IsSent p.0 last p.1
      × (p.1.sent ≡ o.sent ++ (tries ++ last))
      × (length tries + length last ≤ 10)

  finish_send-SendsOnce :
      (req : SendTransactionRequest) (r : Result SendTransactionResponse SendFailure)
      (o o' : WalletOwner C)
      → Ended r o o' 10
      → SendsOnce o (finish_send services req r o')
  unfolding finish_send
  finish_send-SendsOnce req (value r) o o' h = h
  finish_send-SendsOnce req canceled o o' (a, b, c, d, e, f) = (a, b, c, (d, refl), e, f)
  finish_send-SendsOnce req (unrecoverable x) o o' (a, b, c, d, e, f) = (a, b, c, (d, refl), e, f)
  finish_send-SendsOnce req (max_attempts_reached x) o o' (a, b, c, d, e, f) =
      (a, b, c, (d, refl), e, f)
  finish_send-SendsOnce req waiting o o' (a, b, c, d, e, f) = (a, b, c, (d, refl), e, f)

  -- If signing keeps the nonce, a call of sendTransaction hands at most ten transactions to the
  -- client, and all of them but the last were refused for their nonce. If the call succeeds, the
  -- last one is accepted, with the returned response, and the owner's next nonce follows that of
  -- it. If it fails, no transaction was accepted, and the error has the code of ErrSendTransaction.
  pub send_transaction_accepts_once :
      KeepsNonce services
      → (spread : ℕ → ℕ → ℕ) (req : SendTransactionRequest) (o : WalletOwner C)
      → SendsOnce o (send_transaction services spread req o)
  unfolding send_transaction retry_supply
  send_transaction_accepts_once keeps spread req o =
      finish_send-SendsOnce req _ o _
        (supply_loop-Ended keeps spread req 10 o (start send_retry_config))
