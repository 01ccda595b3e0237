-- ===== src/Backend/Ethereum/Wallet.antt =====
-- The client of backend/eth/client.go on one wallet (tx/owner.go): what the requests that change a chain
-- come to.
use mathlib.Core.Path.{subst}
use Prim.Native.String.{len}
use developer_gateway.Prelude.{
  ℕ, ◌≡◌, refl, sym, none, List, ◌⊎◌, inl, inr, String, ◌==◌, Sum-cases, Option-cases, Bool-cases,
  arith,
}
use developer_gateway.Errors.{Error}
use developer_gateway.Tx.{WalletServices, WalletOwner, ExecuteRequest, ExecuteResponse}
use developer_gateway.Tx.Owner.Send.{KeepsNonce}
use developer_gateway.Tx.Owner.Execute.{execute_transaction}
use developer_gateway.Tx.Owner.Execute.Commits.{Executed, execute_transaction_commits}
use developer_gateway.Backend.Events.{ExecuteServiceResponse}
use developer_gateway.Backend.Requests.{ExecuteServiceRequest}
use developer_gateway.Backend.Ethereum.{
  EthereumServices, verify_address, decode_bytes, execute_verified, execute_service,
}

module _ {C : Type 0} (services : EthereumServices (WalletOwner C)) (wallet : WalletServices C)
    (spread : ℕ → ℕ → ℕ) where
  -- The services with the wallet as the one worker of the executor.
  abbrev pub on_wallet : EthereumServices (WalletOwner C)
  on_wallet = record services { execute = execute_transaction wallet spread }

  -- The consumed balance is unchanged by a failure; a response is that of an execution of the decoded
  -- input, for a request with the address.
  abbrev pub Served :
      (address aad input : String) (id : ℕ)
      → WalletOwner C
      → ExecuteServiceResponse ⊎ Error
      → WalletOwner C
      → Type 0
  Served address aad input id o (inr e) o' = o'.consumed_balance ≡ o.consumed_balance
  Served address aad input id o (inl r) o' =
      (bytes : List ℕ) × (done : ExecuteResponse) × (len address ≡ 42)
      × (services.decode_hex input ≡ inl bytes)
      × Executed wallet (record { aad = aad; id = id; address = address; payload = bytes }) o
          (inl done, o')
      × (r.id ≡ id)
      × (r.address ≡ done.address)
      × (r.output ≡ done.output)

  decoded :
      (input : String) (bytes : List ℕ)
      → decode_bytes on_wallet input ≡ inl bytes
      → services.decode_hex input ≡ inl bytes
  unfolding decode_bytes
  decoded input bytes h = elim (Sum-cases (services.decode_hex input)) [
    | inl (b, e) ↦ ground (arith, e, h)
    | inr (text, e) ↦ absurd (ground (arith, e, h))
  ]

  verified : (address : String) → verify_address on_wallet address ≡ none → len address ≡ 42
  unfolding verify_address
  verified address h = elim (Bool-cases (len address == 42)) [
    | inl e ↦ ground (arith, e)
    | inr e ↦ absurd (ground (arith, e, h))
  ]

  execute_verified-Served :
      KeepsNonce wallet
      → (id : ℕ) (req : ExecuteServiceRequest) (o : WalletOwner C)
      → verify_address on_wallet req.address ≡ none
      → Served req.address req.aad req.input id o
          (execute_verified on_wallet id req o).0
          (execute_verified on_wallet id req o).1
  unfolding execute_verified
  execute_verified-Served keeps id req o checked =
      elim (Sum-cases (decode_bytes on_wallet req.input)) [
        | inr (e, f) ↦
            let runs : execute_verified on_wallet id req o ≡ (inr e, o) =
              rw (execute_verified, f) refl in
            subst (λ p. Served req.address req.aad req.input id o p.0 p.1) (sym runs) refl
        | inl (bytes, f) ↦
            let asked : ExecuteRequest = record {
              aad = req.aad;
              id = id;
              address = req.address;
              payload = bytes;
            } in
            let done = execute_transaction wallet spread asked o in
            let commits = execute_transaction_commits wallet keeps spread asked o in
            elim (Sum-cases done.0) [
              | inr (e, g) ↦
                  let runs : execute_verified on_wallet id req o ≡ (inr e, done.1) =
                    rw (execute_verified, f, g) refl in
                  subst (λ p. Served req.address req.aad req.input id o p.0 p.1) (sym runs)
                    (subst (λ a. Executed wallet asked o (a, done.1)) g commits)
              | inl (r, g) ↦
                  let runs : execute_verified on_wallet id req o
                      ≡ (inl (record { id = id; address = r.address; output = r.output }), done.1) =
                    rw (execute_verified, f, g) refl in
                  subst (λ p. Served req.address req.aad req.input id o p.0 p.1) (sym runs)
                    (
                      bytes,
                      r,
                      verified req.address checked,
                      decoded req.input bytes f,
                      subst (λ a. Executed wallet asked o (a, done.1)) g commits,
                      refl,
                      refl,
                      refl,
                    )
            ]
      ]

  -- If signing keeps the nonce, a response to the execution of a service on a wallet has the identifier
  -- of the request, whose address is 42 bytes long and whose input could be decoded, and it is that of an
  -- execution of the decoded input by the wallet, for that address. After an error the consumed
  -- balance of the wallet is unchanged.
  pub execute_service_commits :
      KeepsNonce wallet
      → (id : ℕ) (req : ExecuteServiceRequest) (o : WalletOwner C)
      → Served req.address req.aad req.input id o
          (execute_service on_wallet id req o).0
          (execute_service on_wallet id req o).1
  unfolding execute_service
  execute_service_commits keeps id req o =
      elim (Option-cases (verify_address on_wallet req.address)) [
        | inl f ↦
            let runs : execute_service on_wallet id req o ≡ execute_verified on_wallet id req o =
              rw (execute_service, f) refl in
            subst (λ p. Served req.address req.aad req.input id o p.0 p.1) (sym runs)
              (execute_verified-Served keeps id req o f)
        | inr (e, f) ↦
            let runs : execute_service on_wallet id req o ≡ (inr e, o) =
              rw (execute_service, f) refl in
            subst (λ p. Served req.address req.aad req.input id o p.0 p.1) (sym runs) refl
      ]
