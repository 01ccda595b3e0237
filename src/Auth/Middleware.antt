-- ===== src/Auth/Middleware.antt =====
-- `HttpMiddlewareAuth` of auth/core/http.go. `hash` stands for the hexadecimal text of SHA-256.
use Prim.Native.String
use Prim.Native.String.{count}
use text.Mathlib.TextLemmas.{append_inj, append_cancel_left}
use developer_gateway.Prelude.{
  ◌≡◌, refl, true, false, none, some, String, ◌⊎◌, inl, inr, if◌then◌else◌, same, Bool-cases,
  Sum-cases, Option-cases,
}
use developer_gateway.Errors.{new}
use developer_gateway.Errors.Request.{err_authenticate_request}
use developer_gateway.Rpc.Http.{Handled, failed, panicked, http_error}
use developer_gateway.Auth.{HttpRequest}

abbrev pub session_key : (hash : String → String) → (aad header : String) → String
session_key hash aad header = String.◌++◌ (hash aad) (String.◌++◌ ":" header)

module _ {B S : Type 0} (hash : String → String) (authenticate : HttpRequest → HttpRequest ⊎ String)
    (next : HttpRequest → S → Handled B × S) where
  abbrev forbidden : (text : String) → Handled B
  forbidden text = failed (
      http_error
        (record { cause = some (new err_authenticate_request (some text)); status_code = 403 }))

  -- The rest of `ServeHTTP` for an authenticated request.
  unfoldable pub serve_session : HttpRequest → S → Handled B × S
  serve_session req s =
      if same req.session_header ""
      then (forbidden "no X-OASIS-SESSION-KEY header provided", s)
      else elim req.aad [
        | none ↦ (panicked "Authenticate method did not set AAD in http.Request's context", s)
        | some aad ↦
            next (record req { session = some (session_key hash aad req.session_header) }) s
      ]

  unfoldable pub serve : HttpRequest → S → Handled B × S
  serve req s = elim (authenticate req) [
    | inr e ↦ (forbidden e, s)
    | inl req' ↦ serve_session req' s
  ]

  -- The answer of a refusal, with the text of its cause; the state stays as it is.
  abbrev pub Refused : (text : String) → (S → Handled B × S) → S → Type 0
  Refused text run s = run s ≡ (
    failed (
        http_error
          (record { cause = some (new err_authenticate_request (some text)); status_code = 403 })),
    s,
  )

  -- What a request comes to, of which the authenticator makes another.
  abbrev pub Admitted : (req req' : HttpRequest) → S → Type 0
  Admitted req req' s =
      ((same req'.session_header "" ≡ true)
        × Refused "no X-OASIS-SESSION-KEY header provided" (serve req) s)
      ⊎ ((same req'.session_header "" ≡ false)
          × (req'.aad ≡ none)
          × (serve req s
              ≡ (panicked "Authenticate method did not set AAD in http.Request's context", s)))
      ⊎ ((same req'.session_header "" ≡ false)
          × (aad : String) × (req'.aad ≡ some aad)
          × (serve req s
              ≡ next (record req' { session = some (session_key hash aad req'.session_header) }) s))

  -- A request that is not authenticated is answered with status 403 and the text of the authenticator; one
  -- that is, but has no session header, with status 403; one without an AAD by a panic. In these cases the
  -- state stays as it is. Every other request is run by the next handler, in the session made of its
  -- AAD and its header.
  pub serve_authenticates :
      (req : HttpRequest) (s : S)
      → ((e : String) × (authenticate req ≡ inr e) × Refused e (serve req) s)
        ⊎ ((req' : HttpRequest) × (authenticate req ≡ inl req') × Admitted req req' s)
  unfolding serve serve_session
  serve_authenticates req s = elim (Sum-cases (authenticate req)) [
    | inr (e, refused) ↦ inl (e, refused, rw (serve, refused) refl)
    | inl (req', accepted) ↦ inr (
      req',
      accepted,
      elim (Bool-cases (same req'.session_header "")) [
        | inl empty ↦ inl (empty, rw (serve, accepted, empty) refl)
        | inr named ↦ elim (Option-cases req'.aad) [
          | inl missing ↦ inr (inl (named, missing, rw (serve, accepted, named, missing) refl))
          | inr (aad, has_aad) ↦
              inr (inr (named, aad, has_aad, rw (serve, accepted, named, has_aad, has_aad) refl))
        ]
      ],
    )
  ]

-- If hashes have one length, two requests get the same session key only if their AADs have the same
-- hash and their session headers are the same.
session_key-injective :
    (hash : String → String)
    → ((a b : String) → count (hash a) ≡ count (hash b))
    → (aad aad' header header' : String)
    → session_key hash aad header ≡ session_key hash aad' header'
    → (hash aad ≡ hash aad') × (header ≡ header')
session_key-injective hash fixed aad aad' header header' e =
    let (hashes, rests) = append_inj e (fixed aad aad') in
    (hashes, append_cancel_left ":" header header' rests)
