-- ===== src/Rpc/Json.antt =====
-- `HttpJsonHandler` of rpc/http.go: the checks of a request with a JSON body, before its handler is run.
-- `decode` is what encoding/json makes of an empty object and a body that is read with a limit
-- (rpc/decoder.go), or none if it fails; `factory` is
-- the empty object that the factory of a handler creates, or none if the handler expects no body.
use developer_gateway.Prelude.{
  ℕ, ◌^◌, ◌≤◌, ◌≡◌, refl, true, false, Option, none, some, List, String, ◌⊎◌, inl, inr, ltb, ◌==◌,
  same, ◌&&◌, if◌then◌else◌, Bool-cases, Option-cases, arith,
}
use developer_gateway.Errors.{Error, input_error, new}
use developer_gateway.Errors.Request.{
  err_http_content_length_missing, err_http_content_length_limit,
  err_http_content_type_application_json, err_deserialize_json,
}
use developer_gateway.Rpc.Http.{Handled, failed, gateway_error}

-- What is used of the request; no content length is a negative one.
pub record JsonRequest : Type 0 where
  pub content_length : Option ℕ
  pub content_type : String
  pub body : List ℕ

-- The limit that `NewHttpJsonHandler` sets.
abbrev limit_or_default : ℕ → ℕ
limit_or_default limit = if limit == 0 then 2 ^ 14 else limit

module _ {A B S : Type 0} (limit : ℕ) (decode : (limit : ℕ) → A → List ℕ → Option A)
    (factory : Option A) (handle : Option A → S → Handled B × S) where
  abbrev refuse : Error → S → Handled B × S
  refuse e s = (failed (gateway_error e), s)

  -- The part from the creation of the body on.
  unfoldable pub serve_body : (length : ℕ) → JsonRequest → S → Handled B × S
  serve_body length req s =
      let asked = elim factory as (λ _. Handled B × S) [
        | none ↦ refuse (new err_deserialize_json none) s
        | some empty ↦ elim (decode length empty req.body) as (λ _. Handled B × S) [
          | none ↦ refuse (new err_deserialize_json none) s
          | some body ↦ handle (some body) s
        ]
      ] in
      let given = handle factory s in if ltb 0 length then asked else given

  unfoldable pub serve_json : JsonRequest → S → Handled B × S
  serve_json req s = elim req.content_length [
    | none ↦ refuse (new err_http_content_length_missing none) s
    | some n ↦
        let served = serve_body n req s in
        if ltb (limit_or_default limit) n
        then refuse (new err_http_content_length_limit none) s
        else if ltb 0 n && (if same req.content_type "application/json" then false else true)
        then refuse (new err_http_content_type_application_json none) s
        else served
  ]

  -- An input error is reported, and the state stays as it is.
  abbrev pub IsRejected : JsonRequest → S → Type 0
  IsRejected req s =
      (e : Error) × (serve_json req s ≡ refuse e s) × (e.error_code.category ≡ input_error)

  -- The handler is run on the decoded body, which has at most the limit, and the type of JSON, or on what
  -- its factory creates, when its length is zero.
  abbrev pub IsHandled : JsonRequest → S → Type 0
  IsHandled req s =
      (n : ℕ) × (body : Option A) × (req.content_length ≡ some n)
      × (n ≤ limit_or_default limit)
      × (serve_json req s ≡ handle body s)
      × (((n ≡ 0) × (body ≡ factory))
          ⊎ ((same req.content_type "application/json" ≡ true)
              × (empty : A) × (factory ≡ some empty)
              × (decode n empty req.body ≡ body)))

  -- A request is rejected with an input error, and the state stays as it is, or its content length is known
  -- and at most the limit, and the handler is run: on what its factory creates, if the length is zero, or else on
  -- what its body, with the content type of JSON, decodes to, read with that length as the limit.
  pub json_requests_are_checked : (req : JsonRequest) (s : S) → IsRejected req s ⊎ IsHandled req s
  unfolding serve_json serve_body
  json_requests_are_checked req s = elim (Option-cases req.content_length) [
    | inl e ↦ inl (new err_http_content_length_missing none, simp (serve_json, e) refl, refl)
    | inr (n, e) ↦ elim (Bool-cases (ltb (limit_or_default limit) n)) [
      | inl f ↦ inl (new err_http_content_length_limit none, simp (serve_json, e, f) refl, refl)
      | inr f ↦
          let small : n ≤ limit_or_default limit = ground (arith, f) in
          elim (Bool-cases (ltb 0 n)) [
            | inr g ↦ inr (
              n,
              factory,
              e,
              small,
              simp (serve_json, e, f, serve_body, g) refl,
              inl (ground (arith, g), refl),
            )
            | inl g ↦ elim (Bool-cases (same req.content_type "application/json")) [
              | inr h ↦ inl (
                new err_http_content_type_application_json none,
                simp (serve_json, e, f, g, h) refl,
                refl,
              )
              | inl h ↦ elim (Option-cases factory) [
                | inl i ↦ inl (
                  new err_deserialize_json none,
                  simp (serve_json, e, f, g, h, serve_body, i) refl,
                  refl,
                )
                | inr (empty, i) ↦ elim (Option-cases (decode n empty req.body)) [
                  | inl j ↦ inl (
                    new err_deserialize_json none,
                    simp (serve_json, e, f, g, h, serve_body, i, j) refl,
                    refl,
                  )
                  | inr (body, j) ↦ inr (
                    n,
                    some body,
                    e,
                    small,
                    simp (serve_json, e, f, g, h, serve_body, i, j) refl,
                    inr (h, empty, i, j),
                  )
                ]
              ]
            ]
          ]
    ]
  ]
