-- ===== src/Rpc/Http.antt =====
-- `HttpRoute` and `HttpRouter` of rpc/http.go. A response is the list of the calls on the response
-- writer, without the header of the trace id. `encodes` tells whether the encoder takes a body. A
-- handler is run on a state `S`; its value is nil or a body.
use developer_gateway.Prelude.{
  ℕ, Bool, Option, none, some, List, [], ◌∷◌, String, ◌⊎◌, inl, inr, same, if◌then◌else◌,
}
use developer_gateway.Errors.{
  Category, internal_error, input_error, state_conflict, resource_limit_reached, not_found,
  not_implemented, authentication_error, Error, new,
}
use developer_gateway.Errors.Internal.{err_internal_error}
use developer_gateway.Backend.Events.{RpcError}

pub record HttpError : Type 0 where
  pub cause : Option Error
  pub status_code : ℕ

-- The types that `reportAnyError` tells apart; of any other error the text is kept.
pub data Failure : Type 0 where
  http_error : HttpError → Failure
  gateway_error : Error → Failure
  other_error : String → Failure

-- What a handler comes to. A panic carries the text of what it panics with.
pub data Handled (B : Type 0) : Type 0 where
  returned : Option B → Handled B
  failed : Failure → Handled B
  panicked : String → Handled B

-- A body is an answer of a handler or an error.
pub data Call (B : Type 0) : Type 0 where
  write_header : ℕ → Call B
  encode : B ⊎ RpcError → Call B

unfoldable pub category_status : Category → ℕ
category_status internal_error = 500
category_status input_error = 400
category_status state_conflict = 409
category_status resource_limit_reached = 429
category_status not_implemented = 501
category_status authentication_error = 403
category_status not_found = 404

unfoldable pub map_http_error : Error → HttpError
map_http_error e = record { cause = some e; status_code = category_status e.error_code.category }

unfoldable pub http_internal_server_error : Error → HttpError
http_internal_server_error e = record { cause = some e; status_code = 500 }

abbrev rpc_error : Error → RpcError
rpc_error e = record { error_code = e.error_code.code; description = e.error_code.desc }

-- The switch of `reportAnyError`.
unfoldable pub http_error_of : Failure → HttpError
http_error_of (http_error e) = e
http_error_of (gateway_error e) = map_http_error e
http_error_of (other_error text) = http_internal_server_error (new err_internal_error (some text))

module _ {B : Type 0} (encodes : B ⊎ RpcError → Bool) where
  -- The calls, with the status that is counted, or none for an error.
  unfoldable pub report_error : HttpError → Option ℕ × List (Call B)
  report_error e = elim e.cause [
    | none ↦ (some e.status_code, write_header e.status_code ∷ [])
    | some cause ↦ (
      if encodes (inr (rpc_error cause)) then some e.status_code else none,
      write_header e.status_code ∷ encode (inr (rpc_error cause)) ∷ [],
    )
  ]

  unfoldable pub report_any_error : Failure → Option ℕ × List (Call B)
  report_any_error f = report_error (http_error_of f)

  unfoldable pub report_success : Option B → Option ℕ × List (Call B)
  report_success none = (some 204, write_header 204 ∷ [])
  report_success (some body) =
      if encodes (inl body)
      then (some 200, encode (inl body) ∷ [])
      else (none, encode (inl body) ∷ write_header 500 ∷ [])

  abbrev pub Handlers : Type 0 → Type 0
  Handlers S = List (String × (S → Handled B × S))

  unfoldable pub find_handler : {S : Type 0} → Handlers S → String → Option (S → Handled B × S)
  find_handler [] method = none
  find_handler ((name, h) ∷ hs) method =
      let rest = find_handler hs method in if same name method then some h else rest

  -- What the end of `HttpRouter.ServeHTTP` makes of a handler's result: a panic that is recovered is
  -- answered like an error with a fixed text.
  unfoldable pub report : Handled B → Option ℕ × List (Call B)
  report (returned v) = report_success v
  report (failed f) = report_any_error f
  report (panicked text) = report_any_error (other_error "Unexpected error occurred.")

  -- `HttpRoute.serveHTTP`, with no preprocessor.
  unfoldable pub serve_route :
      {S : Type 0} → Handlers S → (method : String) → S → (Option ℕ × List (Call B)) × S
  serve_route hs method s = elim (find_handler hs method) [
    | none ↦ (report_error (record { cause = none; status_code = 405 }), s)
    | some h ↦ let (result, s') = h s in (report result, s')
  ]

  unfoldable pub find_route :
      {S : Type 0} → List (String × Handlers S) → (path : String) → Option (Handlers S)
  find_route [] path = none
  find_route ((name, hs) ∷ mux) path =
      let rest = find_route mux path in if same name path then some hs else rest

  -- `HttpRouter.ServeHTTP`
  unfoldable pub serve_router :
      {S : Type 0} → List (String × Handlers S) → (path method : String) → S → List (Call B) × S
  serve_router mux path method s = elim (find_route mux path) [
    | none ↦ ((report_error (record { cause = none; status_code = 404 })).1, s)
    | some hs ↦ let (reported, s') = serve_route hs method s in (reported.1, s')
  ]
