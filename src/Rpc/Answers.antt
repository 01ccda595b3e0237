-- ===== src/Rpc/Answers.antt =====
-- What the answers of rpc/http.go tell a client.
use developer_gateway.Prelude.{
  ℕ, ◌≡◌, refl, ◌≤◌, ◌<◌, Bool, true, false, not, ◌&&◌, ◌||◌, ◌==◌, ltb, if◌then◌else◌, Option,
  none, some, List, [], ◌∷◌, String, ◌⊎◌, inl, inr, arith, Bool-cases, Option-cases, get_elem?,
  same, zero, suc,
}
use mathlib.Core.Path.{subst}
use developer_gateway.Errors.{
  ErrorCode, Error, new, Category, internal_error, input_error, state_conflict,
  resource_limit_reached, not_found, not_implemented, authentication_error,
}
use developer_gateway.Errors.Table.{declared_codes}
use developer_gateway.Backend.Events.{RpcError}
use developer_gateway.Rpc.Http.{
  http_error, gateway_error, other_error, Handled, returned, failed, panicked, Call, write_header,
  encode, category_status, map_http_error, http_error_of, report_error, report_any_error,
  report_success, report, find_route, find_handler, serve_route, serve_router,
  http_internal_server_error,
}

-- An error without the text of its cause.
abbrev redacted : Error → Error
redacted e = new e.error_code none

abbrev redacted_cause : Option Error → Option Error
redacted_cause none = none
redacted_cause (some e) = some (redacted e)

-- A result without the texts that are for the operator.
abbrev redact : {B : Type 0} → Handled B → Handled B
redact (returned v) = returned v
redact (failed (http_error e)) = failed (http_error (record e { cause = redacted_cause e.cause }))
redact (failed (gateway_error e)) = failed (gateway_error (redacted e))
redact (failed (other_error text)) = failed (other_error "")
redact (panicked text) = panicked ""

module _ {B S : Type 0} where
  abbrev redact_handlers : List (String × (S → Handled B × S)) → List (String × (S → Handled B × S))
  redact_handlers [] = []
  redact_handlers ((name, h) ∷ hs) = (name, λ s. (redact (h s).0, (h s).1)) ∷ redact_handlers hs

  abbrev pub redact_mux :
      List (String × List (String × (S → Handled B × S)))
      → List (String × List (String × (S → Handled B × S)))
  redact_mux [] = []
  redact_mux ((name, hs) ∷ mux) = (name, redact_handlers hs) ∷ redact_mux mux

module _ {B : Type 0} (encodes : B ⊎ RpcError → Bool) where
  report-redact : (r : Handled B) → report encodes (redact r) ≡ report encodes r
  unfolding report report_any_error http_error_of map_http_error http_internal_server_error
      report_error
  report-redact (returned v) = refl
  report-redact (failed (http_error e)) = elim (Option-cases e.cause) [
    | inl h ↦ rw h refl
    | inr (c, h) ↦ rw h refl
  ]
  report-redact (failed (gateway_error e)) = refl
  report-redact (failed (other_error text)) = refl
  report-redact (panicked text) = refl

  serve_route-redact_handlers :
      {S : Type 0} (hs : List (String × (S → Handled B × S))) (method : String) (s : S)
      → serve_route encodes (redact_handlers hs) method s ≡ serve_route encodes hs method s
  unfolding serve_route find_handler
  serve_route-redact_handlers [] method s = refl
  serve_route-redact_handlers ((name, h) ∷ hs) method s = elim (Bool-cases (same name method)) [
    | inl e ↦ rw (serve_route, find_handler, e, report-redact (h s).0) refl
    | inr e ↦ rw (serve_route, find_handler, e) (serve_route-redact_handlers hs method s)
  ]

  -- The router makes the same calls, and leaves the same state, whatever the texts are that the
  -- handlers panic with or give as the cause of an error: a client sees of an error only its code and
  -- its description.
  pub router_hides_causes :
      {S : Type 0} (mux : List (String × List (String × (S → Handled B × S))))
      (path method : String) (s : S)
      → serve_router encodes (redact_mux mux) path method s ≡ serve_router encodes mux path method s
  unfolding serve_router find_route
  router_hides_causes [] path method s = refl
  router_hides_causes ((name, hs) ∷ mux) path method s = elim (Bool-cases (same name path)) [
    | inl e ↦ rw (serve_router, find_route, e, serve_route-redact_handlers hs method s) refl
    | inr e ↦ rw (serve_router, find_route, e) (router_hides_causes mux path method s)
  ]

  -- The status of a response: that of the first header written, 200 if a body comes before. A body
  -- that the encoder refuses is not written.
  abbrev pub first_status : List (Call B) → Option ℕ
  first_status [] = none
  first_status (write_header n ∷ calls) = some n
  first_status (encode body ∷ calls) =
      let rest = first_status calls in if encodes body then some 200 else rest

  -- The handler succeeds and what it returns can be encoded.
  abbrev is_success : Handled B → Bool
  is_success (returned none) = true
  is_success (returned (some v)) = encodes (inl v)
  is_success (failed f) = false
  is_success (panicked text) = false

  -- A handler that makes no HttpError of its own.
  abbrev pub IsPlain : Handled B → Type 0
  IsPlain (failed (http_error e)) = ⊥
  IsPlain _ = Unit

  category_status_bounds : (c : Category) → (300 ≤ category_status c) × (category_status c < 600)
  unfolding category_status
  category_status_bounds internal_error = (omega arith, omega arith)
  category_status_bounds input_error = (omega arith, omega arith)
  category_status_bounds state_conflict = (omega arith, omega arith)
  category_status_bounds resource_limit_reached = (omega arith, omega arith)
  category_status_bounds not_found = (omega arith, omega arith)
  category_status_bounds not_implemented = (omega arith, omega arith)
  category_status_bounds authentication_error = (omega arith, omega arith)

  -- For a handler that makes no HttpError of its own, the response has a status below 600, and it is
  -- below 300 exactly if the handler succeeded and what it returns can be encoded.
  pub report_tells_success :
      (r : Handled B)
      → IsPlain r
      → (n : ℕ) × (first_status (report encodes r).1 ≡ some n)
        × (ltb n 300 ≡ is_success r)
        × (n < 600)
  unfolding report report_any_error http_error_of map_http_error http_internal_server_error
      report_error report_success
  report_tells_success (returned none) p = (204, refl, refl, omega arith)
  report_tells_success (returned (some v)) p = elim (Bool-cases (encodes (inl v))) [
    | inl e ↦ (200, rw (e, e) refl, rw e refl, omega arith)
    | inr e ↦ (500, rw (e, e) refl, rw e refl, omega arith)
  ]
  report_tells_success (failed (http_error e)) p = absurd p
  report_tells_success (failed (gateway_error e)) p =
      let bounds = category_status_bounds e.error_code.category in
      (category_status e.error_code.category, refl, ground (arith, bounds), bounds.1)
  report_tells_success (failed (other_error text)) p = (500, refl, refl, omega arith)
  report_tells_success (panicked text) p = (500, refl, refl, omega arith)

-- The codes of one number have one status.
abbrev agree : ErrorCode → ErrorCode → Bool
agree a b = not (a.code == b.code) || (category_status a.category == category_status b.category)

abbrev agree_with : ErrorCode → List ErrorCode → Bool
agree_with a [] = true
agree_with a (b ∷ bs) = agree a b && agree_with a bs

abbrev all_agree : List ErrorCode → List ErrorCode → Bool
all_agree [] bs = true
all_agree (a ∷ as') bs = agree_with a bs && all_agree as' bs

and_left : (a b : Bool) → a && b ≡ true → a ≡ true
and_left a b h = ground arith

and_right : (a b : Bool) → a && b ≡ true → b ≡ true
and_right a b h = ground arith

agree_with-get_elem? :
    (a b : ErrorCode) (bs : List ErrorCode) (j : ℕ)
    → agree_with a bs ≡ true
    → get_elem? bs j ≡ some b
    → agree a b ≡ true
agree_with-get_elem? a b [] j h e = absurd (ground arith)
agree_with-get_elem? a b (x ∷ bs) zero h e =
    let found : x ≡ b = cc in
    subst (λ y. agree a y ≡ true) found (and_left (agree a x) (agree_with a bs) h)
agree_with-get_elem? a b (x ∷ bs) (suc j) h e =
    agree_with-get_elem? a b bs j (and_right (agree a x) (agree_with a bs) h) e

all_agree-get_elem? :
    (a b : ErrorCode) (as' bs : List ErrorCode) (i j : ℕ)
    → all_agree as' bs ≡ true
    → get_elem? as' i ≡ some a
    → get_elem? bs j ≡ some b
    → agree a b ≡ true
all_agree-get_elem? a b [] bs i j h e f = absurd (ground arith)
all_agree-get_elem? a b (x ∷ as') bs zero j h e f =
    let found : x ≡ a = cc in
    agree_with-get_elem? a b bs j
      (subst (λ y. agree_with y bs ≡ true) found (and_left (agree_with x bs) (all_agree as' bs) h))
      f
all_agree-get_elem? a b (x ∷ as') bs (suc i) j h e f =
    all_agree-get_elem? a b as' bs i j (and_right (agree_with x bs) (all_agree as' bs) h) e f

declared_agree : all_agree declared_codes declared_codes ≡ true
unfolding category_status
declared_agree = refl

implied : (x y u v : ℕ) → not (x == y) || (u == v) ≡ true → x ≡ y → u ≡ v
implied x y u v h e = ground arith

-- Two declared error codes with the same number are answered with the same HTTP status.
code_determines_status :
    (i j : ℕ) (a b : ErrorCode)
    → get_elem? declared_codes i ≡ some a
    → get_elem? declared_codes j ≡ some b
    → a.code ≡ b.code
    → (map_http_error (new a none)).status_code ≡ (map_http_error (new b none)).status_code
unfolding map_http_error
code_determines_status i j a b e f same_code =
    implied a.code b.code (category_status a.category) (category_status b.category)
      (all_agree-get_elem? a b declared_codes declared_codes i j declared_agree e f) same_code
