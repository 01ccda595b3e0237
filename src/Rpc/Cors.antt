-- ===== src/Rpc/Cors.antt =====
-- The preprocessors of a route, and HttpCorsPreProcessor (rpc/http.go). `cors` is the package rs/cors: the
-- calls that it makes on the response writer, and the request with which it calls the handler that it is
-- given, if it does. A request has a method; what else it carries is a value of the type R.
use mathlib.Core.Path.{subst}
use developer_gateway.Prelude.{
  ◌≡◌, refl, sym, ◌∙◌, Bool, true, false, inl, inr, Bool-cases, Option-cases, arith, Option, none,
  some, List, [], ◌∷◌, ◌++◌, String, ◌⊎◌, same, if◌then◌else◌,
}
use developer_gateway.Backend.Events.{RpcError}
use developer_gateway.Rpc.Http.{Handled, Call, write_header, serve_route}

pub record HttpRequest (R : Type 0) : Type 0 where
  pub method : String
  pub rest : R

-- `HttpPreProcessor`: the calls on the response writer, and the request that is processed further, if any.
abbrev PreProcessor : Type 0 → Type 0 → Type 0
PreProcessor B R = HttpRequest R → List (Call B) × Option (HttpRequest R)

module _ {B R : Type 0} where
  -- `HttpCorsPreProcessor.ServeHTTP`
  unfoldable serve_cors : (enabled : Bool) → (cors : PreProcessor B R) → PreProcessor B R
  serve_cors enabled cors req =
      let (calls, passed) = cors req in
      let checked = elim passed as (λ _. List (Call B) × Option (HttpRequest R)) [
        | none ↦ (calls, none)
        | some next ↦
            if same next.method "OPTIONS"
            then (calls ++ (write_header 200 ∷ []), none)
            else (calls, some next)
      ] in
      if enabled then checked else ([], some req)

  -- The loop of `HttpRoute.ServeHTTP`.
  unfoldable preprocess : List (PreProcessor B R) → PreProcessor B R
  preprocess [] req = ([], some req)
  preprocess (p ∷ ps) req =
      let (calls, passed) = p req in
      elim passed as (λ _. List (Call B) × Option (HttpRequest R)) [
        | none ↦ (calls, none)
        | some next ↦ let (more, last) = preprocess ps next in (calls ++ more, last)
      ]

  -- `HttpRoute.ServeHTTP`: a handler is given the request that the preprocessors leave.
  unfoldable serve_preprocessed :
      {S : Type 0}
      → (B ⊎ RpcError → Bool)
      → List (PreProcessor B R)
      → (HttpRequest R → List (String × (S → Handled B × S)))
      → HttpRequest R
      → S
      → List (Call B) × S
  serve_preprocessed {S = S} encodes ps hs req s =
      let (calls, passed) = preprocess ps req in
      elim passed as (λ _. List (Call B) × S) [
        | none ↦ (calls, s)
        | some next ↦
            let ((status, more), s') = serve_route encodes (hs next) next.method s in
            (calls ++ more, s')
      ]

  cors_passes :
      (cors : PreProcessor B R) (req next : HttpRequest R)
      → (serve_cors true cors req).1 ≡ some next
      → same next.method "OPTIONS" ≡ false
  unfolding serve_cors
  cors_passes cors req next passed = elim (Option-cases (cors req).1) [
    | inl e ↦
        let runs : (serve_cors true cors req).1 ≡ none = simp (serve_cors, e) refl in
        ground (arith, runs, passed)
    | inr (found, e) ↦ elim (Bool-cases (same found.method "OPTIONS")) [
      | inl f ↦
          let runs : (serve_cors true cors req).1 ≡ none = simp (serve_cors, e, f) refl in
          ground (arith, runs, passed)
      | inr f ↦
          let runs : (serve_cors true cors req).1 ≡ some found = simp (serve_cors, e, f) refl in
          let met : some found ≡ some next = sym runs ∙ passed in
          let equal : found ≡ next = cc in subst (λ r. same r.method "OPTIONS" ≡ false) equal f
    ]
  ]

  -- A request that the preprocessors let pass, the last of which is that of CORS, enabled, is no preflight
  -- request.
  last_is_cors :
      (ps : List (PreProcessor B R)) (cors : PreProcessor B R) (req next : HttpRequest R)
      → (preprocess (ps ++ (serve_cors true cors ∷ [])) req).1 ≡ some next
      → same next.method "OPTIONS" ≡ false
  unfolding preprocess
  last_is_cors [] cors req next passed = elim (Option-cases (serve_cors true cors req).1) [
    | inl e ↦
        let runs : (preprocess (serve_cors true cors ∷ []) req).1 ≡ none =
          simp (preprocess, e) refl in
        ground (arith, runs, passed)
    | inr (found, e) ↦
        let runs : (preprocess (serve_cors true cors ∷ []) req).1 ≡ some found =
          simp (preprocess, e) refl in
        cors_passes cors req next (e ∙ sym runs ∙ passed)
  ]
  last_is_cors (p ∷ ps) cors req next passed = elim (Option-cases (p req).1) [
    | inl e ↦
        let runs : (preprocess (p ∷ (ps ++ (serve_cors true cors ∷ []))) req).1 ≡ none =
          simp (preprocess, e) refl in
        ground (arith, runs, passed)
    | inr (found, e) ↦
        let runs : (preprocess (p ∷ (ps ++ (serve_cors true cors ∷ []))) req).1
            ≡ (preprocess (ps ++ (serve_cors true cors ∷ [])) found).1 =
          simp (preprocess, e) refl in
        last_is_cors ps cors found next (sym runs ∙ passed)
  ]

  -- If the last preprocessor is that of CORS, enabled, then a request leaves the state as it is, or what is
  -- handled is a request that is no preflight request, by the handler of its method.
  preflight_is_not_handled :
      {S : Type 0} (encodes : B ⊎ RpcError → Bool) (ps : List (PreProcessor B R))
      (cors : PreProcessor B R) (hs : HttpRequest R → List (String × (S → Handled B × S)))
      (req : HttpRequest R) (s : S)
      → ((serve_preprocessed encodes (ps ++ (serve_cors true cors ∷ [])) hs req s).1 ≡ s)
        ⊎ ((next : HttpRequest R) × (same next.method "OPTIONS" ≡ false)
            × ((serve_preprocessed encodes (ps ++ (serve_cors true cors ∷ [])) hs req s).1
                ≡ (serve_route encodes (hs next) next.method s).1))
  unfolding serve_preprocessed
  preflight_is_not_handled encodes ps cors hs req s =
      elim (Option-cases (preprocess (ps ++ (serve_cors true cors ∷ [])) req).1) [
        | inl e ↦ inl (simp (serve_preprocessed, e) refl)
        | inr (next, e) ↦
            inr (next, last_is_cors ps cors req next e, simp (serve_preprocessed, e) refl)
      ]
