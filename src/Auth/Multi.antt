-- ===== src/Auth/Multi.antt =====
-- `MultiAuth` of auth/core/multiauth.go: several authenticators in an order.
use developer_gateway.Prelude.{
  ℕ, suc, ◌+◌, ◌≡◌, refl, ◌∙◌, sym, ap, Option, none, some, List, [], ◌∷◌, ◌++◌, length, get_elem?,
  String, ◌⊎◌, inl, inr, arith, get_elem?-append,
}
use mathlib.Core.List.{append_assoc, append-nil}
use developer_gateway.Auth.{Auth, AuthRequest, HttpRequest}

-- The loop of `Authenticate`, from the authenticator with the number n on.
unfoldable pub authenticate_from :
    (n : ℕ) → List Auth → HttpRequest → (errs : List String) → HttpRequest ⊎ List String
authenticate_from n [] req errs = inr errs
authenticate_from n (a ∷ auths) req errs = elim (a.authenticate req) [
  | inl req' ↦ inl (record req' { authenticator = some n })
  | inr e ↦ authenticate_from (suc n) auths req (errs ++ (e ∷ []))
]

unfoldable pub authenticate : List Auth → HttpRequest → HttpRequest ⊎ List String
authenticate auths req = authenticate_from 0 auths req []

unfoldable pub verify : List Auth → HttpRequest → AuthRequest → Option String
verify auths req data' = elim req.authenticator [
  | none ↦ some "request without auth cannot be verified"
  | some n ↦ elim (get_elem? auths n) [
    | none ↦ some "request without auth cannot be verified"
    | some a ↦ a.verify req data'
  ]
]

-- The authenticators refuse the request with these errors.
abbrev AreRejections : HttpRequest → List Auth → List String → Type 0
AreRejections req [] [] = Unit
AreRejections req (a ∷ auths) (e ∷ es) = (a.authenticate req ≡ inr e) × AreRejections req auths es
AreRejections req _ _ = ⊥

authenticate_from-refused :
    (n : ℕ) (pre post : List Auth) (req : HttpRequest) (es errs : List String)
    → AreRejections req pre es
    → authenticate_from n (pre ++ post) req errs
      ≡ authenticate_from (n + length pre) post req (errs ++ es)
unfolding authenticate_from
authenticate_from-refused n [] post req [] errs h =
    let here : n + 0 ≡ n = omega arith in rw (append-nil errs, here) refl
authenticate_from-refused n [] post req (e ∷ es) errs h = absurd h
authenticate_from-refused n (a ∷ pre) post req [] errs h = absurd h
authenticate_from-refused n (a ∷ pre) post req (e ∷ es) errs h =
    let place : suc n + length pre ≡ n + suc (length pre) = omega arith in
    rw (authenticate_from, h.0)
      (authenticate_from-refused (suc n) pre post req es (errs ++ (e ∷ [])) h.1
        ∙ rw (append_assoc errs (e ∷ []) es, place) refl)

-- The first authenticator that accepts decides: if those before it refuse the request, the request
-- that it makes is authenticated, and it is the one that verifies later on.
first_accepting_decides :
    (pre post : List Auth) (a : Auth) (req req' : HttpRequest) (es : List String)
    (data' : AuthRequest)
    → AreRejections req pre es
    → a.authenticate req ≡ inl req'
    → (authenticate (pre ++ a ∷ post) req ≡ inl (record req' { authenticator = some (length pre) }))
      × (verify (pre ++ a ∷ post) (record req' { authenticator = some (length pre) }) data'
          ≡ a.verify (record req' { authenticator = some (length pre) }) data')
unfolding authenticate verify authenticate_from
first_accepting_decides pre post a req req' es data' refused accepted =
    let from_zero : length pre + 0 ≡ length pre = omega arith in
    let place : get_elem? (pre ++ a ∷ post) (length pre) ≡ some a =
      ap (get_elem? (pre ++ a ∷ post)) (sym from_zero) ∙ get_elem?-append pre (a ∷ post) 0 in
    let number : 0 + length pre ≡ length pre = omega arith in
    (
      authenticate_from-refused 0 pre (a ∷ post) req es [] refused
          ∙ rw (authenticate_from, accepted, number) refl,
      rw (verify, place) refl,
    )

-- If all authenticators refuse the request, the errors of all of them are returned, in order.
all_refuse :
    (auths : List Auth) (req : HttpRequest) (es : List String)
    → AreRejections req auths es
    → authenticate auths req ≡ inr es
unfolding authenticate authenticate_from
all_refuse auths req es refused =
    ap (λ l. authenticate_from 0 l req []) (sym (append-nil auths))
    ∙ authenticate_from-refused 0 auths [] req es [] refused
