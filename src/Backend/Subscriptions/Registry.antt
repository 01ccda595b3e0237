-- ===== src/Backend/Subscriptions/Registry.antt =====
-- What the clients of `SubscriptionManager` (backend/core/subscription.go) rely on: a set of active
-- keys, how many there are, and how many were ever created.
use developer_gateway.Prelude.{
  ℕ, ◌+◌, ◌-◌, ◌%◌, ◌^◌, Bool, true, false, some, List, [], ◌∷◌, String, if◌then◌else◌, same,
}
use developer_gateway.Errors.{Outcome, ok, err, new}
use developer_gateway.Errors.Request.{err_subscription_already_exists, err_subscription_not_found}
use developer_gateway.Backend.Subscriptions.{
  ManagerRequest, create_subscription, destroy_subscription, exists_subscription, stats_request,
  Answer, done, found, counts,
}

pub record Registry : Type 0 where
  pub is_active : String → Bool
  pub active : ℕ
  pub created : ℕ

unfoldable pub empty_registry : Registry
empty_registry = record { is_active = λ k. false; active = 0; created = 0 }

unfoldable pub with_key : (key : String) → Bool → (String → Bool) → String → Bool
with_key key b f j = if same key j then b else f j

unfoldable pub serve : ManagerRequest → Registry → Outcome Answer × Registry
serve (create_subscription key) r =
    if r.is_active key
    then (
      err (
          new err_subscription_already_exists
            (some "attempt to create subscription with existing key")),
      r,
    )
    else (
      ok done,
      record {
        is_active = with_key key true r.is_active;
        active = r.active + 1;
        created = r.created + 1;
      },
    )
serve (destroy_subscription key) r =
    if r.is_active key
    then (ok done, record r { is_active = with_key key false r.is_active; active = r.active - 1 })
    else (
      err (
          new err_subscription_not_found
            (some "attempt to destroy subscription that does not exist")),
      r,
    )
serve (exists_subscription key) r = (ok (found (r.is_active key)), r)
serve stats_request r =
    (ok (counts (r.active % 2 ^ 64) (r.created % 2 ^ 64) (r.active % 2 ^ 64)), r)

unfoldable pub serve_all : List ManagerRequest → Registry → List (Outcome Answer)
serve_all [] r = []
serve_all (q ∷ qs) r = let (out, r') = serve q r in out ∷ serve_all qs r'
