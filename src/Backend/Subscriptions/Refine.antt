-- ===== src/Backend/Subscriptions/Refine.antt =====
-- `SubscriptionManager` (backend/core/subscription.go) implements the registry.
use developer_gateway.Prelude.{
  ◌%◌, ◌^◌, ◌≡◌, refl, sym, false, List, [], ◌∷◌, String, length, has, remove, same, IsDistinct,
  arith, same→≡, same_refl, has-remove_self, has-remove_ne, length-remove, IsDistinct-remove,
  Bool-cases, Bool, true, inl, inr, All, ap₂, ◌∙◌,
}
use developer_gateway.Backend.Queues.{Queues}
use developer_gateway.Backend.Subscriptions.{
  ManagerRequest, create_subscription, destroy_subscription, exists_subscription, stats_request,
  Manager, new_manager, create, destroy, remove_key, handle_request, run, incr_subscriptions,
  decr_subscriptions,
}
use developer_gateway.Backend.Subscriptions.Registry.{
  Registry, empty_registry, with_key, serve, serve_all,
}

pub record Represents (m : Manager) (r : Registry) : Type 0 where
  pub keys : (k : String) → has k m.subs ≡ r.is_active k
  pub distinct : IsDistinct m.subs
  pub size : length m.subs ≡ r.active
  pub count : m.metrics.subscription_count ≡ r.active % 2 ^ 64
  pub total : m.metrics.total_subscription_count ≡ r.created % 2 ^ 64

-- The key of a created subscription is not empty; `SubID` gives no empty text.
abbrev IsNamed : ManagerRequest → Type 0
IsNamed (create_subscription key) = same key "" ≡ false
IsNamed _ = Unit

new_manager-Represents : Represents new_manager empty_registry
unfolding new_manager empty_registry
new_manager-Represents = record {
  keys = λ k. refl;
  distinct = tt;
  size = refl;
  count = refl;
  total = refl;
}

has-add :
    (key : String) (xs : List String) (f : String → Bool)
    → ((k : String) → has k xs ≡ f k)
    → (k : String) → has k (key ∷ xs) ≡ with_key key true f k
unfolding with_key
has-add key xs f agrees k = ground (arith, agrees k, same→≡ k key, same→≡ key k, same_refl k)

has-take_away :
    (key : String) (xs : List String) (f : String → Bool)
    → ((k : String) → has k xs ≡ f k)
    → (k : String) → has k (remove key xs) ≡ with_key key false f k
unfolding with_key
has-take_away key xs f agrees k =
    ground (arith, agrees k, same→≡ key k, has-remove_self key xs, has-remove_ne k key xs)

module _ {Q : Type 0} (queues : Queues Q) where
  -- What one request does, against the registry.
  abbrev Agrees : ManagerRequest → Manager → Q → Registry → Type 0
  Agrees req m q r =
      ((handle_request queues req (m, q)).0 ≡ (serve req r).0)
      × Represents (handle_request queues req (m, q)).1.0 (serve req r).1

  create_refines :
      (key : String) (m : Manager) (q : Q) (r : Registry)
      → same key "" ≡ false
      → Represents m r
      → Agrees (create_subscription key) m q r
  unfolding handle_request create serve incr_subscriptions
  create_refines key m q r named rep = elim (Bool-cases (has key m.subs)) [
    | inl e ↦ rw (e, sym (rep.keys key) ∙ e) (refl, rep)
    | inr e ↦
        rw (e, sym (rep.keys key) ∙ e, named)
          (
            refl,
            record {
              keys = has-add key m.subs r.is_active rep.keys;
              distinct = (e, rep.distinct);
              size = ground (arith, rep.size);
              count = omega (arith, rep.count);
              total = omega (arith, rep.total);
            },
          )
  ]

  destroy_refines :
      (key : String) (m : Manager) (q : Q) (r : Registry)
      → Represents m r
      → Agrees (destroy_subscription key) m q r
  unfolding handle_request destroy serve decr_subscriptions remove_key
  destroy_refines key m q r rep = elim (Bool-cases (has key m.subs)) [
    | inl e ↦
        let shorter = length-remove key m.subs rep.distinct e in
        rw (e, sym (rep.keys key) ∙ e)
          (
            refl,
            record {
              keys = has-take_away key m.subs r.is_active rep.keys;
              distinct = IsDistinct-remove key m.subs rep.distinct;
              size = omega (arith, rep.size, shorter);
              count = omega (arith, rep.count, rep.size, shorter);
              total = rep.total;
            },
          )
    | inr e ↦ rw (e, sym (rep.keys key) ∙ e) (refl, rep)
  ]

  pub request_refines :
      (req : ManagerRequest) (m : Manager) (q : Q) (r : Registry)
      → IsNamed req
      → Represents m r
      → Agrees req m q r
  unfolding handle_request serve
  request_refines (create_subscription key) m q r named rep = create_refines key m q r named rep
  request_refines (destroy_subscription key) m q r named rep = destroy_refines key m q r rep
  request_refines (exists_subscription key) m q r named rep = (rw (rep.keys key) refl, rep)
  request_refines stats_request m q r named rep = (rw (rep.count, rep.total, rep.size) refl, rep)

  requests_refine :
      (reqs : List ManagerRequest) (m : Manager) (q : Q) (r : Registry)
      → All IsNamed reqs
      → Represents m r
      → (run queues reqs (m, q)).0 ≡ serve_all reqs r
  unfolding run serve_all
  requests_refine [] m q r named rep = refl
  requests_refine (req ∷ reqs) m q r named rep =
      let step = request_refines req m q r named.0 rep in
      ap₂ ◌∷◌ step.0 (requests_refine reqs _ _ _ named.1 step.1)

-- A manager answers any list of requests from its start on, none of which creates a subscription
-- with an empty key, as the registry does: a key exists from its creation to its destruction, a
-- second creation and a destruction of what is not there are errors, and the two counts that
-- `Stats` reports of the current subscriptions are the same.
pub manager_refines :
    {Q : Type 0} (queues : Queues Q) (reqs : List ManagerRequest) (q : Q)
    → All IsNamed reqs
    → (run queues reqs (new_manager, q)).0 ≡ serve_all reqs empty_registry
manager_refines queues reqs q named =
    requests_refine queues reqs new_manager q empty_registry named new_manager-Represents
