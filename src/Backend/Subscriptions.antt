-- ===== src/Backend/Subscriptions.antt =====
-- `SubscriptionManager` of backend/core/subscription.go. Its goroutine takes one request after
-- another. `subs` has the keys of the map of that name. A running subscription is a goroutine of
-- its own, which `Stop` waits for; it ends with a removal of the queue of its key.
pub mod Registry
pub mod Refine
pub mod Delivery
use developer_gateway.Prelude.{
  ℕ, ◌+◌, ◌-◌, ◌%◌, ◌^◌, Bool, true, false, Option, none, some, List, [], ◌∷◌, String, length,
  if◌then◌else◌, has, remove, same, ◌⊎◌,
}
use developer_gateway.Errors.{Outcome, ok, err, panic, new}
use developer_gateway.Errors.Request.{err_subscription_already_exists, err_subscription_not_found}
use developer_gateway.Backend.Queues.{Queues}

pub record SubscriptionMetrics : Type 0 where
  pub subscription_count : ℕ
  pub subscription_current : ℕ
  pub total_subscription_count : ℕ

pub record Manager : Type 0 where
  pub subs : List String
  pub metrics : SubscriptionMetrics

-- `NewSubscriptionManager`
unfoldable pub new_manager : Manager
new_manager = record {
  subs = [];
  metrics = record {
    subscription_count = 0;
    subscription_current = 0;
    total_subscription_count = 0;
  };
}

unfoldable pub incr_subscriptions : SubscriptionMetrics → SubscriptionMetrics
incr_subscriptions m = record m {
  subscription_count = (m.subscription_count + 1) % 2 ^ 64;
  total_subscription_count = (m.total_subscription_count + 1) % 2 ^ 64;
}

unfoldable pub decr_subscriptions : SubscriptionMetrics → SubscriptionMetrics
decr_subscriptions m = record m {
  subscription_count = (m.subscription_count + 2 ^ 64 - 1) % 2 ^ 64;
}

-- The requests, without the channels that the answers are sent on.
pub data ManagerRequest : Type 0 where
  create_subscription destroy_subscription exists_subscription : String → ManagerRequest
  stats_request : ManagerRequest

-- What is sent on that channel.
pub data Answer : Type 0 where
  done : Answer
  found : Bool → Answer
  counts : (subscription_count total_subscription_count current_subscriptions : ℕ) → Answer

-- `newSubscription` panics on an empty key, before the map is written.
unfoldable pub create : Manager → (key : String) → Outcome Answer × Manager
create m key =
    if has key m.subs
    then (
      err (
          new err_subscription_already_exists
            (some "attempt to create subscription with existing key")),
      m,
    )
    else if same key ""
    then (panic, m)
    else (ok done, record { subs = key ∷ m.subs; metrics = incr_subscriptions m.metrics })

-- `SubscriptionManager.remove`; a key that is not there is only logged.
unfoldable pub remove_key : Manager → (key : String) → Manager
remove_key m key = record m { subs = remove key m.subs }

module _ {Q : Type 0} (queues : Queues Q) where
  unfoldable pub destroy : Manager → (key : String) → Q → Outcome Answer × (Manager × Q)
  destroy m key q =
      let removed = remove_key m key in
      if has key m.subs
      then (
        ok done,
        (
          record removed { metrics = decr_subscriptions removed.metrics },
          (queues.remove_queue key q).1,
        ),
      )
      else (
        err (
            new err_subscription_not_found
              (some "attempt to destroy subscription that does not exist")),
        (m, q),
      )

  -- `handleRequest`, with `exists` and `stats`.
  unfoldable pub handle_request : ManagerRequest → Manager × Q → Outcome Answer × (Manager × Q)
  handle_request (create_subscription key) (m, q) = let (out, m') = create m key in (out, (m', q))
  handle_request (destroy_subscription key) (m, q) = destroy m key q
  handle_request (exists_subscription key) (m, q) = (ok (found (has key m.subs)), (m, q))
  handle_request stats_request (m, q) = (
    ok (
        counts m.metrics.subscription_count m.metrics.total_subscription_count
          (length m.subs % 2 ^ 64)),
    (m, q),
  )

  -- `startLoop` on a list of requests.
  unfoldable pub run : List ManagerRequest → Manager × Q → List (Outcome Answer) × (Manager × Q)
  run [] s = ([], s)
  run (r ∷ rs) s =
      let (out, s') = handle_request r s in let (outs, s'') = run rs s' in (out ∷ outs, s'')
