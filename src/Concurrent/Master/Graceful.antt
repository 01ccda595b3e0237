-- ===== src/Concurrent/Master/Graceful.antt =====
-- The life of a master (concurrent/master.go) whose workers end only after their channel is closed.
use mathlib.Core.Path.{subst}
use developer_gateway.Prelude.{
  ◌+◌, ◌≤◌, ◌≡◌, refl, sym, ◌∙◌, Bool, true, false, Option, List, [], ◌∷◌, String, ◌⊎◌, has, same→≡,
  same_refl, arith, Bool-cases, inl, inr,
}
use developer_gateway.Concurrent.Master.{
  Master, MasterRequest, worker_request, create_request, destroy_request, exists_request,
  execute_request, broadcast_request, new_master, create_worker, shutdown_worker, remove_worker,
  handle_worker_request, handle_request, Action, takes, notices, finishes, ends_itself, notice,
  step, put_key,
}
use developer_gateway.Concurrent.Master.Keys.{
  occurrences, has-occurrences, occurrences-has, occurrences-take_out, occurrences-append,
  occurs_never,
}
use developer_gateway.Concurrent.Master.Accounts.{IsAccounted, step-IsAccounted}

-- No worker ends by itself, and none is made for a key whose last worker is shutting down.
abbrev IsGraceful : (create_worker_on_request : Bool) → Action → Master → Type 0
IsGraceful on_request (takes (worker_request key) failure) m =
    (on_request ≡ false) ⊎ (has key m.shutdown_workers ≡ false)
IsGraceful on_request (takes (create_request key) failure) m = has key m.shutdown_workers ≡ false
IsGraceful on_request (ends_itself key) m = ⊥
IsGraceful on_request _ m = Unit

-- The states that a new master comes to by such actions.
pub data Reached (on_request : Bool) : Master → Type 0 where
  started : Reached on_request new_master
  stepped :
      (a : Action) (m : Master)
      → Reached on_request m
      → IsGraceful on_request a m
      → Reached on_request (step on_request a m)

-- Each active worker has a goroutine, each worker that is shutting down has one whose channel is
-- closed, or an event, and a key has one worker at most.
abbrev IsOrderly : Master → Type 0
IsOrderly m =
    (m.running ≡ m.workers)
    × ((k : String)
        → occurrences k m.closing + occurrences k m.done ≡ occurrences k m.shutdown_workers)
    × ((k : String) → occurrences k m.workers + occurrences k m.shutdown_workers ≤ 1)
    × (m.dropped ≡ 0)

create_worker-IsOrderly :
    (key : String) (failure : Option String) (m : Master)
    → has key m.shutdown_workers ≡ false
    → IsOrderly m
    → IsOrderly (create_worker key failure m).1
unfolding create_worker
create_worker-IsOrderly key failure m free (live, closed, once, none_lost) = (
  ground (arith, live),
  λ k. ground (arith, closed k),
  λ k. ground (
    arith,
    once k,
    same→≡ k key,
    occurrences-has key m.shutdown_workers free,
    occurrences-has key m.workers,
  ),
  ground (arith, none_lost),
)

shutdown_worker-IsOrderly :
    (key : String) (m : Master) → IsOrderly m → IsOrderly (shutdown_worker key m).1
unfolding shutdown_worker put_key
shutdown_worker-IsOrderly key m (live, closed, once, none_lost) = (
  ground (arith, live),
  λ k. ground (
    arith,
    live,
    closed k,
    once key,
    has-occurrences key m.workers,
    has-occurrences key m.shutdown_workers,
  ),
  λ k. ground (
    arith,
    once k,
    occurrences-take_out k key m.workers,
    once key,
    has-occurrences key m.workers,
    has-occurrences key m.shutdown_workers,
  ),
  ground (arith, none_lost),
)

-- What a request makes of the state.
master_after :
    (on_request : Bool) (req : MasterRequest) (failure : Option String) (m : Master)
    → ((handle_request on_request req failure m).1 ≡ m)
      ⊎ ((key : String) × ((handle_request on_request req failure m).1
            ≡ (create_worker key failure m).1)
          × (IsGraceful on_request (takes req failure) m → has key m.shutdown_workers ≡ false))
      ⊎ ((key : String) × ((handle_request on_request req failure m).1 ≡ (shutdown_worker key m).1))
unfolding handle_request handle_worker_request
master_after true (worker_request key) failure m = elim (Bool-cases (has key m.workers)) [
  | inl e ↦ inl (ground arith)
  | inr e ↦ inr (inl (key, ground arith, λ g. elim g [ inl n ↦ absurd (ground arith) | inr f ↦ f ]))
]
master_after false (worker_request key) failure m = inl (ground arith)
master_after on_request (create_request key) failure m = inr (inl (key, ground arith, λ g. g))
master_after on_request (destroy_request key) failure m = inr (inr (key, ground arith))
master_after on_request (exists_request key) failure m = inl refl
master_after on_request execute_request failure m = inl (ground arith)
master_after on_request broadcast_request failure m = inl (ground arith)

handle_request-IsOrderly :
    (on_request : Bool) (req : MasterRequest) (failure : Option String) (m : Master)
    → IsGraceful on_request (takes req failure) m
    → IsOrderly m
    → IsOrderly (handle_request on_request req failure m).1
handle_request-IsOrderly on_request req failure m g h =
    elim (master_after on_request req failure m) [
      | inl e ↦ subst IsOrderly (sym e) h
      | inr (inl (key, e, free)) ↦
          subst IsOrderly (sym e) (create_worker-IsOrderly key failure m (free g) h)
      | inr (inr (key, e)) ↦ subst IsOrderly (sym e) (shutdown_worker-IsOrderly key m h)
    ]

notice-IsOrderly :
    (keys : List String) (m : Master) → m.done ≡ keys → IsOrderly m → IsOrderly (notice keys m)
unfolding notice remove_worker
notice-IsOrderly [] m e h = h
notice-IsOrderly (key ∷ keys) m e (live, closed, once, none_lost) =
    let known : has key m.shutdown_workers ≡ true =
      ground (arith, e, closed key, occurrences-has key m.shutdown_workers, same_refl key) in
    rw (IsOrderly, notice, known)
      (
        live,
        λ k. ground (arith, e, closed k, occurrences-take_out k key m.shutdown_workers known),
        λ k. ground (arith, e, once k, occurrences-take_out k key m.shutdown_workers known),
        none_lost,
      )

step-IsOrderly :
    (on_request : Bool) (a : Action) (m : Master)
    → IsGraceful on_request a m
    → IsOrderly m
    → IsOrderly (step on_request a m)
unfolding step
step-IsOrderly on_request (takes req failure) m g h =
    handle_request-IsOrderly on_request req failure m g h
step-IsOrderly on_request notices m g h = notice-IsOrderly m.done m refl h
step-IsOrderly on_request (finishes key) m g (live, closed, once, none_lost) = (
  ground (arith, live),
  λ k. ground (
    arith,
    closed k,
    occurrences-take_out k key m.closing,
    occurrences-append k m.done (key ∷ []),
  ),
  λ k. ground (arith, once k),
  ground (arith, none_lost),
)
step-IsOrderly on_request (ends_itself key) m g h = absurd g

pub Reached-IsOrderly : (on_request : Bool) (m : Master) → Reached on_request m → IsOrderly m
Reached-IsOrderly on_request _ started = (refl, λ k. ground arith, λ k. ground arith, refl)
Reached-IsOrderly on_request _ (stepped a m r g) =
    step-IsOrderly on_request a m g (Reached-IsOrderly on_request m r)

Reached-IsAccounted : (on_request : Bool) (m : Master) → Reached on_request m → IsAccounted m
Reached-IsAccounted on_request _ started = refl
Reached-IsAccounted on_request _ (stepped a m r g) =
    step-IsAccounted on_request a m (Reached-IsAccounted on_request m r)

-- In a life in which no worker ends by itself and no worker is made for a key while another of the
-- key shuts down: if no goroutines of workers and no events are left, the counter that Stop waits
-- for is zero and both maps of workers are empty.
pub graceful_stop_ends :
    (on_request : Bool) (m : Master)
    → Reached on_request m
    → m.running ≡ []
    → m.closing ≡ []
    → m.done ≡ []
    → (m.worker_count ≡ 0) × (m.workers ≡ []) × (m.shutdown_workers ≡ [])
graceful_stop_ends on_request m r none_running none_closing none_done =
    let (live, closed, once, none_lost) = Reached-IsOrderly on_request m r in
    (
      ground (
        arith,
        Reached-IsAccounted on_request m r,
        none_running,
        none_closing,
        none_done,
        none_lost,
      ),
      sym live ∙ none_running,
      occurs_never m.shutdown_workers
          (λ k. sym (closed k) ∙ ground (arith, none_closing, none_done)),
    )
