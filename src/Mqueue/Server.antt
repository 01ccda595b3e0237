-- ===== src/Mqueue/Server.antt =====
-- The server of mqueue/mem/server.go: a message handler for each key, kept by the workers of
-- `concurrent.Master`, which makes a worker for a key on the first request. The workers are a list of
-- keys with their windows. Each request is here a step of its worker.
use developer_gateway.Prelude.{
  ◌≡◌, refl, false, none, some, List, [], ◌∷◌, String, if◌then◌else◌, same, same→≡, same_refl,
  arith, Bool-cases, inl, inr, ap, Option, ◌∙◌,
}
use mathlib.Core.Path.{subst}
use developer_gateway.Errors.{Outcome}
use developer_gateway.Mqueue.{Request, Response}
use developer_gateway.Mqueue.Window.{Window}
use developer_gateway.Mqueue.Handler.{new_message_handler, handle_request, run}

-- `m.workers[key]`
unfoldable pub find_worker : String → List (String × Window) → Option Window
find_worker key [] = none
find_worker key ((k, w) ∷ ws) = let rest = find_worker key ws in if same key k then some w else rest

-- The handler of a key, made when it is missing.
unfoldable pub worker_of : String → List (String × Window) → Window
worker_of key ws = elim (find_worker key ws) [ none ↦ new_message_handler | some w ↦ w ]

unfoldable pub put_worker : String → Window → List (String × Window) → List (String × Window)
put_worker key w [] = (key, w) ∷ []
put_worker key w ((k, v) ∷ ws) =
    let rest = put_worker key w ws in if same key k then (k, w) ∷ ws else (k, v) ∷ rest

-- `Master.Request` with `Server.create`: the request of a key, in its worker.
unfoldable pub master_request :
    String → Request → List (String × Window) → Outcome Response × List (String × Window)
master_request key req ws =
    let (out, w) = handle_request (worker_of key ws) req in (out, put_worker key w ws)

-- The requests of all keys, in the order in which the workers serve them.
unfoldable pub run_server :
    List (String × Request)
    → List (String × Window)
    → List (Outcome Response) × List (String × Window)
run_server [] ws = ([], ws)
run_server ((key, req) ∷ reqs) ws =
    let (out, ws') = master_request key req ws in
    let (outs, ws'') = run_server reqs ws' in (out ∷ outs, ws'')

-- The requests of one key, and the answers to them.
unfoldable pub requests_of : String → List (String × Request) → List Request
requests_of key [] = []
requests_of key ((k, req) ∷ reqs) =
    let rest = requests_of key reqs in if same key k then req ∷ rest else rest

unfoldable pub answers_of :
    String → List (String × Request) → List (Outcome Response) → List (Outcome Response)
answers_of key [] outs = []
answers_of key ((k, req) ∷ reqs) [] = []
answers_of key ((k, req) ∷ reqs) (out ∷ outs) =
    let rest = answers_of key reqs outs in if same key k then out ∷ rest else rest

find_worker-put_worker_self :
    (key : String) (w : Window) (ws : List (String × Window))
    → find_worker key (put_worker key w ws) ≡ some w
unfolding put_worker find_worker
find_worker-put_worker_self key w [] = ground (arith, same_refl key)
find_worker-put_worker_self key w ((k, v) ∷ ws) =
    ground (arith, find_worker-put_worker_self key w ws)

find_worker-put_worker_ne :
    (key j : String) (w : Window) (ws : List (String × Window))
    → same key j ≡ false
    → find_worker key (put_worker j w ws) ≡ find_worker key ws
unfolding put_worker find_worker
find_worker-put_worker_ne key j w [] ne = ground (arith, ne)
find_worker-put_worker_ne key j w ((k, v) ∷ ws) ne =
    ground (arith, ne, find_worker-put_worker_ne key j w ws ne, same→≡ j k)

pub worker_of-put_worker_self :
    (key : String) (w : Window) (ws : List (String × Window))
    → worker_of key (put_worker key w ws) ≡ w
unfolding worker_of
worker_of-put_worker_self key w ws = rw (worker_of, find_worker-put_worker_self key w ws) refl

worker_of-put_worker_ne :
    (key j : String) (w : Window) (ws : List (String × Window))
    → same key j ≡ false
    → worker_of key (put_worker j w ws) ≡ worker_of key ws
unfolding worker_of
worker_of-put_worker_ne key j w ws ne = rw (worker_of, find_worker-put_worker_ne key j w ws ne) refl

abbrev ServesAlone : String → List (String × Request) → List (String × Window) → Type 0
ServesAlone key reqs ws =
    (answers_of key reqs (run_server reqs ws).0 ≡ (run (worker_of key ws) (requests_of key reqs)).0)
    × (worker_of key (run_server reqs ws).1 ≡ (run (worker_of key ws) (requests_of key reqs)).1)

keys_apart_self :
    (key : String) (req : Request) (reqs : List (String × Request)) (ws : List (String × Window))
    → ServesAlone key reqs (master_request key req ws).1
    → ServesAlone key ((key, req) ∷ reqs) ws
unfolding run_server run requests_of answers_of master_request
keys_apart_self key req reqs ws h =
    let w : Window = (handle_request (worker_of key ws) req).1 in
    let now = worker_of-put_worker_self key w ws in
    let outs = ap (λ v. (run v (requests_of key reqs)).0) now in
    let last = ap (λ v. (run v (requests_of key reqs)).1) now in
    rw (same_refl key) (ap (◌∷◌ (handle_request (worker_of key ws) req).0) (h.0 ∙ outs), h.1 ∙ last)

keys_apart_ne :
    (key k : String) (req : Request) (reqs : List (String × Request)) (ws : List (String × Window))
    → same key k ≡ false
    → ServesAlone key reqs (master_request k req ws).1
    → ServesAlone key ((k, req) ∷ reqs) ws
unfolding run_server run requests_of answers_of master_request
keys_apart_ne key k req reqs ws ne h =
    let w : Window = (handle_request (worker_of k ws) req).1 in
    let now = worker_of-put_worker_ne key k w ws ne in
    let outs = ap (λ v. (run v (requests_of key reqs)).0) now in
    let last = ap (λ v. (run v (requests_of key reqs)).1) now in rw ne (h.0 ∙ outs, h.1 ∙ last)

-- However the requests of different keys are interleaved, the answers to those of one key, and the
-- window of its worker at the end, are what its message handler gives on these requests alone.
pub keys_apart :
    (reqs : List (String × Request)) (ws : List (String × Window)) (key : String)
    → (answers_of key reqs (run_server reqs ws).0
        ≡ (run (worker_of key ws) (requests_of key reqs)).0)
      × (worker_of key (run_server reqs ws).1 ≡ (run (worker_of key ws) (requests_of key reqs)).1)
unfolding run_server run requests_of answers_of
keys_apart [] ws key = (refl, refl)
keys_apart ((k, req) ∷ reqs) ws key = elim (Bool-cases (same key k)) [
  | inl e ↦
      subst (λ j. ServesAlone key ((j, req) ∷ reqs) ws) (same→≡ key k e)
        (keys_apart_self key req reqs ws (keys_apart reqs (master_request key req ws).1 key))
  | inr e ↦ keys_apart_ne key k req reqs ws e (keys_apart reqs (master_request k req ws).1 key)
]
