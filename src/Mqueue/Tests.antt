-- ===== src/Mqueue/Tests.antt =====
-- The memory queue on concrete requests: runs of the code, and the theorems at such inputs.
use developer_gateway.Prelude.{String}
use developer_gateway.Mqueue.Server.{answers_of, run_server, worker_of, requests_of, keys_apart}
use developer_gateway.Prelude.{
  ℕ, zero, suc, ◌++◌, ◌+◌, ◌≡◌, refl, true, false, none, some, List, [], ◌∷◌, replicate, arith,
}
use developer_gateway.Errors.{ok, panic}
use developer_gateway.Mqueue.{
  Element, Request, insert_request, retrieve_request, discard_request, next_request, nothing, found,
  reserved_offset,
}
use developer_gateway.Mqueue.Window.{
  Slot, Window, empty_slot, new_window, get, reserve_next, set_value, make_room, reserve_at,
  find_unset, update_unset_index, collect,
}
use developer_gateway.Mqueue.Window.Slide.{
  slide, slide_by, skip_discarded, discard, mark_discarded, settle,
}
use developer_gateway.Mqueue.Window.Queue
use developer_gateway.Mqueue.Window.Queue.{Queue}
use developer_gateway.Mqueue.Window.Refine.{Represents, next_refines}
use developer_gateway.Mqueue.Window.Complete.{insert_refines, retrieve_refines}
use developer_gateway.Mqueue.Window.Release.{slide_refines}
use developer_gateway.Mqueue.Handler.{new_message_handler, discard_elements, handle_request, run}
use developer_gateway.Mqueue.Handler.Serve.{serve_all}
use developer_gateway.Mqueue.Handler.Refine.{run_refines}

program : Unit {0}
unfolding new_window get reserve_next set_value make_room reserve_at find_unset update_unset_index
    collect slide slide_by skip_discarded discard mark_discarded settle new_message_handler
    discard_elements handle_request run
program = tt

abbrev hello : Element
hello = record { offset = 1; value = "hello"; type = "data" }

-- Two offsets are handed out, the second is completed, and polled.
abbrev session : List Request
session =
    next_request
    ∷ next_request
    ∷ insert_request hello
    ∷ retrieve_request 0 10
    ∷ discard_request false 0 2
    ∷ retrieve_request 1 10
    ∷ []

run-session :
    (run new_message_handler session).0
    ≡ ok (reserved_offset 0)
      ∷ ok (reserved_offset 1)
      ∷ ok nothing
      ∷ ok (found (record { offset = 0; elements = hello ∷ [] }))
      ∷ ok nothing
      ∷ ok (found (record { offset = 0; elements = hello ∷ [] }))
      ∷ []
unfolding program
run-session = refl

-- A window with one completed and one pending offset, and its queue.
abbrev done_slot : Slot
done_slot = record {
  discarded = false;
  reserved = true;
  is_set = true;
  offset = 5;
  value = "v";
  type = "t";
}

abbrev pending_slot : Slot
pending_slot = record empty_slot { reserved = true; offset = 6 }

abbrev window : Window
window = record {
  max_size = 8;
  next_unreserved = 2;
  next_unset = 1;
  offset = 5;
  elements = done_slot ∷ pending_slot ∷ empty_slot ∷ [];
}

abbrev queue : Queue
queue = record { base = 5; size = 3; most = 8; entries = some ("t", "v") ∷ none ∷ [] }

window-Represents : Represents window queue
window-Represents = record {
  most = refl;
  base = refl;
  size = refl;
  unreserved = refl;
  unset = refl;
  room = omega arith;
  fits = omega arith;
  held =
      ((refl, refl, refl, refl, refl, refl), ((refl, refl, refl, refl), ((refl, refl, refl), tt)));
}

next_refines_example :
    ((reserve_next window).0 ≡ (Queue.next queue).0)
    × Represents (reserve_next window).1 (Queue.next queue).1
next_refines_example = next_refines window queue window-Represents (omega arith, omega arith)

insert_refines_example :
    ((set_value window 6 "a" "b").0 ≡ (Queue.insert queue 6 "a" "b").0)
    × Represents (set_value window 6 "a" "b").1 (Queue.insert queue 6 "a" "b").1
insert_refines_example =
    insert_refines window queue 6 "a" "b" window-Represents (omega arith, omega arith) (omega arith)

retrieve_refines_example : get window 3 4 ≡ Queue.retrieve queue 3 4
retrieve_refines_example =
    retrieve_refines window queue 3 4 window-Represents (omega arith, omega arith) (omega arith)
      (omega arith)

slide_refines_example :
    ((slide window 7).0 ≡ (Queue.slide queue 7).0)
    × Represents (slide window 7).1 (Queue.slide queue 7).1
slide_refines_example =
    slide_refines window queue 7 window-Represents (omega arith, omega arith) (omega arith)

run_refines_example :
    ((run window session).0 ≡ (serve_all queue session).0)
    × Represents (run window session).1 (serve_all queue session).1
run_refines_example =
    run_refines session window queue window-Represents (omega arith) (omega arith) (omega arith)

-- One session's subscriptions: fifteen are made and given up, the first of them next to last, and
-- then one more. The slots keep the marks of the discarded offsets.
abbrev discard_each : ℕ → ℕ → List Request
discard_each offset zero = []
discard_each offset (suc n) = discard_request true 1 offset ∷ discard_each (offset + 1) n

abbrev subscriptions : List Request
subscriptions =
    replicate 15 next_request
    ++ (discard_each 1 13
        ++ (discard_request true 1 0
            ∷ discard_request true 1 14
            ∷ next_request
            ∷ discard_request true 1 15
            ∷ next_request
            ∷ []))

subscriptions-panic :
    (handle_request (run new_message_handler subscriptions).1 next_request).0 ≡ panic
unfolding program
subscriptions-panic = refl

abbrev mixed : List (String × Request)
mixed = ("a", next_request) ∷ ("b", next_request) ∷ ("a", next_request) ∷ []

keys_apart_example :
    (answers_of "a" mixed (run_server mixed []).0
      ≡ (run (worker_of "a" []) (requests_of "a" mixed)).0)
    × (worker_of "a" (run_server mixed []).1 ≡ (run (worker_of "a" []) (requests_of "a" mixed)).1)
keys_apart_example = keys_apart mixed [] "a"
