-- ===== src/Backend/Memory/Tests.antt =====
-- A request on queues in memory that are still empty.
use developer_gateway.Prelude.{ℕ, ◌≡◌, refl, List, [], String, inl, arith, same, true, false}
use developer_gateway.Errors.{Error}
use developer_gateway.Mqueue.Window.{Window, new_window}
use developer_gateway.Mqueue.Window.Queue.{Queue}
use developer_gateway.Mqueue.Window.Refine.{Represents, new_window-Represents}
use developer_gateway.Mqueue.Handler.{new_message_handler}
use developer_gateway.Mqueue.Server.{worker_of, find_worker}
use developer_gateway.Backend.Subscriptions.{new_manager}
use developer_gateway.Backend.Requests.{Services, State}
use developer_gateway.Backend.Tests.{
  services, json-IsCodec, execute_request, executed_event, executed_element, executed_is_made,
}
use developer_gateway.Backend.Memory.{memory_queues}
use developer_gateway.Backend.Memory.Delivery.{Delivers, response_is_polled}

abbrev error_text : Error → String
error_text e = "error"

abbrev on_empty : Services (List (String × Window)) ℕ
on_empty = record {
  queues = memory_queues error_text;
  backend = services.backend;
  json = services.json;
  decimal = services.decimal;
}

abbrev empty_state : State (List (String × Window)) ℕ
empty_state = record { queue = []; client = 0; subman = new_manager }

abbrev empty_queue : Queue
empty_queue = record { base = 0; size = 16; most = 1024; entries = [] }

fresh-Represents : Represents (worker_of "s" []) empty_queue
unfolding worker_of find_worker new_message_handler new_window
fresh-Represents = new_window-Represents 16 1024 (omega arith) (omega arith)

addressed : same execute_request.address "" ≡ false
unfolding same
addressed = refl

response_is_polled_example :
    Delivers on_empty error_text execute_request 0 0 10 true executed_event empty_state
response_is_polled_example =
    response_is_polled on_empty error_text json-IsCodec execute_request empty_state empty_queue
      (inl (record { id = 0; address = "service"; output = "0x01" })) 1 executed_element 10 true
      addressed fresh-Represents (omega arith) (omega arith) (inl (omega arith)) refl
      executed_is_made (omega arith)
