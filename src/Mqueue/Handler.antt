-- ===== src/Mqueue/Handler.antt =====
-- `MessageHandler` of mqueue/mem/message_handler.go: the requests of one queue, served by a window.
pub mod Serve
pub mod Refine
use developer_gateway.Prelude.{List, [], ◌∷◌, ℕ, Bool, true, false}
use developer_gateway.Errors.{Outcome, ok, err, panic, map_ok}
use developer_gateway.Mqueue.{
  Request, insert_request, retrieve_request, discard_request, next_request, Response, nothing,
  found, reserved_offset,
}
use developer_gateway.Mqueue.Window.{Window, new_window, get, reserve_next, set_value}
use developer_gateway.Mqueue.Window.Slide.{slide, discard}

abbrev max_elements_per_queue : ℕ
max_elements_per_queue = 1024

-- `NewMessageHandler`, whose window has the default initial size.
unfoldable pub new_message_handler : Window
new_message_handler = new_window 0 max_elements_per_queue

-- An outcome whose value is turned into the response.
abbrev pub respond {ℓ κ} :
    {A : Type ℓ} {S : Type κ} → (A → Response) → Outcome A × S → Outcome Response × S
respond f r = (map_ok f r.0, r.1)

-- `MessageHandler.discard`
unfoldable pub discard_elements :
    Window → (keep_previous : Bool) (count offset : ℕ) → Outcome ℕ × Window
discard_elements w true count offset = discard w offset count
discard_elements w false count offset =
    let (slid, w') = slide w offset in
    elim slid [ ok n ↦ discard w' offset count | err e ↦ (err e, w') | panic ↦ (panic, w') ]

-- `MessageHandler.handleRequestEvent`
unfoldable pub handle_request : Window → Request → Outcome Response × Window
handle_request w (insert_request e) = respond (λ _. nothing) (set_value w e.offset e.type e.value)
handle_request w (retrieve_request offset count) = (ok (found (get w offset count)), w)
handle_request w (discard_request keep_previous count offset) =
    respond (λ _. nothing) (discard_elements w keep_previous count offset)
handle_request w next_request = respond reserved_offset (reserve_next w)

-- The requests of a queue, one after another: its worker serves them in the order in which they
-- come, and goes on after an error or a panic.
unfoldable pub run : Window → List Request → List (Outcome Response) × Window
run w [] = ([], w)
run w (r ∷ rs) =
    let (out, w') = handle_request w r in let (outs, w'') = run w' rs in (out ∷ outs, w'')
