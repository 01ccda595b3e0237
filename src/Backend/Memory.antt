-- ===== src/Backend/Memory.antt =====
-- `Server` of mqueue/mem/server.go as the queues that the request manager is given. A panic of a message
-- handler is answered as an error by its worker (concurrent/worker.go).
pub mod Answers
pub mod Delivery
mod Tests
use developer_gateway.Prelude.{
  ℕ, Bool, true, false, Option, none, some, List, [], ◌∷◌, String, ◌⊎◌, inl, inr, if◌then◌else◌,
  same,
}
use developer_gateway.Errors.{Error, Outcome, ok, err, panic}
use developer_gateway.Mqueue.{
  Element, Elements, Request, insert_request, retrieve_request, discard_request, next_request,
  Response, nothing, found, reserved_offset,
}
use developer_gateway.Mqueue.Window.{Window}
use developer_gateway.Mqueue.Server.{find_worker, master_request}
use developer_gateway.Backend.Queues.{Queues, DiscardRequest}

-- `delete(m.workers, key)`
unfoldable pub remove_window : String → List (String × Window) → List (String × Window)
remove_window key [] = []
remove_window key ((k, w) ∷ ws) =
    let rest = remove_window key ws in if same key k then ws else (k, w) ∷ rest

module _ (error_text : Error → String) where
  abbrev failed_text : Outcome Response → String
  failed_text (ok r) = "unexpected response"
  failed_text (err e) = error_text e
  failed_text panic = "panic error"

  -- What the methods make of the answer of a worker; a response of another type does not occur.
  abbrev pub as_unit : Outcome Response → Unit {0} ⊎ String
  as_unit (ok r) = inl tt
  as_unit other = inr (failed_text other)

  abbrev pub as_elements : Outcome Response → Elements ⊎ String
  as_elements (ok (found es)) = inl es
  as_elements other = inr (failed_text other)

  abbrev pub as_offset : Outcome Response → ℕ ⊎ String
  as_offset (ok (reserved_offset n)) = inl n
  as_offset other = inr (failed_text other)

  -- `Insert`, `Retrieve`, `Discard`, `Next`, `Remove` and `Exists`
  abbrev pub memory_queues : Queues (List (String × Window))
  memory_queues = record {
    insert = λ key el ws.
        let (out, ws') = master_request key (insert_request el) ws in (as_unit out, ws');
    retrieve = λ key offset count ws.
        let (out, ws') = master_request key (retrieve_request offset count) ws in
        (as_elements out, ws');
    discard = λ req ws.
        let (out, ws') =
          master_request req.key (discard_request req.keep_previous req.count req.offset) ws in
        (as_unit out, ws');
    next = λ key ws. let (out, ws') = master_request key next_request ws in (as_offset out, ws');
    remove_queue = λ key ws. elim (find_worker key ws) [
      | none ↦ (inr "worker does not exist", ws)
      | some w ↦ (inl tt, remove_window key ws)
    ];
    exists_queue = λ key ws. (inl (elim (find_worker key ws) [ none ↦ false | some w ↦ true ]), ws);
  }
