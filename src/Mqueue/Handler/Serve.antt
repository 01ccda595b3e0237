-- ===== src/Mqueue/Handler/Serve.antt =====
-- The requests of a queue answered by the abstract queue, for clients that discard no element in
-- the middle: the ones of a session's responses.
use developer_gateway.Prelude.{
  ℕ, ◌+◌, ◌-◌, none, some, String, ◌^◌, ◌<◌, ◌≤◌, ◌≡◌, true, false, List, [], ◌∷◌, length, min,
  arith, length-append, length-drop, length-set,
}
use developer_gateway.Errors.{Outcome, ok}
use developer_gateway.Mqueue.{
  Request, insert_request, retrieve_request, discard_request, next_request, Response, nothing,
  found, reserved_offset,
}
use developer_gateway.Mqueue.Handler.{respond}
use developer_gateway.Mqueue.Window.Queue
use developer_gateway.Mqueue.Window.Queue.{Queue, completed}
use developer_gateway.Mqueue.Window.Scans.{completed-le}

unfoldable pub serve : Queue → Request → Outcome Response × Queue
serve q (insert_request e) = respond (λ _. nothing) (Queue.insert q e.offset e.type e.value)
serve q (retrieve_request offset count) = (ok (found (Queue.retrieve q offset count)), q)
serve q (discard_request true count offset) = (ok nothing, q)
serve q (discard_request false count offset) = respond (λ _. nothing) (Queue.slide q offset)
serve q next_request = respond reserved_offset (Queue.next q)

unfoldable pub serve_all : Queue → List Request → List (Outcome Response) × Queue
serve_all q [] = ([], q)
serve_all q (r ∷ rs) =
    let (out, q') = serve q r in let (outs, q'') = serve_all q' rs in (out ∷ outs, q'')

-- Offsets and counts are 64-bit words whose sum is one, and nothing is discarded in the middle.
abbrev pub IsPlain : Request → Type 0
IsPlain (insert_request e) = e.offset < 2 ^ 64
IsPlain (retrieve_request offset count) = count + offset < 2 ^ 64
IsPlain (discard_request keep_previous count offset) = (count ≡ 0) × (offset < 2 ^ 64)
IsPlain next_request = Unit

-- How far a queue has handed out offsets.
abbrev pub handed_out : Queue → ℕ
handed_out q = q.base + length q.entries

abbrev Grows : Queue → Queue → Type 0
Grows q q' = (q'.most ≡ q.most) × (handed_out q' ≤ handed_out q + 1)

insert-Grows : (q : Queue) (offset : ℕ) (t v : String) → Grows q (Queue.insert q offset t v).1
unfolding Queue.insert
insert-Grows q offset t v = ground (arith, length-set q.entries (offset - q.base) (some (t, v)))

slide-Grows : (q : Queue) (offset : ℕ) → Grows q (Queue.slide q offset).1
unfolding Queue.slide
slide-Grows q offset = ground (
  arith,
  length-drop (min (offset - q.base) (completed q.entries)) q.entries,
  completed-le q.entries,
)

next-Grows : (q : Queue) → Grows q (Queue.next q).1
unfolding Queue.next
next-Grows q = ground (arith, length-append q.entries (none ∷ []))

-- A request hands out one offset at most.
pub serve-Grows : (q : Queue) (r : Request) → Grows q (serve q r).1
unfolding serve
serve-Grows q (insert_request e) = insert-Grows q e.offset e.type e.value
serve-Grows q (retrieve_request offset count) = omega arith
serve-Grows q (discard_request true count offset) = omega arith
serve-Grows q (discard_request false count offset) = slide-Grows q offset
serve-Grows q next_request = next-Grows q
