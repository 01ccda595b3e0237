-- ===== src/Mqueue/Handler/Refine.antt =====
-- The memory queue refines the abstract queue: request by request, and over any list of requests.
use developer_gateway.Prelude.{
  ℕ, ◌+◌, ◌^◌, ◌<◌, ◌≡◌, refl, ap, ap₂, true, false, List, [], ◌∷◌, length, arith, All,
}
use developer_gateway.Errors.{Outcome, ok, map_ok, map_ok-const}
use developer_gateway.Mqueue.{
  Request, insert_request, retrieve_request, discard_request, next_request, Response, nothing,
  found, reserved_offset,
}
use developer_gateway.Mqueue.Window.{Window, set_value, reserve_next}
use developer_gateway.Mqueue.Window.Slide.{slide, discard}
use developer_gateway.Mqueue.Window.Queue
use developer_gateway.Mqueue.Window.Queue.{Queue}
use developer_gateway.Mqueue.Window.Refine.{Represents, IsSmall, next_refines}
use developer_gateway.Mqueue.Window.Complete.{insert_refines, retrieve_refines}
use developer_gateway.Mqueue.Window.Release.{slide_refines}
use developer_gateway.Mqueue.Handler.{respond, discard_elements, handle_request, run}
use developer_gateway.Mqueue.Handler.Serve.{serve, serve_all, serve-Grows, handed_out, IsPlain}

-- Two results are one outcome, and the window represents the queue.
abbrev pub Agree {ℓ} : {A : Type ℓ} → Outcome A × Window → Outcome A × Queue → Type ℓ
Agree a b = (a.0 ≡ b.0) × Represents a.1 b.1

respond-Agree :
    {A : Type 0} (f : A → Response) (a : Outcome A × Window) (b : Outcome A × Queue)
    → Agree a b
    → Agree (respond f a) (respond f b)
respond-Agree f a b h = (ap (map_ok f) h.0, h.1)

discard_zero : (w : Window) (offset : ℕ) → discard w offset 0 ≡ (ok 0, w)
unfolding discard
discard_zero w offset = refl

discard_elements_zero :
    (w : Window) (offset : ℕ)
    → discard_elements w false 0 offset ≡ (map_ok (λ _. 0) (slide w offset).0, (slide w offset).1)
unfolding discard_elements
discard_elements_zero w offset = ground (arith, discard_zero (slide w offset).1 offset)

-- A plain request is answered as the queue answers it, and keeps the representation.
pub handle_request_refines :
    (w : Window) (q : Queue) (r : Request)
    → Represents w q
    → IsSmall q
    → IsPlain r
    → Agree (handle_request w r) (serve q r)
unfolding handle_request serve discard_elements
handle_request_refines w q (insert_request e) r s p =
    respond-Agree (λ _. nothing) (set_value w e.offset e.type e.value)
      (Queue.insert q e.offset e.type e.value) (insert_refines w q e.offset e.type e.value r s p)
handle_request_refines w q (retrieve_request offset count) r s p = (
  ap (λ es. ok (found es)) (retrieve_refines w q offset count r s (omega arith) (omega arith)),
  r,
)
handle_request_refines w q (discard_request true count offset) r s p =
    rw (p.0, discard_zero w offset) (refl, r)
handle_request_refines w q (discard_request false count offset) r s p =
    rw (p.0, discard_elements_zero w offset, map_ok-const {B = ℕ} 0 nothing (slide w offset).0)
      (respond-Agree (λ _. nothing) (slide w offset) (Queue.slide q offset)
        (slide_refines w q offset r s p.1))
handle_request_refines w q next_request r s p =
    respond-Agree reserved_offset (reserve_next w) (Queue.next q) (next_refines w q r s)

-- Any list of requests that discards nothing in the middle, and whose offsets are 64-bit words, also with
-- the count of a retrieve added, is answered as the queue answers it that the window represents, one by
-- one, and leaves a window that represents the resulting queue, as long as the offsets handed out stay
-- clear of the end of the 64-bit words.
pub run_refines :
    (rs : List Request) (w : Window) (q : Queue)
    → Represents w q
    → q.most < 2 ^ 63
    → handed_out q + length rs + q.most < 2 ^ 64
    → All IsPlain rs
    → ((run w rs).0 ≡ (serve_all q rs).0) × Represents (run w rs).1 (serve_all q rs).1
unfolding run serve_all
run_refines [] w q r most small p = (refl, r)
run_refines (x ∷ xs) w q r most small p =
    let (same, r') = handle_request_refines w q x r (most, omega arith) p.0 in
    let (steady, grows) = serve-Grows q x in
    let (rest, r'') =
      run_refines xs (handle_request w x).1 (serve q x).1 r' (rw steady most)
        (rw steady (omega arith)) p.1 in
    (ap₂ ◌∷◌ same rest, r'')
