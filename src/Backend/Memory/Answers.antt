-- ===== src/Backend/Memory/Answers.antt =====
-- A response on its way through the queues in memory: from the goroutine that ends a request
-- (backend/core/manager.go) to the poll of the client.
use mathlib.Core.Path.{subst}
use developer_gateway.Prelude.{
  min, ℕ, zero, suc, ◌+◌, ◌-◌, ◌≤◌, ◌<◌, ◌≡◌, refl, sym, false, none, some, List, [], ◌∷◌, ◌++◌,
  length, String, ◌⊎◌, inl, inr, get_elem?, set, take, drop, ltb, ◌==◌, same, arith,
}
use developer_gateway.Errors.{ok}
use developer_gateway.Mqueue.{Request}
use developer_gateway.Mqueue.Window.{Window}
use developer_gateway.Mqueue.Window.Queue
use developer_gateway.Mqueue.Window.Queue.{Queue, Entry, listing, completed}
use developer_gateway.Mqueue.Window.Refine.{Represents, IsSmall}
use developer_gateway.Mqueue.Handler.Serve.{serve, IsPlain}
use developer_gateway.Mqueue.Handler.Refine.{handle_request_refines}
use developer_gateway.Mqueue.Server.{master_request, worker_of, worker_of-put_worker_self}

-- The worker of a key answers a plain request as the queue that its window represents.
pub request_refines :
    (key : String) (r : Request) (ws : List (String × Window)) (q : Queue)
    → Represents (worker_of key ws) q
    → IsSmall q
    → IsPlain r
    → ((master_request key r ws).0 ≡ (serve q r).0)
      × Represents (worker_of key (master_request key r ws).1) (serve q r).1
unfolding master_request
request_refines key r ws q rep small plain =
    let (same, rep') = handle_request_refines (worker_of key ws) q r rep small plain in
    (same, subst (λ w. Represents w (serve q r).1) (sym (worker_of-put_worker_self key _ ws)) rep')

-- The queue has an offset left, or storage to grow.
abbrev pub HasRoom : Queue → Type 0
HasRoom q = (length q.entries + 1 < q.size) ⊎ (q.size < q.most)

abbrev pub next_offset : Queue → ℕ
next_offset q = q.base + length q.entries

-- The queue with one more entry.
abbrev pub WithEntry : Queue → Entry → Queue → Type 0
WithEntry q e q' =
    (q'.base ≡ q.base)
    × (q'.most ≡ q.most)
    × (q'.entries ≡ q.entries ++ (e ∷ []))
    × (length q.entries < q'.size)

pub next_hands_out :
    (q : Queue)
    → HasRoom q
    → length q.entries < q.size
    → ((Queue.next q).0 ≡ ok (next_offset q)) × WithEntry q none (Queue.next q).1
unfolding Queue.next
next_hands_out q (inl here) inside = (
  ground (arith, here),
  (ground (arith, here), ground (arith, here), ground (arith, here), ground (arith, here)),
)
next_hands_out q (inr more) inside = (
  ground (arith, more),
  (ground (arith, more), ground (arith, more), ground (arith, more), ground (arith, more)),
)

get_last : (es : List Entry) (e : Entry) → get_elem? (es ++ (e ∷ [])) (length es) ≡ some e
get_last [] e = refl
get_last (x ∷ es) e = ground (arith, get_last es e)

set_last : (es : List Entry) (e f : Entry) → set (es ++ (e ∷ [])) (length es) f ≡ es ++ (f ∷ [])
set_last [] e f = refl
set_last (x ∷ es) e f = ground (arith, set_last es e f)

drop_before_last : (es : List Entry) (e : Entry) → drop (length es) (es ++ (e ∷ [])) ≡ e ∷ []
drop_before_last [] e = refl
drop_before_last (x ∷ es) e = ground (arith, drop_before_last es e)

pub insert_completes :
    (q q' : Queue) (t v : String)
    → WithEntry q none q'
    → ((Queue.insert q' (next_offset q) t v).0 ≡ ok tt)
      × WithEntry q (some (t, v)) (Queue.insert q' (next_offset q) t v).1
unfolding Queue.insert
insert_completes q q' t v (base, most, entries, inside) =
    let at : next_offset q - q'.base ≡ length q.entries = omega (arith, base) in
    let pending : get_elem? q'.entries (next_offset q - q'.base) ≡ some none =
      rw (at, entries) (get_last q.entries none) in
    let low : ltb (next_offset q) q'.base ≡ false = ground (arith, base) in
    let high : ltb (q'.base + q'.size) (next_offset q) ≡ false = ground (arith, base, inside) in
    let not_end : (next_offset q == q'.base + q'.size) ≡ false = ground (arith, base, inside) in
    let stored : set q'.entries (next_offset q - q'.base) (some (t, v))
        ≡ q.entries ++ (some (t, v) ∷ []) =
      rw (at, entries) (set_last q.entries none (some (t, v))) in
    let runs : Queue.insert q' (next_offset q) t v
        ≡ (ok tt, record q' { entries = q.entries ++ (some (t, v) ∷ []) }) =
      rw (Queue.insert, low, high, not_end, pending, stored) refl in
    subst (λ p. (p.0 ≡ ok tt) × WithEntry q (some (t, v)) p.1) (sym runs)
      (refl, (base, most, refl, inside))

take_one : (e : Entry) (count : ℕ) → 1 ≤ count → take count (e ∷ []) ≡ e ∷ []
take_one e zero h = absurd (omega (arith, h))
take_one e (suc zero) h = refl
take_one e (suc (suc n)) h = refl

pub retrieve_last :
    (q q' : Queue) (t v : String) (count : ℕ)
    → WithEntry q (some (t, v)) q'
    → 1 ≤ count
    → Queue.retrieve q' (next_offset q) count ≡ record {
      offset = q.base;
      elements = (record { offset = next_offset q; value = v; type = t }) ∷ [];
    }
unfolding Queue.retrieve
retrieve_last q q' t v count (base, most, entries, inside) some_asked =
    let low : ltb (next_offset q) q'.base ≡ false = ground (arith, base) in
    let at : next_offset q - q'.base ≡ length q.entries = omega (arith, base) in
    let rest : drop (next_offset q - q'.base) q'.entries ≡ some (t, v) ∷ [] =
      rw (at, entries) (drop_before_last q.entries (some (t, v))) in
    rw (Queue.retrieve, low, rest, take_one (some (t, v)) count some_asked, base) refl

-- A queue with one more entry can be slid up to it.
pub slide_last :
    (q q' : Queue) (t v : String)
    → WithEntry q (some (t, v)) q'
    → (n : ℕ) × ((Queue.slide q' (next_offset q)).0 ≡ ok n)
unfolding Queue.slide
slide_last q q' t v (base, most, entries, inside) =
    let low : ltb (next_offset q) q'.base ≡ false = ground (arith, base) in
    let high : ltb (q'.base + q'.size) (next_offset q) ≡ false = ground (arith, base, inside) in
    (min (next_offset q - q'.base) (completed q'.entries), simp (Queue.slide, low, high) refl)
