-- ===== src/Concurrent/Master/Shutdown.antt =====
-- `shutdown` of concurrent/master.go after a graceful life.
use mathlib.Core.Path.{subst}
use developer_gateway.Prelude.{
  ◌≡◌, refl, sym, ◌∙◌, Bool, true, Bool-cases, inl, inr, length, ◌==◌, none, List, [], ◌∷◌, String,
  same_refl, arith,
}
use developer_gateway.Concurrent.Master.{
  Master, destroy_request, shutdown_worker, remove_worker, handle_request, takes, notices, finishes,
  notice, step, close_all, finish_all, notice_all, shutdown,
}
use developer_gateway.Concurrent.Master.Keys.{occurs_never}
use developer_gateway.Concurrent.Master.Graceful.{
  Reached, stepped, Reached-IsOrderly, graceful_stop_ends,
}

destroyed :
    (on_request : Bool) (key : String) (m : Master)
    → (handle_request on_request (destroy_request key) none m).1 ≡ (shutdown_worker key m).1
unfolding handle_request
destroyed on_request key m = ground arith

module _ (on_request : Bool) where
  shutdown_worker-Reached :
      (key : String) (m : Master)
      → Reached on_request m
      → Reached on_request (shutdown_worker key m).1
  unfolding step
  shutdown_worker-Reached key m r =
      subst (Reached on_request) (destroyed on_request key m)
        (stepped (takes (destroy_request key) none) m r tt)

  close_all-Reached :
      (keys : List String) (m : Master)
      → Reached on_request m
      → Reached on_request (close_all keys m)
  unfolding close_all
  close_all-Reached [] m r = r
  close_all-Reached (key ∷ keys) m r = close_all-Reached keys _ (shutdown_worker-Reached key m r)

  workers-close_all :
      (keys : List String) (m : Master) → m.workers ≡ keys → (close_all keys m).workers ≡ []
  unfolding close_all shutdown_worker
  workers-close_all [] m e = e
  workers-close_all (key ∷ keys) m e = workers-close_all keys _ (ground (arith, e, same_refl key))

  finish_all-Reached :
      (keys : List String) (m : Master)
      → Reached on_request m
      → Reached on_request (finish_all on_request keys m)
  unfolding finish_all
  finish_all-Reached [] m r = r
  finish_all-Reached (key ∷ keys) m r = finish_all-Reached keys _ (stepped (finishes key) m r tt)

  closing-finish_all :
      (keys : List String) (m : Master)
      → m.closing ≡ keys
      → (finish_all on_request keys m).closing ≡ []
  unfolding finish_all step
  closing-finish_all [] m e = e
  closing-finish_all (key ∷ keys) m e = closing-finish_all keys _ (ground (arith, e, same_refl key))

  running-finish_all :
      (keys : List String) (m : Master) → (finish_all on_request keys m).running ≡ m.running
  unfolding finish_all step
  running-finish_all [] m = refl
  running-finish_all (key ∷ keys) m = running-finish_all keys _ ∙ ground arith

  -- What each event keeps is so after the loop over the events.
  notice_all_keeps :
      (P : Master → Type 0)
      → ((m : Master) → P m → P (notice m.done m))
      → (keys : List String) (m : Master) → P m
      → P (notice_all keys m)
  unfolding notice_all
  notice_all_keeps P keeps [] m h = h
  notice_all_keeps P keeps (key ∷ keys) m h =
      let kept = keeps m h in
      let rest = notice_all_keeps P keeps keys (notice m.done m) kept in
      elim (Bool-cases (length (notice m.done m).shutdown_workers == 0)) [
        | inl e ↦
            let runs : notice_all (key ∷ keys) m ≡ notice m.done m = simp (notice_all, e) refl in
            subst P (sym runs) kept
        | inr e ↦
            let runs : notice_all (key ∷ keys) m ≡ notice_all keys (notice m.done m) =
              simp (notice_all, e) refl in
            subst P (sym runs) rest
      ]

  notice-Reached : (m : Master) → Reached on_request m → Reached on_request (notice m.done m)
  unfolding step
  notice-Reached m r = stepped notices m r tt

  running-notice : (keys : List String) (m : Master) → (notice keys m).running ≡ m.running
  unfolding notice remove_worker
  running-notice [] m = refl
  running-notice (key ∷ keys) m = ground arith

  closing-notice : (keys : List String) (m : Master) → (notice keys m).closing ≡ m.closing
  unfolding notice remove_worker
  closing-notice [] m = refl
  closing-notice (key ∷ keys) m = ground arith

  done-notice :
      (key : String) (keys : List String) (m : Master)
      → m.done ≡ key ∷ keys
      → (notice m.done m).done ≡ keys
  unfolding notice remove_worker
  done-notice key keys m e = ground (arith, e)

  -- Once no worker is being shut down, no event is left.
  done_drained :
      (m : Master) → Reached on_request m → (length m.shutdown_workers == 0) ≡ true → m.done ≡ []
  done_drained m r e =
      let closed = (Reached-IsOrderly on_request m r).1 in
      let empty : m.shutdown_workers ≡ [] = ground (arith, e) in
      occurs_never m.done (λ k. ground (arith, closed k, empty))

  done-notice_all :
      (keys : List String) (m : Master)
      → Reached on_request m
      → m.done ≡ keys
      → (notice_all keys m).done ≡ []
  unfolding notice_all
  done-notice_all [] m r e = e
  done-notice_all (key ∷ keys) m r e =
      let rest =
        done-notice_all keys (notice m.done m) (notice-Reached m r) (done-notice key keys m e) in
      elim (Bool-cases (length (notice m.done m).shutdown_workers == 0)) [
        | inl f ↦
            let runs : notice_all (key ∷ keys) m ≡ notice m.done m = simp (notice_all, f) refl in
            subst (λ x. x.done ≡ []) (sym runs)
              (done_drained (notice m.done m) (notice-Reached m r) f)
        | inr f ↦
            let runs : notice_all (key ∷ keys) m ≡ notice_all keys (notice m.done m) =
              simp (notice_all, f) refl in
            subst (λ x. x.done ≡ []) (sym runs) rest
      ]

  -- After a life in which no worker ends by itself and no worker is made for a key while another of
  -- the key shuts down, shutdown leaves the counter at zero, with no workers in either map, so that
  -- Stop returns.
  pub shutdown_drains :
      (m : Master)
      → Reached on_request m
      → ((shutdown on_request m).worker_count ≡ 0)
        × ((shutdown on_request m).workers ≡ [])
        × ((shutdown on_request m).shutdown_workers ≡ [])
  unfolding shutdown
  shutdown_drains m r =
      let closed = close_all m.workers m in
      let finished = finish_all on_request closed.closing closed in
      let closed_reached = close_all-Reached m.workers m r in
      let none_running : closed.running ≡ [] =
        (Reached-IsOrderly on_request closed closed_reached).0
        ∙ workers-close_all m.workers m refl in
      let finished_reached = finish_all-Reached closed.closing closed closed_reached in
      let none_live : finished.running ≡ [] =
        running-finish_all closed.closing closed ∙ none_running in
      let none_closing : finished.closing ≡ [] = closing-finish_all closed.closing closed refl in
      graceful_stop_ends on_request (notice_all finished.done finished)
        (notice_all_keeps (Reached on_request) notice-Reached finished.done finished
          finished_reached)
        (notice_all_keeps (λ x. x.running ≡ []) (λ x e. running-notice x.done x ∙ e) finished.done
          finished none_live)
        (notice_all_keeps (λ x. x.closing ≡ []) (λ x e. closing-notice x.done x ∙ e) finished.done
          finished none_closing)
        (done-notice_all finished.done finished finished_reached refl)
