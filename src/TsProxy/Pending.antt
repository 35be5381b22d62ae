-- ===== src/TsProxy/Pending.antt =====
-- src/ts_proxy/mod.rs: the requests that wait for an answer. A `Sender` is the sending end of the
-- channel of a request; what goes over the wire is the transport's.
use angularjs_lsp.Prelude.{
  ℕ, ◌+◌, ◌%◌, ◌^◌, ◌≤◌, ◌<◌, ◌≡◌, refl, ◌∙◌, Bool, true, false, not, Option, none, some, List, [],
  ◌∷◌, arith, ◌==◌, nat_eq, length, all,
}
use angularjs_lsp.DashMap
use angularjs_lsp.DashMap.{DashMap, get-insert, get-remove, get-insert_self, get-remove_self}

-- `next_id` is an `i64`, kept as its 64 bits
pub record TsProxy (Sender : Type 0) : Type 0 where
  pub pending_requests : DashMap ℕ Sender
  pub next_id : ℕ

-- What happens to the table, in the order in which it happens: `send_request` takes an id and puts
-- its sender there; a failed write and a timeout take the sender of an id away; the reader hands a
-- response to the sender of its id, if it has an id.
pub data Event (Sender : Type 0) : Type 0 where
  sent : Sender → Event Sender
  write_failed : ℕ → Event Sender
  timed_out : ℕ → Event Sender
  response : Option ℕ → Event Sender

module _ {Sender : Type 0} where
  unfoldable pub start : TsProxy Sender
  start = record { pending_requests = []; next_id = 1 }

  unfoldable pub insert_request : Sender → TsProxy Sender → TsProxy Sender
  insert_request tx p = record {
    pending_requests = DashMap.insert p.next_id tx p.pending_requests;
    next_id = (p.next_id + 1) % 2 ^ 64;
  }

  unfoldable pub remove_request : ℕ → TsProxy Sender → TsProxy Sender
  remove_request id p = record p { pending_requests = DashMap.remove id p.pending_requests }

  -- the sender that gets a response, of the reader's loop
  unfoldable pub receiver : Option ℕ → TsProxy Sender → Option Sender
  receiver none p = none
  receiver (some id) p = DashMap.get id p.pending_requests

  unfoldable pub receive : Option ℕ → TsProxy Sender → TsProxy Sender
  unfolding remove_request
  receive none p = p
  receive (some id) p = remove_request id p

  unfoldable pub step : TsProxy Sender → Event Sender → TsProxy Sender
  unfolding insert_request remove_request receive
  step p (sent tx) = insert_request tx p
  step p (write_failed id) = remove_request id p
  step p (timed_out id) = remove_request id p
  step p (response id) = receive id p

  unfoldable pub run : TsProxy Sender → List (Event Sender) → TsProxy Sender
  unfolding step
  run p [] = p
  run p (e ∷ es) = run (step p e) es

  -- the events that take the sender of an id away
  abbrev pub ends : ℕ → Event Sender → Bool
  ends k (sent tx) = false
  ends k (write_failed id) = id == k
  ends k (timed_out id) = id == k
  ends k (response none) = false
  ends k (response (some id)) = id == k

  -- an event that does not end a request leaves its sender, and ids only grow
  step_keeps :
      (p : TsProxy Sender) (e : Event Sender) (k : ℕ)
      → ends k e ≡ false
      → k < p.next_id
      → p.next_id + 1 < 2 ^ 63
      → (DashMap.get k ((step p e).pending_requests) ≡ DashMap.get k p.pending_requests)
        × (p.next_id ≤ (step p e).next_id)
        × ((step p e).next_id ≤ p.next_id + 1)
  unfolding step insert_request remove_request receive
  step_keeps p (sent tx) k h lt small =
      (ground (arith, get-insert p.next_id k tx p.pending_requests), omega arith, omega arith)
  step_keeps p (write_failed id) k h lt small =
      (ground (arith, get-remove id k p.pending_requests), omega arith, omega arith)
  step_keeps p (timed_out id) k h lt small =
      (ground (arith, get-remove id k p.pending_requests), omega arith, omega arith)
  step_keeps p (response none) k h lt small = (refl, omega arith, omega arith)
  step_keeps p (response (some id)) k h lt small =
      (ground (arith, get-remove id k p.pending_requests), omega arith, omega arith)

  run_keeps :
      (es : List (Event Sender)) (p : TsProxy Sender) (k : ℕ)
      → all (λ e. not (ends k e)) es ≡ true
      → k < p.next_id
      → p.next_id + length es < 2 ^ 63
      → DashMap.get k ((run p es).pending_requests) ≡ DashMap.get k p.pending_requests
  unfolding run
  run_keeps [] p k h lt small = refl
  run_keeps (e ∷ es) p k h lt small =
      let (same, up, bound) = step_keeps p e k (ground arith) lt (ground arith) in
      run_keeps es (step p e) k (ground arith) (omega arith) (ground arith) ∙ same

  -- The sender of a request stays in the table while no response, timeout or failed write of its
  -- id comes, whatever else does; the response with its id goes to it, and it is then gone. The
  -- ids taken stay below 2 ^ 63.
  pub receiver-run :
      (p : TsProxy Sender) (tx : Sender) (es : List (Event Sender))
      → all (λ e. not (ends p.next_id e)) es ≡ true
      → p.next_id + 1 + length es < 2 ^ 63
      → let answered = run (step p (sent tx)) es in
        let id = some p.next_id in
        (receiver id answered ≡ some tx) × (receiver id (step answered (response id)) ≡ none)
  unfolding step insert_request receiver receive remove_request
  receiver-run p tx es h small =
      let sender = insert_request tx p in
      (
        run_keeps es sender p.next_id h (omega arith) (omega arith)
            ∙ get-insert_self p.next_id tx p.pending_requests,
        get-remove_self p.next_id ((run sender es).pending_requests),
      )
