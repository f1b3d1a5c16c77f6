-- ===== src/Reactor/Examples.antt =====
-- The theorems on the answers and on `poll` at concrete requests.
use ignis.Shared.{insert, remove, ◌≡◌, refl, true, List, [], ◌∷◌, none, some, arith, codes, lookup}
use ignis.Reactor.{HttpRequest, HttpResponse, full, whole, grpc, Reactor, new, Wait, Outcome}
use ignis.Reactor.Calls.{Call, apply, run}
use ignis.Reactor.Answers.{deliver_request_with_id, deliver_stream_request, respond, cancel_request}
use ignis.Reactor.Answers.Invariant.{Inv, new-Inv, run-Inv}
use ignis.Reactor.Answers.Transitions.{next_state, apply-next_state}
use ignis.Reactor.Answers.Lifecycle.{IsSettled, Sent, answered_once}

abbrev get_request : HttpRequest
get_request = record { method = codes "GET"; uri = codes "/x?y=1"; headers = []; body = [] }

abbrev no_content : HttpResponse
no_content = record { status = 204; headers = []; body = full [] }

abbrev over_budget : HttpResponse
over_budget = record { status = 503; headers = []; body = full [] }

-- Request 1 is a plain one, request 2 a gRPC call.
abbrev two_requests : List Call
two_requests = Call.delivers get_request ∷ Call.delivers_stream get_request ∷ []

abbrev delivered : Reactor
delivered = run (new 0) two_requests

abbrev history : List Call
history = Call.stream_sends 2 (codes "m") ∷ Call.cancels 1 5 ∷ Call.responds 1 no_content ∷ []

-- What stands in the map after the two deliveries.
delivered_state :
    (lookup 1 delivered.answers ≡ some whole)
    × (lookup 2 delivered.answers ≡ some grpc)
    × (lookup 7 delivered.answers ≡ none)
    × (delivered.next_id ≡ 3)
    × (delivered.connected ≡ true)
    × ((delivered.channels 1).receiver_alive ≡ true)
    × ((delivered.channels 2).receiver_alive ≡ true)
unfolding new apply run deliver_request_with_id deliver_stream_request lookup insert
delivered_state = (refl, refl, refl, refl, refl, refl, refl)

delivered-Inv : Inv delivered
unfolding new
delivered-Inv = run-Inv (new 0) two_requests (omega arith) (new-Inv 0)

apply-next_state_example :
    lookup 1 (apply delivered (Call.cancels 1 5)).answers
    ≡ next_state delivered (Call.cancels 1 5) 1 (lookup 1 delivered.answers)
apply-next_state_example = apply-next_state delivered (Call.cancels 1 5) 1 delivered_state.4

answered_once_example :
    ((respond delivered 1 no_content).1 ≡ true)
    × IsSettled 1 (run (respond delivered 1 no_content).0 history)
    × Sent 1 (run (respond delivered 1 no_content).0 history) (some no_content) []
answered_once_example =
    answered_once delivered 1 no_content history (omega (arith, delivered_state.3)) delivered-Inv
      delivered_state.0 delivered_state.5

-- Request 1 after its client left: it owes nothing.
abbrev left : Reactor
left = run delivered (Call.cancels 1 5 ∷ [])

left_state : (lookup 1 left.answers ≡ none) × (left.next_id ≡ 3) × Sent 1 left none []
unfolding new apply run deliver_request_with_id deliver_stream_request cancel_request lookup insert
    remove
left_state = (refl, refl, (refl, refl))

left-IsSettled : IsSettled 1 left
left-IsSettled = record { given = omega (arith, left_state.1); gone = left_state.0 }

left-Inv : Inv left
left-Inv =
    run-Inv delivered (Call.cancels 1 5 ∷ []) (omega (arith, delivered_state.3)) delivered-Inv

abbrev two_arrive : Wait
two_arrive = record {
  entered_us = 10;
  left_us = 90;
  spun = record { id = 4; outcome = Outcome.ready } ∷ [];
  waited = record { id = 5; outcome = Outcome.ready } ∷ [];
}
