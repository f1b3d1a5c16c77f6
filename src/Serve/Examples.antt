-- ===== src/Serve/Examples.antt =====
-- The theorems on an exchange at a request whose client leaves while the answer streams.
use ignis.Shared.{
  ◌+◌, ◌<◌, ◌≡◌, refl, true, false, List, [], ◌∷◌, none, codes, lookup, insert, remove, arith,
  u64_mod,
}
use ignis.Reactor.{Reactor, new}
use ignis.Reactor.Answers.{deliver_request_with_id, respond_start, drop_receiver, stream_sender}
use ignis.Reactor.Calls.{apply, starts}
use ignis.Reactor.Answers.Invariant.{new-Inv}
use ignis.Serve.{
  CancelOnDrop, whole_body, over, awaits, waiting, Move, calls, moves, polls_request, polls_body,
  hangs_up, run, happen, handle, handle_php, collect_body, poll_request, answer, php_response,
  poll_frame, disarmed_for_this_answer,
}
use ignis.Serve.Owed.{cancellation, over_owes_nothing, hang_up_cancels}

abbrev idle : Reactor
idle = new 0

abbrev guard : CancelOnDrop
guard = record { id = 1; answered = false }

abbrev begun : Reactor
begun = (handle (codes "/feed") false (codes "GET") (codes "/feed") [] (whole_body []) idle).0

abbrev streamed : List Move
streamed =
    moves (polls_request true) 5
    ∷ calls (starts 1 200 [] 16)
    ∷ moves (polls_request true) 6
    ∷ moves (polls_body false) 7
    ∷ []

idle-awaits :
    (handle (codes "/feed") false (codes "GET") (codes "/feed") [] (whole_body []) idle).1
    ≡ awaits guard
unfolding handle handle_php collect_body deliver_request_with_id new insert
idle-awaits = refl

few_ids : begun.next_id + 5 < u64_mod
unfolding handle handle_php collect_body deliver_request_with_id new insert
few_ids = omega arith

over_after : (run (moves hangs_up 9 ∷ []) (begun, waiting guard)).1 ≡ over
unfolding run happen
over_after = refl

fewer_ids : begun.next_id + 1 < u64_mod
fewer_ids = omega (arith, few_ids)

first_ids : idle.next_id + 1 < u64_mod
unfolding new
first_ids = omega arith

over_owes_nothing_example :
    lookup 1 (run (moves hangs_up 9 ∷ []) (begun, waiting guard)).0.answers ≡ none
over_owes_nothing_example =
    over_owes_nothing (codes "/feed") false (codes "GET") (codes "/feed") [] (whole_body []) idle
      guard (moves hangs_up 9 ∷ []) (new-Inv 0) first_ids idle-awaits fewer_ids over_after

-- The chunks are still being sent.
stream_owed : stream_sender (run streamed (begun, waiting guard)).0 1 ≡ true
unfolding run happen handle handle_php collect_body deliver_request_with_id new insert lookup remove
    apply respond_start poll_request answer php_response drop_receiver disarmed_for_this_answer
    poll_frame stream_sender
stream_owed = refl

less_ids : begun.next_id + 4 < u64_mod
less_ids = omega (arith, few_ids)

hang_up_cancels_example :
    (happen hangs_up 9 (run streamed (begun, waiting guard))).0.from_tokio
    ≡ cancellation 1 9 (run streamed (begun, waiting guard)).0
hang_up_cancels_example =
    hang_up_cancels (codes "/feed") false (codes "GET") (codes "/feed") [] (whole_body []) idle
      guard streamed 9 (new-Inv 0) first_ids idle-awaits less_ids
