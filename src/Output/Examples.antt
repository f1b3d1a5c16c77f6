-- ===== src/Output/Examples.antt =====
-- The theorems on output at concrete fibers.
use ignis.Shared.{
  ℕ, remove, ◌≡◌, ◌≢◌, refl, inl, inr, List, [], ◌∷◌, codes, lookup, arith, pos, insert,
  if◌then◌else◌,
}
use ignis.Reactor.{Reactor, new, whole}
use ignis.Reactor.Answers.{respond_start, stream_sender}
use ignis.Output.{
  on_fiber_destroy, Output, Bound, bound_of, takes, full_up, gone, Settings, wrote, push, ub_write,
  capture_start, capture_take, stack_of, stream_write, send_rest,
}
use ignis.Output.Push.{sent}
use ignis.Output.Streams.{Act, writes, streams, captures, dies, act, run, text_of, Streaming}
use ignis.Output.Ops.{Awaiting, Event, does, settles, left_by, await, settle, happen, happen_all}
use ignis.Output.InOrder.{AllFit, StreamsAll, body_of, body_in_order}
use ignis.Output.Captures.{is_bound, capture_takes_writes}

abbrev settings : Settings
settings = record { chunks = 2; frame_bytes = 4 }

abbrev page : Bound
page = bound_of 1 (pos 200) []

abbrev owing : Reactor
unfolding new
owing = record (new 0) { answers = (1, whole) ∷ [] }

-- Fiber 7 streams the response 1, and fiber 9 is a script.
abbrev two_fibers : Output
two_fibers = record {
  sinks = [];
  bound = (7, page) ∷ [];
  reactor = owing;
  frames = [];
  written = [];
}

page_streams : Streaming 7 1 [] two_fibers
unfolding lookup new
page_streams = record {
  binding = page;
  found = refl;
  same_id = refl;
  still_open = inr (refl, refl, refl);
  whole_body = refl;
  alone = λ k c q n. ground (arith, q, n);
}

-- The channel is full twice: an echo stays pending, and an op waits.
abbrev interleaved : List Event
interleaved =
    does 7 (writes (codes "hello") takes [])
    ∷ does 9 (writes (codes "log") gone (wrote 3 ∷ []))
    ∷ does 7 (writes (codes " you") full_up [])
    ∷ does 7 (streams (codes " two") full_up full_up)
    ∷ does 9 dies
    ∷ settles 7 takes
    ∷ does 7 (writes (codes "!") takes [])
    ∷ []

abbrev awaiting : Awaiting
awaiting = record { output = two_fibers; ops = [] }

full_up_stays : full_up ≢ gone
full_up_stays e = ground (arith, e)

takes_stays : takes ≢ gone
takes_stays e = ground (arith, e)

interleaved-AllFit : AllFit settings 7 1 interleaved awaiting
unfolding happen left_by await settle act ub_write push respond_start stream_sender lookup new
    on_fiber_destroy remove insert stream_write send_rest
interleaved-AllFit = (
  inr takes_stays,
  refl,
  (
    inl (λ e. ground (arith, e)),
    refl,
    (
      inr full_up_stays,
      refl,
      (
        inr (full_up_stays, full_up_stays),
        refl,
        ((λ e. ground (arith, e)), refl, (inr takes_stays, tt, (inr takes_stays, refl, tt))),
      ),
    ),
  ),
)

body_in_order_example :
    StreamsAll 7 1 (body_of 7 interleaved) (happen_all settings interleaved awaiting)
unfolding lookup
body_in_order_example =
    body_in_order settings 7 1 [] interleaved awaiting interleaved-AllFit
      (record { own = page_streams; apart = λ k j rest q n. ground (arith, q, n) })

interleaved_body :
    (sent 1 (happen_all settings interleaved awaiting).output.frames ≡ codes "hello you two")
    × (body_of 7 interleaved ≡ codes "hello you two!")
unfolding happen_all happen left_by await settle act ub_write push respond_start stream_sender
    lookup new on_fiber_destroy remove insert stream_write send_rest
interleaved_body = (refl, refl)

abbrev captured : List (ℕ × Act)
captured =
    (9, writes (codes "in") takes []) ∷ (7, captures) ∷ (9, writes (codes "ner") takes []) ∷ []

capture_takes_writes_example :
    let (after, taken) = capture_take 9 (run settings captured (capture_start 9 two_fibers)) in
    (taken ≡ (if is_bound (lookup 9 two_fibers.bound) then [] else text_of 9 captured))
    × (stack_of (lookup 9 after.sinks) ≡ stack_of (lookup 9 two_fibers.sinks))
capture_takes_writes_example =
    capture_takes_writes settings 9 captured two_fibers (tt, ((λ e. ground (arith, e)), (tt, tt)))
