-- ===== src/Output/Ops.antt =====
-- crates/ignis/src/php/output.rs and crates/ignis/src/php/module.rs: the ops of
-- `ignis_stream_write`, which wait for room in the channel of a response while the fiber is parked.
use ignis.Shared.{
  ℕ, ◌≡◌, ◌≢◌, refl, sym, ap, subst, ◌∙◌, true, List, [], ◌∷◌, ◌++◌, Option, none, some, Bytes,
  lookup, insert, remove, lookup-insert_self, arith,
}
use mathlib.Core.List.{append-nil, append_assoc}
use ignis.Reactor.Answers.{stream_sender}
use ignis.Output.{
  Output, Bound, Room, takes, full_up, gone, Settings, Written, not_streaming, taken, sends, push,
  rebind, send_frame, stream_write, send_rest,
}
use ignis.Output.Push.{sent, push-Pushed, push-sender, send_frame-sent, send_frame-other}
use ignis.Output.Streams.{Act, streams, act, Streaming, rebind-Streaming}

-- A thread's output and the ops that wait, by the fibers that await them: a response and the bytes.
pub record Awaiting : Type 0 where
  pub output : Output
  pub ops : List (ℕ × (ℕ × Bytes))

-- What happens on a thread: a fiber acts, or the channel that a fiber's op waits for answers it.
pub data Event : Type 0 where
  does : (key : ℕ) → Act → Event
  settles : (key : ℕ) → Room → Event

abbrev pub op_of : Written → Option (ℕ × Bytes)
op_of not_streaming = none
op_of taken = none
op_of (sends id rest) = some (id, rest)

-- The op that an act leaves.
unfoldable pub left_by : Settings → (key : ℕ) → Act → Output → Option (ℕ × Bytes)
left_by s key (streams bytes room again) o =
    op_of (send_rest again (stream_write s key bytes room o)).1
left_by s key _ o = none

unfoldable pub await :
    (key : ℕ) → Option (ℕ × Bytes) → List (ℕ × (ℕ × Bytes)) → List (ℕ × (ℕ × Bytes))
await key none ops = ops
await key (some op) ops = insert key op ops

-- A sender that waits gets room, or learns that the client has gone, or goes on waiting.
unfoldable pub settle : (key : ℕ) → Room → Awaiting → Awaiting
settle key room w = elim (lookup key w.ops) [
  | none ↦ w
  | some (id, rest) ↦ elim room [
    | full_up ↦ w
    | takes ↦ record w { output = (send_frame id rest takes w.output).0; ops = remove key w.ops }
    | gone ↦ record w { ops = remove key w.ops }
  ]
]

unfoldable pub happen : Settings → Event → Awaiting → Awaiting
unfolding act left_by settle await
happen s (does key a) w = record w {
  output = act s key a w.output;
  ops = await key (left_by s key a w.output) w.ops;
}
happen s (settles key room) w = settle key room w

unfoldable pub happen_all : Settings → List Event → Awaiting → Awaiting
unfolding happen
happen_all s [] w = w
happen_all s (e ∷ events) w = happen_all s events (happen s e w)

abbrev pub pending_of : Option Bound → Bytes
pending_of none = []
pending_of (some b) = b.pending

-- The fiber streams the response, but for what its op has still to send.
abbrev pub Owes : (key id : ℕ) → Bytes → Output → Option (ℕ × Bytes) → Type 0
Owes key id body o none = Streaming key id body o
Owes key id body o (some (j, rest)) =
    (j ≡ id)
    × ((sofar : Bytes) × Streaming key id sofar o
        × (sofar ++ rest ≡ body)
        × (pending_of (lookup key o.bound) ≡ []))

-- An op that is of another response.
abbrev pub Besides : (id : ℕ) → Option (ℕ × Bytes) → Type 0
Besides id none = Unit
Besides id (some (j, rest)) = j ≢ id

-- The rest is sent, with nothing pending.
pub own_rest :
    (key id j : ℕ) (body sofar rest : Bytes) (o : Output)
    → j ≡ id
    → Streaming key id sofar o
    → sofar ++ rest ≡ body
    → pending_of (lookup key o.bound) ≡ []
    → Streaming key id body (send_frame j rest takes o).0
own_rest key id j body sofar rest o e t whole nothing =
    let empty : t.binding.pending ≡ [] = sym (ap pending_of t.found) ∙ nothing in
    let gone_out : sent id o.frames ≡ sofar =
      sym (append-nil (sent id o.frames))
      ∙ (ap (λ (x : Bytes). sent id o.frames ++ x) (sym empty) ∙ t.whole_body) in
    record {
      binding = t.binding;
      found = t.found;
      same_id = t.same_id;
      still_open = t.still_open;
      whole_body =
          ap (λ (x : Bytes). sent id (o.frames ++ (j, rest) ∷ []) ++ x) empty
          ∙ (subst (λ (i : ℕ). sent i (o.frames ++ (j, rest) ∷ []) ++ [] ≡ sent i o.frames ++ rest)
                e (send_frame-sent j rest takes o (λ q. ground (arith, q)))
              ∙ (ap (λ (x : Bytes). x ++ rest) gone_out ∙ whole));
      alone = t.alone;
    }

-- Another fiber's rest is sent.
pub other_rest :
    (key id j : ℕ) (body rest : Bytes) (o : Output)
    → j ≢ id
    → Streaming key id body o
    → Streaming key id body (send_frame j rest takes o).0
other_rest key id j body rest o n t = record {
  binding = t.binding;
  found = t.found;
  same_id = t.same_id;
  still_open = t.still_open;
  whole_body =
      ap (λ (x : Bytes). x ++ t.binding.pending) (send_frame-other id j rest takes o n)
      ∙ t.whole_body;
  alone = t.alone;
}

-- What did not fit of the fiber's own frame.
leftover_sent :
    (key id j : ℕ) (body sofar back : Bytes) (c : Bound) (again : Room) (o : Output)
    → again ≢ gone
    → j ≡ id
    → stream_sender o.reactor j ≡ true
    → Streaming key id sofar (rebind key (o, c, []))
    → sofar ++ back ≡ body
    → let kept = rebind key (o, c, []) in
      let (after, result) =
        send_rest again
          (elim back [ [] ↦ (kept, taken) | d ∷ rest ↦ (kept, sends j (d ∷ rest)) ]) in
      Owes key id body after (op_of result)
unfolding send_rest
leftover_sent key id j body sofar [] c again o n e y t whole =
    subst (λ (b : Bytes). Streaming key id b (rebind key (o, c, [])))
      (sym (append-nil sofar) ∙ whole) t
leftover_sent key id j body sofar (d ∷ rest) c takes o n e y t whole =
    rw (y, send_rest)
      (own_rest key id j body sofar (d ∷ rest) (rebind key (o, c, [])) e t whole
        (ap pending_of (lookup-insert_self key (record c { pending = [] }) o.bound)))
leftover_sent key id j body sofar (d ∷ rest) c full_up o n e y t whole =
    rw (y, send_rest)
      (
        e,
        (
          sofar,
          t,
          whole,
          ap pending_of (lookup-insert_self key (record c { pending = [] }) o.bound),
        ),
      )
leftover_sent key id j body sofar (d ∷ rest) c gone o n e y t whole = elim (n refl) [ ]

-- The fiber's own `ignis_stream_write`.
pub own_stream :
    (s : Settings) (key id : ℕ) (body bytes : Bytes) (room again : Room) (o : Output)
    → room ≢ gone
    → again ≢ gone
    → Streaming key id body o
    → let (after, result) = send_rest again (stream_write s key bytes room o) in
      Owes key id (body ++ bytes) after (op_of result)
unfolding stream_write
own_stream s key id body bytes room again o n m t =
    let b : Bound = record (t.binding) { pending = [] } in
    let frame : Bytes = t.binding.pending ++ bytes in
    let p : Output × Bound × Bytes = push s.chunks b frame room o in
    let h = push-Pushed s.chunks b frame room o t.still_open n in
    let sofar : Bytes = sent id p.0.frames in
    let streamed : Streaming key id (sofar ++ []) (rebind key (p.0, p.1, [])) =
      rebind-Streaming key id [] p.0 p.1 (p.0, p.1, []) (h.same_id ∙ t.same_id)
        (λ k d q. t.alone k d (ap (lookup k) (sym h.kept) ∙ q))
        (record { bytes = refl; same_id = refl; still_open = h.still_open; kept = refl }) in
    let whole : sofar ++ p.2 ≡ body ++ bytes =
      subst (λ (i : ℕ). sent i p.0.frames ++ p.2 ≡ sent i o.frames ++ frame) t.same_id h.bytes
      ∙ (sym (append_assoc (sent id o.frames) t.binding.pending bytes)
          ∙ ap (λ (x : Bytes). x ++ bytes) t.whole_body) in
    rw (t.found, stream_write)
      (leftover_sent key id b.id (body ++ bytes) sofar p.2 p.1 again p.0 m t.same_id
        (push-sender s.chunks b frame room o t.still_open)
        (subst (λ (x : Bytes). Streaming key id x (rebind key (p.0, p.1, []))) (append-nil sofar)
          streamed)
        whole)
