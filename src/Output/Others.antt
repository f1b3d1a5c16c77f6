-- ===== src/Output/Others.antt =====
-- crates/ignis/src/php/output.rs: what the other fibers of a thread do beside a stream.
use ignis.Shared.{
  ℕ, ◌≡◌, ◌≢◌, refl, sym, ◌∙◌, inl, inr, List, [], ◌∷◌, ◌++◌, Option, none, some, Bytes, leb,
  lookup, insert, remove, length, Bool-cases, Option-cases,
}
use ignis.Output.{
  Output, Bound, write_all_to_stdout, Room, Settings, Wrote, push, ub_write, flush, stream_unbind,
  on_fiber_destroy, capture_take, takes, full_up, gone, taken, sends, rebind, stream_write,
  send_rest,
}
use ignis.Reactor.Answers.{stream_sender}
use ignis.Output.Push.{Beside, push-Beside}
use ignis.Output.Ops.{op_of, other_rest, Besides}
use ignis.Output.Streams.{
  Streaming, inserted-Streaming, removed-Streaming, beside-Streaming, rebind_other-Streaming,
  aside-Streaming,
}

-- A fiber that streams nothing writes.
unbound_write :
    (s : Settings) (key id k c : ℕ) (body text : Bytes) (room : Room) (answers : List Wrote)
    (o : Output)
    → (found : Option (List Bytes)) → lookup k o.sinks ≡ found
    → lookup k o.bound ≡ none
    → Streaming key id body o
    → Streaming key id body (ub_write s k (c ∷ text) room answers o).0
unfolding ub_write
unbound_write s key id k c body text room answers o none q e t =
    rw (e, q, ub_write)
      (aside-Streaming key id body (o.written ++ write_all_to_stdout (c ∷ text) answers) o.sinks o
        t)
unbound_write s key id k c body text room answers o (some []) q e t =
    rw (e, q, ub_write)
      (aside-Streaming key id body (o.written ++ write_all_to_stdout (c ∷ text) answers) o.sinks o
        t)
unbound_write s key id k c body text room answers o (some (buf ∷ stack)) q e t =
    rw (e, q, ub_write)
      (aside-Streaming key id body o.written (insert k ((buf ++ c ∷ text) ∷ stack) o.sinks) o t)

-- Another fiber's writes.
pub other_write :
    (s : Settings) (key id k : ℕ) (body bytes : Bytes) (room : Room) (answers : List Wrote)
    (o : Output)
    → k ≢ key
    → Streaming key id body o
    → Streaming key id body (ub_write s k bytes room answers o).0
unfolding ub_write
other_write s key id k body [] room answers o n t = t
other_write s key id k body (c ∷ text) room answers o n t = elim (Option-cases (lookup k o.bound)) [
  | inr (b, e) ↦
      let frame : Bytes = b.pending ++ (c ∷ text) in
      let m : b.id ≢ id = t.alone k b e n in
      let bare : Bound = record b { pending = [] } in
      elim (Bool-cases (leb s.frame_bytes (length frame))) [
        | inl y ↦
            rw (e, y, ub_write)
              (rebind_other-Streaming key id k body o bare (push s.chunks bare frame room o) n m
                (push-Beside id s.chunks bare frame room o m) t)
        | inr z ↦
            rw (e, z, ub_write)
              (inserted-Streaming key id k (record b { pending = frame }) body o n m t)
      ]
  | inl e ↦ unbound_write s key id k c body text room answers o (lookup k o.sinks) refl e t
]

pub other_flush :
    (s : Settings) (key id k : ℕ) (body : Bytes) (room : Room) (o : Output) (b : Bound)
    (pending : Bytes)
    → k ≢ key
    → lookup k o.bound ≡ some b
    → b.pending ≡ pending
    → Streaming key id body o
    → Streaming key id body (flush s k room o)
unfolding flush
other_flush s key id k body room o b [] n e p t = rw (e, p, flush) t
other_flush s key id k body room o b (c ∷ text) n e p t =
    let bare : Bound = record b { pending = [] } in
    let m : b.id ≢ id = t.alone k b e n in
    rw (e, p, flush)
      (rebind_other-Streaming key id k body o bare (push s.chunks bare (c ∷ text) room o) n m
        (push-Beside id s.chunks bare (c ∷ text) room o m) t)

pub other_unbind :
    (s : Settings) (key id k : ℕ) (body : Bytes) (room : Room) (o : Output) (b : Bound)
    (pending : Bytes)
    → k ≢ key
    → lookup k o.bound ≡ some b
    → b.pending ≡ pending
    → Streaming key id body o
    → Streaming key id body (stream_unbind s k room o).0
unfolding stream_unbind
other_unbind s key id k body room o b [] n e p t =
    rw (e, p, stream_unbind) (removed-Streaming key id k body o n t)
other_unbind s key id k body room o b (c ∷ text) n e p t =
    let bare : Bound = record b { pending = [] } in
    let m : b.id ≢ id = t.alone k b e n in
    let after : Output = (push s.chunks bare (c ∷ text) room o).0 in
    rw (e, p, stream_unbind)
      (removed-Streaming key id k body after n (
        beside-Streaming key id b.id body o (push s.chunks bare (c ∷ text) room o)
          (push-Beside id s.chunks bare (c ∷ text) room o m) t))

other_leftover :
    (key id k j : ℕ) (body back : Bytes) (c : Bound) (again : Room) (o : Output)
    → j ≢ id
    → Streaming key id body (rebind k (o, c, []))
    → let kept = rebind k (o, c, []) in
      let (after, result) =
        send_rest again
          (elim back [ [] ↦ (kept, taken) | d ∷ rest ↦ (kept, sends j (d ∷ rest)) ]) in
      Streaming key id body after × Besides id (op_of result)
unfolding send_rest
other_leftover key id k j body [] c again o n t = (t, tt)
other_leftover key id k j body (d ∷ rest) c takes o n t =
    elim (Bool-cases (stream_sender o.reactor j)) [
      | inl y ↦
          rw (y, send_rest) (other_rest key id j body (d ∷ rest) (rebind k (o, c, [])) n t, tt)
      | inr z ↦ rw (z, send_rest) (t, tt)
    ]
other_leftover key id k j body (d ∷ rest) c full_up o n t =
    elim (Bool-cases (stream_sender o.reactor j)) [
      | inl y ↦ rw (y, send_rest) (t, n)
      | inr z ↦ rw (z, send_rest) (t, tt)
    ]
other_leftover key id k j body (d ∷ rest) c gone o n t =
    elim (Bool-cases (stream_sender o.reactor j)) [
      | inl y ↦ rw (y, send_rest) (t, tt)
      | inr z ↦ rw (z, send_rest) (t, tt)
    ]

-- Another fiber's `ignis_stream_write`, and the op that it leaves.
pub other_stream :
    (s : Settings) (key id k : ℕ) (body bytes : Bytes) (room again : Room) (o : Output)
    → k ≢ key
    → Streaming key id body o
    → let (after, result) = send_rest again (stream_write s k bytes room o) in
      Streaming key id body after × Besides id (op_of result)
unfolding stream_write send_rest
other_stream s key id k body bytes room again o n t = elim (Option-cases (lookup k o.bound)) [
  | inl e ↦ rw (e, stream_write) (t, tt)
  | inr (b, e) ↦
      let bare : Bound = record b { pending = [] } in
      let frame : Bytes = b.pending ++ bytes in
      let m : b.id ≢ id = t.alone k b e n in
      let p : Output × Bound × Bytes = push s.chunks bare frame room o in
      let beside : Beside id b.id o p = push-Beside id s.chunks bare frame room o m in
      rw (e, stream_write)
        (other_leftover key id k b.id body p.2 p.1 again p.0 m (
          inserted-Streaming key id k (record (p.1) { pending = [] }) body p.0 n
            (λ x. m (sym beside.own_id ∙ x)) (beside-Streaming key id b.id body o p beside t)))
]

pub take-Streaming :
    (key id k : ℕ) (body : Bytes) (o : Output) (found : Option (List Bytes))
    → lookup k o.sinks ≡ found
    → Streaming key id body o
    → Streaming key id body (capture_take k o).0
unfolding capture_take
take-Streaming key id k body o none q t = rw (q, capture_take) t
take-Streaming key id k body o (some []) q t =
    rw (q, capture_take) (aside-Streaming key id body o.written (remove k o.sinks) o t)
take-Streaming key id k body o (some (buf ∷ [])) q t =
    rw (q, capture_take) (aside-Streaming key id body o.written (remove k o.sinks) o t)
take-Streaming key id k body o (some (buf ∷ lower ∷ stack)) q t =
    rw (q, capture_take)
      (aside-Streaming key id body o.written (insert k (lower ∷ stack) o.sinks) o t)

pub dies-Streaming :
    (key id k : ℕ) (body : Bytes) (o : Output)
    → k ≢ key
    → Streaming key id body o
    → Streaming key id body (on_fiber_destroy k o)
unfolding on_fiber_destroy
dies-Streaming key id k body o n t =
    removed-Streaming key id k body (record o { sinks = remove k o.sinks }) n
      (aside-Streaming key id body o.written (remove k o.sinks) o t)
