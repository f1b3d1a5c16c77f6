-- ===== src/Output/Apart.antt =====
-- crates/ignis/src/php/output.rs: what a fiber does leaves the buffers and the binding of another.
use ignis.Shared.{
  ℕ, ◌≡◌, ◌≢◌, refl, ap, ◌∙◌, inl, inr, List, [], ◌∷◌, ◌++◌, Option, none, some, Bytes, leb, lookup,
  length, lookup-insert_other, lookup-remove_other, arith, Bool-cases, Option-cases,
}
use ignis.Output.{
  Output, Bound, bound_of, stack_of, Room, takes, full_up, gone, Settings, Wrote, push, rebind,
  ub_write, flush, stream_bind, stream_unbind, on_fiber_destroy, capture_start, capture_take,
  capture_reset, taken, sends, stream_write, send_rest,
}
use ignis.Reactor.Answers.{stream_sender}
use ignis.Output.Streams.{
  Act, writes, flushes, captures, takes_back, binds, unbinds, resets, dies, act, streams,
}

pub push_keeps :
    (chunks : ℕ) (b : Bound) (frame : Bytes) (room : Room) (o : Output)
    → ((push chunks b frame room o).0.sinks ≡ o.sinks)
      × ((push chunks b frame room o).0.bound ≡ o.bound)
unfolding push
push_keeps chunks b frame takes o = (ground arith, ground arith)
push_keeps chunks b frame full_up o = (ground arith, ground arith)
push_keeps chunks b frame gone o = (ground arith, ground arith)

-- The buffers and the binding of a fiber are as they were.
abbrev pub Keeps : ℕ → Output → Output → Type 0
Keeps key o after =
    (lookup key after.sinks ≡ lookup key o.sinks) × (lookup key after.bound ≡ lookup key o.bound)

module _ (s : Settings) (key k : ℕ) (n : k ≢ key) (room : Room) (o : Output) where
  pushed-Keeps : (b : Bound) (frame : Bytes) → Keeps key o (rebind k (push s.chunks b frame room o))
  pushed-Keeps b frame =
      let p : Output × Bound × Bytes = push s.chunks b frame room o in
      let (e, f) = push_keeps s.chunks b frame room o in
      (
        ap (lookup key) e,
        lookup-insert_other k key (record (p.1) { pending = p.2 }) p.0.bound n ∙ ap (lookup key) f,
      )

  unbound-Keeps :
      (c : ℕ) (text : Bytes) (answers : List Wrote) (found : Option (List Bytes))
      → lookup k o.sinks ≡ found
      → lookup k o.bound ≡ none
      → Keeps key o (ub_write s k (c ∷ text) room answers o).0
  unfolding ub_write
  unbound-Keeps c text answers none q e = rw (e, q, ub_write) (refl, refl)
  unbound-Keeps c text answers (some []) q e = rw (e, q, ub_write) (refl, refl)
  unbound-Keeps c text answers (some (buf ∷ stack)) q e =
      rw (e, q, ub_write) (lookup-insert_other k key ((buf ++ c ∷ text) ∷ stack) o.sinks n, refl)

  written-Keeps :
      (bytes : Bytes) (answers : List Wrote) → Keeps key o (ub_write s k bytes room answers o).0
  unfolding ub_write
  written-Keeps [] answers = (refl, refl)
  written-Keeps (c ∷ text) answers = elim (Option-cases (lookup k o.bound)) [
    | inl e ↦ unbound-Keeps c text answers (lookup k o.sinks) refl e
    | inr (b, e) ↦
        let frame : Bytes = b.pending ++ (c ∷ text) in
        elim (Bool-cases (leb s.frame_bytes (length frame))) [
          | inl y ↦ rw (e, y, ub_write) (pushed-Keeps (record b { pending = [] }) frame)
          | inr z ↦
              rw (e, z, ub_write)
                (refl, lookup-insert_other k key (record b { pending = frame }) o.bound n)
        ]
  ]

  flushed-Keeps :
      (b : Bound) (pending : Bytes)
      → lookup k o.bound ≡ some b
      → b.pending ≡ pending
      → Keeps key o (flush s k room o)
  unfolding flush
  flushed-Keeps b [] e p = rw (e, p, flush) (refl, refl)
  flushed-Keeps b (c ∷ text) e p =
      rw (e, p, flush) (pushed-Keeps (record b { pending = [] }) (c ∷ text))

  unbinds-Keeps :
      (b : Bound) (pending : Bytes)
      → lookup k o.bound ≡ some b
      → b.pending ≡ pending
      → Keeps key o (stream_unbind s k room o).0
  unfolding stream_unbind
  unbinds-Keeps b [] e p = rw (e, p, stream_unbind) (refl, lookup-remove_other k key o.bound n)
  unbinds-Keeps b (c ∷ text) e p =
      let (f, g) = push_keeps s.chunks (record b { pending = [] }) (c ∷ text) room o in
      rw (e, p, stream_unbind)
        (
          ap (lookup key) f,
          lookup-remove_other k key
                (push s.chunks (record b { pending = [] }) (c ∷ text) room o).0.bound n
              ∙ ap (lookup key) g,
        )

  rest-Keeps :
      (again : Room) (after : Output) (id : ℕ) (back : Bytes)
      → Keeps key o after
      → Keeps key o
          (send_rest again
            (elim back [ [] ↦ (after, taken) | c ∷ rest ↦ (after, sends id (c ∷ rest)) ])).0
  unfolding send_rest
  rest-Keeps again after id [] h = h
  rest-Keeps takes after id (c ∷ rest) h = elim (Bool-cases (stream_sender after.reactor id)) [
    | inl y ↦ rw (y, send_rest) h
    | inr z ↦ rw (z, send_rest) h
  ]
  rest-Keeps full_up after id (c ∷ rest) h = elim (Bool-cases (stream_sender after.reactor id)) [
    | inl y ↦ rw (y, send_rest) h
    | inr z ↦ rw (z, send_rest) h
  ]
  rest-Keeps gone after id (c ∷ rest) h = elim (Bool-cases (stream_sender after.reactor id)) [
    | inl y ↦ rw (y, send_rest) h
    | inr z ↦ rw (z, send_rest) h
  ]

  streamed-Keeps :
      (bytes : Bytes) (again : Room)
      → Keeps key o (send_rest again (stream_write s k bytes room o)).0
  unfolding stream_write send_rest
  streamed-Keeps bytes again = elim (Option-cases (lookup k o.bound)) [
    | inl e ↦ rw (e, stream_write) (refl, refl)
    | inr (b, e) ↦
        let bare : Bound = record b { pending = [] } in
        let frame : Bytes = b.pending ++ bytes in
        let p : Output × Bound × Bytes = push s.chunks bare frame room o in
        let (f, g) = push_keeps s.chunks bare frame room o in
        rw (e, stream_write)
          (rest-Keeps again (rebind k (p.0, p.1, [])) b.id p.2 (
            ap (lookup key) f,
            lookup-insert_other k key (record (p.1) { pending = [] }) p.0.bound n
                ∙ ap (lookup key) g,
          ))
  ]

  takes-Keeps :
      (found : Option (List Bytes)) → lookup k o.sinks ≡ found → Keeps key o (capture_take k o).0
  unfolding capture_take
  takes-Keeps none q = rw (q, capture_take) (refl, refl)
  takes-Keeps (some []) q = rw (q, capture_take) (lookup-remove_other k key o.sinks n, refl)
  takes-Keeps (some (buf ∷ [])) q = rw (q, capture_take) (lookup-remove_other k key o.sinks n, refl)
  takes-Keeps (some (buf ∷ lower ∷ stack)) q =
      rw (q, capture_take) (lookup-insert_other k key (lower ∷ stack) o.sinks n, refl)

pub other-Keeps :
    (s : Settings) (key k : ℕ) (a : Act) (o : Output) → k ≢ key → Keeps key o (act s k a o)
unfolding act flush capture_start stream_bind stream_unbind capture_reset on_fiber_destroy
other-Keeps s key k (writes bytes room answers) o n = written-Keeps s key k n room o bytes answers
other-Keeps s key k (flushes room) o n = elim (Option-cases (lookup k o.bound)) [
  | inl e ↦ rw (e, flush) (refl, refl)
  | inr (b, e) ↦ flushed-Keeps s key k n room o b b.pending e refl
]
other-Keeps s key k (streams bytes room again) o n = streamed-Keeps s key k n room o bytes again
other-Keeps s key k captures o n =
    (lookup-insert_other k key ([] ∷ stack_of (lookup k o.sinks)) o.sinks n, refl)
other-Keeps s key k takes_back o n = takes-Keeps s key k n gone o (lookup k o.sinks) refl
other-Keeps s key k (binds id status headers) o n =
    (refl, lookup-insert_other k key (bound_of id status headers) o.bound n)
other-Keeps s key k (unbinds room) o n = elim (Option-cases (lookup k o.bound)) [
  | inl e ↦ rw (e, act, stream_unbind) (refl, refl)
  | inr (b, e) ↦ unbinds-Keeps s key k n room o b b.pending e refl
]
other-Keeps s key k resets o n =
    (lookup-remove_other k key o.sinks n, lookup-remove_other k key o.bound n)
other-Keeps s key k dies o n =
    (lookup-remove_other k key o.sinks n, lookup-remove_other k key o.bound n)
