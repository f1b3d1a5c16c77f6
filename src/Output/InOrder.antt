-- ===== src/Output/InOrder.antt =====
-- crates/ignis/src/php/output.rs: the body that a client is sent is what its fiber gives its
-- response, in order, whatever the thread's other fibers do.
use ignis.Shared.{
  ℕ, ◌≡◌, ◌≢◌, refl, sym, ap, subst, ◌∙◌, ◌⊎◌, inl, inr, Bool, List, [], ◌∷◌, ◌++◌, Option, none,
  some, Bytes, ◌==◌, if◌then◌else◌, lookup, insert, remove, lookup-insert, lookup-insert_self,
  lookup-insert_other, lookup-remove_self, lookup-remove_other, lookup-remove, arith, eq_of_==,
  ne_of_==, Bool-cases, Option-cases,
}
use mathlib.Core.List.{append-nil, append_assoc}
use ignis.Output.{Output, Room, takes, full_up, gone, Settings, send_frame}
use ignis.Output.Streams.{Act, act, Allowed}
use ignis.Output.Ops.{
  Awaiting, Event, does, settles, left_by, await, settle, happen, happen_all, Owes, Besides,
  own_rest, other_rest,
}
use ignis.Output.Owed.{given, other-Owes, own-Owes}

abbrev pub given_by : (key : ℕ) → Event → Bytes
given_by key (does k a) = if k == key then given a else []
given_by key (settles k room) = []

-- What the fiber `key` gives to its response, echoed or by `ignis_stream_write`.
abbrev pub body_of : (key : ℕ) → List Event → Bytes
body_of key [] = []
body_of key (e ∷ events) = given_by key e ++ body_of key events

-- The client of the fiber's op is there.
abbrev pub Fits : (key id : ℕ) → Event → Type 0
Fits key id (does k a) = Allowed key id (k, a)
Fits key id (settles k room) = (k ≢ key) ⊎ (room ≢ gone)

-- A fiber whose op waits is parked.
abbrev pub Runs : Event → Awaiting → Type 0
Runs (does k a) w = lookup k w.ops ≡ none
Runs (settles k room) w = Unit

abbrev pub AllFit : Settings → (key id : ℕ) → List Event → Awaiting → Type 0
AllFit s key id [] w = Unit
AllFit s key id (e ∷ events) w = Fits key id e × Runs e w × AllFit s key id events (happen s e w)

-- The ops that other fibers await are of other responses.
abbrev Apart : (key id : ℕ) → List (ℕ × (ℕ × Bytes)) → Type 0
Apart key id ops = (k j : ℕ) (rest : Bytes) → lookup k ops ≡ some (j, rest) → k ≢ key → j ≢ id

-- The fiber streams the response `id`, alone; `body` is what its client has, then what is pending or
-- what the op that it awaits has still to send.
pub record StreamsAll (key id : ℕ) (body : Bytes) (w : Awaiting) : Type 0 where
  pub own : Owes key id body w.output (lookup key w.ops)
  pub apart : (k j : ℕ) (rest : Bytes) → lookup k w.ops ≡ some (j, rest) → k ≢ key → j ≢ id

abbrev id_of : Option (ℕ × Bytes) → ℕ
id_of none = 0
id_of (some (j, rest)) = j

other_await :
    (key id k : ℕ) (op : Option (ℕ × Bytes)) (ops : List (ℕ × (ℕ × Bytes)))
    → k ≢ key
    → Besides id op
    → Apart key id ops
    → (lookup key (await k op ops) ≡ lookup key ops) × Apart key id (await k op ops)
unfolding await
other_await key id k none ops n b apart = (refl, apart)
other_await key id k (some (i, bytes)) ops n b apart = (
  lookup-insert_other k key (i, bytes) ops n,
  λ m j rest q l. elim (Bool-cases (k == m)) [
    | inl y ↦
        let e : lookup m (insert k (i, bytes) ops) ≡ some (i, bytes) =
          lookup-insert k m (i, bytes) ops
          ∙ ap (λ (t : Bool). if t then some (i, bytes) else lookup m ops) y in
        λ x. b (ap id_of (sym e ∙ q) ∙ x)
    | inr z ↦ apart m j rest (sym (lookup-insert_other k m (i, bytes) ops (ne_of_== k m z)) ∙ q) l
  ],
)

own_await :
    (key id : ℕ) (op : Option (ℕ × Bytes)) (ops : List (ℕ × (ℕ × Bytes)))
    → lookup key ops ≡ none
    → Apart key id ops
    → (lookup key (await key op ops) ≡ op) × Apart key id (await key op ops)
unfolding await
own_await key id none ops e apart = (e, apart)
own_await key id (some v) ops e apart = (
  lookup-insert_self key v ops,
  λ m j rest q l. apart m j rest (sym (lookup-insert_other key m v ops (λ x. l (sym x))) ∙ q) l,
)

removed-Apart :
    (key id k : ℕ) (ops : List (ℕ × (ℕ × Bytes))) → Apart key id ops → Apart key id (remove k ops)
removed-Apart key id k ops apart m j rest q l = elim (Bool-cases (k == m)) [
  | inl y ↦ λ x. ground (arith, lookup-remove k m ops, y, q)
  | inr z ↦ apart m j rest (sym (lookup-remove_other k m ops (ne_of_== k m z)) ∙ q) l
]

did_own :
    (s : Settings) (key id : ℕ) (body : Bytes) (a : Act) (w : Awaiting)
    → Allowed key id (key, a)
    → lookup key w.ops ≡ none
    → StreamsAll key id body w
    → StreamsAll key id (body ++ given a) (happen s (does key a) w)
unfolding happen
did_own s key id body a w h free t =
    let op : Option (ℕ × Bytes) = left_by s key a w.output in
    let (e, apart) = own_await key id op w.ops free t.apart in
    record {
      own =
          subst (Owes key id (body ++ given a) (act s key a w.output)) (sym e)
            (own-Owes s key id body a w.output h (subst (Owes key id body w.output) free t.own));
      apart = apart;
    }

did_other :
    (s : Settings) (key id k : ℕ) (body : Bytes) (a : Act) (w : Awaiting)
    → k ≢ key
    → Allowed key id (k, a)
    → StreamsAll key id body w
    → StreamsAll key id body (happen s (does k a) w)
unfolding happen
did_other s key id k body a w n h t =
    let (own, besides) = other-Owes s key id k body a w.output (lookup key w.ops) n h t.own in
    let (e, apart) = other_await key id k (left_by s k a w.output) w.ops n besides t.apart in
    record { own = subst (Owes key id body (act s k a w.output)) (sym e) own; apart = apart }

room_of : {key k : ℕ} {room : Room} → (k ≢ key) ⊎ (room ≢ gone) → k ≡ key → room ≢ gone
room_of (inl n) e = elim (n e) [ ]
room_of (inr h) e = h

rest-Owes :
    (key id j : ℕ) (body rest : Bytes) (o : Output) (op : Option (ℕ × Bytes))
    → j ≢ id
    → Owes key id body o op
    → Owes key id body (send_frame j rest takes o).0 op
rest-Owes key id j body rest o none n t = other_rest key id j body rest o n t
rest-Owes key id j body rest o (some (i, own)) n (e, (sofar, t, whole, nothing)) =
    (e, (sofar, other_rest key id j sofar rest o n t, whole, nothing))

settled_own :
    (key id j : ℕ) (body rest : Bytes) (room : Room) (w : Awaiting)
    → room ≢ gone
    → lookup key w.ops ≡ some (j, rest)
    → StreamsAll key id body w
    → StreamsAll key id body (settle key room w)
unfolding settle
settled_own key id j body rest takes w n e t =
    let (same, (sofar, streamed, whole, nothing)) = subst (Owes key id body w.output) e t.own in
    rw (e, settle)
      (record {
        own =
            subst (Owes key id body (send_frame j rest takes w.output).0)
              (sym (lookup-remove_self key w.ops))
              (own_rest key id j body sofar rest w.output same streamed whole nothing);
        apart = removed-Apart key id key w.ops t.apart;
      })
settled_own key id j body rest full_up w n e t = rw (e, settle) t
settled_own key id j body rest gone w n e t = elim (n refl) [ ]

settled_other :
    (key id k j : ℕ) (body rest : Bytes) (room : Room) (w : Awaiting)
    → k ≢ key
    → lookup k w.ops ≡ some (j, rest)
    → StreamsAll key id body w
    → StreamsAll key id body (settle k room w)
unfolding settle
settled_other key id k j body rest takes w n e t =
    rw (e, settle)
      (record {
        own =
            subst (Owes key id body (send_frame j rest takes w.output).0)
              (sym (lookup-remove_other k key w.ops n))
              (rest-Owes key id j body rest w.output (lookup key w.ops) (t.apart k j rest e n)
                t.own);
        apart = removed-Apart key id k w.ops t.apart;
      })
settled_other key id k j body rest full_up w n e t = rw (e, settle) t
settled_other key id k j body rest gone w n e t =
    rw (e, settle)
      (record {
        own = subst (Owes key id body w.output) (sym (lookup-remove_other k key w.ops n)) t.own;
        apart = removed-Apart key id k w.ops t.apart;
      })

settled :
    (key id k : ℕ) (body : Bytes) (room : Room) (w : Awaiting)
    → (k ≢ key) ⊎ (room ≢ gone)
    → StreamsAll key id body w
    → StreamsAll key id body (settle k room w)
unfolding settle
settled key id k body room w h t = elim (Option-cases (lookup k w.ops)) [
  | inl e ↦ rw (e, settle) t
  | inr ((j, rest), e) ↦ elim (Bool-cases (k == key)) [
    | inl y ↦
        let q : k ≡ key = eq_of_== k key y in
        subst (λ (i : ℕ). StreamsAll key id body (settle i room w)) (sym q)
          (settled_own key id j body rest room w (room_of h q)
            (subst (λ (i : ℕ). lookup i w.ops ≡ some (j, rest)) q e) t)
    | inr z ↦ settled_other key id k j body rest room w (ne_of_== k key z) e t
  ]
]

happened :
    (s : Settings) (key id : ℕ) (body : Bytes) (e : Event) (w : Awaiting)
    → Fits key id e
    → Runs e w
    → StreamsAll key id body w
    → StreamsAll key id (body ++ given_by key e) (happen s e w)
unfolding happen
happened s key id body (settles k room) w h free t =
    subst (λ (b : Bytes). StreamsAll key id b (settle k room w)) (sym (append-nil body))
      (settled key id k body room w h t)
happened s key id body (does k a) w h free t = elim (Bool-cases (k == key)) [
  | inl y ↦
      let q : k ≡ key = eq_of_== k key y in
      rw (y, given_by)
        (subst (λ (i : ℕ). StreamsAll key id (body ++ given a) (happen s (does i a) w)) (sym q)
          (did_own s key id body a w (subst (λ (i : ℕ). Allowed key id (i, a)) q h)
            (subst (λ (i : ℕ). lookup i w.ops ≡ none) q free) t))
  | inr z ↦
      rw (z, given_by)
        (subst (λ (b : Bytes). StreamsAll key id b (happen s (does k a) w)) (sym (append-nil body))
          (did_other s key id k body a w (ne_of_== k key z) h t))
]

-- A fiber that streams a response alone, with its client there, and any acts of the thread's fibers
-- in any order, in which it neither ends the stream nor begins another, no other fiber binds the same
-- response, and a fiber does nothing while the op of its `ignis_stream_write` waits: what its client
-- was sent, followed by what is pending or what its op has still to send, is what it was before,
-- followed by what the fiber echoed and wrote to the stream, in order; and the fiber still streams it
-- alone.
pub body_in_order :
    (s : Settings) (key id : ℕ) (body : Bytes) (events : List Event) (w : Awaiting)
    → AllFit s key id events w
    → StreamsAll key id body w
    → StreamsAll key id (body ++ body_of key events) (happen_all s events w)
unfolding happen_all
body_in_order s key id body [] w h t =
    subst (λ (b : Bytes). StreamsAll key id b w) (sym (append-nil body)) t
body_in_order s key id body (e ∷ events) w (fits, free, more) t =
    subst (λ (b : Bytes). StreamsAll key id b (happen_all s events (happen s e w)))
      (append_assoc body (given_by key e) (body_of key events))
      (body_in_order s key id (body ++ given_by key e) events (happen s e w) more
        (happened s key id body e w fits free t))
