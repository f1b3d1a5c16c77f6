-- ===== src/Output/Streams.antt =====
-- crates/ignis/src/php/output.rs: what reaches the client of a fiber whose output is a response,
-- while other fibers of the thread do what they like.
use ignis.Shared.{
  ℕ, ◌≡◌, ◌≢◌, sym, ap, subst, ◌∙◌, ◌⊎◌, inl, inr, Bool, List, [], ◌∷◌, ◌++◌, Option, none, some,
  Bytes, ◌==◌, if◌then◌else◌, lookup, insert, remove, lookup-insert, lookup-remove,
  lookup-insert_self, lookup-insert_other, lookup-remove_other, ne_of_==, arith, Bool-cases, ℤ,
}
use ignis.Reactor.{Reactor, Channel}
use ignis.Output.{
  Output, Bound, Room, gone, Settings, Wrote, rebind, ub_write, flush, stream_bind, stream_unbind,
  on_fiber_destroy, capture_start, capture_take, capture_reset, stream_write, send_rest,
}
use ignis.Output.Push.{sent, IsOpen, Pushed, Beside}

-- What one fiber does; the room is what the channel of its response answers if it is asked, and
-- `again` what it answers when `send_chunk` asks it once more.
pub data Act : Type 0 where
  writes : Bytes → Room → List Wrote → Act
  flushes : Room → Act
  streams : Bytes → (room again : Room) → Act
  captures takes_back : Act
  binds : (id : ℕ) → ℤ → List (Bytes × Bytes) → Act
  unbinds : Room → Act
  resets dies : Act

unfoldable pub act : Settings → (key : ℕ) → Act → Output → Output
act s key (writes bytes room answers) o = (ub_write s key bytes room answers o).0
act s key (flushes room) o = flush s key room o
act s key (streams bytes room again) o = (send_rest again (stream_write s key bytes room o)).0
act s key captures o = capture_start key o
act s key takes_back o = (capture_take key o).0
act s key (binds id status headers) o = stream_bind key id status headers o
act s key (unbinds room) o = (stream_unbind s key room o).0
act s key resets o = (capture_reset key o).0
act s key dies o = on_fiber_destroy key o

unfoldable pub run : Settings → List (ℕ × Act) → Output → Output
unfolding act
run s [] o = o
run s ((key, a) ∷ acts) o = run s acts (act s key a o)

-- What the fiber of a stream may do, with its client there, and what others may: not bind a response
-- that it already streams.
abbrev pub Allowed : (key id : ℕ) → ℕ × Act → Type 0
Allowed key id (k, writes bytes room answers) = (k ≢ key) ⊎ (room ≢ gone)
Allowed key id (k, flushes room) = (k ≢ key) ⊎ (room ≢ gone)
Allowed key id (k, streams bytes room again) = (k ≢ key) ⊎ ((room ≢ gone) × (again ≢ gone))
Allowed key id (k, captures) = Unit
Allowed key id (k, takes_back) = Unit
Allowed key id (k, binds j status headers) = (k ≢ key) × (j ≢ id)
Allowed key id (k, unbinds room) = k ≢ key
Allowed key id (k, resets) = k ≢ key
Allowed key id (k, dies) = k ≢ key

abbrev pub written_by : ℕ → ℕ × Act → Bytes
written_by key (k, writes bytes room answers) = if k == key then bytes else []
written_by key (k, _) = []

-- What the fiber `key` writes.
abbrev pub text_of : ℕ → List (ℕ × Act) → Bytes
text_of key [] = []
text_of key (m ∷ acts) = written_by key m ++ text_of key acts

-- The fiber streams the response `id`, alone; `body` is what its client has and what is pending.
pub record Streaming (key id : ℕ) (body : Bytes) (o : Output) : Type 0 where
  pub binding : Bound
  pub found : lookup key o.bound ≡ some binding
  pub same_id : binding.id ≡ id
  pub still_open : IsOpen o.reactor binding
  pub whole_body : sent id o.frames ++ binding.pending ≡ body
  pub alone : (k : ℕ) (c : Bound) → lookup k o.bound ≡ some c → k ≢ key → c.id ≢ id

pub rebind-Streaming :
    (key id : ℕ) (frame : Bytes) (o : Output) (b : Bound) (p : Output × Bound × Bytes)
    → b.id ≡ id
    → ((k : ℕ) (c : Bound) → lookup k o.bound ≡ some c → k ≢ key → c.id ≢ id)
    → Pushed o b frame p
    → Streaming key id (sent id o.frames ++ frame) (rebind key p)
rebind-Streaming key id frame o b p e alone h = record {
  binding = record (p.1) { pending = p.2 };
  found = lookup-insert_self key (record (p.1) { pending = p.2 }) p.0.bound;
  same_id = h.same_id ∙ e;
  still_open = h.still_open;
  whole_body = subst (λ (i : ℕ). sent i p.0.frames ++ p.2 ≡ sent i o.frames ++ frame) e h.bytes;
  alone = λ k c q n.
      alone k c
        (ap (lookup k) (sym h.kept)
          ∙ (sym (
                lookup-insert_other key k (record (p.1) { pending = p.2 }) p.0.bound
                  (λ x. n (sym x)))
              ∙ q))
        n;
}

IsOpen-kept :
    (r t : Reactor) (b : Bound)
    → lookup b.id t.answers ≡ lookup b.id r.answers
    → t.channels b.id ≡ r.channels b.id
    → IsOpen r b
    → IsOpen t b
IsOpen-kept r t b e f (inl (st, a)) = inl (st, e ∙ a)
IsOpen-kept r t b e f (inr (st, a, live)) =
    inr (st, e ∙ a, ap (λ (c : Channel). c.receiver_alive) f ∙ live)

abbrev id_of : Option Bound → ℕ
id_of none = 0
id_of (some b) = b.id

-- The binding that another fiber is given is of another response.
inserted-alone :
    (key id k : ℕ) (v : Bound) (kept : List (ℕ × Bound))
    → v.id ≢ id
    → ((j : ℕ) (d : Bound) → lookup j kept ≡ some d → j ≢ key → d.id ≢ id)
    → (j : ℕ) (d : Bound) → lookup j (insert k v kept) ≡ some d
    → j ≢ key
    → d.id ≢ id
inserted-alone key id k v kept m alone j d q l = elim (Bool-cases (k == j)) [
  | inl y ↦
      let e : lookup j (insert k v kept) ≡ some v =
        lookup-insert k j v kept ∙ ap (λ (t : Bool). if t then some v else lookup j kept) y in
      λ x. m (ap id_of (sym e ∙ q) ∙ x)
  | inr z ↦ alone j d (sym (lookup-insert_other k j v kept (ne_of_== k j z)) ∙ q) l
]

-- Another fiber's binding is put in.
pub inserted-Streaming :
    (key id k : ℕ) (v : Bound) (body : Bytes) (o : Output)
    → k ≢ key
    → v.id ≢ id
    → Streaming key id body o
    → Streaming key id body (record o { bound = insert k v o.bound })
inserted-Streaming key id k v body o n m s = record {
  binding = s.binding;
  found = lookup-insert_other k key v o.bound n ∙ s.found;
  same_id = s.same_id;
  still_open = s.still_open;
  whole_body = s.whole_body;
  alone = inserted-alone key id k v o.bound m s.alone;
}

-- Another fiber's binding goes away.
pub removed-Streaming :
    (key id k : ℕ) (body : Bytes) (o : Output)
    → k ≢ key
    → Streaming key id body o
    → Streaming key id body (record o { bound = remove k o.bound })
removed-Streaming key id k body o n s = record {
  binding = s.binding;
  found = lookup-remove_other k key o.bound n ∙ s.found;
  same_id = s.same_id;
  still_open = s.still_open;
  whole_body = s.whole_body;
  alone = λ j d q l. elim (Bool-cases (k == j)) [
    | inl y ↦ λ x. ground (arith, lookup-remove k j o.bound, y, q)
    | inr z ↦ s.alone j d (sym (lookup-remove_other k j o.bound (ne_of_== k j z)) ∙ q) l
  ];
}

-- Another response is pushed to.
pub beside-Streaming :
    (key id j : ℕ) (body : Bytes) (o : Output) (p : Output × Bound × Bytes)
    → Beside id j o p
    → Streaming key id body o
    → Streaming key id body p.0
beside-Streaming key id j body o p h s = record {
  binding = s.binding;
  found = ap (lookup key) h.own_bound ∙ s.found;
  same_id = s.same_id;
  still_open =
      IsOpen-kept o.reactor p.0.reactor s.binding
        (subst (λ (i : ℕ). lookup i p.0.reactor.answers ≡ lookup i o.reactor.answers)
          (sym s.same_id) h.answer)
        (subst (λ (i : ℕ). p.0.reactor.channels i ≡ o.reactor.channels i) (sym s.same_id) h.channel)
        s.still_open;
  whole_body = ap (λ (t : Bytes). t ++ s.binding.pending) h.frames ∙ s.whole_body;
  alone = λ k d q. s.alone k d (ap (lookup k) (sym h.own_bound) ∙ q);
}

pub rebind_other-Streaming :
    (key id k : ℕ) (body : Bytes) (o : Output) (c : Bound) (p : Output × Bound × Bytes)
    → k ≢ key
    → c.id ≢ id
    → Beside id c.id o p
    → Streaming key id body o
    → Streaming key id body (rebind k p)
rebind_other-Streaming key id k body o c p n m h s =
    inserted-Streaming key id k (record (p.1) { pending = p.2 }) body p.0 n
      (λ x. m (sym h.own_id ∙ x)) (beside-Streaming key id c.id body o p h s)

-- Buffers and stdout are no part of a stream.
pub aside-Streaming :
    (key id : ℕ) (body out : Bytes) (sinks : List (ℕ × List Bytes)) (o : Output)
    → Streaming key id body o
    → Streaming key id body (record o { sinks = sinks; written = out })
aside-Streaming key id body out sinks o s = record {
  binding = s.binding;
  found = s.found;
  same_id = s.same_id;
  still_open = s.still_open;
  whole_body = s.whole_body;
  alone = s.alone;
}
