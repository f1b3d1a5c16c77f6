-- ===== src/Output/Owed.antt =====
-- crates/ignis/src/php/output.rs: what each act of a thread's fibers does to a stream whose op may
-- wait.
use ignis.Shared.{
  ℕ, ◌≢◌, refl, sym, ap, subst, ◌∙◌, ◌⊎◌, inl, inr, [], ◌++◌, Option, none, some, Bytes, lookup,
  Option-cases,
}
use mathlib.Core.List.{append-nil}
use ignis.Output.{
  Output, bound_of, Settings, flush, stream_bind, stream_unbind, capture_start, capture_reset,
}
use ignis.Output.Streams.{
  Act, writes, flushes, streams, captures, takes_back, binds, unbinds, resets, dies, act, Allowed,
  Streaming, inserted-Streaming, aside-Streaming,
}
use ignis.Output.Ops.{left_by, pending_of, Owes, Besides, own_stream}
use ignis.Output.Mine.{own_write, own_flush}
use ignis.Output.Others.{
  other_write, other_flush, other_unbind, other_stream, take-Streaming, dies-Streaming,
}
use ignis.Output.Apart.{other-Keeps}

-- What other fibers do: the stream stays, and an op that they leave is of another response.
other-Streaming :
    (s : Settings) (key id k : ℕ) (body : Bytes) (a : Act) (o : Output)
    → k ≢ key
    → Allowed key id (k, a)
    → Streaming key id body o
    → Streaming key id body (act s k a o) × Besides id (left_by s k a o)
unfolding act left_by capture_reset stream_bind capture_start stream_unbind flush
other-Streaming s key id k body (writes bytes room answers) o n h t =
    (other_write s key id k body bytes room answers o n t, tt)
other-Streaming s key id k body (flushes room) o n h t = elim (Option-cases (lookup k o.bound)) [
  | inl e ↦ rw (e, act, flush) (t, tt)
  | inr (b, e) ↦ (other_flush s key id k body room o b b.pending n e refl t, tt)
]
other-Streaming s key id k body (streams bytes room again) o n h t =
    other_stream s key id k body bytes room again o n t
other-Streaming s key id k body captures o n h t =
    (aside-Streaming key id body o.written (capture_start k o).sinks o t, tt)
other-Streaming s key id k body takes_back o n h t =
    (take-Streaming key id k body o (lookup k o.sinks) refl t, tt)
other-Streaming s key id k body (binds j status headers) o n h t =
    (inserted-Streaming key id k (bound_of j status headers) body o n h.1 t, tt)
other-Streaming s key id k body (unbinds room) o n h t = elim (Option-cases (lookup k o.bound)) [
  | inl e ↦ rw (e, act, stream_unbind) (t, tt)
  | inr (b, e) ↦ (other_unbind s key id k body room o b b.pending n e refl t, tt)
]
other-Streaming s key id k body resets o n h t = (dies-Streaming key id k body o n t, tt)
other-Streaming s key id k body dies o n h t = (dies-Streaming key id k body o n t, tt)

pub other-Owes :
    (s : Settings) (key id k : ℕ) (body : Bytes) (a : Act) (o : Output) (op : Option (ℕ × Bytes))
    → k ≢ key
    → Allowed key id (k, a)
    → Owes key id body o op
    → Owes key id body (act s k a o) op × Besides id (left_by s k a o)
other-Owes s key id k body a o none n h t = other-Streaming s key id k body a o n h t
other-Owes s key id k body a o (some (j, rest)) n h (e, (sofar, t, whole, nothing)) =
    let (now, besides) = other-Streaming s key id k sofar a o n h t in
    ((e, (sofar, now, whole, ap pending_of (other-Keeps s key k a o n).1 ∙ nothing)), besides)

-- What a fiber gives to its response.
abbrev pub given : Act → Bytes
given (writes bytes room answers) = bytes
given (streams bytes room again) = bytes
given _ = []

own_room : {key : ℕ} {P : Type 0} → (key ≢ key) ⊎ P → P
own_room (inl n) = elim (n refl) [ ]
own_room (inr h) = h

quiet :
    {key id : ℕ} {body : Bytes} {o : Output}
    → Streaming key id body o
    → Streaming key id (body ++ []) o
quiet {key} {id} {body} {o} t =
    subst (λ (b : Bytes). Streaming key id b o) (sym (append-nil body)) t

-- What the fiber itself does.
pub own-Owes :
    (s : Settings) (key id : ℕ) (body : Bytes) (a : Act) (o : Output)
    → Allowed key id (key, a)
    → Streaming key id body o
    → Owes key id (body ++ given a) (act s key a o) (left_by s key a o)
unfolding act left_by capture_start
own-Owes s key id body (writes bytes room answers) o h t =
    own_write s key id body bytes room answers o (own_room h) t
own-Owes s key id body (flushes room) o h t =
    quiet (own_flush s key id body t.binding.pending room o (own_room h) t refl)
own-Owes s key id body (streams bytes room again) o h t =
    let (n, m) = own_room h in own_stream s key id body bytes room again o n m t
own-Owes s key id body captures o h t =
    quiet (aside-Streaming key id body o.written (capture_start key o).sinks o t)
own-Owes s key id body takes_back o h t =
    quiet (take-Streaming key id key body o (lookup key o.sinks) refl t)
own-Owes s key id body (binds j status headers) o h t = elim (h.0 refl) [ ]
own-Owes s key id body (unbinds room) o h t = elim (h refl) [ ]
own-Owes s key id body resets o h t = elim (h refl) [ ]
own-Owes s key id body dies o h t = elim (h refl) [ ]
