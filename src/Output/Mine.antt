-- ===== src/Output/Mine.antt =====
-- crates/ignis/src/php/output.rs, `ub_write` and `flush`: the fiber whose output is the response.
use ignis.Shared.{
  ℕ, ◌≡◌, ◌≢◌, refl, sym, ap, subst, ◌∙◌, inl, inr, List, [], ◌∷◌, ◌++◌, Bytes, leb, insert, length,
  Bool-cases,
}
use mathlib.Core.List.{append-nil, append_assoc}
use ignis.Output.{Output, Bound, Room, gone, Settings, Wrote, push, rebind, ub_write, flush}
use ignis.Output.Push.{sent, push-Pushed}
use ignis.Output.Streams.{Streaming, rebind-Streaming}

-- The fiber's own frame, of what was pending and what it writes.
push_mine :
    (s : Settings) (key id : ℕ) (body frame new : Bytes) (room : Room) (o : Output)
    → room ≢ gone
    → (t : Streaming key id body o) → sent id o.frames ++ frame ≡ new
    → Streaming key id new
        (rebind key (push s.chunks (record (t.binding) { pending = [] }) frame room o))
push_mine s key id body frame new room o n t e =
    let b : Bound = record (t.binding) { pending = [] } in
    subst (λ (x : Bytes). Streaming key id x (rebind key (push s.chunks b frame room o))) e
      (rebind-Streaming key id frame o b (push s.chunks b frame room o) t.same_id t.alone
        (push-Pushed s.chunks b frame room o t.still_open n))

keep_mine :
    (key id : ℕ) (body frame new : Bytes) (o : Output) (t : Streaming key id body o)
    → sent id o.frames ++ frame ≡ new
    → Streaming key id new
        (record o { bound = insert key (record (t.binding) { pending = frame }) o.bound })
keep_mine key id body frame new o t e =
    subst
      (λ (x : Bytes).
        Streaming key id x
          (record o { bound = insert key (record (t.binding) { pending = frame }) o.bound }))
      e
      (rebind-Streaming key id frame o t.binding (o, t.binding, frame) t.same_id t.alone
        (record { bytes = refl; same_id = refl; still_open = t.still_open; kept = refl }))

pub own_write :
    (s : Settings) (key id : ℕ) (body bytes : Bytes) (room : Room) (answers : List Wrote)
    (o : Output)
    → room ≢ gone
    → Streaming key id body o
    → Streaming key id (body ++ bytes) (ub_write s key bytes room answers o).0
unfolding ub_write
own_write s key id body [] room answers o n t =
    subst (λ (b : Bytes). Streaming key id b o) (sym (append-nil body)) t
own_write s key id body (c ∷ text) room answers o n t =
    let bytes : Bytes = c ∷ text in
    let frame : Bytes = t.binding.pending ++ bytes in
    let whole : sent id o.frames ++ frame ≡ body ++ bytes =
      sym (append_assoc (sent id o.frames) t.binding.pending bytes)
      ∙ ap (λ (x : Bytes). x ++ bytes) t.whole_body in
    elim (Bool-cases (leb s.frame_bytes (length frame))) [
      | inl y ↦
          rw (t.found, y, ub_write) (push_mine s key id body frame (body ++ bytes) room o n t whole)
      | inr z ↦ rw (t.found, z, ub_write) (keep_mine key id body frame (body ++ bytes) o t whole)
    ]

pub own_flush :
    (s : Settings) (key id : ℕ) (body pending : Bytes) (room : Room) (o : Output)
    → room ≢ gone
    → (t : Streaming key id body o) → t.binding.pending ≡ pending
    → Streaming key id body (flush s key room o)
unfolding flush
own_flush s key id body [] room o n t e = rw (t.found, e, flush) t
own_flush s key id body (c ∷ text) room o n t e =
    let whole : sent id o.frames ++ (c ∷ text) ≡ body =
      ap (λ (x : Bytes). sent id o.frames ++ x) (sym e) ∙ t.whole_body in
    rw (t.found, e, flush) (push_mine s key id body (c ∷ text) body room o n t whole)
