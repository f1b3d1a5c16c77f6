-- ===== src/Output/Captures.antt =====
-- crates/ignis/src/php/output.rs, `ignis_capture_start` and `ignis_capture_take`: what a capture takes.
use ignis.Shared.{
  ℕ, ◌≡◌, ◌≢◌, refl, sym, ap, subst, ◌∙◌, inl, inr, Bool, true, false, All, List, [], ◌∷◌, ◌++◌,
  Option, none, some, Bytes, ◌==◌, if◌then◌else◌, leb, lookup, insert, length, lookup-insert_self,
  lookup-remove_self, eq_of_==, ne_of_==, arith, Bool-cases, Option-cases,
}
use mathlib.Core.List.{append-nil, append_assoc}
use ignis.Output.{
  Output, Bound, stack_of, Room, Settings, Wrote, push, rebind, ub_write, flush, capture_start,
  capture_take,
}
use ignis.Output.Streams.{
  streams, Act, writes, flushes, captures, takes_back, binds, unbinds, resets, dies, act, run,
  written_by, text_of,
}
use ignis.Output.Apart.{push_keeps, other-Keeps}

abbrev pub is_bound {ℓ} : {A : Type ℓ} → Option A → Bool
is_bound none = false
is_bound (some _) = true

-- The newest buffer of a fiber has this text, over this stack, where the fiber is bound or not.
record Capturing (key : ℕ) (bound : Bool) (text : Bytes) (stack : List Bytes) (o : Output)
    : Type 0 where
  pub same_bound : is_bound (lookup key o.bound) ≡ bound
  pub buffers : lookup key o.sinks ≡ some ((if bound then [] else text) ∷ stack)

bound_now :
    (key : ℕ) (v : Bound) (kept : List (ℕ × Bound))
    → is_bound (lookup key (insert key v kept)) ≡ true
bound_now key v kept = ap is_bound (lookup-insert_self key v kept)

module _ (s : Settings) (key : ℕ) (old : Bytes) (stack : List Bytes) (room : Room)
    (o : Output) where
  pushed-Capturing :
      (b : Bound) (text frame : Bytes)
      → Capturing key true old stack o
      → Capturing key true text stack (rebind key (push s.chunks b frame room o))
  pushed-Capturing b text frame h =
      let p : Output × Bound × Bytes = push s.chunks b frame room o in
      record {
        same_bound = bound_now key (record (p.1) { pending = p.2 }) p.0.bound;
        buffers = ap (lookup key) (push_keeps s.chunks b frame room o).0 ∙ h.buffers;
      }

  bound_contradiction :
      (bound now : Bool)
      → Capturing key bound old stack o
      → is_bound (lookup key o.bound) ≡ now
      → bound ≢ now
      → ⊥
  bound_contradiction bound now h e n = n (sym h.same_bound ∙ e)

  own-Capturing :
      (c : ℕ) (bound : Bool) (text : Bytes) (answers : List Wrote)
      → Capturing key bound old stack o
      → Capturing key bound (old ++ c ∷ text) stack (ub_write s key (c ∷ text) room answers o).0
  unfolding ub_write
  own-Capturing c true text answers h = elim (Option-cases (lookup key o.bound)) [
    | inl e ↦ elim (bound_contradiction true false h (ap is_bound e) (λ x. ground (arith, x))) [ ]
    | inr (b, e) ↦
        let frame : Bytes = b.pending ++ (c ∷ text) in
        elim (Bool-cases (leb s.frame_bytes (length frame))) [
          | inl y ↦
              rw (e, y, ub_write)
                (pushed-Capturing (record b { pending = [] }) (old ++ c ∷ text) frame h)
          | inr z ↦
              rw (e, z, ub_write)
                (record {
                  same_bound = bound_now key (record b { pending = frame }) o.bound;
                  buffers = h.buffers;
                })
        ]
  ]
  own-Capturing c false text answers h = elim (Option-cases (lookup key o.bound)) [
    | inl e ↦
        rw (e, h.buffers, ub_write)
          (record {
            same_bound = ap is_bound e;
            buffers = lookup-insert_self key ((old ++ c ∷ text) ∷ stack) o.sinks;
          })
    | inr (b, e) ↦
        elim (bound_contradiction false true h (ap is_bound e) (λ x. ground (arith, x))) [ ]
  ]

  own_flush-Capturing :
      (b : Bound) (pending : Bytes)
      → lookup key o.bound ≡ some b
      → b.pending ≡ pending
      → Capturing key true old stack o
      → Capturing key true old stack (flush s key room o)
  unfolding flush
  own_flush-Capturing b [] e p h = rw (e, p, flush) h
  own_flush-Capturing b (c ∷ text) e p h =
      rw (e, p, flush) (pushed-Capturing (record b { pending = [] }) old (c ∷ text) h)

  flush-Capturing :
      (bound : Bool)
      → Capturing key bound old stack o
      → Capturing key bound old stack (flush s key room o)
  unfolding flush
  flush-Capturing bound h = elim (Option-cases (lookup key o.bound)) [
    | inl e ↦ rw (e, flush) h
    | inr (b, e) ↦
        let q : bound ≡ true = sym h.same_bound ∙ ap is_bound e in
        subst (λ (x : Bool). Capturing key x old stack (flush s key room o)) (sym q)
          (own_flush-Capturing b b.pending e refl
            (subst (λ (x : Bool). Capturing key x old stack o) q h))
  ]

other-Capturing :
    (s : Settings) (key k : ℕ) (bound : Bool) (text : Bytes) (stack : List Bytes) (a : Act)
    (o : Output)
    → k ≢ key
    → Capturing key bound text stack o
    → Capturing key bound text stack (act s k a o)
other-Capturing s key k bound text stack a o n h =
    let (e, f) = other-Keeps s key k a o n in
    record { same_bound = ap is_bound f ∙ h.same_bound; buffers = e ∙ h.buffers }

quiet :
    {key : ℕ} {bound : Bool} {text : Bytes} {stack : List Bytes} {o : Output}
    → Capturing key bound text stack o
    → Capturing key bound (text ++ []) stack o
quiet {key} {bound} {text} {stack} {o} h =
    subst (λ (b : Bytes). Capturing key bound b stack o) (sym (append-nil text)) h

written-Capturing :
    (s : Settings) (key k : ℕ) (bound : Bool) (text bytes : Bytes) (stack : List Bytes)
    (room : Room) (answers : List Wrote) (o : Output)
    → Capturing key bound text stack o
    → Capturing key bound
        (text ++ written_by key (k, writes bytes room answers))
        stack
        (ub_write s k bytes room answers o).0
unfolding ub_write act
written-Capturing s key k bound text [] stack room answers o h = elim (Bool-cases (k == key)) [
  | inl y ↦ rw (y, written_by) (quiet h)
  | inr z ↦ rw (z, written_by) (quiet h)
]
written-Capturing s key k bound text (c ∷ bytes) stack room answers o h =
    elim (Bool-cases (k == key)) [
      | inl y ↦
          rw (y, written_by)
            (subst
              (λ (j : ℕ).
                Capturing key bound (text ++ c ∷ bytes) stack
                  (ub_write s j (c ∷ bytes) room answers o).0)
              (sym (eq_of_== k key y))
              (own-Capturing s key text stack room o c bound bytes answers h))
      | inr z ↦
          rw (z, written_by)
            (quiet (
              other-Capturing s key k bound text stack (writes (c ∷ bytes) room answers) o
                (ne_of_== k key z) h))
    ]

flushed-Capturing :
    (s : Settings) (key k : ℕ) (bound : Bool) (text : Bytes) (stack : List Bytes) (room : Room)
    (o : Output)
    → Capturing key bound text stack o
    → Capturing key bound text stack (flush s k room o)
unfolding act
flushed-Capturing s key k bound text stack room o h = elim (Bool-cases (k == key)) [
  | inl y ↦
      subst (λ (j : ℕ). Capturing key bound text stack (flush s j room o)) (sym (eq_of_== k key y))
        (flush-Capturing s key text stack room o bound h)
  | inr z ↦ other-Capturing s key k bound text stack (flushes room) o (ne_of_== k key z) h
]

-- During the capture the fiber writes and flushes; another does anything.
abbrev pub Captured : ℕ → ℕ × Act → Type 0
Captured key (k, writes bytes room answers) = Unit
Captured key (k, flushes room) = Unit
Captured key (k, a) = k ≢ key

act-Capturing :
    (s : Settings) (key k : ℕ) (bound : Bool) (text : Bytes) (stack : List Bytes) (a : Act)
    (o : Output)
    → Captured key (k, a)
    → Capturing key bound text stack o
    → Capturing key bound (text ++ written_by key (k, a)) stack (act s k a o)
unfolding act
act-Capturing s key k bound text stack (writes bytes room answers) o c h =
    written-Capturing s key k bound text bytes stack room answers o h
act-Capturing s key k bound text stack (flushes room) o c h =
    quiet (flushed-Capturing s key k bound text stack room o h)
act-Capturing s key k bound text stack (streams bytes room again) o c h =
    quiet (other-Capturing s key k bound text stack (streams bytes room again) o c h)
act-Capturing s key k bound text stack captures o c h =
    quiet (other-Capturing s key k bound text stack captures o c h)
act-Capturing s key k bound text stack takes_back o c h =
    quiet (other-Capturing s key k bound text stack takes_back o c h)
act-Capturing s key k bound text stack (binds id status headers) o c h =
    quiet (other-Capturing s key k bound text stack (binds id status headers) o c h)
act-Capturing s key k bound text stack (unbinds room) o c h =
    quiet (other-Capturing s key k bound text stack (unbinds room) o c h)
act-Capturing s key k bound text stack resets o c h =
    quiet (other-Capturing s key k bound text stack resets o c h)
act-Capturing s key k bound text stack dies o c h =
    quiet (other-Capturing s key k bound text stack dies o c h)

run-Capturing :
    (s : Settings) (key : ℕ) (bound : Bool) (text : Bytes) (stack : List Bytes)
    (acts : List (ℕ × Act)) (o : Output)
    → All (Captured key) acts
    → Capturing key bound text stack o
    → Capturing key bound (text ++ text_of key acts) stack (run s acts o)
unfolding run
run-Capturing s key bound text stack [] o c h = quiet h
run-Capturing s key bound text stack ((k, a) ∷ acts) o c h =
    subst (λ (b : Bytes). Capturing key bound b stack (run s acts (act s k a o)))
      (append_assoc text (written_by key (k, a)) (text_of key acts))
      (run-Capturing s key bound (text ++ written_by key (k, a)) stack acts (act s k a o) c.1
        (act-Capturing s key k bound text stack a o c.0 h))

start-Capturing :
    (key : ℕ) (bound : Bool) (o : Output)
    → is_bound (lookup key o.bound) ≡ bound
    → Capturing key bound [] (stack_of (lookup key o.sinks)) (capture_start key o)
unfolding capture_start
start-Capturing key true o e = record {
  same_bound = e;
  buffers = lookup-insert_self key ([] ∷ stack_of (lookup key o.sinks)) o.sinks;
}
start-Capturing key false o e = record {
  same_bound = e;
  buffers = lookup-insert_self key ([] ∷ stack_of (lookup key o.sinks)) o.sinks;
}

take_lem :
    (key : ℕ) (buf : Bytes) (stack : List Bytes) (o : Output)
    → lookup key o.sinks ≡ some (buf ∷ stack)
    → ((capture_take key o).1 ≡ buf) × (stack_of (lookup key (capture_take key o).0.sinks) ≡ stack)
unfolding capture_take
take_lem key buf [] o e = rw (e, capture_take) (refl, ap stack_of (lookup-remove_self key o.sinks))
take_lem key buf (lower ∷ stack) o e =
    rw (e, capture_take) (refl, ap stack_of (lookup-insert_self key (lower ∷ stack) o.sinks))

-- A fiber starts a capture and then, in any order with what the other fibers do, writes and flushes
-- and no more: the capture then taken is what it wrote, in order, or nothing where its output is a
-- response; and the buffers below are as they were.
pub capture_takes_writes :
    (s : Settings) (key : ℕ) (acts : List (ℕ × Act)) (o : Output)
    → All (Captured key) acts
    → let (after, taken) = capture_take key (run s acts (capture_start key o)) in
      (taken ≡ (if is_bound (lookup key o.bound) then [] else text_of key acts))
      × (stack_of (lookup key after.sinks) ≡ stack_of (lookup key o.sinks))
capture_takes_writes s key acts o h =
    let bound : Bool = is_bound (lookup key o.bound) in
    let stack : List Bytes = stack_of (lookup key o.sinks) in
    let c : Capturing key bound (text_of key acts) stack (run s acts (capture_start key o)) =
      run-Capturing s key bound [] stack acts (capture_start key o) h
        (start-Capturing key bound o refl) in
    take_lem key (if bound then [] else text_of key acts) stack (run s acts (capture_start key o))
      c.buffers
