-- ===== src/Output.antt =====
-- crates/ignis/src/php/output.rs: the output of a PHP thread's fibers. A fiber is named by the
-- address of its context, {main} by 0. What the channel to the socket answers to a `try_send`, and
-- what write(2) answers, is an argument.
pub mod Push
pub mod Streams
pub mod Mine
pub mod Ops
pub mod Others
pub mod Apart
pub mod Owed
pub mod InOrder
pub mod Captures
mod Examples
use ignis.Shared.{
  ℕ, zero, suc, ◌+◌, ◌≤◌, ◌≡◌, refl, Bool, true, false, not, ◌&&◌, ◌||◌, List, [], ◌∷◌, ◌++◌,
  Option, none, some, Bytes, ◌==◌, if◌then◌else◌, leb, min, max, lookup, insert, remove, length, ℤ,
  clamp_from_zero,
}
use ignis.Reactor.{Reactor}
use ignis.Reactor.Answers.{respond_start, stream_sender}

-- A fiber whose output is the body of the response `id`.
pub record Bound : Type 0 where
  pub id : ℕ
  pub status : ℕ
  pub headers : List (Bytes × Bytes)
  pub pending : Bytes
  pub started : Bool

-- A thread's state. `sinks`: a fiber's stack of buffers, the newest first. `frames`: the frames that
-- the channels of responses took, in order. `written`: what went to stdout.
pub record Output : Type 0 where
  pub sinks : List (ℕ × List Bytes)
  pub bound : List (ℕ × Bound)
  pub reactor : Reactor
  pub frames : List (ℕ × Bytes)
  pub written : Bytes

-- What `try_send` answers: the channel took the frame, is full, or has no receiver.
pub data Room : Type 0 where
  takes full_up gone : Room

-- The sending of a frame to an open response; what did not fit is given back.
abbrev pub send_frame : ℕ → Bytes → Room → Output → Output × Bytes
send_frame id frame takes o = (record o { frames = o.frames ++ (id, frame) ∷ [] }, [])
send_frame id frame full_up o = (o, frame)
send_frame id frame gone o = (o, [])

-- `chunks` is IGNIS_STREAM_CHUNKS. Returns the fiber's binding and what did not fit.
unfoldable pub push :
    (chunks : ℕ) → Bound → (frame : Bytes) → Room → Output → Output × Bound × Bytes
push chunks b frame room o =
    let taken = record b { headers = [] } in
    let (opened, there) = respond_start o.reactor b.id b.status b.headers chunks in
    let begun = if b.started then o else record o { reactor = opened } in
    let now = if b.started then b else record taken { started = true } in
    let (sent, back) = send_frame b.id frame room begun in
    if b.started || there
    then (if stream_sender begun.reactor b.id then (sent, now, back) else (begun, now, []))
    else (begun, taken, [])

-- A binding with what it holds back, put back in its place.
abbrev pub rebind : ℕ → Output × Bound × Bytes → Output
rebind key (o, b, back) = record o { bound = insert key (record b { pending = back }) o.bound }

-- The process's settings: IGNIS_STREAM_CHUNKS and IGNIS_STREAM_FRAME_BYTES.
pub record Settings : Type 0 where
  pub chunks : ℕ
  pub frame_bytes : ℕ

abbrev take : ℕ → Bytes → Bytes
take zero bytes = []
take (suc n) [] = []
take (suc n) (c ∷ bytes) = c ∷ take n bytes

abbrev drop : ℕ → Bytes → Bytes
drop zero bytes = bytes
drop (suc n) [] = []
drop (suc n) (c ∷ bytes) = drop n bytes

-- What a write(2) answers: the number of bytes that it took, EINTR, or another error.
pub data Wrote : Type 0 where
  wrote : (n : ℕ) → Wrote
  interrupted failed : Wrote

-- The bytes that went out, which the source counts.
unfoldable pub write_all_to_stdout : Bytes → List Wrote → Bytes
write_all_to_stdout [] answers = []
write_all_to_stdout (c ∷ bytes) [] = []
write_all_to_stdout (c ∷ bytes) (wrote zero ∷ answers) = []
write_all_to_stdout (c ∷ bytes) (wrote (suc n) ∷ answers) =
    c ∷ (take n bytes ++ write_all_to_stdout (drop n bytes) answers)
write_all_to_stdout (c ∷ bytes) (interrupted ∷ answers) = write_all_to_stdout (c ∷ bytes) answers
write_all_to_stdout (c ∷ bytes) (failed ∷ answers) = []

-- The bytes that a fiber writes go to its response, or its newest buffer, or to stdout. Returns how many were taken.
unfoldable pub ub_write :
    Settings → (key : ℕ) → (text : Bytes) → Room → (answers : List Wrote) → Output → Output × ℕ
unfolding push write_all_to_stdout
ub_write s key [] room answers o = (o, 0)
ub_write s key (c ∷ text) room answers o =
    let bytes = c ∷ text in
    let out = write_all_to_stdout bytes answers in
    elim (lookup key o.bound) [
      | some b ↦
          let grown = record b { pending = b.pending ++ bytes } in
          if leb s.frame_bytes (length grown.pending)
          then (
            rebind key (push s.chunks (record grown { pending = [] }) grown.pending room o),
            length bytes,
          )
          else (record o { bound = insert key grown o.bound }, length bytes)
      | none ↦ elim (lookup key o.sinks) [
        | some (buf ∷ stack) ↦
            (record o { sinks = insert key ((buf ++ bytes) ∷ stack) o.sinks }, length bytes)
        | some [] ↦ (record o { written = o.written ++ out }, length out)
        | none ↦ (record o { written = o.written ++ out }, length out)
      ]
    ]

-- `flush()`: whatever is pending becomes a frame now.
unfoldable pub flush : Settings → (key : ℕ) → Room → Output → Output
unfolding push
flush s key room o = elim (lookup key o.bound) [
  | some b ↦ elim b.pending [
    | [] ↦ o
    | c ∷ text ↦ rebind key (push s.chunks (record b { pending = [] }) (c ∷ text) room o)
  ]
  | none ↦ o
]

abbrev pub stack_of : Option (List Bytes) → List Bytes
stack_of (some stack) = stack
stack_of none = []

unfoldable pub capture_start : (key : ℕ) → Output → Output
capture_start key o = record o { sinks = insert key ([] ∷ stack_of (lookup key o.sinks)) o.sinks }

-- The newest buffer; a fiber with none left has no entry.
unfoldable pub capture_take : (key : ℕ) → Output → Output × Bytes
capture_take key o = elim (lookup key o.sinks) [
  | some (buf ∷ []) ↦ (record o { sinks = remove key o.sinks }, buf)
  | some (buf ∷ lower ∷ stack) ↦ (record o { sinks = insert key (lower ∷ stack) o.sinks }, buf)
  | some [] ↦ (record o { sinks = remove key o.sinks }, [])
  | none ↦ (o, [])
]

-- `not_streaming`: -1; `taken`: 0, or what `send_chunk` makes of the rest, an op that waits for room
-- among it.
pub data Written : Type 0 where
  not_streaming taken : Written
  sends : (id : ℕ) → (rest : Bytes) → Written

unfoldable pub stream_write : Settings → (key : ℕ) → Bytes → Room → Output → Output × Written
unfolding push
stream_write s key bytes room o = elim (lookup key o.bound) [
  | none ↦ (o, not_streaming)
  | some b ↦
      let (after, now, back) =
        push s.chunks (record b { pending = [] }) (b.pending ++ bytes) room o in
      let kept = rebind key (after, now, []) in
      elim back [ [] ↦ (kept, taken) | c ∷ rest ↦ (kept, sends b.id (c ∷ rest)) ]
]

-- `send_chunk` of what did not fit: the channel is asked `again`, and an op waits for room if it is
-- still full.
unfoldable pub send_rest : (again : Room) → Output × Written → Output × Written
send_rest again (o, not_streaming) = (o, not_streaming)
send_rest again (o, taken) = (o, taken)
send_rest again (o, sends id rest) =
    if stream_sender o.reactor id
    then elim again [
      | takes ↦ ((send_frame id rest takes o).0, taken)
      | full_up ↦ (o, sends id rest)
      | gone ↦ (o, not_streaming)
    ]
    else (o, not_streaming)

-- A new binding, with `status.clamp(100, 599)`.
abbrev pub bound_of : (id : ℕ) → (status : ℤ) → List (Bytes × Bytes) → Bound
bound_of id status headers = record {
  id = id;
  status = max 100 (clamp_from_zero status 599);
  headers = headers;
  pending = [];
  started = false;
}

unfoldable pub stream_bind : (key id : ℕ) → (status : ℤ) → List (Bytes × Bytes) → Output → Output
stream_bind key id status headers o = record o {
  bound = insert key (bound_of id status headers) o.bound;
}

-- The bytes that did not fit, and whether the response has begun.
unfoldable pub stream_unbind : Settings → (key : ℕ) → Room → Output → Output × Bytes × Bool
unfolding push
stream_unbind s key room o = elim (lookup key o.bound) [
  | none ↦ (o, [], false)
  | some b ↦ elim b.pending [
    | [] ↦ (record o { bound = remove key o.bound }, [], b.started)
    | c ∷ text ↦
        let (after, now, back) = push s.chunks (record b { pending = [] }) (c ∷ text) room o in
        (record after { bound = remove key after.bound }, back, now.started)
  ]
]

abbrev has {ℓ} : {A : Type ℓ} → Option A → Bool
has none = false
has (some _) = true

unfoldable pub on_fiber_destroy : (key : ℕ) → Output → Output
on_fiber_destroy key o = record o { sinks = remove key o.sinks; bound = remove key o.bound }

unfoldable pub capture_reset : (key : ℕ) → Output → Output × Bool
unfolding on_fiber_destroy
capture_reset key o = (on_fiber_destroy key o, has (lookup key o.sinks) || has (lookup key o.bound))
