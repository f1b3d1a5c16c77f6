-- ===== src/Wait.antt =====
-- crates/ignis/src/php/wait.rs: the fibers that are parked inside an internal call, by the op that
-- they wait for, and the outcomes on their way to them. A fiber is named by its address. A wait is in
-- two halves, before the fiber is suspended and after it is resumed; whether it is resumed with an
-- exception is an argument.
pub mod Once
mod Examples
use ignis.Shared.{
  ℕ, zero, suc, ◌≡◌, refl, Bool, true, false, not, ◌&&◌, ◌||◌, List, [], ◌∷◌, ◌++◌, Option, none,
  some, ◌==◌, if◌then◌else◌, lookup, insert, remove,
}
use ignis.Reactor.{Outcome}

-- A thread's tables: op id to fiber, and op id to outcome.
pub record Parked : Type 0 where
  pub parked : List (ℕ × ℕ)
  pub results : List (ℕ × Outcome)

abbrev park_all : ℕ → List ℕ → List (ℕ × ℕ) → List (ℕ × ℕ)
park_all fiber [] parked = parked
park_all fiber (id ∷ ids) parked = park_all fiber ids (insert id fiber parked)

abbrev remove_all {ℓ} : {V : Type ℓ} → List ℕ → List (ℕ × V) → List (ℕ × V)
remove_all [] kept = kept
remove_all (id ∷ ids) kept = remove_all ids (remove id kept)

-- The first of the ids that has an outcome.
abbrev take_first : List ℕ → List (ℕ × Outcome) → List (ℕ × Outcome) × Option (ℕ × Outcome)
take_first [] results = (results, none)
take_first (id ∷ ids) results =
    let rest = take_first ids results in
    elim (lookup id results) [ some o ↦ (remove id results, some (id, o)) | none ↦ rest ]

abbrev no_ids : List ℕ → Bool
no_ids [] = true
no_ids (_ ∷ _) = false

-- Up to the suspension of the fiber that is active; none where it cannot be suspended.
unfoldable pub await_any_begins :
    (active : Option ℕ) → (switch_blocked : Bool) → List ℕ → Parked → Option Parked
await_any_begins none switch_blocked ids w = none
await_any_begins (some fiber) switch_blocked ids w =
    if switch_blocked || no_ids ids
    then none
    else some (record w { parked = park_all fiber ids w.parked })

unfoldable pub await_any_ends : List ℕ → (exception : Bool) → Parked → Parked × Option (ℕ × Outcome)
await_any_ends ids exception w =
    let unparked = remove_all ids w.parked in
    let (left, found) = take_first ids w.results in
    if exception
    then (record { parked = unparked; results = remove_all ids w.results }, none)
    else (record { parked = unparked; results = left }, found)

unfoldable pub await_op_begins :
    (active : Option ℕ) → (switch_blocked : Bool) → ℕ → Parked → Option Parked
await_op_begins none switch_blocked id w = none
await_op_begins (some fiber) switch_blocked id w =
    if switch_blocked then none else some (record w { parked = insert id fiber w.parked })

unfoldable pub await_op_ends : ℕ → (exception : Bool) → Parked → Parked × Option Outcome
await_op_ends id exception w =
    if exception
    then (record { parked = remove id w.parked; results = remove id w.results }, none)
    else (record w { results = remove id w.results }, lookup id w.results)

unfoldable pub is_parked : ℕ → Parked → Bool
is_parked id w = elim (lookup id w.parked) [ some fiber ↦ true | none ↦ false ]

-- The fiber to resume, if one is parked on the op.
unfoldable pub resume_parked : ℕ → Outcome → Parked → Parked × Option ℕ
resume_parked id o w = elim (lookup id w.parked) [
  | none ↦ (w, none)
  | some fiber ↦
      (record { parked = remove id w.parked; results = insert id o w.results }, some fiber)
]

-- Any op that the fiber is parked on; the order of the source's table is not specified.
abbrev key_of : ℕ → List (ℕ × ℕ) → Option ℕ
key_of fiber [] = none
key_of fiber ((id, f) ∷ parked) =
    let rest = key_of fiber parked in if f == fiber then some id else rest

-- Whether the fiber is to be resumed with the exception.
unfoldable pub cancel_parked_any : (fiber : ℕ) → Parked → Parked × Bool
cancel_parked_any fiber w = elim (key_of fiber w.parked) [
  | none ↦ (w, false)
  | some id ↦ (record w { parked = remove id w.parked }, true)
]
