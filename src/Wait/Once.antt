-- ===== src/Wait/Once.antt =====
-- crates/ignis/src/php/wait.rs: how a wait for any of several ops ends.
use ignis.Shared.{
  ℕ, ◌≡◌, ◌≢◌, refl, sym, ap, ◌∙◌, ◌⊎◌, inl, inr, true, false, All, List, [], ◌∷◌, Option, none,
  some, ◌==◌, lookup, insert, remove, lookup-insert_self, lookup-insert_other, lookup-remove_other,
  lookup-remove_self, eq_of_==, ne_of_==, arith, Bool-cases, subst,
}
use ignis.Reactor.{Outcome}
use ignis.Wait.{
  Parked, park_all, remove_all, take_first, key_of, await_any_begins, await_any_ends, resume_parked,
  cancel_parked_any,
}

-- The fiber is parked on each of these ops.
abbrev pub Waiting : ℕ → List ℕ → Parked → Type 0
Waiting fiber ids w = All (λ (id : ℕ). lookup id w.parked ≡ some fiber) ids

abbrev pub Member : ℕ → List ℕ → Type 0
Member id [] = ⊥
Member id (j ∷ ids) = (j ≡ id) ⊎ Member id ids

abbrev pub Gone : List ℕ → Parked → Type 0
Gone ids w = All (λ (id : ℕ). lookup id w.parked ≡ none) ids

-- Parking on more ops keeps what is parked for the same fiber.
park_all-keeps :
    (fiber id : ℕ) (ids : List ℕ) (parked : List (ℕ × ℕ))
    → lookup id parked ≡ some fiber
    → lookup id (park_all fiber ids parked) ≡ some fiber
park_all-keeps fiber id [] parked e = e
park_all-keeps fiber id (j ∷ ids) parked e =
    park_all-keeps fiber id ids (insert j fiber parked) (elim (Bool-cases (j == id)) [
      | inl y ↦
          subst (λ (i : ℕ). lookup i (insert j fiber parked) ≡ some fiber) (eq_of_== j id y)
            (lookup-insert_self j fiber parked)
      | inr z ↦ lookup-insert_other j id fiber parked (ne_of_== j id z) ∙ e
    ])

park_all-All :
    (fiber : ℕ) (ids : List ℕ) (parked : List (ℕ × ℕ))
    → All (λ (id : ℕ). lookup id (park_all fiber ids parked) ≡ some fiber) ids
park_all-All fiber [] parked = tt
park_all-All fiber (j ∷ ids) parked = (
  park_all-keeps fiber j ids (insert j fiber parked) (lookup-insert_self j fiber parked),
  park_all-All fiber ids (insert j fiber parked),
)

remove_all-keeps {ℓ} :
    {V : Type ℓ} (id : ℕ) (ids : List ℕ) (kept : List (ℕ × V))
    → lookup id kept ≡ none
    → lookup id (remove_all ids kept) ≡ none
remove_all-keeps id [] kept e = e
remove_all-keeps id (j ∷ ids) kept e =
    remove_all-keeps id ids (remove j kept) (elim (Bool-cases (j == id)) [
      | inl y ↦
          subst (λ (i : ℕ). lookup i (remove j kept) ≡ none) (eq_of_== j id y)
            (lookup-remove_self j kept)
      | inr z ↦ lookup-remove_other j id kept (ne_of_== j id z) ∙ e
    ])

remove_all-All {ℓ} :
    {V : Type ℓ} (ids : List ℕ) (kept : List (ℕ × V))
    → All (λ (id : ℕ). lookup id (remove_all ids kept) ≡ none) ids
remove_all-All [] kept = tt
remove_all-All (j ∷ ids) kept = (
  remove_all-keeps j ids (remove j kept) (lookup-remove_self j kept),
  remove_all-All ids (remove j kept),
)

remove_all-empty {ℓ} : {V : Type ℓ} (ids : List ℕ) → remove_all {V = V} ids [] ≡ []
unfolding remove
remove_all-empty [] = refl
remove_all-empty (id ∷ ids) = remove_all-empty ids

abbrev alone : Outcome → ℕ → List (ℕ × Outcome) × Option (ℕ × Outcome)
alone o id = ([], some (id, o))

-- One outcome is there, of one of the ids.
take_one :
    (id : ℕ) (o : Outcome) (ids : List ℕ)
    → Member id ids
    → take_first ids ((id, o) ∷ []) ≡ ([], some (id, o))
unfolding lookup remove
take_one id o [] m = elim m [ ]
take_one id o (j ∷ ids) m = elim (Bool-cases (id == j)) [
  | inl y ↦
      let emptied : remove j ((id, o) ∷ []) ≡ [] = rw (y, remove) refl in
      rw (y, emptied, take_first) (ap (alone o) (sym (eq_of_== id j y)))
  | inr z ↦ elim m [
    | inl e ↦ elim (ne_of_== id j z (sym e)) [ ]
    | inr later ↦ rw (z, take_first) (take_one id o ids later)
  ]
]

key_found :
    (fiber id : ℕ) (parked : List (ℕ × ℕ))
    → lookup id parked ≡ some fiber
    → key_of fiber parked ≢ none
unfolding lookup
key_found fiber id [] e = λ x. ground (arith, e)
key_found fiber id ((j, f) ∷ parked) e = ground (arith, e, key_found fiber id parked)

-- What `await_any` does up to the suspension parks the fiber on each of the ops.
begins-Waiting :
    (fiber : ℕ) (ids : List ℕ) (w after : Parked)
    → await_any_begins (some fiber) false ids w ≡ some after
    → Waiting fiber ids after × (after.results ≡ w.results)
unfolding await_any_begins
begins-Waiting fiber [] w after e = ground (arith, e)
begins-Waiting fiber (id ∷ ids) w after e =
    let same : (record w { parked = park_all fiber (id ∷ ids) w.parked }) ≡ after = cc e in
    (
      subst (Waiting fiber (id ∷ ids)) same (park_all-All fiber (id ∷ ids) w.parked),
      ap (λ (p : Parked). p.results) (sym same),
    )

parked_for :
    (fiber id : ℕ) (ids : List ℕ) (w : Parked)
    → Waiting fiber ids w
    → Member id ids
    → lookup id w.parked ≡ some fiber
parked_for fiber id [] w h m = elim m [ ]
parked_for fiber id (j ∷ ids) w h (inl e) = subst (λ (i : ℕ). lookup i w.parked ≡ some fiber) e h.0
parked_for fiber id (j ∷ ids) w h (inr m) = parked_for fiber id ids w h.1 m

-- The op `id` completes.
woken :
    (fiber id : ℕ) (o : Outcome) (ids : List ℕ) (w : Parked)
    → w.results ≡ []
    → lookup id w.parked ≡ some fiber
    → Member id ids
    → let (resumed, who) = resume_parked id o w in
      let (done, got) = await_any_ends ids false resumed in
      (who ≡ some fiber) × (got ≡ some (id, o)) × (done.results ≡ []) × Gone ids done
unfolding resume_parked await_any_ends insert
woken fiber id o ids w e h m =
    rw (h, e, take_one id o ids m, resume_parked)
      (refl, refl, refl, remove_all-All ids (remove id w.parked))

-- The fiber is cancelled.
thrown_to :
    (fiber : ℕ) (key : Option ℕ) (ids : List ℕ) (w : Parked)
    → w.results ≡ []
    → key_of fiber w.parked ≡ key
    → key ≢ none
    → let (thrown, told) = cancel_parked_any fiber w in
      let (dropped, nothing) = await_any_ends ids true thrown in
      (told ≡ true) × (nothing ≡ none) × (dropped.results ≡ []) × Gone ids dropped
unfolding cancel_parked_any await_any_ends
thrown_to fiber none ids w e k n = elim (n refl) [ ]
thrown_to fiber (some id) ids w e k n =
    rw (k, e, remove_all-empty {V = Outcome} ids, cancel_parked_any)
      (refl, refl, refl, remove_all-All ids (remove id w.parked))

-- A fiber that is parked on several ops, with no outcome on its way to any fiber. Where one of the
-- ops completes: this fiber is resumed, `await_any` returns that op and its outcome, once. Where
-- the fiber is cancelled: it is resumed, and `await_any` returns nothing. In both cases the fiber is
-- parked on none of the ops any more, and no outcome is left in the tables.
pub await_any_settles :
    (fiber id : ℕ) (o : Outcome) (ids : List ℕ) (w : Parked)
    → w.results ≡ []
    → Waiting fiber ids w
    → Member id ids
    → let (resumed, who) = resume_parked id o w in
      let (done, got) = await_any_ends ids false resumed in
      let (thrown, told) = cancel_parked_any fiber w in
      let (dropped, nothing) = await_any_ends ids true thrown in
      ((who ≡ some fiber) × (got ≡ some (id, o)) × (done.results ≡ []) × Gone ids done)
      × ((told ≡ true) × (nothing ≡ none) × (dropped.results ≡ []) × Gone ids dropped)
await_any_settles fiber id o ids w e h m =
    let found : lookup id w.parked ≡ some fiber = parked_for fiber id ids w h m in
    (
      woken fiber id o ids w e found m,
      thrown_to fiber (key_of fiber w.parked) ids w e refl (key_found fiber id w.parked found),
    )
