-- ===== src/Functions/Batch.antt =====
-- crates/ignis/src/php/module.rs, `zif_ignis_poll`: what becomes of each completion of a batch.
use ignis.Shared.{
  ℕ, ◌≡◌, ◌≢◌, ◌⊎◌, true, false, List, ◌∷◌, ◌++◌, Option, none, some, Bytes, insert, remove, lookup,
}
use ignis.Reactor.{Completion, Outcome, error}
use ignis.Wait.{Parked}
use ignis.Functions.{Key, Item, item_of, is_for_fiber, hand_out}

-- The tables after a fiber that is parked on the completion's op was given it.
abbrev pub given : Completion → Parked → Parked
given c parked = record {
  parked = remove c.id parked.parked;
  results = insert c.id c.outcome parked.results;
}

-- What stands under the id after an item, or after none.
abbrev pub item_or : Option Item → Option Item → Option Item
item_or (some item) old = some item
item_or none old = old

-- Of every outcome but an error there is an item.
abbrev pub Reported : Outcome → (old found : Option Item) → Type 0
Reported (error bytes) old found = found ≡ old
Reported _ old found = (item : Item) × (found ≡ some item)

-- The completion is not of this op.
abbrev pub OtherOp : ℕ → Completion → Type 0
OtherOp id c = c.id ≢ id

-- What a batch comes to: the tables of parked fibers, the array, and the fibers that were resumed.
abbrev pub Handed : Type 0
Handed = Parked × List (ℕ × Item) × List (ℕ × ℕ)

module _ (key_of : Bytes → Key) (now : ℕ → ℕ) (runs : ℕ → Parked → Parked) where
  -- One more fiber was resumed, before the others.
  abbrev resumed_first : ℕ × ℕ → Handed → Handed
  resumed_first entry (last, out, resumed) = (last, out, entry ∷ resumed)

  abbrev ForArray : Completion → Parked → Type 0
  ForArray c parked = (is_for_fiber c.outcome ≡ false) ⊎ (lookup c.id parked.parked ≡ none)

  abbrev ForFiber : Completion → Parked → ℕ → Type 0
  ForFiber c parked f = (is_for_fiber c.outcome ≡ true) × (lookup c.id parked.parked ≡ some f)

  -- The rest of a batch is handed out too.
  abbrev followed_by : List Completion → Handed → Handed
  followed_by batch (parked, items, resumed) =
      let (last, out, more) = hand_out key_of now runs batch parked items in
      (last, out, resumed ++ more)

  -- What is said of a completion, from the tables and the array when its turn comes, and from what the
  -- whole batch comes to.
  abbrev pub IsHandedOut : Completion → List Completion → Handed → Handed → Type 0
  IsHandedOut c after (parked, items, woken) (last, out, resumed) =
      ((f : ℕ) × (is_for_fiber c.outcome ≡ true)
        × (lookup c.id parked.parked ≡ some f)
        × (resumed
            ≡ woken
              ++ (c.id, f) ∷ (hand_out key_of now runs after (runs f (given c parked)) items).2))
      ⊎ (((is_for_fiber c.outcome ≡ false) ⊎ (lookup c.id parked.parked ≡ none))
          × (lookup c.id out ≡ item_or (item_of key_of now c.id c.outcome) (lookup c.id items))
          × Reported c.outcome (lookup c.id items) (lookup c.id out))
