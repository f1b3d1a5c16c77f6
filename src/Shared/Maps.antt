-- ===== src/Shared/Maps.antt =====
-- A `HashMap<u64, V>` as an association list. `insert` replaces the entry of a key that is there,
-- so a map built by these operations has each key once (`UniqueKeys`).
use Prim.Native.Nat.{ℕ, suc, ◌≤◌, ◌<◌}
use mathlib.Core.Path.{◌≡◌, refl, ap, subst, ◌∙◌}
use mathlib.Core.Logic.{◌≢◌, inl, inr}
use mathlib.Core.List.{List, [], ◌∷◌}
use mathlib.Core.Option.{Option, none, some}
use mathlib.Core.Bool.{Bool}
use native.Mathlib.Omega.{arith}
use ignis.Shared.Tests.{Bool-cases, eq_of_==, ==_refl, ==_of_ne, if◌then◌else◌, ◌==◌}
use ignis.Shared.Lists.{length}

module _ {ℓ} {V : Type ℓ} where
  unfoldable pub lookup : ℕ → List (ℕ × V) → Option V
  lookup key [] = none
  lookup key ((j, v) ∷ kept) = if j == key then some v else lookup key kept

  unfoldable pub remove : ℕ → List (ℕ × V) → List (ℕ × V)
  remove key [] = []
  remove key ((j, v) ∷ kept) =
      let rest = remove key kept in if j == key then rest else (j, v) ∷ rest

  unfoldable pub insert : ℕ → V → List (ℕ × V) → List (ℕ × V)
  insert key v [] = (key, v) ∷ []
  insert key v ((j, w) ∷ kept) = if j == key then (key, v) ∷ kept else (j, w) ∷ insert key v kept

  abbrev pub Absent : ℕ → List (ℕ × V) → Type 0
  Absent key [] = Unit
  Absent key ((j, v) ∷ kept) = (j ≢ key) × Absent key kept

  abbrev pub UniqueKeys : List (ℕ × V) → Type 0
  UniqueKeys [] = Unit
  UniqueKeys ((j, v) ∷ kept) = Absent j kept × UniqueKeys kept

  -- Every key is below the bound: the keys are ids that a counter has given out.
  abbrev pub KeysBelow : ℕ → List (ℕ × V) → Type 0
  KeysBelow n [] = Unit
  KeysBelow n ((j, v) ∷ kept) = (j < n) × KeysBelow n kept

  pub lookup-of_Absent : (key : ℕ) (kept : List (ℕ × V)) → Absent key kept → lookup key kept ≡ none
  unfolding lookup
  lookup-of_Absent key [] h = refl
  lookup-of_Absent key ((j, v) ∷ kept) h = ground (arith, lookup-of_Absent key kept h.1)

  pub Absent-of_lookup : (key : ℕ) (kept : List (ℕ × V)) → lookup key kept ≡ none → Absent key kept
  unfolding lookup
  Absent-of_lookup key [] h = tt
  Absent-of_lookup key ((j, v) ∷ kept) h = ground (arith, Absent-of_lookup key kept)

  pub KeysBelow-Absent : (n : ℕ) (kept : List (ℕ × V)) → KeysBelow n kept → Absent n kept
  KeysBelow-Absent n [] h = tt
  KeysBelow-Absent n ((j, v) ∷ kept) h = (omega arith, KeysBelow-Absent n kept h.1)

  pub KeysBelow-mono : (a b : ℕ) (kept : List (ℕ × V)) → a ≤ b → KeysBelow a kept → KeysBelow b kept
  KeysBelow-mono a b [] l h = tt
  KeysBelow-mono a b ((j, v) ∷ kept) l h = (omega arith, KeysBelow-mono a b kept l h.1)

  pub lookup-insert :
      (key j : ℕ) (v : V) (kept : List (ℕ × V))
      → lookup j (insert key v kept) ≡ (if key == j then some v else lookup j kept)
  unfolding lookup insert
  lookup-insert key j v [] = refl
  lookup-insert key j v ((i, w) ∷ kept) = ground (arith, lookup-insert key j v kept)

  pub lookup-remove :
      (key j : ℕ) (kept : List (ℕ × V))
      → lookup j (remove key kept) ≡ (if key == j then none else lookup j kept)
  unfolding lookup remove
  lookup-remove key j [] = ground arith
  lookup-remove key j ((i, w) ∷ kept) = ground (arith, lookup-remove key j kept)

  Absent-insert :
      (key j : ℕ) (v : V) (kept : List (ℕ × V))
      → key ≢ j
      → Absent j kept
      → Absent j (insert key v kept)
  unfolding insert
  Absent-insert key j v [] n h = (n, tt)
  Absent-insert key j v ((i, w) ∷ kept) n h = ground (arith, Absent-insert key j v kept n h.1)

  pub Absent-remove : (key j : ℕ) (kept : List (ℕ × V)) → Absent j kept → Absent j (remove key kept)
  unfolding remove
  Absent-remove key j [] h = tt
  Absent-remove key j ((i, w) ∷ kept) h = ground (arith, Absent-remove key j kept h.1)

  pub remove-Absent : (key : ℕ) (kept : List (ℕ × V)) → Absent key (remove key kept)
  unfolding remove
  remove-Absent key [] = tt
  remove-Absent key ((i, w) ∷ kept) = ground (arith, remove-Absent key kept)

  -- Removing a key that is not there changes nothing.
  pub remove_of_Absent : (key : ℕ) (kept : List (ℕ × V)) → Absent key kept → remove key kept ≡ kept
  unfolding remove
  remove_of_Absent key [] h = refl
  remove_of_Absent key ((i, w) ∷ kept) h = ground (arith, remove_of_Absent key kept h.1)

  pub insert-UniqueKeys :
      (key : ℕ) (v : V) (kept : List (ℕ × V)) → UniqueKeys kept → UniqueKeys (insert key v kept)
  unfolding insert
  insert-UniqueKeys key v [] u = (tt, tt)
  insert-UniqueKeys key v ((i, w) ∷ kept) u =
      ground (arith, insert-UniqueKeys key v kept u.1, Absent-insert key i v kept)

  pub remove-UniqueKeys :
      (key : ℕ) (kept : List (ℕ × V)) → UniqueKeys kept → UniqueKeys (remove key kept)
  unfolding remove
  remove-UniqueKeys key [] u = tt
  remove-UniqueKeys key ((i, w) ∷ kept) u =
      ground (arith, remove-UniqueKeys key kept u.1, Absent-remove key i kept)

  pub insert-KeysBelow :
      (key : ℕ) (v : V) (n : ℕ) (kept : List (ℕ × V))
      → key < n
      → KeysBelow n kept
      → KeysBelow n (insert key v kept)
  unfolding insert
  insert-KeysBelow key v n [] l h = (l, tt)
  insert-KeysBelow key v n ((i, w) ∷ kept) l h = ground (arith, insert-KeysBelow key v n kept l h.1)

  pub remove-KeysBelow :
      (key n : ℕ) (kept : List (ℕ × V)) → KeysBelow n kept → KeysBelow n (remove key kept)
  unfolding remove
  remove-KeysBelow key n [] h = tt
  remove-KeysBelow key n ((i, w) ∷ kept) h = ground (arith, remove-KeysBelow key n kept h.1)

  -- A new key makes the map one longer; an old one keeps its length.
  pub length-insert_new :
      (key : ℕ) (v : V) (kept : List (ℕ × V))
      → Absent key kept
      → length (insert key v kept) ≡ suc (length kept)
  unfolding insert
  length-insert_new key v [] h = refl
  length-insert_new key v ((i, w) ∷ kept) h = ground (arith, length-insert_new key v kept h.1)

  pub length-remove :
      (key : ℕ) (v : V) (kept : List (ℕ × V))
      → UniqueKeys kept
      → lookup key kept ≡ some v
      → suc (length (remove key kept)) ≡ length kept
  unfolding lookup remove
  length-remove key v [] u e = cc
  length-remove key v ((i, w) ∷ kept) u e = elim (Bool-cases (i == key)) [
    | inl q ↦
        rw (q, remove)
          (ap (λ t. suc (length t))
            (remove_of_Absent key kept (subst (λ j. Absent j kept) (eq_of_== i key q) u.0)))
    | inr q ↦ ground (arith, q, length-remove key v kept u.1)
  ]

  pub lookup-remove_self : (key : ℕ) (kept : List (ℕ × V)) → lookup key (remove key kept) ≡ none
  lookup-remove_self key kept = lookup-of_Absent key (remove key kept) (remove-Absent key kept)

  pub lookup-insert_self :
      (key : ℕ) (v : V) (kept : List (ℕ × V)) → lookup key (insert key v kept) ≡ some v
  lookup-insert_self key v kept =
      lookup-insert key key v kept
      ∙ ap (λ (t : Bool). if t then some v else lookup key kept) (==_refl key)

  pub lookup-insert_other :
      (key j : ℕ) (v : V) (kept : List (ℕ × V))
      → key ≢ j
      → lookup j (insert key v kept) ≡ lookup j kept
  lookup-insert_other key j v kept n =
      lookup-insert key j v kept
      ∙ ap (λ (t : Bool). if t then some v else lookup j kept) (==_of_ne key j n)

  pub lookup-remove_other :
      (key j : ℕ) (kept : List (ℕ × V)) → key ≢ j → lookup j (remove key kept) ≡ lookup j kept
  lookup-remove_other key j kept n =
      lookup-remove key j kept
      ∙ ap (λ (t : Bool). if t then none else lookup j kept) (==_of_ne key j n)
