-- ===== src/Shared/Sums.antt =====
-- Sums over the entries of a map, and predicates on its entries, under `insert` and `remove`.
use Prim.Native.Nat.{ℕ, ◌+◌}
use mathlib.Core.Path.{◌≡◌, subst}
use mathlib.Core.List.{List, [], ◌∷◌}
use mathlib.Core.Option.{none, some}
use mathlib.Core.Logic.{inl, inr}
use native.Mathlib.Omega.{arith}
use ignis.Shared.Tests.{Bool-cases, eq_of_==, ◌==◌}
use ignis.Shared.Maps.{lookup, insert, remove, UniqueKeys, remove_of_Absent, Absent}

module _ {ℓ} {V : Type ℓ} where
  abbrev pub sum_entries : (ℕ → V → ℕ) → List (ℕ × V) → ℕ
  sum_entries g [] = 0
  sum_entries g ((k, v) ∷ m) = g k v + sum_entries g m

  pub sum-insert :
      (g : ℕ → V → ℕ) (k : ℕ) (v old : V) (m : List (ℕ × V))
      → lookup k m ≡ some old
      → sum_entries g (insert k v m) + g k old ≡ sum_entries g m + g k v
  unfolding lookup insert
  sum-insert g k v old [] e = cc
  sum-insert g k v old ((j, w) ∷ m) e = ground (arith, sum-insert g k v old m)

  pub sum-insert_new :
      (g : ℕ → V → ℕ) (k : ℕ) (v : V) (m : List (ℕ × V))
      → lookup k m ≡ none
      → sum_entries g (insert k v m) ≡ sum_entries g m + g k v
  unfolding lookup insert
  sum-insert_new g k v [] e = omega arith
  sum-insert_new g k v ((j, w) ∷ m) e = ground (arith, sum-insert_new g k v m)

  pub sum-remove :
      (g : ℕ → V → ℕ) (k : ℕ) (v : V) (m : List (ℕ × V))
      → UniqueKeys m
      → lookup k m ≡ some v
      → sum_entries g (remove k m) + g k v ≡ sum_entries g m
  unfolding lookup remove
  sum-remove g k v [] u e = cc
  sum-remove g k v ((j, w) ∷ m) u e = elim (Bool-cases (j == k)) [
    | inl q ↦ ground (arith, q, remove_of_Absent k m (subst (λ i. Absent i m) (eq_of_== j k q) u.0))
    | inr q ↦ ground (arith, q, sum-remove g k v m u.1)
  ]

  -- A predicate on the values of a map.
  abbrev pub Values {κ} : (V → Type κ) → List (ℕ × V) → Type κ
  Values P [] = Unit
  Values P ((k, v) ∷ m) = P v × Values P m

  pub Values-lookup {κ} :
      (P : V → Type κ) (k : ℕ) (v : V) (m : List (ℕ × V)) → Values P m → lookup k m ≡ some v → P v
  unfolding lookup
  Values-lookup P k v [] h e = cc
  Values-lookup P k v ((j, w) ∷ m) h e = elim (Bool-cases (j == k)) [
    | inl q ↦ subst P (cc (rw q at e)) h.0
    | inr q ↦ Values-lookup P k v m h.1 (rw q at e)
  ]

  pub Values-insert {κ} :
      (P : V → Type κ) (k : ℕ) (v : V) (m : List (ℕ × V))
      → P v
      → Values P m
      → Values P (insert k v m)
  unfolding insert
  Values-insert P k v [] p h = (p, h)
  Values-insert P k v ((j, w) ∷ m) p h = elim (Bool-cases (j == k)) [
    | inl q ↦ rw (q, insert) (p, h.1)
    | inr q ↦ rw (q, insert) (h.0, Values-insert P k v m p h.1)
  ]
