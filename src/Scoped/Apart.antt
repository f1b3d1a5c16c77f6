-- ===== src/Scoped/Apart.antt =====
-- crates/ignis/src/php/scoped.rs: what the operations leave of one object and of a scope's copy of it.
use ignis.Shared.{
  ℕ, ◌≡◌, ◌≢◌, refl, ap, ◌∙◌, inl, inr, Bool, List, [], ◌∷◌, Option, none, some, ◌==◌,
  if◌then◌else◌, lookup, insert, remove, lookup-remove_other, UniqueKeys, Absent, arith, Bool-cases,
}
use ignis.Scoped.{
  Slots, Scoped, rows_of, row, row_zero, swap_all, swap_tables, on_switch, reset_all, remove_from,
}
use ignis.Scoped.Rows.{Tables, row_put}

swap_all-Absent :
    (l e j : ℕ) (live : List (ℕ × Slots)) (T : Tables)
    → Absent j live
    → Absent j (swap_all l e live T).0
unfolding swap_all
swap_all-Absent l e j [] T a = tt
swap_all-Absent l e j ((k, v) ∷ live) T a =
    (a.0, swap_all-Absent l e j live (swap_tables l e k v T) a.1)

swap_all-UniqueKeys :
    (l e : ℕ) (live : List (ℕ × Slots)) (T : Tables)
    → UniqueKeys live
    → UniqueKeys (swap_all l e live T).0
unfolding swap_all
swap_all-UniqueKeys l e [] T u = tt
swap_all-UniqueKeys l e ((k, v) ∷ live) T u = (
  swap_all-Absent l e k live (swap_tables l e k v T) u.0,
  swap_all-UniqueKeys l e live (swap_tables l e k v T) u.1,
)

pub on_switch-UniqueKeys :
    (l e : ℕ) (w : Scoped) → UniqueKeys w.live → UniqueKeys (on_switch l e w).live
unfolding on_switch
on_switch-UniqueKeys l e w u = elim (Bool-cases (l == e)) [
  | inl y ↦ rw (y, on_switch) u
  | inr z ↦ rw (z, on_switch) (swap_all-UniqueKeys l e w.live w.tables u)
]

reset_all-Absent :
    (j : ℕ) (live : List (ℕ × Slots)) (T : Tables) → Absent j live → Absent j (reset_all live T)
reset_all-Absent j [] T a = tt
reset_all-Absent j ((k, v) ∷ live) T a = (a.0, reset_all-Absent j live T a.1)

pub reset_all-UniqueKeys :
    (live : List (ℕ × Slots)) (T : Tables) → UniqueKeys live → UniqueKeys (reset_all live T)
reset_all-UniqueKeys [] T u = tt
reset_all-UniqueKeys ((k, v) ∷ live) T u =
    (reset_all-Absent k live T u.0, reset_all-UniqueKeys live T u.1)

-- A reset leaves each object live.
pub reset_all-live :
    (h : ℕ) (live : List (ℕ × Slots)) (T : Tables)
    → lookup h live ≢ none
    → lookup h (reset_all live T) ≢ none
unfolding lookup
reset_all-live h [] T n = n
reset_all-live h ((j, v) ∷ live) T n = elim (Bool-cases (j == h)) [
  | inl y ↦ rw y (λ x. ground (arith, x))
  | inr z ↦ rw z (
      reset_all-live h live T
        (λ x. n (ap (λ (b : Bool). if b then some v else lookup h live) z ∙ x)))
]

-- The copies of one object in a table, where another is dropped.
pub row-remove_from : (s h j : ℕ) (T : Tables) → j ≢ h → row s h (remove_from j T) ≡ row s h T
unfolding lookup
row-remove_from s h j [] n = refl
row-remove_from s h j ((k, rows) ∷ T) n = elim (Bool-cases (k == s)) [
  | inl y ↦ rw (y, row, rows_of, lookup) (lookup-remove_other j h rows n)
  | inr z ↦ rw (z, row, rows_of, lookup) (row-remove_from s h j T n)
]

-- Another scope's tables go.
pub row-remove : (s h k : ℕ) (T : Tables) → k ≢ s → row s h (remove k T) ≡ row s h T
row-remove s h k T n =
    ap (λ (o : Option (List (ℕ × Slots))). lookup h (elim o [ some r ↦ r | none ↦ [] ]))
      (lookup-remove_other k s T n)

-- Row zero is sealed.
pub row-seal :
    (s h j : ℕ) (v : Slots) (T : Tables)
    → s ≢ row_zero
    → row s h (insert row_zero (insert j v (rows_of row_zero T)) T) ≡ row s h T
row-seal s h j v T n = ground (arith, n, row_put row_zero s j h v T)
