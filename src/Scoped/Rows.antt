-- ===== src/Scoped/Rows.antt =====
-- crates/ignis/src/php/scoped.rs, `on_switch`: what a switch does to one object, as if it had the
-- thread to itself.
use ignis.Shared.{
  ℕ, ◌≡◌, ◌≢◌, refl, sym, ap, subst, ◌∙◌, inl, inr, Bool, true, false, List, [], ◌∷◌, Option, none,
  some, ◌==◌, if◌then◌else◌, lookup, insert, remove, lookup-insert, lookup-remove,
  lookup-insert_self, lookup-insert_other, UniqueKeys, Absent, ==_of_ne, eq_of_==, ne_of_==, arith,
  Bool-cases,
}
use ignis.Scoped.{
  Slots, Scoped, rows_of, row, row_zero, defaults, swap_tables, swap_slots, swap_all, on_switch,
}

abbrev pub Tables : Type 0
Tables = List (ℕ × List (ℕ × Slots))

-- What the slots become, from the copies that the scopes have of this object.
abbrev pub next_slots : (leaving entering : ℕ) → Slots → (ℕ → Option Slots) → Slots
next_slots leaving entering slots rows = elim (rows entering) [
  | some values ↦ values
  | none ↦ defaults (if leaving == row_zero then some slots else rows row_zero) slots
]

-- The copies after the switch: the scope that is left has one, and the one that is entered none.
abbrev pub next_row : (leaving entering : ℕ) → Slots → (ℕ → Option Slots) → ℕ → Option Slots
next_row leaving entering slots rows scope =
    if entering == scope then none else if leaving == scope then some slots else rows scope

rows_of_self : (l : ℕ) (R : List (ℕ × Slots)) (T : Tables) → rows_of l (insert l R T) ≡ R
rows_of_self l R T = ground (arith, lookup-insert_self l R T)

rows_of_other :
    (l s : ℕ) (R : List (ℕ × Slots)) (T : Tables) → l ≢ s → rows_of s (insert l R T) ≡ rows_of s T
rows_of_other l s R T n = ground (arith, lookup-insert_other l s R T n)

-- A copy of one object put into the table of a scope.
pub row_put :
    (l s j h : ℕ) (v : Slots) (T : Tables)
    → row s h (insert l (insert j v (rows_of l T)) T)
      ≡ (if l == s then (if j == h then some v else row s h T) else row s h T)
row_put l s j h v T = elim (Bool-cases (l == s)) [
  | inl y ↦ rw y (
      subst
        (λ (i : ℕ).
          row i h (insert l (insert j v (rows_of l T)) T) ≡ (if j == h then some v else row i h T))
        (eq_of_== l s y)
        (ap (lookup h) (rows_of_self l (insert j v (rows_of l T)) T)
          ∙ lookup-insert j h v (rows_of l T)))
  | inr z ↦ rw z (ap (lookup h) (rows_of_other l s (insert j v (rows_of l T)) T (ne_of_== l s z)))
]

abbrev saved : ℕ → ℕ → Slots → Tables → Tables
saved l j v T = insert l (insert j v (rows_of l T)) T

no_rows : (e h : ℕ) (T : Tables) → lookup e T ≡ none → row e h T ≡ none
unfolding lookup
no_rows e h T q =
    ap (λ (o : Option (List (ℕ × Slots))). lookup h (elim o [ some rows ↦ rows | none ↦ [] ])) q

some_rows :
    (e h : ℕ) (rows : List (ℕ × Slots)) (T : Tables)
    → lookup e T ≡ some rows
    → row e h T ≡ lookup h rows
some_rows e h rows T q =
    ap (λ (o : Option (List (ℕ × Slots))). lookup h (elim o [ some r ↦ r | none ↦ [] ])) q

abbrev take_from : Option (List (ℕ × Slots)) → ℕ → ℕ → Tables → Tables
take_from found e j T = elim found [ some rows ↦ insert e (remove j rows) T | none ↦ T ]

-- A copy taken out of the table of a scope, where there is one.
row_taken :
    (e s j h : ℕ) (T : Tables) (found : Option (List (ℕ × Slots)))
    → lookup e T ≡ found
    → row s h (take_from found e j T)
      ≡ (if e == s then (if j == h then none else row s h T) else row s h T)
row_taken e s j h T none q = elim (Bool-cases (e == s)) [
  | inr z ↦ rw z refl
  | inl y ↦
      let gone : row s h T ≡ none =
        subst (λ (i : ℕ). row i h T ≡ none) (eq_of_== e s y) (no_rows e h T q) in
      rw y (ground (arith, gone))
]
row_taken e s j h T (some rows) q = elim (Bool-cases (e == s)) [
  | inr z ↦ rw z (ap (lookup h) (rows_of_other e s (remove j rows) T (ne_of_== e s z)))
  | inl y ↦
      let now : row e h (insert e (remove j rows) T) ≡ (if j == h then none else row e h T) =
        ap (lookup h) (rows_of_self e (remove j rows) T)
        ∙ (lookup-remove j h rows
            ∙ ap (λ (o : Option Slots). if j == h then none else o)
                (sym (some_rows e h rows T q))) in
      rw y (
        subst
          (λ (i : ℕ). row i h (insert e (remove j rows) T) ≡ (if j == h then none else row i h T))
          (eq_of_== e s y) now)
]

-- One object's turn: another object's copies stay, and its own move.
pub row-swap_tables :
    (l e s j h : ℕ) (v : Slots) (T : Tables)
    → row s h (swap_tables l e j v T)
      ≡ (if j == h then next_row l e v (λ (i : ℕ). row i h T) s else row s h T)
unfolding swap_tables
row-swap_tables l e s j h v T =
    row_taken e s j h (saved l j v T) (lookup e (saved l j v T)) refl
    ∙ ground (arith, row_put l s j h v T)

pub swap_slots-next :
    (l e h : ℕ) (v : Slots) (T : Tables)
    → l ≢ e
    → swap_slots l e h v T ≡ next_slots l e v (λ (i : ℕ). row i h T)
unfolding swap_slots
swap_slots-next l e h v T n = ground (arith, n, row_put l e h h v T, row_put l row_zero h h v T)

-- The turn of another object.
swap_slots-other :
    (l e j h : ℕ) (u v : Slots) (T : Tables)
    → l ≢ e
    → j ≢ h
    → swap_slots l e h v (swap_tables l e j u T) ≡ swap_slots l e h v T
swap_slots-other l e j h u v T n m = ground (
  arith,
  m,
  swap_slots-next l e h v T n,
  swap_slots-next l e h v (swap_tables l e j u T) n,
  row-swap_tables l e e j h u T,
  row-swap_tables l e row_zero j h u T,
)

-- An object that is not live keeps its copies.
swap_all-Absent :
    (l e s h : ℕ) (live : List (ℕ × Slots)) (T : Tables)
    → Absent h live
    → row s h (swap_all l e live T).1 ≡ row s h T
unfolding swap_all
swap_all-Absent l e s h [] T a = refl
swap_all-Absent l e s h ((j, v) ∷ live) T a =
    swap_all-Absent l e s h live (swap_tables l e j v T) a.1
    ∙ ground (arith, a.0, row-swap_tables l e s j h v T)

no_entry : (h : ℕ) (v : Slots) → lookup h [] ≡ some v → ⊥
unfolding lookup
no_entry h v q = ground (arith, q)

head_slots :
    (j h : ℕ) (x v : Slots) (live : List (ℕ × Slots))
    → (j == h) ≡ true
    → lookup h ((j, x) ∷ live) ≡ some v
    → x ≡ v
unfolding lookup
head_slots j h x v live y q =
    let same : some x ≡ some v =
      ap (λ (b : Bool). if b then some x else lookup h live) (sym y) ∙ q in
    cc same

tail_slots :
    (j h : ℕ) (x v : Slots) (live : List (ℕ × Slots))
    → (j == h) ≡ false
    → lookup h ((j, x) ∷ live) ≡ some v
    → lookup h live ≡ some v
unfolding lookup
tail_slots j h x v live z q = ap (λ (b : Bool). if b then some x else lookup h live) (sym z) ∙ q

swap_all-slots :
    (l e h : ℕ) (v : Slots) (live : List (ℕ × Slots)) (T : Tables)
    → l ≢ e
    → lookup h live ≡ some v
    → lookup h (swap_all l e live T).0 ≡ some (swap_slots l e h v T)
unfolding swap_all lookup
swap_all-slots l e h v [] T n q = ground (arith, q)
swap_all-slots l e h v ((j, x) ∷ live) T n q = elim (Bool-cases (j == h)) [
  | inl y ↦ rw y (
      ap (λ (i : ℕ). some (swap_slots l e i x T)) (eq_of_== j h y)
      ∙ ap (λ (o : Slots). some (swap_slots l e h o T)) (head_slots j h x v live y q))
  | inr z ↦ rw z (
      swap_all-slots l e h v live (swap_tables l e j x T) n (tail_slots j h x v live z q)
      ∙ ap some (swap_slots-other l e j h x v T n (ne_of_== j h z)))
]

swap_all-row :
    (l e s h : ℕ) (v : Slots) (live : List (ℕ × Slots)) (T : Tables)
    → UniqueKeys live
    → lookup h live ≡ some v
    → row s h (swap_all l e live T).1 ≡ next_row l e v (λ (i : ℕ). row i h T) s
unfolding swap_all
swap_all-row l e s h v [] T u q = elim (no_entry h v q) [ ]
swap_all-row l e s h v ((j, x) ∷ live) T u q = elim (Bool-cases (j == h)) [
  | inl y ↦
      swap_all-Absent l e s h live (swap_tables l e j x T)
        (subst (λ (i : ℕ). Absent i live) (eq_of_== j h y) u.0)
      ∙ (row-swap_tables l e s j h x T
          ∙ (ap (λ (b : Bool). if b then next_row l e x (λ (i : ℕ). row i h T) s else row s h T) y
              ∙ ap (λ (o : Slots). next_row l e o (λ (i : ℕ). row i h T) s)
                  (head_slots j h x v live y q)))
  | inr z ↦
      swap_all-row l e s h v live (swap_tables l e j x T) u.1 (tail_slots j h x v live z q)
      ∙ ap (λ (r : Option Slots). if e == s then none else if l == s then some v else r)
          (row-swap_tables l e s j h x T
            ∙ ap (λ (b : Bool). if b then next_row l e x (λ (i : ℕ). row i h T) s else row s h T) z)
]

-- Where each live object has one entry, and the scopes differ: a switch does to each object, and to
-- the copies of it that the scopes have, what `next_slots` and `next_row` say, which know of no other
-- object; the scope that is entered gets its own copy back, or row zero's where it has none.
pub on_switch-refines :
    (l e s h : ℕ) (v : Slots) (w : Scoped)
    → UniqueKeys w.live
    → l ≢ e
    → lookup h w.live ≡ some v
    → (lookup h (on_switch l e w).live ≡ some (next_slots l e v (λ (i : ℕ). row i h w.tables)))
      × (row s h (on_switch l e w).tables ≡ next_row l e v (λ (i : ℕ). row i h w.tables) s)
unfolding on_switch
on_switch-refines l e s h v w u n q =
    rw (==_of_ne l e n, on_switch)
      (
        swap_all-slots l e h v w.live w.tables n q ∙ ap some (swap_slots-next l e h v w.tables n),
        swap_all-row l e s h v w.live w.tables u q,
      )
