-- ===== src/Scoped/Return.antt =====
-- crates/ignis/src/php/scoped.rs: a scope finds its own values of an object again.
use ignis.Shared.{
  ℕ, ◌≡◌, ◌≢◌, refl, sym, subst, ◌∙◌, ◌⊎◌, inl, inr, All, List, [], ◌∷◌, none, some, ◌==◌, lookup,
  insert, remove, lookup-insert, lookup-insert_other, lookup-remove_other, UniqueKeys,
  insert-UniqueKeys, remove-UniqueKeys, eq_of_==, ne_of_==, arith, Bool-cases, Option-cases,
}
use ignis.Scoped.{Slots, Scoped, row, row_zero, on_switch, allocate, seal, rows_clear, free_obj}
use ignis.Scoped.Rows.{on_switch-refines}
use ignis.Scoped.Apart.{
  on_switch-UniqueKeys, reset_all-UniqueKeys, reset_all-live, row-remove_from, row-remove, row-seal,
}
use ignis.Scoped.Events.{
  Act, assigns, allocates, seals, clears, frees, act, acts, World, Event, runs, happen, run,
}

-- What the scope `to` may do, where the scope `s` is to keep its values of the object `h`.
abbrev pub AllowedAct : (s h to : ℕ) → Act → Type 0
AllowedAct s h to (assigns j v) = (to ≢ s) ⊎ (j ≢ h)
AllowedAct s h to (allocates none) = Unit
AllowedAct s h to (allocates (some (j, v))) = j ≢ h
AllowedAct s h to (seals j) = Unit
AllowedAct s h to clears = to ≢ s
AllowedAct s h to (frees j) = j ≢ h

abbrev pub Allowed : (s h : ℕ) → Event → Type 0
Allowed s h (runs to turn) = All (AllowedAct s h to) turn

still :
    (j h : ℕ) (x : Slots) (live : List (ℕ × Slots))
    → lookup h (insert j x live) ≡ none
    → lookup h live ≡ none
still j h x live e = ground (arith, e, lookup-insert j h x live)

module _ (s h : ℕ) (v : Slots) where
  -- Each live object has one entry and this is one of them, and the scope's values of it are these:
  -- in the object's slots while the scope runs, and in its copy while another does.
  pub record Owns (current : ℕ) (w : Scoped) : Type 0 where
    pub unique : UniqueKeys w.live
    pub alive : lookup h w.live ≢ none
    pub kept :
        ((current ≡ s) × (lookup h w.live ≡ some v)) ⊎ ((current ≢ s) × (row s h w.tables ≡ some v))

  -- A switch between two scopes.
  moved-Owns :
      (current to : ℕ) (x : Slots) (w : Scoped)
      → current ≢ to
      → lookup h w.live ≡ some x
      → Owns current w
      → Owns to (on_switch current to w)
  moved-Owns current to x w n q o =
      let (now, copy) = on_switch-refines current to s h x w o.unique n q in
      record {
        unique = on_switch-UniqueKeys current to w o.unique;
        alive = λ e. ground (arith, now, e);
        kept = elim (Bool-cases (to == s)) [
          | inl y ↦ inl (
            eq_of_== to s y,
            elim o.kept [
              | inl (c, l) ↦ elim (n (c ∙ sym (eq_of_== to s y))) [ ]
              | inr (c, l) ↦
                  let mine : row to h w.tables ≡ some v =
                    subst (λ (i : ℕ). row i h w.tables ≡ some v) (sym (eq_of_== to s y)) l in
                  now ∙ ground (arith, mine)
            ],
          )
          | inr z ↦ inr (
            ne_of_== to s z,
            copy ∙ elim o.kept [
              | inl (c, l) ↦ let same : x ≡ v = cc (sym q ∙ l) in ground (arith, z, c, same)
              | inr (c, l) ↦ ground (arith, z, c, l)
            ],
          )
        ];
      }

  switch-Owns : (current to : ℕ) (w : Scoped) → Owns current w → Owns to (on_switch current to w)
  unfolding on_switch
  switch-Owns current to w o = elim (Bool-cases (current == to)) [
    | inl y ↦ rw (y, on_switch) (subst (λ (c : ℕ). Owns c w) (eq_of_== current to y) o)
    | inr z ↦ elim (Option-cases (lookup h w.live)) [
      | inl e ↦ elim (o.alive e) [ ]
      | inr (x, e) ↦ moved-Owns current to x w (ne_of_== current to z) e o
    ]
  ]

  -- Another object's slots are written, or it is made, and the copies stay.
  put-Owns :
      (to j : ℕ) (x : Slots) (w : Scoped)
      → j ≢ h
      → Owns to w
      → Owns to (record w { live = insert j x w.live })
  put-Owns to j x w n o =
      let same : lookup h (insert j x w.live) ≡ lookup h w.live =
        lookup-insert_other j h x w.live n in
      record {
        unique = insert-UniqueKeys j x w.live o.unique;
        alive = λ e. o.alive (sym same ∙ e);
        kept = elim o.kept [ inl (c, l) ↦ inl (c, same ∙ l) | inr k ↦ inr k ];
      }

  assign-Owns :
      (to j : ℕ) (x : Slots) (w : Scoped)
      → (to ≢ s) ⊎ (j ≢ h)
      → Owns to w
      → Owns to (record w { live = insert j x w.live })
  assign-Owns to j x w (inr n) o = put-Owns to j x w n o
  assign-Owns to j x w (inl m) o = record {
    unique = insert-UniqueKeys j x w.live o.unique;
    alive = λ e. o.alive (still j h x w.live e);
    kept = elim o.kept [ inl (c, l) ↦ elim (m c) [ ] | inr k ↦ inr k ];
  }

  clear-Owns : (to : ℕ) (w : Scoped) → to ≢ s → Owns to w → Owns to (rows_clear to w)
  unfolding rows_clear
  clear-Owns to w n o = elim (Bool-cases (to == row_zero)) [
    | inl y ↦ rw (y, rows_clear) o
    | inr z ↦
        rw (z, rows_clear)
          (record {
            unique = reset_all-UniqueKeys w.live w.tables o.unique;
            alive = reset_all-live h w.live w.tables o.alive;
            kept = elim o.kept [
              | inl (c, l) ↦ elim (n c) [ ]
              | inr (c, l) ↦ inr (c, row-remove s h to w.tables n ∙ l)
            ];
          })
  ]

  free-Owns : (to j : ℕ) (w : Scoped) → j ≢ h → Owns to w → Owns to (free_obj j w)
  unfolding free_obj
  free-Owns to j w n o =
      let same : lookup h (remove j w.live) ≡ lookup h w.live = lookup-remove_other j h w.live n in
      record {
        unique = remove-UniqueKeys j w.live o.unique;
        alive = λ e. o.alive (sym same ∙ e);
        kept = elim o.kept [
          | inl (c, l) ↦ inl (c, same ∙ l)
          | inr (c, l) ↦ inr (c, row-remove_from s h j w.tables n ∙ l)
        ];
      }

  seal-Owns : (to j : ℕ) (w : Scoped) → s ≢ row_zero → Owns to w → Owns to (seal j w)
  unfolding seal
  seal-Owns to j w z o = elim (Option-cases (lookup j w.live)) [
    | inl e ↦ rw (e, seal) o
    | inr (x, e) ↦
        rw (e, seal)
          (record {
            unique = o.unique;
            alive = o.alive;
            kept = elim o.kept [
              | inl k ↦ inl k
              | inr (c, l) ↦ inr (c, row-seal s h j x w.tables z ∙ l)
            ];
          })
  ]

  act-Owns :
      (to : ℕ) (a : Act) (w : Scoped)
      → s ≢ row_zero
      → AllowedAct s h to a
      → Owns to w
      → Owns to (act to a w)
  unfolding act allocate
  act-Owns to (assigns j x) w z a o = elim (Option-cases (lookup j w.live)) [
    | inl e ↦ rw (e, act) o
    | inr (y, e) ↦ rw (e, act) (assign-Owns to j x w a o)
  ]
  act-Owns to (allocates none) w z a o = o
  act-Owns to (allocates (some (j, x))) w z a o = put-Owns to j x w a o
  act-Owns to (seals j) w z a o = seal-Owns to j w z o
  act-Owns to clears w z a o = clear-Owns to w a o
  act-Owns to (frees j) w z a o = free-Owns to j w a o

  acts-Owns :
      (to : ℕ) (turn : List Act) (w : Scoped)
      → s ≢ row_zero
      → All (AllowedAct s h to) turn
      → Owns to w
      → Owns to (acts to turn w)
  acts-Owns to [] w z a o = o
  acts-Owns to (x ∷ turn) w z a o = acts-Owns to turn (act to x w) z a.1 (act-Owns to x w z a.0 o)

-- A scope that is not {main}, its values of a live object, where each live object has one entry, and
-- any switches and what the scopes then do, in any order, in which this scope does not write the
-- object or clear its rows, and the object is not freed: when the scope is switched to, the object's
-- slots hold its values, whatever other scopes have written to the same object.
pub own_values_return :
    (s h : ℕ) (v : Slots) (events : List Event) (w : World)
    → s ≢ row_zero
    → All (Allowed s h) events
    → Owns s h v w.current w.scoped
    → lookup h (happen (runs s []) (run events w)).scoped.live ≡ some v
unfolding run happen
own_values_return s h v [] w z a o =
    let back : Owns s h v s (on_switch w.current s w.scoped) =
      switch-Owns s h v w.current s w.scoped o in
    elim back.kept [ inl (c, l) ↦ l | inr (c, l) ↦ elim (c refl) [ ] ]
own_values_return s h v (runs to turn ∷ events) w z a o =
    own_values_return s h v events (happen (runs to turn) w) z a.1 (
      acts-Owns s h v to turn (on_switch w.current to w.scoped) z a.0
        (switch-Owns s h v w.current to w.scoped o))
