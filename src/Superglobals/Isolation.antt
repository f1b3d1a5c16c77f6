-- ===== src/Superglobals/Isolation.antt =====
-- crates/ignis/src/php/superglobals.rs: an isolated fiber finds its own arrays again.
use ignis.Shared.{
  ℕ, suc, ◌≡◌, ◌≢◌, refl, sym, ap, subst, ◌∙◌, ◌⊎◌, inl, inr, Bool, true, false, All, List, [], ◌∷◌,
  none, some, ◌==◌, lookup, insert, remove, lookup-remove_other, lookup-insert_self,
  lookup-insert_other, eq_of_==, arith, Bool-cases, Option-cases,
}
use ignis.Superglobals.Events.{Event, runs, destroys, sets_all, active_of, happen, run}
use ignis.Superglobals.{
  Arrays, Scopes, undef4, install, save_current_view, isolate_current, set_superglobals, on_switch,
  on_destroy,
}

-- The fiber is not destroyed, is not {main}, and sets nothing further.
abbrev pub Allowed : ℕ → Event → Type 0
Allowed ctx (runs to to_main sets) = (to ≢ ctx) ⊎ ((to ≡ ctx) × (to_main ≡ false) × (sets ≡ []))
Allowed ctx (destroys k) = k ≢ ctx

abbrev pub all_set : (s g p c : ℕ) → Arrays
all_set s g p c = record { server = some s; get = some g; post = some p; cookie = some c }

module _ (ctx s g p c : ℕ) where
  -- The fiber is isolated and these are its arrays: they are installed while it is the owner of the
  -- view, and are in its slot while it is not.
  pub record Holds (w : Scopes) : Type 0 where
    pub claimed : w.claimed ≡ true
    pub kept :
        ((w.view ≡ some ctx) × (w.table ≡ all_set s g p c) × (lookup ctx w.slots ≢ none))
        ⊎ ((w.view ≢ some ctx) × (lookup ctx w.slots ≡ some (all_set s g p c)))

  slot_there : (w : Scopes) → Holds w → lookup ctx w.slots ≢ none
  slot_there w h = elim h.kept [ inl (v, t, l) ↦ l | inr (v, l) ↦ λ x. ground (arith, l, x) ]

  -- Once the view is saved, the arrays are in the slot.
  save-slot :
      (w : Scopes) → Holds w → lookup ctx (save_current_view w).slots ≡ some (all_set s g p c)
  unfolding save_current_view
  save-slot w h = elim h.kept [
    | inl (v, t, l) ↦
        rw (v, h.claimed, save_current_view) (lookup-insert_self ctx w.table w.slots ∙ ap some t)
    | inr (v, l) ↦ elim (Option-cases w.view) [
      | inl e ↦ rw (e, save_current_view) l
      | inr (o, e) ↦
          rw (e, h.claimed, save_current_view)
            (lookup-insert_other o ctx w.table w.slots (λ x. v (e ∙ ap some x)) ∙ l)
    ]
  ]

  save-claimed : (w : Scopes) → (save_current_view w).claimed ≡ w.claimed
  unfolding save_current_view
  save-claimed w = ground arith

  away :
      (w : Scopes)
      → w.claimed ≡ true
      → w.view ≢ some ctx
      → lookup ctx w.slots ≡ some (all_set s g p c)
      → Holds w
  away w e v l = record { claimed = e; kept = inr (v, l) }

  abbrev counted : Scopes → Scopes
  counted w = record w { switches = suc w.switches }

  count-Holds : (w : Scopes) → Holds w → Holds (counted w)
  count-Holds w h = record { claimed = h.claimed; kept = h.kept }

  -- The switch finds the target's view installed, or installs it.
  to_isolated :
      (to : ℕ) (to_main : Bool) (vals : Arrays) (w : Scopes)
      → w.claimed ≡ true
      → lookup to w.slots ≡ some vals
      → ((w.view ≡ some to) × (on_switch to to_main w ≡ counted w))
        ⊎ ((w.view ≢ some to)
            × (on_switch to to_main w
                ≡ record (install vals (save_current_view (counted w))) { view = some to }))
  unfolding on_switch
  to_isolated to to_main vals w h e = elim (Option-cases w.view) [
    | inl v ↦ inr (λ x. ground (arith, v, x), ground (arith, h, e, v))
    | inr (o, v) ↦ elim (Bool-cases (o == to)) [
      | inl y ↦ inl (v ∙ ap some (eq_of_== o to y), ground (arith, h, e, v, y))
      | inr z ↦ inr (λ x. ground (arith, v, x, z), ground (arith, h, e, v, z))
    ]
  ]

  -- The switch finds no slot: to {main} it leaves the isolated view, else it changes nothing.
  to_unisolated :
      (to : ℕ) (to_main : Bool) (w : Scopes)
      → w.claimed ≡ true
      → lookup to w.slots ≡ none
      → ((to_main ≡ false) × (on_switch to to_main w ≡ counted w))
        ⊎ (((on_switch to to_main w).view ≡ none)
            × ((on_switch to to_main w).claimed ≡ true)
            × (((w.view ≡ none) × ((on_switch to to_main w).slots ≡ w.slots))
                ⊎ ((on_switch to to_main w).slots ≡ (save_current_view w).slots)))
  unfolding on_switch save_current_view install
  to_unisolated to false w h e = inl (refl, ground (arith, h, e))
  to_unisolated to true w h e =
      inr (ground (arith, h, e), ground (arith, h, e), ground (arith, h, e))

  -- The fiber's arrays are installed, as its own.
  pub Installed : Scopes → Type 0
  Installed w = (w.view ≡ some ctx) × (w.table ≡ all_set s g p c) × (lookup ctx w.slots ≢ none)

  found_again :
      (vals : Arrays) (w : Scopes)
      → vals ≡ all_set s g p c
      → Holds w
      → Installed (record (install vals (save_current_view w)) { view = some ctx })
  unfolding Installed install
  found_again vals w e h = (
    refl,
    ap (λ (v : Arrays). (install v (save_current_view w)).table) e,
    λ x. ground (arith, save-slot w h, x),
  )

  switch_back :
      (to_main : Bool) (w : Scopes)
      → Holds w
      → Installed (on_switch ctx to_main w) × ((on_switch ctx to_main w).claimed ≡ true)
  unfolding Installed install
  switch_back to_main w h = elim (Option-cases (lookup ctx w.slots)) [
    | inl e ↦ elim (slot_there w h e) [ ]
    | inr (vals, e) ↦ elim (to_isolated ctx to_main vals w h.claimed e) [
      | inl (v, q) ↦ elim h.kept [
        | inl kept ↦
            subst (λ (x : Scopes). Installed x × (x.claimed ≡ true)) (sym q) (kept, h.claimed)
        | inr (n, l) ↦ elim (n v) [ ]
      ]
      | inr (v, q) ↦ elim h.kept [
        | inl kept ↦ elim (v kept.0) [ ]
        | inr (n, l) ↦
            let same : vals ≡ all_set s g p c = cc (sym e ∙ l) in
            subst (λ (x : Scopes). Installed x × (x.claimed ≡ true)) (sym q)
              (
                found_again vals (counted w) same (count-Holds w h),
                save-claimed (counted w) ∙ h.claimed,
              )
      ]
    ]
  ]

  -- Away from the fiber.
  switch_other :
      (to : ℕ) (to_main : Bool) (w : Scopes)
      → to ≢ ctx
      → Holds w
      → Holds (on_switch to to_main w)
        × (((on_switch to to_main w).view ≢ some ctx)
            ⊎ ((to_main ≡ false) × (lookup to (on_switch to to_main w).slots ≡ none)))
  unfolding install
  switch_other to to_main w n h = elim (Option-cases (lookup to w.slots)) [
    | inr (vals, e) ↦ elim (to_isolated to to_main vals w h.claimed e) [
      | inl (v, q) ↦
          let other : w.view ≢ some ctx = λ x. ground (arith, v, x, n) in
          subst
            (λ (x : Scopes).
              Holds x × ((x.view ≢ some ctx) ⊎ ((to_main ≡ false) × (lookup to x.slots ≡ none))))
            (sym q) (count-Holds w h, inl other)
      | inr (v, q) ↦
          let other : (some to ≡ some ctx) → ⊥ = λ x. ground (arith, x, n) in
          subst
            (λ (x : Scopes).
              Holds x × ((x.view ≢ some ctx) ⊎ ((to_main ≡ false) × (lookup to x.slots ≡ none))))
            (sym q)
            (
              record {
                claimed = save-claimed (counted w) ∙ h.claimed;
                kept = inr (other, save-slot (counted w) (count-Holds w h));
              },
              inl other,
            )
    ]
    | inl e ↦ elim (to_unisolated to to_main w h.claimed e) [
      | inl (f, q) ↦
          subst
            (λ (x : Scopes).
              Holds x × ((x.view ≢ some ctx) ⊎ ((to_main ≡ false) × (lookup to x.slots ≡ none))))
            (sym q) (count-Holds w h, inr (f, e))
      | inr (v, k, rest) ↦
          let other : (on_switch to to_main w).view ≢ some ctx = λ x. ground (arith, v, x) in
          (
            away (on_switch to to_main w) k other (elim rest [
              | inl (b, sl) ↦ ap (lookup ctx) sl ∙ elim h.kept [
                | inl kept ↦ let absurd : ⊥ = ground (arith, b, kept.0) in elim absurd [ ]
                | inr (m, l) ↦ l
              ]
              | inr sl ↦ ap (lookup ctx) sl ∙ save-slot w h
            ]),
            inl other,
          )
    ]
  ]

  -- The arrays stay in the slot, and the fiber is not the owner.
  pub Away : Scopes → Type 0
  Away w = Holds w × (w.view ≢ some ctx)

  install-Away : (vals : Arrays) (w : Scopes) → Away w → Away (install vals w)
  unfolding Away install
  install-Away vals w (h, n) = elim h.kept [
    | inl kept ↦ elim (n kept.0) [ ]
    | inr (m, l) ↦ (record { claimed = h.claimed; kept = inr (m, l) }, n)
  ]

  isolated :
      (k : ℕ) (w : Scopes)
      → w.claimed ≡ true
      → lookup k w.slots ≡ none
      → isolate_current (some k) w ≡ record (save_current_view w) {
        slots = insert k undef4 (save_current_view w).slots;
        view = some k;
      }
  unfolding isolate_current
  isolated k w h e = ground (arith, h, e)

  -- Another fiber is isolated.
  isolate-Away :
      (k : ℕ) (w : Scopes)
      → k ≢ ctx
      → Holds w
      → (w.view ≢ some ctx) ⊎ (lookup k w.slots ≡ none)
      → Away (isolate_current (some k) w)
  unfolding Away isolate_current
  isolate-Away k w n h d = elim (Option-cases (lookup k w.slots)) [
    | inr (vals, e) ↦ elim d [
      | inl v ↦ rw (e, isolate_current) (h, v)
      | inr f ↦ let absurd : ⊥ = ground (arith, e, f) in elim absurd [ ]
    ]
    | inl e ↦
        let other : (some k ≡ some ctx) → ⊥ = λ x. ground (arith, x, n) in
        subst Away (sym (isolated k w h.claimed e)) (
          record {
            claimed = save-claimed w ∙ h.claimed;
            kept = inr (
              other,
              lookup-insert_other k ctx undef4 (save_current_view w).slots n ∙ save-slot w h,
            );
          },
          other,
        )
  ]

  sets-Away :
      (to : ℕ) (to_main : Bool) (sets : List Arrays) (w : Scopes)
      → to ≢ ctx
      → Away w
      → Away (sets_all (active_of to to_main) sets w)
  unfolding Away set_superglobals isolate_current
  sets-Away to to_main [] w n a = a
  sets-Away to true (vals ∷ sets) w n a =
      sets-Away to true sets (install vals w) n (install-Away vals w a)
  sets-Away to false (vals ∷ sets) w n a =
      sets-Away to false sets (install vals (isolate_current (some to) w)) n
        (install-Away vals (isolate_current (some to) w) (isolate-Away to w n a.0 (inl a.1)))

  sets-Holds :
      (to : ℕ) (to_main : Bool) (sets : List Arrays) (w : Scopes)
      → to ≢ ctx
      → Holds w
      → (w.view ≢ some ctx) ⊎ ((to_main ≡ false) × (lookup to w.slots ≡ none))
      → Holds (sets_all (active_of to to_main) sets w)
  unfolding Away set_superglobals
  sets-Holds to to_main [] w n h d = h
  sets-Holds to to_main (vals ∷ sets) w n h (inl v) =
      (sets-Away to to_main (vals ∷ sets) w n (h, v)).0
  sets-Holds to true (vals ∷ sets) w n h (inr (f, e)) =
      let absurd : ⊥ = ground (arith, f) in elim absurd [ ]
  sets-Holds to false (vals ∷ sets) w n h (inr (f, e)) =
      (sets-Away to false sets (install vals (isolate_current (some to) w)) n
        (install-Away vals (isolate_current (some to) w) (isolate-Away to w n h (inr e)))).0

  destroys-Holds : (k : ℕ) (w : Scopes) → k ≢ ctx → Holds w → Holds (on_destroy k w)
  unfolding on_destroy
  destroys-Holds k w n h =
      let fewer : (on_destroy k w).slots ≡ remove k w.slots = ground (arith, h.claimed) in
      let same : lookup ctx (on_destroy k w).slots ≡ lookup ctx w.slots =
        ap (lookup ctx) fewer ∙ lookup-remove_other k ctx w.slots n in
      let still : (on_destroy k w).claimed ≡ true = ground (arith, h.claimed) in
      record {
        claimed = still;
        kept = elim h.kept [
          | inl (v, t, l) ↦
              let owner : (on_destroy k w).view ≡ some ctx = ground (arith, h.claimed, v, n) in
              let table : (on_destroy k w).table ≡ w.table = ground (arith, h.claimed) in
              inl (owner, table ∙ t, λ x. l (sym same ∙ x))
          | inr (v, l) ↦ inr (λ x. ground (arith, h.claimed, v, x), same ∙ l)
        ];
      }

  happen-Holds : (e : Event) (w : Scopes) → Allowed ctx e → Holds w → Holds (happen e w)
  unfolding happen Installed
  happen-Holds (destroys k) w a h = destroys-Holds k w a h
  happen-Holds (runs to to_main sets) w (inl n) h =
      let (after, d) = switch_other to to_main w n h in
      sets-Holds to to_main sets (on_switch to to_main w) n after d
  happen-Holds (runs to to_main sets) w (inr (t, m, e)) h =
      let (found, k) = switch_back to_main w h in
      let held : Holds (on_switch ctx to_main w) = record { claimed = k; kept = inl found } in
      let moved : Holds (on_switch to to_main w) =
        subst (λ (i : ℕ). Holds (on_switch i to_main w)) (sym t) held in
      subst
        (λ (l : List Arrays). Holds (sets_all (active_of to to_main) l (on_switch to to_main w)))
        (sym e) moved

-- A fiber that is isolated with all four arrays set, and any switches, ends of other fibers, and
-- calls of `ignis_set_superglobals` by fibers that were switched to and are not this one, in any
-- order: the fiber finds its four arrays installed when it is switched to.
pub arrays_return :
    (ctx s g p c : ℕ) (events : List Event) (w : Scopes)
    → All (Allowed ctx) events
    → Holds ctx s g p c w
    → (on_switch ctx false (run events w)).table ≡ all_set s g p c
unfolding run Installed
arrays_return ctx s g p c [] w a h = (switch_back ctx s g p c false w h).0.1
arrays_return ctx s g p c (e ∷ events) w a h =
    arrays_return ctx s g p c events (happen e w) a.1 (happen-Holds ctx s g p c e w a.0 h)
