-- ===== src/Park/Sites.antt =====
-- crates/ignis/src/php/park.rs, `site_parks` and `may_park`: the cache of call sites answers what the
-- policy does, and the gate.
use ignis.Shared.{
  ℕ, ◌≡◌, refl, ap, ◌∙◌, sym, subst, inl, inr, ◌⊎◌, Bool, true, false, List, [], ◌∷◌, Option, none,
  some, Bytes, ◌==◌, if◌then◌else◌, arith, eq_of_==, Bool-cases, Option-cases, lookup, insert,
  lookup-insert,
}
use ignis.Park.{Row, Park, policy_parks, base_name, site_parks, may_park, drop_guard}

-- The policy's answer for a call, with no cache.
abbrev pub decides : List Row → (dladdr : ℕ → Option Bytes) → (ret : ℕ) → (sym : Bytes) → Bool
decides rows dladdr ret sym = elim (dladdr ret) [
  | some name ↦ policy_parks rows (base_name name) sym
  | none ↦ false
]

module _ (rows : List Row) (dladdr : ℕ → Option Bytes) (symbol_at : ℕ → Bytes) where
  -- What is cached for a call site is the policy's answer for the symbol that the site calls.
  pub record Coherent (w : Park) : Type 0 where
    pub cached :
        (ret : ℕ) (b : Bool)
        → lookup ret w.sites ≡ some b
        → b ≡ decides rows dladdr ret (symbol_at ret)

  site_parks-decides :
      (ret : ℕ) (w : Park)
      → Coherent w
      → (site_parks rows dladdr ret (symbol_at ret) w).1 ≡ decides rows dladdr ret (symbol_at ret)
  unfolding site_parks
  site_parks-decides ret w h = elim (Option-cases (lookup ret w.sites)) [
    | inr (b, e) ↦ rw (e, site_parks) (h.cached ret b e)
    | inl e ↦ elim (Option-cases (dladdr ret)) [
      | inr (name, d) ↦ rw (e, d, site_parks, decides) refl
      | inl d ↦ rw (e, d, site_parks, decides) refl
    ]
  ]

  site_parks-sites :
      (ret : ℕ) (w : Park)
      → Coherent w
      → ((site_parks rows dladdr ret (symbol_at ret) w).0.sites ≡ w.sites)
        ⊎ ((site_parks rows dladdr ret (symbol_at ret) w).0.sites
            ≡ insert ret (decides rows dladdr ret (symbol_at ret)) w.sites)
  unfolding site_parks
  site_parks-sites ret w h = elim (Option-cases (lookup ret w.sites)) [
    | inr (b, e) ↦ inl (rw (e, site_parks) refl)
    | inl e ↦ elim (Option-cases (dladdr ret)) [
      | inr (name, d) ↦ inr (rw (e, d, site_parks, decides) refl)
      | inl d ↦ inr (rw (e, d, site_parks, decides) refl)
    ]
  ]

  insert-cached :
      (ret j : ℕ) (sites : List (ℕ × Bool)) (b : Bool)
      → ((i : ℕ) (c : Bool) → lookup i sites ≡ some c → c ≡ decides rows dladdr i (symbol_at i))
      → lookup j (insert ret (decides rows dladdr ret (symbol_at ret)) sites) ≡ some b
      → b ≡ decides rows dladdr j (symbol_at j)
  insert-cached ret j sites b h e = elim (Bool-cases (ret == j)) [
    | inl q ↦
        let same : some b ≡ some (decides rows dladdr ret (symbol_at ret)) =
          sym e
          ∙ (lookup-insert ret j (decides rows dladdr ret (symbol_at ret)) sites
              ∙ ap
                  (λ (t : Bool).
                    if t then some (decides rows dladdr ret (symbol_at ret)) else lookup j sites)
                  q) in
        let answer : b ≡ decides rows dladdr ret (symbol_at ret) = cc same in
        subst (λ i. b ≡ decides rows dladdr i (symbol_at i)) (eq_of_== ret j q) answer
    | inr q ↦ h j b (
        ap
          (λ (t : Bool).
            if t then some (decides rows dladdr ret (symbol_at ret)) else lookup j sites)
          (sym q)
        ∙ (sym (lookup-insert ret j (decides rows dladdr ret (symbol_at ret)) sites) ∙ e))
  ]

  site_parks-Coherent :
      (ret : ℕ) (w : Park) → Coherent w → Coherent (site_parks rows dladdr ret (symbol_at ret) w).0
  site_parks-Coherent ret w h = elim (site_parks-sites ret w h) [
    | inl e ↦ record { cached = λ j b q. h.cached j b (ap (lookup j) (sym e) ∙ q) }
    | inr e ↦ record {
      cached = λ j b q. insert-cached ret j w.sites b h.cached (ap (lookup j) (sym e) ∙ q);
    }
  ]

  -- The call sites of a history, in order.
  abbrev pub visit : List ℕ → Park → Park
  visit [] w = w
  visit (ret ∷ rets) w = visit rets (site_parks rows dladdr ret (symbol_at ret) w).0

  visit-Coherent : (rets : List ℕ) (w : Park) → Coherent w → Coherent (visit rets w)
  visit-Coherent [] w h = h
  visit-Coherent (ret ∷ rets) w h =
      visit-Coherent rets (site_parks rows dladdr ret (symbol_at ret) w).0
        (site_parks-Coherent ret w h)

  -- Where each call site calls one symbol only and the cache was empty: after any history of calls
  -- the answer for the next one is the policy's for its library and its symbol.
  pub sites_answer :
      (w : Park) (rets : List ℕ) (ret : ℕ)
      → w.sites ≡ []
      → (site_parks rows dladdr ret (symbol_at ret) (visit rets w)).1
        ≡ decides rows dladdr ret (symbol_at ret)
  unfolding lookup
  sites_answer w rets ret e =
      site_parks-decides ret (visit rets w)
        (visit-Coherent rets w (record { cached = λ j b q. cc (ap (lookup j) (sym e) ∙ q) }))

site_parks-gate :
    (rows : List Row) (dladdr : ℕ → Option Bytes) (ret : ℕ) (name : Bytes) (w : Park)
    → (site_parks rows dladdr ret name w).0.gate ≡ w.gate
unfolding site_parks
site_parks-gate rows dladdr ret name w = elim (Option-cases (lookup ret w.sites)) [
  | inr (b, e) ↦ rw (e, site_parks) refl
  | inl e ↦ elim (Option-cases (dladdr ret)) [
    | inr (object, d) ↦ rw (e, d, site_parks) refl
    | inl d ↦ rw (e, d, site_parks) refl
  ]
]

closed_gate :
    (rows : List Row) (dladdr : ℕ → Option Bytes) (ret : ℕ) (name : Bytes) (w : Park)
    → (w.gate == 1) ≡ false
    → may_park rows dladdr ret name w ≡ (w, false)
unfolding may_park
closed_gate rows dladdr ret name w e = rw (e, may_park) refl

open_gate :
    (rows : List Row) (dladdr : ℕ → Option Bytes) (ret : ℕ) (name : Bytes) (w : Park)
    → (w.gate == 1) ≡ true
    → let (v, parks) = may_park rows dladdr ret name w in
      ((parks ≡ true) × (v.gate ≡ 2)) ⊎ ((parks ≡ false) × (v.gate ≡ 1))
unfolding may_park
open_gate rows dladdr ret name w y =
    elim (Bool-cases (site_parks rows dladdr ret name (record w { gate = 2 })).1) [
      | inl p ↦
          rw (y, p, may_park)
            (inl (refl, site_parks-gate rows dladdr ret name (record w { gate = 2 })))
      | inr p ↦ rw (y, p, may_park) (inr (refl, refl))
    ]

-- A call parks only from the gate's state 1, where the policy says so, and then the gate is 2, so
-- that a call made meanwhile does not park; in every other case the gate is as it was. The guard's
-- drop sets the gate back to 1.
pub may_park-gate :
    (rows : List Row) (dladdr : ℕ → Option Bytes) (ret : ℕ) (name : Bytes) (w : Park)
    → let (v, parks) = may_park rows dladdr ret name w in
      ((w.gate ≡ 1)
        × (parks ≡ true)
        × (v.gate ≡ 2)
        × ((may_park rows dladdr ret name v).1 ≡ false)
        × ((drop_guard v).gate ≡ w.gate))
      ⊎ ((parks ≡ false) × (v.gate ≡ w.gate))
unfolding drop_guard
may_park-gate rows dladdr ret name w = elim (Bool-cases (w.gate == 1)) [
  | inr n ↦ rw (closed_gate rows dladdr ret name w n) (inr (refl, refl))
  | inl y ↦ elim (open_gate rows dladdr ret name w y) [
    | inl (p, g) ↦ inl (
      eq_of_== w.gate 1 y,
      p,
      g,
      ap (λ (r : Park × Bool). r.1)
          (closed_gate rows dladdr ret name (may_park rows dladdr ret name w).0
            (ground (arith, g))),
      ground (arith, y),
    )
    | inr (p, g) ↦ inr (p, g ∙ sym (eq_of_== w.gate 1 y))
  ]
]
