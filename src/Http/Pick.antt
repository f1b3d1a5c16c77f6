-- ===== src/Http/Pick.antt =====
-- crates/ignis/src/http.rs, `Registry::pick`: the choice is the least loaded thread, and of several
-- the first one from where the rotation stands.
use ignis.Shared.{
  ℕ, zero, suc, ◌+◌, ◌-◌, ◌%◌, ◌≤◌, ◌<◌, ◌≡◌, refl, sym, ap, subst, ◌∙◌, inl, inr, true, false,
  List, [], ◌∷◌, some, arith, length, get_elem?, ltb, leb, ◌==◌, u64_mod, wrapping_add, Bool-cases,
  eq_of_==,
}
use native.Mathlib.Nat.{mod-lt, mod-eq_of_lt, add-mod_right}
use ignis.Http.{Front, load, scan, pick}

-- Offset `b` has the least load of the first `n` offsets, and is the first that has.
pub record IsFirstLeast (g : ℕ → ℕ) (b n : ℕ) : Type 0 where
  pub below : b < n
  pub least : (j : ℕ) → j < n → g b ≤ g j
  pub first : (j : ℕ) → j < b → g b < g j

-- The load at an offset from where the scan starts.
abbrev pub at_offset : (ℕ → ℕ) → (n start : ℕ) → ℕ → ℕ
at_offset load n start k = load ((start + k) % n)

least_so_far : (g : ℕ → ℕ) (b k : ℕ) → IsFirstLeast g b k → g b ≤ g k → IsFirstLeast g b (suc k)
least_so_far g b k h l = record {
  below = omega (arith, h.below);
  least = λ j lj. elim (Bool-cases (j == k)) [
    | inl e ↦ subst (λ i. g b ≤ g i) (ground arith) l
    | inr e ↦ h.least j (ground arith)
  ];
  first = h.first;
}

new_least : (g : ℕ → ℕ) (b k : ℕ) → IsFirstLeast g b k → g k < g b → IsFirstLeast g k (suc k)
new_least g b k h l = record {
  below = omega arith;
  least = λ j lj. elim (Bool-cases (j == k)) [
    | inl e ↦ omega (arith, ap g (eq_of_== j k e))
    | inr e ↦ omega (arith, h.least j (ground arith))
  ];
  first = λ j lj. omega (arith, h.least j lj);
}

zero_least :
    (g : ℕ → ℕ) (b k n : ℕ) → IsFirstLeast g b k → g k < g b → g k ≡ 0 → k < n → IsFirstLeast g k n
zero_least g b k n h l z ln = record {
  below = ln;
  least = λ j lj. omega arith;
  first = λ j lj. omega (arith, h.least j lj);
}

scan_lem :
    (weight : ℕ → ℕ) (n start turns k b : ℕ)
    → IsFirstLeast (at_offset weight n start) b k
    → (c : ℕ) × (scan weight n start turns k ((start + b) % n) (at_offset weight n start b)
        ≡ (start + c) % n)
      × IsFirstLeast (at_offset weight n start) c (k + turns)
unfolding scan
scan_lem weight n start zero k b h =
    (b, refl, subst (IsFirstLeast (at_offset weight n start) b) (omega arith) h)
scan_lem weight n start (suc turns) k b h =
    let g : ℕ → ℕ = at_offset weight n start in
    elim (Bool-cases (ltb (g k) (g b))) [
      | inl y ↦ elim (Bool-cases (g k == 0)) [
        | inl z ↦ (
          k,
          rw (y, z, scan),
          zero_least g b k (k + suc turns) h (ground arith) (ground arith) (omega arith),
        )
        | inr z ↦
            let (c, e, i) =
              scan_lem weight n start turns (suc k) k (new_least g b k h (ground arith)) in
            (c, rw (y, z, scan) e, subst (IsFirstLeast g c) (omega arith) i)
      ]
      | inr y ↦
          let (c, e, i) =
            scan_lem weight n start turns (suc k) b (least_so_far g b k h (ground arith)) in
          (c, rw (y, scan) e, subst (IsFirstLeast g c) (omega arith) i)
    ]

get_elem?-below : (xs : List ℕ) (i : ℕ) → i < length xs → (t : ℕ) × (get_elem? xs i ≡ some t)
get_elem?-below [] i l = ground arith
get_elem?-below (x ∷ xs) zero l = (x, refl)
get_elem?-below (x ∷ xs) (suc i) l = get_elem?-below xs i (omega arith)

-- Every index is at some offset of the rotation.
offset_of : (n start i : ℕ) → start < n → i < n → (j : ℕ) × (j < n) × ((start + j) % n ≡ i)
offset_of n start i ls li = elim (Bool-cases (leb start i)) [
  | inl y ↦ (i - start, ground arith, ap (λ (x : ℕ). x % n) (ground arith) ∙ mod-eq_of_lt li)
  | inr y ↦ (
    (i + n) - start,
    ground arith,
    ap (λ (x : ℕ). x % n) (ground arith) ∙ (add-mod_right i n ∙ mod-eq_of_lt li),
  )
]

zero_of : (j : ℕ) → j < 1 → j ≡ 0
zero_of j l = omega arith

-- The first turn takes the offset 0, whose load is below `usize::MAX`, and the scan goes on.
scan_all :
    (weight : ℕ → ℕ) (n start : ℕ)
    → 0 < n
    → weight ((start + 0) % n) < u64_mod - 1
    → (c : ℕ) × (scan weight n start n 0 start (u64_mod - 1) ≡ (start + c) % n)
      × IsFirstLeast (at_offset weight n start) c n
unfolding scan
scan_all weight zero start l b = ground arith
scan_all weight (suc m) start l b =
    let g : ℕ → ℕ = at_offset weight (suc m) start in
    let y : ltb (g 0) (u64_mod - 1) ≡ true = ground arith in
    let here : IsFirstLeast g 0 1 = record {
      below = omega arith;
      least = λ j lj. omega (arith, ap g (zero_of j lj));
      first = λ j lj. omega arith;
    } in
    let (c, e, i) = scan_lem weight (suc m) start m 1 0 here in
    elim (Bool-cases (g 0 == 0)) [
      | inl z ↦ (
        0,
        rw (y, z, scan) refl,
        record { below = omega arith; least = λ j lj. ground arith; first = λ j lj. omega arith },
      )
      | inr z ↦ (c, rw (y, z, scan) e, subst (IsFirstLeast g c) (omega arith) i)
    ]

-- Where a thread is registered and no thread owes `usize::MAX` answers or more: `pick` gives a
-- registered thread that owes the fewest answers, and every thread between where the rotation
-- stands and that one owes more. The rotation moves on by one and nothing else changes.
pub pick_least :
    (f : Front)
    → 0 < length f.registered
    → ((i : ℕ) → i < length f.registered → load f i < u64_mod - 1)
    → (k t : ℕ) × ((pick f).1 ≡ some t)
      × (get_elem? f.registered ((f.next % length f.registered + k) % length f.registered) ≡ some t)
      × ((i : ℕ)
          → i < length f.registered
          → load f ((f.next % length f.registered + k) % length f.registered) ≤ load f i)
      × ((j : ℕ)
          → j < k
          → load f ((f.next % length f.registered + k) % length f.registered)
            < load f ((f.next % length f.registered + j) % length f.registered))
      × ((pick f).0 ≡ record f { next = wrapping_add f.next 1 })
unfolding pick
pick_least f l b =
    let n = length f.registered in
    let s = f.next % n in
    let z : (n == 0) ≡ false = ground arith in
    let (k, e, h) = scan_all (load f) n s l (b ((s + 0) % n) (mod-lt (s + 0) l)) in
    let (t, q) = get_elem?-below f.registered ((s + k) % n) (mod-lt (s + k) l) in
    (
      k,
      t,
      rw (z, e) q,
      q,
      λ i li.
          (let (j, lj, c) = offset_of n s i (mod-lt f.next l) li in
            subst (λ x. load f ((s + k) % n) ≤ load f x) c (h.least j lj)),
      h.first,
      rw z refl,
    )

zero_offset : (k : ℕ) → ((j : ℕ) → j < k → 1 ≤ 0) → k ≡ 0
zero_offset zero h = refl
zero_offset (suc k) h = omega (arith, h 0 (omega arith))

-- Where all the registered threads owe equally few answers, fewer than `usize::MAX`, the rotation
-- alone decides.
pub pick_rotates :
    (f : Front) (w : ℕ)
    → 0 < length f.registered
    → w < u64_mod - 1
    → ((i : ℕ) → i < length f.registered → load f i ≡ w)
    → (pick f).1 ≡ get_elem? f.registered (f.next % length f.registered)
pick_rotates f w l lw a =
    let n = length f.registered in
    let s = f.next % n in
    let (k, t, e, q, least, first, moved) = pick_least f l (λ i li. omega (arith, a i li)) in
    let none_before : k ≡ 0 = zero_offset k (λ j lj. omega (
      arith,
      first j lj,
      a ((s + k) % n) (mod-lt (s + k) l),
      a ((s + j) % n) (mod-lt (s + j) l),
    )) in
    e
    ∙ sym q
    ∙ ap (get_elem? f.registered) (
        ap (λ (x : ℕ). (s + x) % n) none_before
        ∙ ap (λ (x : ℕ). x % n) (omega arith)
        ∙ mod-eq_of_lt (mod-lt f.next l))
