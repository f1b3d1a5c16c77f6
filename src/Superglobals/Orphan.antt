-- ===== src/Superglobals/Orphan.antt =====
-- crates/ignis/src/php/superglobals.rs, `on_destroy`: what an owner that dies while its arrays are
-- installed leaves behind.
use ignis.Shared.{
  ℕ, suc, ◌≡◌, ◌≢◌, refl, ap, ◌∙◌, true, false, none, some, lookup, remove, lookup-remove_other,
  arith, Bool-cases, inl, inr,
}
use ignis.Superglobals.{Arrays, Scopes, install, save_current_view, on_switch, on_destroy}

abbrev orphaned : ℕ → Scopes → Scopes
orphaned ctx w = record w { slots = remove ctx w.slots; view = none }

destroy_owner :
    (ctx : ℕ) (w : Scopes)
    → w.claimed ≡ true
    → w.view ≡ some ctx
    → on_destroy ctx w ≡ orphaned ctx w
unfolding on_destroy
destroy_owner ctx w c v = ground (arith, c, v)

-- From the base world to {main} nothing is installed.
main_from_base :
    (main : ℕ) (w : Scopes)
    → w.view ≡ none
    → lookup main w.slots ≡ none
    → on_switch main true w ≡ record w { switches = suc w.switches }
unfolding on_switch
main_from_base main w v m = elim (Bool-cases w.claimed) [
  | inl c ↦ rw (c, m, v, on_switch) (ground (arith, c, v))
  | inr c ↦ rw (c, on_switch) (ground (arith, c))
]

-- The switch to an isolated fiber saves the base world.
base_saved :
    (to : ℕ) (vals : Arrays) (w : Scopes)
    → w.claimed ≡ true
    → w.view ≡ none
    → lookup to w.slots ≡ some vals
    → (on_switch to false w).base ≡ some w.table
unfolding on_switch install save_current_view
base_saved to vals w c v t = rw (c, t, v, on_switch) refl

-- Where a fiber dies while the symbol table holds its arrays, as when it returned to a fiber that has
-- no slot: the next switch to {main} leaves the dead fiber's arrays installed, and the switch from
-- there to an isolated fiber saves them as those of the base world.
pub view_outlives_owner :
    (ctx main to : ℕ) (vals : Arrays) (w : Scopes)
    → w.claimed ≡ true
    → w.view ≡ some ctx
    → lookup main w.slots ≡ none
    → lookup to w.slots ≡ some vals
    → ctx ≢ main
    → ctx ≢ to
    → let in_main = on_switch main true (on_destroy ctx w) in
      (in_main.table ≡ w.table) × ((on_switch to false in_main).base ≡ some w.table)
view_outlives_owner ctx main to vals w c v m t n k =
    let gone : lookup main (remove ctx w.slots) ≡ none =
      lookup-remove_other ctx main w.slots n ∙ m in
    let kept : lookup to (remove ctx w.slots) ≡ some vals =
      lookup-remove_other ctx to w.slots k ∙ t in
    let same : on_switch main true (on_destroy ctx w)
        ≡ record (orphaned ctx w) { switches = suc w.switches } =
      ap (on_switch main true) (destroy_owner ctx w c v)
      ∙ main_from_base main (orphaned ctx w) refl gone in
    (
      ap (λ (x : Scopes). x.table) same,
      ap (λ (x : Scopes). (on_switch to false x).base) same
          ∙ base_saved to vals (record (orphaned ctx w) { switches = suc w.switches }) c refl kept,
    )
