-- ===== src/Park/Policy.antt =====
-- crates/ignis/src/php/park.rs, `libs`: the text of the policy and its rows.
use ignis.Shared.{
  ℕ, ◌≡◌, ◌≢◌, refl, ap, ◌∙◌, false, List, [], ◌∷◌, ◌++◌, none, some, Bytes, All, arith,
}
use ignis.Park.{
  Row, split, extend_first, is_space, trim_start, trim_end, drop_space, split_once, row_of, rows_of,
  libs,
}

-- A character that a name of a library or of a symbol may have.
pub record IsPlain (c : ℕ) : Type 0 where
  pub no_comma : c ≢ b','
  pub no_colon : c ≢ b':'
  pub no_space : is_space c ≡ false

pub data IsName : Bytes → Type 0 where
  name : (c : ℕ) (cs : Bytes) → IsPlain c → All IsPlain cs → IsName (c ∷ cs)

abbrev pub IsRow : Row → Type 0
IsRow (lib, none) = IsName lib
IsRow (lib, some s) = IsName lib × IsName s

abbrev pub print_row : Row → Bytes
print_row (lib, none) = lib
print_row (lib, some s) = lib ++ b':' ∷ s

-- The rows with a comma between two of them.
unfoldable pub print : List Row → Bytes
print [] = []
print (r ∷ []) = print_row r
print (r ∷ q ∷ rows) = print_row r ++ b',' ∷ print (q ∷ rows)

-- No separator and no space.
abbrev Part : ℕ → Type 0
Part c = (c ≢ b',') × (is_space c ≡ false)

split-append : (p rest : Bytes) → All Part p → split b',' (p ++ b',' ∷ rest) ≡ p ∷ split b',' rest
unfolding split extend_first
split-append [] rest h = refl
split-append (x ∷ xs) rest h = ground (arith, h.0, split-append xs rest h.1)

split-Part : (p : Bytes) → All Part p → split b',' p ≡ p ∷ []
unfolding split extend_first
split-Part [] h = refl
split-Part (x ∷ xs) h = ground (arith, h.0, split-Part xs h.1)

trim_start-Part : (p : Bytes) → All Part p → trim_start p ≡ p
unfolding trim_start
trim_start-Part [] h = refl
trim_start-Part (x ∷ xs) h = rw (h.0.1, trim_start) refl

drop_space_lem : (x : ℕ) (xs : Bytes) → is_space x ≡ false → drop_space x xs ≡ x ∷ xs
unfolding drop_space
drop_space_lem x [] h = rw h refl
drop_space_lem x (y ∷ ys) h = refl

trim_end-Part : (p : Bytes) → All Part p → trim_end p ≡ p
unfolding trim_end
trim_end-Part [] h = refl
trim_end-Part (x ∷ xs) h = ap (drop_space x) (trim_end-Part xs h.1) ∙ drop_space_lem x xs h.0.1

split_once-name : (cs : Bytes) → All IsPlain cs → split_once b':' cs ≡ none
unfolding split_once
split_once-name [] h = refl
split_once-name (c ∷ cs) h = ground (arith, h.0.no_colon, split_once-name cs h.1)

split_once-append :
    (cs after : Bytes) → All IsPlain cs → split_once b':' (cs ++ b':' ∷ after) ≡ some (cs, after)
unfolding split_once
split_once-append [] after h = refl
split_once-append (c ∷ cs) after h = ground (arith, h.0.no_colon, split_once-append cs after h.1)

IsPlain-Part : (cs : Bytes) → All IsPlain cs → All Part cs
IsPlain-Part [] h = tt
IsPlain-Part (c ∷ cs) h = ((h.0.no_comma, h.0.no_space), IsPlain-Part cs h.1)

All-append : (cs ds : Bytes) → All Part cs → All Part ds → All Part (cs ++ ds)
All-append [] ds h k = k
All-append (c ∷ cs) ds h k = (h.0, All-append cs ds h.1 k)

IsName-IsPlain : (cs : Bytes) → IsName cs → All IsPlain cs
IsName-IsPlain _ (name c cs h t) = (h, t)

print_row-Part : (r : Row) → IsRow r → All Part (print_row r)
print_row-Part (lib, none) h = IsPlain-Part lib (IsName-IsPlain lib h)
print_row-Part (lib, some s) h =
    All-append lib (b':' ∷ s) (IsPlain-Part lib (IsName-IsPlain lib h.0))
      ((ground arith, ground arith), IsPlain-Part s (IsName-IsPlain s h.1))

row_of-print : (r : Row) → IsRow r → row_of (print_row r) ≡ r
unfolding row_of
row_of-print (lib, none) h = rw (split_once-name lib (IsName-IsPlain lib h), row_of) refl
row_of-print (lib, some s) h = rw (split_once-append lib s (IsName-IsPlain lib h.0), row_of) refl

rows_of-cons :
    (x : ℕ) (xs : Bytes) (parts : List Bytes)
    → All Part (x ∷ xs)
    → rows_of ((x ∷ xs) ∷ parts) ≡ row_of (x ∷ xs) ∷ rows_of parts
unfolding rows_of
rows_of-cons x xs parts h =
    let t : trim_end (trim_start (x ∷ xs)) ≡ x ∷ xs =
      ap trim_end (trim_start-Part (x ∷ xs) h) ∙ trim_end-Part (x ∷ xs) h in
    rw (t, rows_of) refl

rows_of-print :
    (r : Row) (parts : List Bytes) → IsRow r → rows_of (print_row r ∷ parts) ≡ r ∷ rows_of parts
rows_of-print (_, none) parts (name c cs h t) =
    rows_of-cons c cs parts (print_row-Part (c ∷ cs, none) (name c cs h t))
    ∙ ap (λ (r : Row). r ∷ rows_of parts) (row_of-print (c ∷ cs, none) (name c cs h t))
rows_of-print (_, some s) parts (name c cs h t, k) =
    rows_of-cons c (cs ++ b':' ∷ s) parts (print_row-Part (c ∷ cs, some s) (name c cs h t, k))
    ∙ ap (λ (r : Row). r ∷ rows_of parts) (row_of-print (c ∷ cs, some s) (name c cs h t, k))

-- A policy whose libraries and symbols are not empty and have no comma, colon or space: the rows
-- read from its text are the policy, in order.
pub libs-print : (rows : List Row) → All IsRow rows → libs (some (print rows)) ≡ rows
unfolding libs print split rows_of trim_start trim_end
libs-print [] h = refl
libs-print (r ∷ []) h =
    ap rows_of (split-Part (print_row r) (print_row-Part r h.0)) ∙ rows_of-print r [] h.0
libs-print (r ∷ q ∷ rows) h =
    ap rows_of (split-append (print_row r) (print (q ∷ rows)) (print_row-Part r h.0))
    ∙ (rows_of-print r (split b',' (print (q ∷ rows))) h.0
        ∙ ap (λ (rs : List Row). r ∷ rs) (libs-print (q ∷ rows) h.1))
