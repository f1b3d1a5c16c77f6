-- ===== src/Functions/Headers.antt =====
-- crates/ignis/src/php/module.rs: the headers of a request as an array, and an array as headers.
use ignis.Shared.{
  ◌≡◌, refl, sym, ap, ◌∙◌, inl, inr, true, false, All, List, [], ◌∷◌, ◌++◌, Option, none, some,
  Bytes, same_text, if◌then◌else◌, arith, Bool-cases, Option-cases, eq_of_==, ==_refl, map,
}
use mathlib.Core.List.{append-nil, append_assoc}
use ignis.Functions.{
  Key, named, indexed, Value, text, Table, same_key, add_assoc, add_headers, header_pairs,
  request_to_zval,
}
use ignis.Reactor.{HttpRequest}

same_text_refl : (x : Bytes) → same_text x x ≡ true
same_text_refl [] = refl
same_text_refl (c ∷ x) = ground (arith, same_text_refl x)

eq_of_same_text : (x y : Bytes) → same_text x y ≡ true → x ≡ y
eq_of_same_text [] [] e = refl
eq_of_same_text [] (c ∷ y) e = ground (arith, e)
eq_of_same_text (c ∷ x) [] e = ground (arith, e)
eq_of_same_text (c ∷ x) (d ∷ y) e = ground (arith, e, eq_of_same_text x y)

same_key_refl : (k : Key) → same_key k k ≡ true
same_key_refl (named x) = same_text_refl x
same_key_refl (indexed n) = ==_refl n

eq_of_same_key : (k j : Key) → same_key k j ≡ true → k ≡ j
eq_of_same_key (named x) (named y) e = ap named (eq_of_same_text x y e)
eq_of_same_key (indexed n) (indexed m) e = ap indexed (eq_of_== n m e)
eq_of_same_key (named x) (indexed m) e = ground (arith, e)
eq_of_same_key (indexed n) (named y) e = ground (arith, e)

-- What an array has under a key.
abbrev pub value_at : Key → Table → Option Value
value_at key [] = none
value_at key ((k, v) ∷ rest) =
    let later = value_at key rest in if same_key k key then some v else later

value_at-add_assoc :
    (k j : Key) (v : Value) (table : Table)
    → value_at j (add_assoc k v table) ≡ (if same_key k j then some v else value_at j table)
unfolding add_assoc
value_at-add_assoc k j v [] = refl
value_at-add_assoc k j v ((i, w) ∷ rest) = elim (Bool-cases (same_key i k)) [
  | inl y ↦
      let same : same_key i j ≡ same_key k j =
        ap (λ (x : Key). same_key x j) (eq_of_same_key i k y) in
      rw (y, same, add_assoc) (ground arith)
  | inr z ↦
      let apart : same_key k j ≡ true → same_key i j ≡ false =
        λ y. ap (same_key i) (sym (eq_of_same_key k j y)) ∙ z in
      rw (z, add_assoc) (ground (arith, apart, value_at-add_assoc k j v rest))
]

-- The last value among the headers whose names are read as a key.
abbrev pub last_value : (key_of : Bytes → Key) → Key → List (Bytes × Bytes) → Option Value
last_value key_of key [] = none
last_value key_of key ((name, value) ∷ headers) =
    let here = if same_key (key_of name) key then some (text value) else none in
    elim (last_value key_of key headers) [ some later ↦ some later | none ↦ here ]

abbrev or_else : Option Value → Option Value → Option Value
or_else (some v) w = some v
or_else none w = w

value_at-add_headers :
    (key_of : Bytes → Key) (key : Key) (headers : List (Bytes × Bytes)) (table : Table)
    → value_at key (add_headers key_of headers table)
      ≡ or_else (last_value key_of key headers) (value_at key table)
unfolding add_headers
value_at-add_headers key_of key [] table = refl
value_at-add_headers key_of key ((name, value) ∷ headers) table =
    value_at-add_headers key_of key headers (add_assoc (key_of name) (text value) table)
    ∙ rw (value_at-add_assoc (key_of name) key (text value) table)
        (elim (Option-cases (last_value key_of key headers)) [
          | inl q ↦ rw q (ground arith)
          | inr (v, q) ↦ rw q (ground arith)
        ])

same_text-flip : (x y : Bytes) → same_text y x ≡ false → same_text x y ≡ false
same_text-flip [] [] e = e
same_text-flip [] (d ∷ y) e = refl
same_text-flip (c ∷ x) [] e = refl
same_text-flip (c ∷ x) (d ∷ y) e = ground (arith, e, same_text-flip x y)

-- However the engine reads a name as a key, and for any headers: the array that PHP is given for a
-- request has under a key the last value of the headers whose names are read as it, and nothing where
-- there is none; so of a header that was sent more than once, all values but the last are lost.
pub request_to_zval-last_value :
    (key_of : Bytes → Key) (key : Key) (req : HttpRequest)
    → value_at key (request_to_zval key_of req).headers ≡ last_value key_of key req.headers
unfolding request_to_zval
request_to_zval-last_value key_of key req =
    value_at-add_headers key_of key req.headers []
    ∙ (elim (Option-cases (last_value key_of key req.headers)) [
      | inl q ↦ rw q refl
      | inr (v, q) ↦ rw q refl
    ])

-- No header of the list is named so.
abbrev pub Unnamed : Bytes → List (Bytes × Bytes) → Type 0
Unnamed name [] = Unit
Unnamed name ((other, value) ∷ headers) = (same_text other name ≡ false) × Unnamed name headers

-- Each name is there once.
abbrev pub Distinct : List (Bytes × Bytes) → Type 0
Distinct [] = Unit
Distinct ((name, value) ∷ headers) = Unnamed name headers × Distinct headers

-- The engine reads the name as a text, and it and the value are UTF-8.
abbrev pub Plain : (key_of : Bytes → Key) → (lossy : Bytes → Bytes) → Bytes × Bytes → Type 0
Plain key_of lossy (name, value) =
    (key_of name ≡ named name) × (lossy name ≡ name) × (lossy value ≡ value)

-- The array has this header under its name.
abbrev entry : Bytes × Bytes → Key × Value
entry (name, value) = (named name, text value)

abbrev NoKey : Key → Table → Type 0
NoKey key [] = Unit
NoKey key ((k, v) ∷ rest) = (same_key k key ≡ false) × NoKey key rest

add_assoc-NoKey :
    (k : Key) (v : Value) (table : Table)
    → NoKey k table
    → add_assoc k v table ≡ table ++ (k, v) ∷ []
unfolding add_assoc
add_assoc-NoKey k v [] a = refl
add_assoc-NoKey k v ((j, w) ∷ rest) a =
    rw (a.0, add_assoc) (ap (λ (t : Table). (j, w) ∷ t) (add_assoc-NoKey k v rest a.1))

append-NoKey :
    (key k : Key) (v : Value) (table : Table)
    → same_key k key ≡ false
    → NoKey key table
    → NoKey key (table ++ (k, v) ∷ [])
append-NoKey key k v [] e a = (e, tt)
append-NoKey key k v ((j, w) ∷ rest) e a = (a.0, append-NoKey key k v rest e a.1)

-- None of the headers is named as an entry of the array.
abbrev AllNoKey : List (Bytes × Bytes) → Table → Type 0
AllNoKey [] table = Unit
AllNoKey ((name, value) ∷ headers) table = NoKey (named name) table × AllNoKey headers table

append-AllNoKey :
    (name : Bytes) (v : Value) (headers : List (Bytes × Bytes)) (table : Table)
    → Unnamed name headers
    → AllNoKey headers table
    → AllNoKey headers (table ++ (named name, v) ∷ [])
append-AllNoKey name v [] table u a = tt
append-AllNoKey name v ((other, w) ∷ headers) table u a = (
  append-NoKey (named other) (named name) v table (same_text-flip name other u.0) a.0,
  append-AllNoKey name v headers table u.1 a.1,
)

add_headers-entries :
    (key_of : Bytes → Key) (lossy : Bytes → Bytes) (headers : List (Bytes × Bytes)) (table : Table)
    → Distinct headers
    → All (Plain key_of lossy) headers
    → AllNoKey headers table
    → add_headers key_of headers table ≡ table ++ map entry headers
unfolding add_headers
add_headers-entries key_of lossy [] table d p a = sym (append-nil table)
add_headers-entries key_of lossy ((name, value) ∷ headers) table d p a =
    rw (p.0.0, add_headers)
      (ap (add_headers key_of headers) (add_assoc-NoKey (named name) (text value) table a.0)
        ∙ (add_headers-entries key_of lossy headers (table ++ (named name, text value) ∷ []) d.1 p.1
              (append-AllNoKey name (text value) headers table d.0 a.1)
            ∙ append_assoc table ((named name, text value) ∷ []) (map entry headers)))

header_pairs-entries :
    (key_of : Bytes → Key) (lossy : Bytes → Bytes) (headers : List (Bytes × Bytes))
    → All (Plain key_of lossy) headers
    → header_pairs lossy (map entry headers) ≡ headers
unfolding header_pairs
header_pairs-entries key_of lossy [] p = refl
header_pairs-entries key_of lossy ((name, value) ∷ headers) p =
    rw (p.0.1, p.0.2)
      (ap (λ (r : List (Bytes × Bytes)). (name, value) ∷ r)
        (header_pairs-entries key_of lossy headers p.1))

AllNoKey-empty : (headers : List (Bytes × Bytes)) → AllNoKey headers []
AllNoKey-empty [] = tt
AllNoKey-empty ((name, value) ∷ headers) = (tt, AllNoKey-empty headers)

-- Where each name of a request's headers is there once and is read as a text, and names and values are
-- UTF-8: the array that PHP is given for them, handed back for a response, is the headers again, in
-- their order.
pub headers_return :
    (key_of : Bytes → Key) (lossy : Bytes → Bytes) (req : HttpRequest)
    → Distinct req.headers
    → All (Plain key_of lossy) req.headers
    → header_pairs lossy (request_to_zval key_of req).headers ≡ req.headers
unfolding request_to_zval
headers_return key_of lossy req d p =
    ap (header_pairs lossy)
      (add_headers-entries key_of lossy req.headers [] d p (AllNoKey-empty req.headers))
    ∙ header_pairs-entries key_of lossy req.headers p
