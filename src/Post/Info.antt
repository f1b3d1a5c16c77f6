-- ===== src/Post/Info.antt =====
-- crates/ignis/src/php/post.rs: what `SG(request_info)` points to, for one fiber and for several.
use ignis.Shared.{
  ℕ, suc, ◌≤◌, ◌<◌, ◌≡◌, ◌≢◌, refl, inl, inr, All, List, [], ◌∷◌, none, some, Bytes, ◌==◌, min,
  length, insert, remove, arith, Bool-cases,
}
use ignis.Post.{Body, Post, enter, leave, take, read_post, c_text, text_in, pointee}
use ignis.Post.Read.{Left, entered-Left, own_read, enter-Left, leave-Left}

-- Both strings of a fiber's body are at addresses below the bound.
abbrev pub Below : ℕ → ℕ × Body → Type 0
Below n (key, body) = (body.content_type.address < n) × (body.method.address < n)

-- Every address that a body has was given out.
unfoldable pub GivenOut : Post → Type 0
GivenOut w = All (Below w.next) w.bodies

Below-mono :
    (n m : ℕ) (bodies : List (ℕ × Body)) → n ≤ m → All (Below n) bodies → All (Below m) bodies
Below-mono n m [] l h = tt
Below-mono n m ((key, body) ∷ bodies) l h =
    ((omega (arith, l, h.0.0), omega (arith, l, h.0.1)), Below-mono n m bodies l h.1)

insert-Below :
    (n key : ℕ) (body : Body) (bodies : List (ℕ × Body))
    → Below n (key, body)
    → All (Below n) bodies
    → All (Below n) (insert key body bodies)
unfolding insert
insert-Below n key body [] b h = (b, tt)
insert-Below n key body ((k, other) ∷ bodies) b h = elim (Bool-cases (k == key)) [
  | inl y ↦ rw (y, insert) (b, h.1)
  | inr z ↦ rw (z, insert) (h.0, insert-Below n key body bodies b h.1)
]

enter-GivenOut :
    (key : ℕ) (method content_type bytes : Bytes) (w : Post)
    → GivenOut w
    → GivenOut (enter key method content_type bytes w)
unfolding enter GivenOut
enter-GivenOut key method content_type bytes w h =
    insert-Below (suc (suc w.next)) key _ w.bodies (omega arith, omega arith)
      (Below-mono w.next (suc (suc w.next)) w.bodies (omega arith) h)

-- The content type that was just given out is found at its address.
type_found :
    (n key : ℕ) (body : Body) (bodies : List (ℕ × Body))
    → body.content_type.address ≡ n
    → All (Below n) bodies
    → text_in n (insert key body bodies) ≡ some body.content_type.text
unfolding insert
type_found n key body [] e h = ground (arith, e)
type_found n key body ((k, other) ∷ bodies) e h =
    ground (arith, e, type_found n key body bodies e h.1, h.0.0, h.0.1)

method_found :
    (n key : ℕ) (body : Body) (bodies : List (ℕ × Body))
    → body.content_type.address ≡ n
    → body.method.address ≡ suc n
    → All (Below n) bodies
    → text_in (suc n) (insert key body bodies) ≡ some body.method.text
unfolding insert
method_found n key body [] e f h = ground (arith, e, f)
method_found n key body ((k, other) ∷ bodies) e f h =
    ground (arith, e, f, method_found n key body bodies e f h.1, h.0.0, h.0.1)

nothing_left :
    (n a key : ℕ) (bodies : List (ℕ × Body))
    → n ≤ a
    → All (Below n) bodies
    → text_in a (remove key bodies) ≡ none
unfolding remove
nothing_left n a key [] l h = refl
nothing_left n a key ((k, other) ∷ bodies) l h =
    ground (arith, l, nothing_left n a key bodies l h.1, h.0.0, h.0.1)

-- No string is at an address of the body that goes, where no other body's is.
nothing_there :
    (n a key : ℕ) (body : Body) (bodies : List (ℕ × Body))
    → n ≤ a
    → All (Below n) bodies
    → text_in a (remove key (insert key body bodies)) ≡ none
unfolding insert remove
nothing_there n a key body [] l h = ground arith
nothing_there n a key body ((k, other) ∷ bodies) l h = elim (Bool-cases (k == key)) [
  | inl y ↦ ground (arith, y, nothing_left n a key bodies l h.1)
  | inr z ↦ ground (arith, z, l, nothing_there n a key body bodies l h.1, h.0.0, h.0.1)
]

-- Where every address of a body was given out, and a request is entered and ended by one fiber: the
-- method is read through `request_method` while the request runs, and after its end the content type
-- is null, and `request_method` is still the address it was, at which there is no string any more.
pub method_dangles :
    (key : ℕ) (method content_type bytes : Bytes) (w : Post)
    → GivenOut w
    → let entered = enter key method content_type bytes w in
      let left = leave key entered in
      (pointee entered.request_info.request_method entered ≡ some (c_text method))
      × (left.request_info.content_type ≡ none)
      × (left.request_info.request_method ≡ some (suc w.next))
      × (pointee (some (suc w.next)) left ≡ none)
unfolding enter leave pointee GivenOut
method_dangles key method content_type bytes w h = (
  method_found w.next key _ w.bodies refl refl h,
  refl,
  refl,
  nothing_there w.next (suc w.next) key _ w.bodies (omega arith) h,
)

entered_type :
    (key c : ℕ) (method content_type bytes : Bytes) (w : Post)
    → GivenOut w
    → let entered = enter key method (c ∷ content_type) bytes w in
      pointee entered.request_info.content_type entered ≡ some (c_text (c ∷ content_type))
unfolding enter pointee GivenOut
entered_type key c method content_type bytes w h = type_found w.next key _ w.bodies refl h

left_type :
    (key : ℕ) (w : Post) → pointee (leave key w).request_info.content_type (leave key w) ≡ none
unfolding leave pointee
left_type key w = refl

-- Where every address of a body was given out, and the fiber `a` enters a request and then another
-- fiber `b` one with a content type: the content type that is read is that of `b`, whichever fiber
-- asks, and null when `b` has ended its request, while a read of `a` is still given its own bytes.
pub type_of_last_entered :
    (a b : ℕ) (method_a type_a bytes_a method_b type_b bytes_b : Bytes) (n : ℕ) (w : Post)
    → b ≢ a
    → type_b ≢ []
    → GivenOut w
    → let both = enter b method_b type_b bytes_b (enter a method_a type_a bytes_a w) in
      (pointee both.request_info.content_type both ≡ some (c_text type_b))
      × (pointee (leave b both).request_info.content_type (leave b both) ≡ none)
      × ((read_post a n both).1 ≡ take (min (length bytes_a) n) bytes_a)
      × ((read_post a n (leave b both)).1 ≡ take (min (length bytes_a) n) bytes_a)
type_of_last_entered a b method_a type_a bytes_a method_b [] bytes_b n w m t h = elim (t refl) [ ]
type_of_last_entered a b method_a type_a bytes_a method_b (c ∷ type_b) bytes_b n w m t h =
    let first : Post = enter a method_a type_a bytes_a w in
    let both : Post = enter b method_b (c ∷ type_b) bytes_b first in
    let own : Left a bytes_a both =
      enter-Left b a method_b (c ∷ type_b) bytes_b bytes_a first m
        (entered-Left a method_a type_a bytes_a w) in
    (
      entered_type b c method_b type_b bytes_b first (enter-GivenOut a method_a type_a bytes_a w h),
      left_type b both,
      (own_read a n bytes_a both own).0,
      (own_read a n bytes_a (leave b both) (leave-Left b a bytes_a both m own)).0,
    )
