-- ===== src/Post.antt =====
-- crates/ignis/src/php/post.rs: the request bodies that the engine reads. A fiber is named by its
-- context, {main} by 0; a C string by its address, which is new for each that is made.
pub mod Read
pub mod Info
mod Examples
use ignis.Shared.{
  ℕ, zero, suc, ◌+◌, ◌-◌, ◌≡◌, refl, Bool, true, false, ◌||◌, List, [], ◌∷◌, ◌++◌, Option, none,
  some, Bytes, ◌==◌, if◌then◌else◌, min, length, lookup, insert, remove,
}

pub record CString : Type 0 where
  pub address : ℕ
  pub text : Bytes

pub record Body : Type 0 where
  pub bytes : Bytes
  pub read : ℕ
  pub content_type : CString
  pub method : CString

-- `SG(request_info)`: the engine's, one for the thread. Addresses; none is null.
pub record RequestInfo : Type 0 where
  pub content_length : ℕ
  pub content_type : Option ℕ
  pub request_method : Option ℕ

-- A thread's state; `next` is an address that was never given out.
pub record Post : Type 0 where
  pub bodies : List (ℕ × Body)
  pub request_info : RequestInfo
  pub next : ℕ

abbrev has_nul : Bytes → Bool
has_nul [] = false
has_nul (c ∷ cs) = let rest = has_nul cs in c == 0 || rest

-- `CString::new(text).unwrap_or_default()`
abbrev pub c_text : Bytes → Bytes
c_text text = if has_nul text then [] else text

abbrev pub content_type_at : ℕ → Bytes → Option ℕ
content_type_at address [] = none
content_type_at address (_ ∷ _) = some address

unfoldable pub enter : (key : ℕ) → (method content_type bytes : Bytes) → Post → Post
enter key method content_type bytes w = record {
  bodies =
      insert key
        (record {
          bytes = bytes;
          read = 0;
          content_type = record { address = w.next; text = c_text content_type };
          method = record { address = suc w.next; text = c_text method };
        })
        w.bodies;
  request_info = record {
    content_length = length bytes;
    content_type = content_type_at w.next content_type;
    request_method = some (suc w.next);
  };
  next = suc (suc w.next);
}

unfoldable pub leave : (key : ℕ) → Post → Post
leave key w = record w {
  request_info = record (w.request_info) { content_type = none; content_length = 0 };
  bodies = remove key w.bodies;
}

abbrev pub take : ℕ → Bytes → Bytes
take zero bytes = []
take (suc n) [] = []
take (suc n) (c ∷ bytes) = c ∷ take n bytes

abbrev pub drop : ℕ → Bytes → Bytes
drop zero bytes = bytes
drop (suc n) [] = []
drop (suc n) (c ∷ bytes) = drop n bytes

-- What is copied into a buffer of `count_bytes`.
unfoldable pub read_post : (key : ℕ) → (count_bytes : ℕ) → Post → Post × Bytes
read_post key count_bytes w = elim (lookup key w.bodies) [
  | none ↦ (w, [])
  | some body ↦
      let taken = min (length body.bytes - body.read) count_bytes in
      if taken == 0 then (w, []) else (
        record w { bodies = insert key (record body { read = body.read + taken }) w.bodies },
        take taken (drop body.read body.bytes),
      )
]

-- The C string at an address that a fiber's body keeps.
abbrev pub text_in : ℕ → List (ℕ × Body) → Option Bytes
text_in address [] = none
text_in address ((key, body) ∷ bodies) =
    let rest = text_in address bodies in
    if body.content_type.address == address
    then some body.content_type.text
    else if body.method.address == address
    then some body.method.text
    else rest

-- What the engine reads through a pointer: none where it is null or its string is gone.
unfoldable pub pointee : Option ℕ → Post → Option Bytes
pointee none w = none
pointee (some address) w = text_in address w.bodies
