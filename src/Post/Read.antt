-- ===== src/Post/Read.antt =====
-- crates/ignis/src/php/post.rs, `read_post`: the reads of a body put together.
use ignis.Shared.{
  ℕ, zero, suc, ◌+◌, ◌-◌, ◌≤◌, ◌≡◌, ◌≢◌, refl, sym, ap, subst, ◌∙◌, inl, inr, All, List, [], ◌∷◌,
  ◌++◌, some, Bytes, ◌==◌, if◌then◌else◌, min, length, lookup, lookup-insert_self,
  lookup-insert_other, lookup-remove_other, arith, Bool-cases, Option-cases, eq_of_==, ne_of_==,
}
use ignis.Post.{Body, Post, enter, leave, take, drop, read_post}

-- What happens on a thread between the entering of a request and its end.
pub data Step : Type 0 where
  reads : (key count_bytes : ℕ) → Step
  enters : (key : ℕ) → (method content_type bytes : Bytes) → Step
  leaves : (key : ℕ) → Step

-- The state after the steps, and what the fiber `key` was given by its reads.
unfoldable pub run : (key : ℕ) → List Step → Post → Post × Bytes
run key [] w = (w, [])
run key (reads k n ∷ steps) w =
    let (after, given) = read_post k n w in
    let (last, later) = run key steps after in (last, if k == key then given ++ later else later)
run key (enters k method content_type bytes ∷ steps) w =
    run key steps (enter k method content_type bytes w)
run key (leaves k ∷ steps) w = run key steps (leave k w)

-- How many bytes the fiber asks for in all.
abbrev pub asked : ℕ → List Step → ℕ
asked key [] = 0
asked key (reads k n ∷ steps) = let rest = asked key steps in if k == key then n + rest else rest
asked key (_ ∷ steps) = asked key steps

abbrev pub Others : ℕ → Step → Type 0
Others key (reads k n) = Unit
Others key (enters k method content_type bytes) = k ≢ key
Others key (leaves k) = k ≢ key

-- The fiber's body is there, and this is what is left of it.
abbrev pub Left : ℕ → Bytes → Post → Type 0
Left key rest w =
    (body : Body) × (lookup key w.bodies ≡ some body)
    × (drop body.read body.bytes ≡ rest)
    × (body.read ≤ length body.bytes)

length-drop : (n : ℕ) (bytes : Bytes) → length (drop n bytes) ≡ length bytes - n
length-drop zero bytes = omega arith
length-drop (suc n) [] = omega arith
length-drop (suc n) (c ∷ bytes) = length-drop n bytes ∙ omega arith

take-append_drop : (n : ℕ) (bytes : Bytes) → take n bytes ++ drop n bytes ≡ bytes
take-append_drop zero bytes = refl
take-append_drop (suc n) [] = refl
take-append_drop (suc n) (c ∷ bytes) = ap (λ (r : Bytes). c ∷ r) (take-append_drop n bytes)

drop-drop : (n m k : ℕ) (bytes : Bytes) → k ≡ n + m → drop m (drop n bytes) ≡ drop k bytes
drop-drop zero m k bytes e = ap (λ (i : ℕ). drop i bytes) (omega (arith, e))
drop-drop (suc n) m zero bytes e = ground (arith, e)
drop-drop (suc n) zero (suc k) [] e = refl
drop-drop (suc n) (suc m) (suc k) [] e = refl
drop-drop (suc n) m (suc k) (c ∷ bytes) e = drop-drop n m k bytes (omega (arith, e))

take-then :
    (n m : ℕ) (bytes : Bytes)
    → n ≤ length bytes
    → take n bytes ++ take m (drop n bytes) ≡ take (n + m) bytes
take-then zero m bytes l = ap (λ (i : ℕ). take i bytes) (omega arith)
take-then (suc n) m [] l = ground (arith, l)
take-then (suc n) m (c ∷ bytes) l =
    ap (λ (r : Bytes). c ∷ r) (take-then n m bytes (omega (arith, l)))
    ∙ ap (λ (i : ℕ). take i (c ∷ bytes)) suc_plus
  where
    suc_plus : suc (n + m) ≡ suc n + m
    suc_plus = omega arith

take_all : (n : ℕ) (bytes : Bytes) → length bytes ≤ n → take n bytes ≡ bytes
take_all zero [] l = refl
take_all (suc n) [] l = refl
take_all zero (c ∷ bytes) l = ground (arith, l)
take_all (suc n) (c ∷ bytes) l = ap (λ (r : Bytes). c ∷ r) (take_all n bytes (omega (arith, l)))

-- A read of the fiber's own: it is given the first bytes of what is left.
pub own_read :
    (key n : ℕ) (rest : Bytes) (w : Post)
    → Left key rest w
    → let (after, given) = read_post key n w in
      (given ≡ take (min (length rest) n) rest) × Left key (drop (min (length rest) n) rest) after
unfolding read_post
own_read key n rest w (body, e, d, l) =
    let same : length body.bytes - body.read ≡ length rest =
      sym (length-drop body.read body.bytes) ∙ ap length d in
    let taken : min (length body.bytes - body.read) n ≡ min (length rest) n =
      ap (λ (x : ℕ). min x n) same in
    elim (Bool-cases (min (length body.bytes - body.read) n == 0)) [
      | inl y ↦
          let nothing : min (length rest) n ≡ 0 =
            sym taken ∙ eq_of_== (min (length body.bytes - body.read) n) 0 y in
          rw (e, y, nothing, read_post) (refl, (body, e, d, l))
      | inr z ↦
          let now : Body = record body {
            read = body.read + min (length body.bytes - body.read) n;
          } in
          rw (e, z, read_post)
            (
              ap (λ (i : ℕ). take i (drop body.read body.bytes)) taken
                  ∙ ap (take (min (length rest) n)) d,
              (
                now,
                lookup-insert_self key now w.bodies,
                sym (
                      drop-drop body.read (min (length body.bytes - body.read) n) now.read
                        body.bytes refl)
                    ∙ (ap (drop (min (length body.bytes - body.read) n)) d
                        ∙ ap (λ (i : ℕ). drop i rest) taken),
                omega (arith, l),
              ),
            )
    ]

pub other_read :
    (key k n : ℕ) (rest : Bytes) (w : Post)
    → k ≢ key
    → Left key rest w
    → Left key rest (read_post k n w).0
unfolding read_post
other_read key k n rest w m (body, e, d, l) = elim (Option-cases (lookup k w.bodies)) [
  | inl q ↦ rw (q, read_post) (body, e, d, l)
  | inr (b, q) ↦ elim (Bool-cases (min (length b.bytes - b.read) n == 0)) [
    | inl y ↦ rw (q, y, read_post) (body, e, d, l)
    | inr z ↦
        rw (q, z, read_post)
          (
            body,
            lookup-insert_other k key (record b { read = b.read + min (length b.bytes - b.read) n })
                  w.bodies m
                ∙ e,
            d,
            l,
          )
  ]
]

joined :
    (n m : ℕ) (rest given later : Bytes)
    → given ≡ take (min (length rest) n) rest
    → later
      ≡ take (min (length (drop (min (length rest) n) rest)) m) (drop (min (length rest) n) rest)
    → given ++ later ≡ take (min (length rest) (n + m)) rest
joined n m rest given later e q =
    rw (e, q)
      (take-then (min (length rest) n) (min (length (drop (min (length rest) n) rest)) m) rest
          (omega arith)
        ∙ ap (λ (i : ℕ). take i rest) (together (length-drop (min (length rest) n) rest)))
  where
    together :
        length (drop (min (length rest) n) rest) ≡ length rest - min (length rest) n
        → min (length rest) n + min (length (drop (min (length rest) n) rest)) m
          ≡ min (length rest) (n + m)
    together d = omega (arith, d)

pub enter-Left :
    (k key : ℕ) (method content_type bytes rest : Bytes) (w : Post)
    → k ≢ key
    → Left key rest w
    → Left key rest (enter k method content_type bytes w)
unfolding enter
enter-Left k key method content_type bytes rest w m (body, e, d, l) =
    (body, lookup-insert_other k key _ w.bodies m ∙ e, d, l)

pub leave-Left :
    (k key : ℕ) (rest : Bytes) (w : Post) → k ≢ key → Left key rest w → Left key rest (leave k w)
unfolding leave
leave-Left k key rest w m (body, e, d, l) = (body, lookup-remove_other k key w.bodies m ∙ e, d, l)

-- What the fiber is given by its reads is the first bytes of what is left, as many as it asks for.
reads_prefix :
    (key : ℕ) (steps : List Step) (rest : Bytes) (w : Post)
    → All (Others key) steps
    → Left key rest w
    → (run key steps w).1 ≡ take (min (length rest) (asked key steps)) rest
unfolding run
reads_prefix key [] rest w a h = ap (λ (i : ℕ). take i rest) nothing
  where
    nothing : 0 ≡ min (length rest) 0
    nothing = omega arith
reads_prefix key (reads k n ∷ steps) rest w a h = elim (Bool-cases (k == key)) [
  | inl y ↦
      let mine : Left key rest w = h in
      let (given, after) =
        subst
          (λ (i : ℕ).
            let (u, g) = read_post i n w in
            (g ≡ take (min (length rest) n) rest) × Left key (drop (min (length rest) n) rest) u)
          (sym (eq_of_== k key y)) (own_read key n rest w mine) in
      rw (y, run)
        (joined n (asked key steps) rest (read_post k n w).1 (run key steps (read_post k n w).0).1
          given
          (reads_prefix key steps (drop (min (length rest) n) rest) (read_post k n w).0 a.1 after))
  | inr z ↦
      rw (z, run)
        (reads_prefix key steps rest (read_post k n w).0 a.1
          (other_read key k n rest w (ne_of_== k key z) h))
]
reads_prefix key (enters k method content_type bytes ∷ steps) rest w a h =
    reads_prefix key steps rest (enter k method content_type bytes w) a.1
      (enter-Left k key method content_type bytes rest w a.0 h)
reads_prefix key (leaves k ∷ steps) rest w a h =
    reads_prefix key steps rest (leave k w) a.1 (leave-Left k key rest w a.0 h)

pub entered-Left :
    (key : ℕ) (method content_type bytes : Bytes) (w : Post)
    → Left key bytes (enter key method content_type bytes w)
unfolding enter
entered-Left key method content_type bytes w =
    (_, lookup-insert_self key _ w.bodies, refl, omega arith)

-- A request entered by a fiber, and any reads, entered requests and ended requests after it, in any
-- order, in which no request of this fiber is entered or ended: where the fiber asks for at least as
-- many bytes as the body has, in buffers of any sizes, its reads put together are the whole body.
pub body_reassembled :
    (key : ℕ) (method content_type bytes : Bytes) (steps : List Step) (w : Post)
    → All (Others key) steps
    → length bytes ≤ asked key steps
    → (run key steps (enter key method content_type bytes w)).1 ≡ bytes
body_reassembled key method content_type bytes steps w a l =
    reads_prefix key steps bytes (enter key method content_type bytes w) a
      (entered-Left key method content_type bytes w)
    ∙ take_all (min (length bytes) (asked key steps)) bytes (omega (arith, l))
