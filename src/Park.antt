-- ===== src/Park.antt =====
-- crates/ignis/src/php/park.rs: the calls of libc that are interposed. The C shim hands each call
-- over with its return address. Here: the gate, the policy and its cache. What the kernel and the
-- loader answer is an argument; the texts are ASCII.
pub mod Times
pub mod Policy
pub mod Sites
pub mod Descriptor
pub mod Race
pub mod Calls
pub mod Answers
pub mod Sleeps
pub mod Flock
pub mod Poll
pub mod Select
mod Examples
pub mod Timeouts
pub mod Connect
use ignis.Shared.{
  ℕ, zero, suc, ◌≡◌, refl, Bool, true, false, ◌&&◌, ◌||◌, not, List, [], ◌∷◌, ◌++◌, map, Option,
  none, some, Bytes, codes, same_text, ◌==◌, leb, if◌then◌else◌, lookup, insert,
}

-- A row of the policy: a prefix of a library's name, and a symbol of it or all.
abbrev pub Row : Type 0
Row = Bytes × Option Bytes

extend_first : ℕ → List Bytes → List Bytes
extend_first x [] = (x ∷ []) ∷ []
extend_first x (part ∷ parts) = (x ∷ part) ∷ parts

-- `v.split(',')`: the text is one part more than it has separators.
split : ℕ → Bytes → List Bytes
unfolding extend_first
split c [] = [] ∷ []
split c (x ∷ xs) = let rest = split c xs in if x == c then [] ∷ rest else extend_first x rest

abbrev pub is_space : ℕ → Bool
is_space c = c == b' ' || leb 9 c && leb c 13

trim_start : Bytes → Bytes
trim_start [] = []
trim_start (x ∷ xs) = let rest = trim_start xs in if is_space x then rest else x ∷ xs

drop_space : ℕ → Bytes → Bytes
drop_space x [] = if is_space x then [] else x ∷ []
drop_space x (y ∷ ys) = x ∷ y ∷ ys

trim_end : Bytes → Bytes
unfolding drop_space
trim_end [] = []
trim_end (x ∷ xs) = drop_space x (trim_end xs)

-- `s.split_once(c)`
split_once : ℕ → Bytes → Option (Bytes × Bytes)
split_once c [] = none
split_once c (x ∷ xs) =
    let rest = split_once c xs in
    if x == c
    then some ([], xs)
    else elim rest [ some (before, after) ↦ some (x ∷ before, after) | none ↦ none ]

row_of : Bytes → Row
unfolding split_once
row_of part = elim (split_once b':' part) [
  | some (lib, sym) ↦ (lib, some sym)
  | none ↦ (part, none)
]

-- The parts that are empty once trimmed are left out.
rows_of : List Bytes → List Row
unfolding trim_start trim_end row_of
rows_of [] = []
rows_of (part ∷ parts) = elim (trim_end (trim_start part)) [
  | [] ↦ rows_of parts
  | x ∷ xs ↦ row_of (x ∷ xs) ∷ rows_of parts
]

abbrev pub seed : Bytes
seed =
    codes "libphp:sleep,libphp:usleep,libphp:nanosleep,libphp:select,libphp:accept,libphp:poll,"
    ++ codes "libphp:recv,libphp:send,libphp:recvfrom,libphp:sendto,libphp:recvmsg,libphp:sendmsg,"
    ++ codes "libphp:connect,libphp:read,libphp:write,libphp:flock,libphp:waitpid,"
    ++ codes "libcurl,libpq,libssl,libcrypto"

-- The policy: `IGNIS_PARK`, or the seed where it is unset.
unfoldable pub libs : Option Bytes → List Row
unfolding rows_of split
libs none = rows_of (split b',' seed)
libs (some v) = rows_of (split b',' v)

abbrev pub starts_with : Bytes → Bytes → Bool
starts_with text [] = true
starts_with [] (y ∷ ys) = false
starts_with (x ∷ xs) (y ∷ ys) = let rest = starts_with xs ys in x == y && rest

abbrev pub allows : Option Bytes → Bytes → Bool
allows none sym = true
allows (some s) sym = same_text s sym

-- Whether a row of the policy lets a library's call of a symbol park.
unfoldable pub policy_parks : List Row → (base sym : Bytes) → Bool
policy_parks [] base sym = false
policy_parks ((lib, s) ∷ rows) base sym =
    let rest = policy_parks rows base sym in starts_with base lib && allows s sym || rest

abbrev has_slash : Bytes → Bool
has_slash [] = false
has_slash (y ∷ ys) = let rest = has_slash ys in y == b'/' || rest

-- `name.rsplit('/').next()`
unfoldable pub base_name : Bytes → Bytes
base_name [] = []
base_name (x ∷ xs) =
    let rest = base_name xs in if has_slash xs then rest else if x == b'/' then xs else x ∷ xs

-- What a thread and the process keep: the gate, the cache of call sites, the process's inventory of
-- calls by library and symbol, the hits of the boot check, and the count of parks that failed.
pub record Park : Type 0 where
  pub gate : ℕ
  pub sites : List (ℕ × Bool)
  pub inventory : List ((Bytes × Bytes) × Bool)
  pub probing : Bool
  pub probe_hits : List Bytes
  pub park_failed : ℕ

-- `entry(base).or_default().insert(sym, parks)`
unfoldable pub note_call :
    Bytes → Bytes → Bool → List ((Bytes × Bytes) × Bool) → List ((Bytes × Bytes) × Bool)
note_call base sym parks [] = ((base, sym), parks) ∷ []
note_call base sym parks (((b, s), p) ∷ rest) =
    let noted = note_call base sym parks rest in
    if same_text b base && same_text s sym then ((base, sym), parks) ∷ rest else ((b, s), p) ∷ noted

-- `dladdr ret` is the name of the object that a return address lies in, if any.
unfoldable pub site_parks :
    (rows : List Row) → (dladdr : ℕ → Option Bytes) → (ret : ℕ) → (sym : Bytes) → Park → Park × Bool
unfolding policy_parks base_name note_call
site_parks rows dladdr ret sym w = elim (lookup ret w.sites) [
  | some b ↦ (w, b)
  | none ↦ elim (dladdr ret) [
    | some name ↦
        let base = base_name name in
        let parks = policy_parks rows base sym in
        (
          record w {
            sites = insert ret parks w.sites;
            inventory = note_call base sym parks w.inventory;
            probe_hits = if w.probing && parks then w.probe_hits ++ base ∷ [] else w.probe_hits;
          },
          parks,
        )
    | none ↦ (record w { sites = insert ret false w.sites }, false)
  ]
]

-- `Some(guard)`: the gate stays at 2 until the guard is dropped, which sets it to 1.
unfoldable pub may_park :
    (rows : List Row) → (dladdr : ℕ → Option Bytes) → (ret : ℕ) → (sym : Bytes) → Park → Park × Bool
unfolding site_parks
may_park rows dladdr ret sym w =
    let (looked, parks) = site_parks rows dladdr ret sym (record w { gate = 2 }) in
    if w.gate == 1
    then (if parks then (looked, true) else (record looked { gate = 1 }, false))
    else (w, false)

unfoldable pub drop_guard : Park → Park
drop_guard w = record w { gate = 1 }

-- The fiber-switch observer.
unfoldable pub on_switch : (to_main : Bool) → Park → Park
on_switch to_main w = record w { gate = if to_main then 0 else 1 }
