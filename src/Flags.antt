-- ===== src/Flags.antt =====
-- crates/ignis/src/main.rs: the runtime flags ahead of the script, and the code given with -r or on
-- stdin. The two variables of the environment and what stdin holds are arguments.
use ignis.Shared.{
  ℕ, ◌+◌, ◌*◌, ◌-◌, ◌≡◌, refl, Bool, true, false, ◌&&◌, List, [], ◌∷◌, Option, none, some, Bytes,
  codes, same_text, ◌==◌, if◌then◌else◌, leb, ltb, max, u64_mod, ◌⊎◌, inl, inr,
}

-- What a decimal text stands for, after the digits that were read; none from 2 ^ 64 on.
abbrev digits_value : ℕ → Bytes → Option ℕ
digits_value n [] = some n
digits_value n (c ∷ cs) =
    let next = n * 10 + (c - b'0') in
    let rest = digits_value next cs in
    if leb b'0' c && leb c b'9' && ltb next u64_mod then rest else none

-- `str::parse::<usize>`: digits, after a plus sign or none.
unfoldable pub parse_usize : Bytes → Option ℕ
parse_usize [] = none
parse_usize (c ∷ []) = digits_value 0 (c ∷ [])
parse_usize (c ∷ d ∷ cs) =
    if c == b'+' then digits_value 0 (d ∷ cs) else digits_value 0 (c ∷ d ∷ cs)

pub record RuntimeFlags : Type 0 where
  pub workers : ℕ
  pub threads : ℕ
  pub supervise : Bool

abbrev or_one : Option ℕ → ℕ
or_one none = 1
or_one (some n) = n

-- `var(…).ok().and_then(|v| v.parse().ok()).unwrap_or(1)`
abbrev from_variable : Option Bytes → ℕ
from_variable none = 1
from_variable (some v) = or_one (parse_usize v)

-- The flags that lead the arguments, and what is left of those.
unfoldable pub take_flags : List Bytes → RuntimeFlags → RuntimeFlags × List Bytes
unfolding parse_usize
take_flags [] flags = (flags, [])
take_flags (a ∷ []) flags =
    if same_text a (codes "--supervise")
    then (record flags { supervise = true }, [])
    else (flags, a ∷ [])
take_flags (a ∷ v ∷ args) flags =
    let with_workers = take_flags args (record flags { workers = or_one (parse_usize v) }) in
    let with_threads = take_flags args (record flags { threads = or_one (parse_usize v) }) in
    let supervised = take_flags (v ∷ args) (record flags { supervise = true }) in
    if same_text a (codes "--workers")
    then with_workers
    else if same_text a (codes "--threads")
    then with_threads
    else if same_text a (codes "--supervise")
    then supervised
    else (flags, a ∷ v ∷ args)

unfoldable pub parse_runtime_flags :
    (workers threads : Option Bytes) → List Bytes → RuntimeFlags × List Bytes
unfolding take_flags
parse_runtime_flags workers threads args =
    let (flags, left) = take_flags args (record {
      workers = from_variable workers;
      threads = from_variable threads;
      supervise = false;
    }) in
    (record flags { threads = max flags.threads 1; workers = max flags.workers 1 }, left)

-- The code and the name that PHP reports for it, or the exit code where stdin cannot be read.
unfoldable pub take_inline_code :
    (stdin : Option Bytes) → List Bytes → (ℕ ⊎ Option (Bytes × Bytes)) × List Bytes
take_inline_code stdin [] = (inr none, [])
take_inline_code stdin (a ∷ args) =
    if same_text a (codes "-r")
    then elim args [
      | code ∷ rest ↦ (inr (some (code, codes "Command line code")), rest)
      | [] ↦ (inr none, a ∷ [])
    ]
    else if same_text a (codes "--")
    then elim stdin [
      | some code ↦ (inr (some (code, codes "Standard input code")), args)
      | none ↦ (inl 2, args)
    ]
    else (inr none, a ∷ args)

flags_in_any_order :
    parse_runtime_flags none none
      (codes "--supervise" ∷ codes "--workers" ∷ codes "3" ∷ codes "app.php" ∷ [])
    ≡ (record { workers = 3; threads = 1; supervise = true }, codes "app.php" ∷ [])
unfolding parse_runtime_flags take_flags parse_usize
flags_in_any_order = refl

zero_workers_means_one :
    (parse_runtime_flags none
      (some (codes "lots"))
      (codes "--workers" ∷ codes "0" ∷ codes "app.php" ∷ [])).0
    ≡ record { workers = 1; threads = 1; supervise = false }
unfolding parse_runtime_flags take_flags parse_usize
zero_workers_means_one = refl

dash_r_takes_code :
    take_inline_code none (codes "-r" ∷ codes "echo 1;" ∷ codes "extra" ∷ [])
    ≡ (inr (some (codes "echo 1;", codes "Command line code")), codes "extra" ∷ [])
unfolding take_inline_code
dash_r_takes_code = refl
