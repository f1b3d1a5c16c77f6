-- ===== src/Park/Connect.antt =====
-- crates/ignis/src/php/park.rs, `park_on` and `ignis_park_connect`: a blocking connect, made
-- non-blocking for as long as it is parked.
use Prim.Native.Nat.{bit_and, bit_or}
use ignis.Shared.{
  ℕ, ◌≡◌, ◌⊎◌, inl, inr, Bool, true, false, not, ◌||◌, List, [], ◌∷◌, Option, none, some, codes,
  ◌==◌, if◌then◌else◌, arith, ℤ, pos, negsuc,
}
use ignis.Reactor.{watch, submit}
use ignis.Park.{may_park, drop_guard}
use ignis.Park.Sites.{may_park-gate}
use ignis.Park.Descriptor.{o_nonblock}
use ignis.Park.Race.{Thread, failed_park}
use ignis.Park.Calls.{Site, with_park, unguarded}

-- `woke`: the fiber was suspended and the watch's outcome resumed it.
unfoldable pub park_on : (fd : ℕ) → (write woke : Bool) → Thread → Thread × Bool
park_on fd write woke t = elim t.reactor [
  | none ↦ (failed_park t, false)
  | some r ↦
      let waiting = record t { reactor = some (submit r (watch fd write)).0 } in
      (if woke then waiting else failed_park waiting, woke)
]

-- What a call of libc answers: its result, and errno where it fails.
pub record Result : Type 0 where
  pub rc : ℤ
  pub errno : ℕ

abbrev pub einprogress : ℕ
einprogress = 115

-- `set_flags`: the F_SETFL calls in order. `blocked`: the thread waits for writability itself.
-- `result` is none where the caller's own connect is the answer.
pub record Connect : Type 0 where
  pub set_flags : List ℕ
  pub blocked : Bool
  pub result : Option Result

abbrev pub forwarded : Connect
forwarded = record { set_flags = []; blocked = false; result = none }

abbrev so_error_result : Result ⊎ ℕ → Result
so_error_result (inl refused) = refused
so_error_result (inr err) =
    if err == 0 then record { rc = pos 0; errno = 0 } else record { rc = negsuc 0; errno = err }

abbrev succeeded : Result → Bool
succeeded r = elim r.rc [ pos n ↦ n == 0 | negsuc n ↦ false ]

-- `flags` is what F_GETFL answers, none where it fails, as with a bad descriptor; `first` the answer
-- of the connect that is made without blocking; `so_error` what SO_ERROR then reads, or the failure
-- of that call.
unfoldable pub ignis_park_connect :
    Site
    → (fd : ℕ) → (flags : Option ℕ) → (first : Result) → (woke : Bool) → (so_error : Result ⊎ ℕ)
    → Thread
    → Thread × Connect
unfolding park_on
ignis_park_connect site fd flags first woke so_error t =
    let (p, parks) = may_park site.rows site.dladdr site.ret (codes "connect") t.park in
    let (after, parked) = park_on fd true woke (with_park t p) in
    if parks
    then elim flags [
      | none ↦ (unguarded (with_park t p), forwarded)
      | some f ↦
          if not (bit_and f o_nonblock == 0)
          then (unguarded (with_park t p), forwarded)
          else if succeeded first || not (first.errno == einprogress)
          then (
            unguarded (with_park t p),
            record {
              set_flags = bit_or f o_nonblock ∷ f ∷ [];
              blocked = false;
              result = some first;
            },
          )
          else (
            unguarded after,
            record {
              set_flags = bit_or f o_nonblock ∷ f ∷ [];
              blocked = not parked;
              result = some (so_error_result so_error);
            },
          )
    ]
    else (with_park t p, forwarded)

-- The descriptor's flags after these F_SETFL calls.
abbrev pub flags_after : ℕ → List ℕ → ℕ
flags_after f [] = f
flags_after f (g ∷ gs) = flags_after g gs

-- The result that the handler reports is the kernel's: of the first connect, unless that is in
-- progress, else of SO_ERROR.
abbrev pub Reports : Result → Result ⊎ ℕ → Connect → Type 0
Reports first so_error c =
    ((c.result ≡ some first) × ((succeeded first ≡ true) ⊎ ((first.errno == einprogress) ≡ false)))
    ⊎ ((succeeded first ≡ false)
        × (first.errno ≡ einprogress)
        × (c.result ≡ some (so_error_result so_error)))

-- On every path, the errors included: the descriptor ends with the flags that F_GETFL read, the gate
-- is as it was, and the result is the caller's own connect, which the handler does not make twice,
-- or as the kernel reports the one that the handler made. A connect is forwarded with no flag set.
pub connect_restores :
    (site : Site) (fd f : ℕ) (first : Result) (woke : Bool) (so_error : Result ⊎ ℕ) (t : Thread)
    → let (after, c) = ignis_park_connect site fd (some f) first woke so_error t in
      (flags_after f c.set_flags ≡ f)
      × (after.park.gate ≡ t.park.gate)
      × ((c ≡ forwarded) ⊎ Reports first so_error c)
unfolding ignis_park_connect drop_guard
connect_restores site fd f first woke so_error t =
    ground (arith, may_park-gate site.rows site.dladdr site.ret (codes "connect") t.park)
