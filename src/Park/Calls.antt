-- ===== src/Park/Calls.antt =====
-- crates/ignis/src/php/park.rs: the handlers of the calls that read and write. What the kernel
-- answers, and what wakes the fiber, is an argument; a handler's answer says
-- which real call it makes, if any.
use Prim.Native.Nat.{bit_and}
use ignis.Shared.{
  ℕ, Bool, true, false, not, ◌&&◌, List, [], ◌∷◌, Option, none, some, Bytes, codes, ◌==◌,
  if◌then◌else◌, ℤ, pos,
}
use ignis.Park.{Row, Park, may_park, drop_guard}
use ignis.Park.Times.{milliseconds_ceil}
use ignis.Park.Descriptor.{Descriptor, would_block}
use ignis.Park.Race.{Thread, pollin, pollout, park_pollfds}

-- `ready`: what the zero-timeout poll says. `timeout`: the socket's own timeout, none where the
-- option cannot be read, as seconds and microseconds. `woke`: the op that wakes the fiber.
pub record Io : Type 0 where
  pub descriptor : Descriptor
  pub ready : Bool
  pub timeout : Option (ℤ × ℤ)
  pub woke : Option ℕ

-- What a call comes to: the real call is made with the caller's arguments, or the handler answers
-- EAGAIN by itself.
pub data Answer : Type 0 where
  real_call would_wait : Answer

pub data Wait : Type 0 where
  ready timed_out : Wait

unfoldable pub sock_timeout_ms : Option (ℤ × ℤ) → ℕ
sock_timeout_ms none = 0
sock_timeout_ms (some (sec, usec)) = milliseconds_ceil sec usec 1000

unfoldable pub park_io : (fd : ℤ) → (write : Bool) → Io → Thread → Thread × Wait
park_io fd write io t =
    let fds = record { fd = fd; events = if write then pollout else pollin } ∷ [] in
    let (after, won) = park_pollfds fds (pos (sock_timeout_ms io.timeout)) io.woke t in
    elim won [ some by_fd ↦ (after, if by_fd then ready else timed_out) | none ↦ (after, ready) ]

abbrev pub with_park : Thread → Park → Thread
with_park t p = record t { park = p }

-- The policy's rows, the loader and the caller's return address.
pub record Site : Type 0 where
  pub rows : List Row
  pub dladdr : ℕ → Option Bytes
  pub ret : ℕ

-- The guard is dropped before the handler returns.
abbrev pub unguarded : Thread → Thread
unguarded t = record t { park = drop_guard t.park }

-- What the handlers of reads and writes share: `dontwait` is the caller's MSG_DONTWAIT.
unfoldable pub io_handler :
    (sym : Bytes) → (write dontwait : Bool) → Site → (fd : ℤ) → Io → Thread → Thread × Answer
unfolding park_io
io_handler sym write dontwait site fd io t =
    let (p, parks) = may_park site.rows site.dladdr site.ret sym t.park in
    let (waited, won) = park_io fd write io (with_park t p) in
    if parks
    then (if not dontwait && would_block io.descriptor && not io.ready
        then elim won [
          | timed_out ↦ (unguarded waited, would_wait)
          | ready ↦ (unguarded waited, real_call)
        ]
        else (unguarded (with_park t p), real_call))
    else (with_park t p, real_call)

abbrev pub msg_dontwait : ℕ → Bool
msg_dontwait flags = not (bit_and flags 64 == 0)

abbrev pub Handler : Type 0
Handler = Site → ℤ → Io → Thread → Thread × Answer

unfoldable pub ignis_park_read : Handler
ignis_park_read = io_handler (codes "read") false false

unfoldable pub ignis_park_write : Handler
ignis_park_write = io_handler (codes "write") true false

unfoldable pub ignis_park_recv : (flags : ℕ) → Handler
ignis_park_recv flags = io_handler (codes "recv") false (msg_dontwait flags)

unfoldable pub ignis_park_send : (flags : ℕ) → Handler
ignis_park_send flags = io_handler (codes "send") true (msg_dontwait flags)

unfoldable pub ignis_park_recvfrom : (flags : ℕ) → Handler
ignis_park_recvfrom flags = io_handler (codes "recvfrom") false (msg_dontwait flags)

unfoldable pub ignis_park_sendto : (flags : ℕ) → Handler
ignis_park_sendto flags = io_handler (codes "sendto") true (msg_dontwait flags)

unfoldable pub ignis_park_accept4 : Handler
ignis_park_accept4 = io_handler (codes "accept") false false

unfoldable pub ignis_park_recvmsg : (flags : ℕ) → Handler
ignis_park_recvmsg flags = io_handler (codes "recvmsg") false (msg_dontwait flags)

unfoldable pub ignis_park_sendmsg : (flags : ℕ) → Handler
ignis_park_sendmsg flags = io_handler (codes "sendmsg") true (msg_dontwait flags)

unfoldable pub ignis_park_readv : Handler
ignis_park_readv = io_handler (codes "readv") false false

unfoldable pub ignis_park_writev : Handler
ignis_park_writev = io_handler (codes "writev") true false
