-- ===== src/Park/Descriptor.antt =====
-- crates/ignis/src/php/park.rs, `would_block`: which descriptors parking is a substitute for blocking
-- on. What fcntl, fstat, getsockopt, getpeername and getsockname answer is a record.
use Prim.Native.Nat.{bit_and}
use ignis.Shared.{ℕ, Bool, true, false, ◌||◌, not, Option, none, some, ◌==◌, if◌then◌else◌}

-- A socket's own address: a port of IP, the first byte of a path of AF_UNIX, or another family.
pub data Address : Type 0 where
  inet inet6 : (port : ℕ) → Address
  unix : (first : ℕ) → Address
  other_family : Address

-- `flags` is none where F_GETFL fails, `mode` where fstat does, and so on.
pub record Descriptor : Type 0 where
  pub flags : Option ℕ
  pub mode : Option ℕ
  pub accepts : Option ℕ
  pub connected : Bool
  pub socket_type : Option ℕ
  pub own_address : Option Address

-- The constants of Linux that the source takes from libc.
abbrev pub o_nonblock : ℕ
o_nonblock = 2048

abbrev pub s_ifmt : ℕ
s_ifmt = 61440

abbrev pub s_ififo : ℕ
s_ififo = 4096

abbrev pub s_ifsock : ℕ
s_ifsock = 49152

abbrev pub anonymous_inode : ℕ
anonymous_inode = 0

abbrev pub sock_dgram : ℕ
sock_dgram = 2

-- Has a local address that can receive.
unfoldable pub is_bound : Descriptor → Bool
is_bound d = elim d.own_address [
  | none ↦ false
  | some a ↦ elim a [
    | inet port ↦ not (port == 0)
    | inet6 port ↦ not (port == 0)
    | unix first ↦ not (first == 0)
    | other_family ↦ false
  ]
]

abbrev is_some_of : Option ℕ → ℕ → Bool
is_some_of none n = false
is_some_of (some m) n = m == n

-- A socket that is not listening and either has a peer or is a bound datagram socket.
unfoldable pub socket_blocks : Descriptor → Bool
unfolding is_bound
socket_blocks d =
    if is_some_of d.accepts 1
    then false
    else if d.connected
    then true
    else if is_some_of d.socket_type sock_dgram
    then is_bound d
    else false

unfoldable pub would_block : Descriptor → Bool
unfolding socket_blocks
would_block d = elim d.flags [
  | none ↦ false
  | some flags ↦ elim d.mode [
    | none ↦ false
    | some mode ↦
        let kind = bit_and mode s_ifmt in
        if not (bit_and flags o_nonblock == 0)
        then false
        else if kind == s_ififo || kind == anonymous_inode
        then true
        else if not (kind == s_ifsock)
        then false
        else socket_blocks d
  ]
]
