-- ===== src/Unix/Handles.antt =====
-- The handles of src/platform/unix/mod.rs that a message carries: senders, receivers, channels that
-- are not yet converted, shared memory. Each is named by its file descriptor.
use ipc_channel.Base.{
  ℕ, zero, suc, ℤ, negsuc, Bool, false, Option, none, some, Result, ok, err, panic, waits, ◌==◌,
  if◌then◌else◌,
}
use Prim.Native.Nat.{bit_and}
use ipc_channel.Unix.Kernel.{Kernel, UnixError, errno, PairAnswer, pair, no_pair}

pub record OsIpcReceiver : Type 0 where
  pub fd : ℤ

pub record OsIpcSender : Type 0 where
  pub fd : ℤ

pub data OsIpcChannel : Type 0 where
  sender : OsIpcSender → OsIpcChannel
  receiver : OsIpcReceiver → OsIpcChannel

pub record OsOpaqueIpcChannel : Type 0 where
  pub fd : ℤ

-- A null pointer is `none`.
pub record OsIpcSharedMemory : Type 0 where
  pub ptr : Option ℕ
  pub length : ℕ
  pub store : ℤ

abbrev pub closed_fd : ℤ
closed_fd = negsuc 0

-- `channel`: the two ends of a socket pair.
unfoldable pub channel : PairAnswer → Result UnixError (OsIpcSender × OsIpcReceiver)
channel (pair tx rx) = ok (record { fd = tx }, record { fd = rx })
channel (no_pair e) = err (errno e)

-- `consume_fd`: the descriptor, and the receiver that is left without it.
unfoldable pub consume_fd : OsIpcReceiver → ℤ × OsIpcReceiver
consume_fd r = (r.fd, record { fd = closed_fd })

-- `consume`: a receiver that takes the descriptor over, and what is left.
unfoldable pub consume : OsIpcReceiver → OsIpcReceiver × OsIpcReceiver
unfolding consume_fd
consume r = let (fd, rest) = consume_fd r in (record { fd = fd }, rest)

unfoldable pub channel_fd : OsIpcChannel → ℤ
channel_fd (sender s) = s.fd
channel_fd (receiver r) = r.fd

-- Each conversion takes the descriptor and leaves -1.
unfoldable pub to_sender : OsOpaqueIpcChannel → OsIpcSender × OsOpaqueIpcChannel
to_sender c = (record { fd = c.fd }, record { fd = closed_fd })

unfoldable pub to_receiver : OsOpaqueIpcChannel → OsIpcReceiver × OsOpaqueIpcChannel
to_receiver c = (record { fd = c.fd }, record { fd = closed_fd })

unfoldable pub is_socket : Kernel → ℤ → Bool
is_socket k fd = elim (k.st_mode fd) [
  | none ↦ false
  | some mode ↦ bit_and mode k.s_ifmt == k.s_ifsock
]

-- `BackingStore::map_file`: the address and the length. A failed `fstat` or `mmap` fails an
-- assertion, and so does a mapping at address 0; nothing is mapped at length 0.
unfoldable pub map_at : Kernel → ℤ → ℕ → Result UnixError (Option ℕ × ℕ)
map_at k fd length = if length == 0 then ok (none, length) else elim (k.mmap fd length) [
  | none ↦ panic
  | some zero ↦ panic
  | some (suc a) ↦ ok (some (suc a), length)
]

unfoldable pub map_file : Kernel → ℤ → Option ℕ → Result UnixError (Option ℕ × ℕ)
unfolding map_at
map_file k fd (some length) = map_at k fd length
map_file k fd none = elim (k.st_size fd) [ none ↦ panic | some length ↦ map_at k fd length ]

-- `OsIpcSharedMemory::from_fd`
unfoldable pub shared_memory_from_fd : Kernel → ℤ → Result UnixError OsIpcSharedMemory
unfolding map_file
shared_memory_from_fd k fd = elim (map_file k fd none) [
  | ok (ptr, length) ↦ ok (record { ptr = ptr; length = length; store = fd })
  | err e ↦ err e
  | panic ↦ panic
  | waits ↦ waits
]
