-- ===== src/Macos/Send.antt =====
-- `OsIpcSender::send` of src/platform/macos/mod.rs. A message that is too large for the port goes again
-- with its data out of line, and so do later messages of its length.
pub mod Total
pub mod Forms
pub mod Outcome
pub mod Retry
use ipc_channel.Base.{
  ℕ, ◌+◌, ◌%◌, ◌^◌, ◌&&◌, Option, none, some, List, [], ◌∷◌, ◌++◌, ltb, ◌==◌, if◌then◌else◌, length,
  Result, ◌>>=◌, on_ok, waits, err, ok,
}
use ipc_channel.Macos.System.{
  MachError, mach_msg_success, mach_send_too_large, mach_port_null, mach_error_from,
}
use ipc_channel.Macos.Message.{
  OsIpcSharedMemory, SendData, Descriptor, Message, deref, VmAllocate, send_data_from,
  take_shared_memory, is_inline, inline_data, size_of, move_send, move_receive, port_descriptor,
  ool_descriptor,
}
use ipc_channel.Macos.Ports.{OsIpcChannel, port_of, sender, receiver}

unfoldable pub port_descriptors : List OsIpcChannel → List Descriptor
unfolding port_of
port_descriptors [] = []
port_descriptors (sender s ∷ ports) =
    port_descriptor (port_of (sender s)) move_send ∷ port_descriptors ports
port_descriptors (receiver r ∷ ports) =
    port_descriptor (port_of (receiver r)) move_receive ∷ port_descriptors ports

-- The length of a region is cast to 32 bits.
unfoldable pub ool_descriptors : List OsIpcSharedMemory → Result MachError (List Descriptor)
unfolding deref
ool_descriptors [] = ok []
ool_descriptors (m ∷ regions) = do
  _ ← deref m
  ds ← ool_descriptors regions
  ok (ool_descriptor m.ptr (m.length % 2 ^ 32) ∷ ds)

-- The message in the buffer, for the data that stays in it, the ports and the regions.
unfoldable pub message_for :
    ℕ → SendData → List OsIpcChannel → List OsIpcSharedMemory → Result MachError Message
unfolding size_of port_descriptors ool_descriptors is_inline inline_data
message_for port d ports regions = ool_descriptors regions >>= λ ools. ok (record {
  msgh_size = size_of d (length ports) (length regions) % 2 ^ 32;
  msgh_remote_port = port;
  msgh_local_port = mach_port_null;
  msgh_id = 0;
  msgh_descriptor_count = (length ports + length regions) % 2 ^ 32;
  descriptors = port_descriptors ports ++ ools;
  has_inline_data = is_inline d;
  data_size = length (inline_data d);
  bytes = inline_data d;
})

-- MAX_INLINE_SIZE, the messages that the kernel has taken, and the handles that were given back to it.
pub record Mach : Type 0 where
  pub max_inline_size : ℕ
  pub sent : List Message
  pub dropped_ports : List OsIpcChannel
  pub dropped_regions : List OsIpcSharedMemory

unfoldable pub lower_max : ℕ → Mach → Mach
lower_max inline_len s =
    if ltb inline_len s.max_inline_size then record s { max_inline_size = inline_len } else s

abbrev pub and_region : List OsIpcSharedMemory → Option OsIpcSharedMemory → List OsIpcSharedMemory
and_region regions none = regions
and_region regions (some m) = regions ++ (m ∷ [])

-- `send` up to `mach_msg`: what is left of the data, the regions with the data's own, the message.
unfoldable pub prepare :
    VmAllocate
    → ℕ
    → ℕ
    → List ℕ
    → List OsIpcChannel
    → List OsIpcSharedMemory
    → Result MachError (SendData × List OsIpcSharedMemory × Message)
unfolding send_data_from take_shared_memory message_for
prepare vm max_inline_size port bytes ports regions =
    send_data_from vm max_inline_size bytes >>= λ whole.
    let (d, m) = take_shared_memory whole in
    message_for port d ports (and_region regions m) >>= λ message.
    ok (d, and_region regions m, message)

-- What follows `mach_msg`, given what `send` comes to with the data out of line.
unfoldable pub conclude :
    ℕ
    → SendData
    → List OsIpcChannel
    → List OsIpcSharedMemory
    → Message
    → Mach × Result MachError (Unit {0})
    → Mach
    → Mach × Result MachError (Unit {0})
unfolding is_inline mach_error_from
conclude code d ports regions m again s =
    if (code == mach_send_too_large) && is_inline d
    then again
    else (if code == mach_msg_success then (record s { sent = s.sent ++ (m ∷ []) }, ok tt) else (
      record s {
        dropped_ports = s.dropped_ports ++ ports;
        dropped_regions = s.dropped_regions ++ regions;
      },
      err (mach_error_from code),
    ))

-- The codes of `mach_msg` are given, one for each message.
unfoldable pub send :
    VmAllocate
    → List ℕ
    → ℕ
    → List ℕ
    → List OsIpcChannel
    → List OsIpcSharedMemory
    → Mach
    → Mach × Result MachError (Unit {0})
unfolding prepare conclude lower_max
send vm [] port bytes ports regions s = (s, waits)
send vm (code ∷ codes) port bytes ports regions s =
    let again = send vm codes port bytes ports regions (lower_max (length bytes) s) in
    on_ok s (prepare vm s.max_inline_size port bytes ports regions)
      λ (d, all_regions, message). conclude code d ports all_regions message again s
