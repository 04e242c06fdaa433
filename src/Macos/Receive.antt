-- ===== src/Macos/Receive.antt =====
-- `select` and the receiving calls of src/platform/macos/mod.rs. A message that is too large for the
-- buffer stays in the kernel, and is fetched into one that is made for it.
use ipc_channel.Base.{
  ℕ, zero, suc, ◌+◌, ◌*◌, ◌^◌, List, [], ◌∷◌, ltb, leb, ◌==◌, if◌then◌else◌, length, take, Result,
  ◌>>=◌, panic, waits, err, ok,
}
use ipc_channel.Macos.System.{
  MachError, mach_notify_no_senders, mach_msg_timeout_none, mach_port_null, mach_rcv_msg,
  mach_rcv_large, mach_rcv_timeout, small_message_size, mach_error_from,
}
use ipc_channel.Macos.Message.{
  OsIpcSharedMemory, Descriptor, Message, deref, message_size, port_descriptor_size,
  ool_descriptor_size, port_descriptor, ool_descriptor,
}
use ipc_channel.Macos.Ports.{OsIpcReceiver, OsOpaqueIpcChannel}

-- A duration by its milliseconds.
pub data BlockingMode : Type 0 where
  blocking nonblocking : BlockingMode
  timeout : ℕ → BlockingMode

pub data OsIpcSelectionResult : Type 0 where
  data_received :
      ℕ → List ℕ → List OsOpaqueIpcChannel → List OsIpcSharedMemory → OsIpcSelectionResult
  channel_closed : ℕ → OsIpcSelectionResult

-- What `mach_msg` comes to: a message, a size that is in the header of one that is too large, a code.
pub data Reply : Type 0 where
  message : Message → Reply
  too_large : ℕ → Reply
  fails : ℕ → Reply

-- `mach_msg`, by the flags, the timeout and the size of the buffer.
abbrev pub Call : Type 0
Call = ℕ → ℕ → ℕ → Reply

-- The flags, which are distinct bits, and the timeout.
unfoldable pub receive_options : BlockingMode → ℕ × ℕ
receive_options blocking = (mach_rcv_msg + mach_rcv_large, mach_msg_timeout_none)
receive_options nonblocking = (mach_rcv_msg + mach_rcv_large + mach_rcv_timeout, 0)
receive_options (timeout ms) =
    if ltb ms (2 ^ 32)
    then (mach_rcv_msg + mach_rcv_large + mach_rcv_timeout, ms)
    else (mach_rcv_msg + mach_rcv_large, mach_msg_timeout_none)

-- The size of `mach_msg_max_trailer_t`.
abbrev pub max_trailer_size : ℕ
max_trailer_size = 72

-- The loop with a buffer of the size in the header and a trailer. The sum of two u32 is checked.
unfoldable pub fetch_large : List Call → ℕ → ℕ → ℕ → Result MachError Message
unfolding mach_error_from
fetch_large [] flags limit size = waits
fetch_large (call ∷ calls) flags limit size =
    let actual_size = size + max_trailer_size in
    let reply = call flags limit actual_size in
    let again = fetch_large calls flags limit in
    if ltb actual_size (2 ^ 32)
    then (elim reply [
      | message m ↦ ok m
      | too_large size' ↦ again size'
      | fails c ↦ err (mach_error_from c)
    ])
    else panic

unfoldable pub fetch : List Call → ℕ → ℕ → Result MachError Message
unfolding fetch_large mach_error_from
fetch [] flags limit = waits
fetch (call ∷ calls) flags limit = elim (call flags limit small_message_size) [
  | message m ↦ ok m
  | too_large size ↦ fetch_large calls flags limit size
  | fails c ↦ err (mach_error_from c)
]

-- The first descriptors, as long as they are ports: with them, what remains.
unfoldable pub read_ports : ℕ → List Descriptor → List OsOpaqueIpcChannel × ℕ × List Descriptor
read_ports zero ds = ([], zero, ds)
read_ports (suc n) (port_descriptor name _ ∷ ds) =
    let (ports, remaining, rest) = read_ports n ds in
    (record { port = name } ∷ ports, remaining, rest)
read_ports (suc n) ds = ([], suc n, ds)

-- The others: an assertion says that they are regions. Past the last descriptor of a message that the
-- kernel gives there is none to read.
unfoldable pub read_regions : ℕ → List Descriptor → Result MachError (List OsIpcSharedMemory)
read_regions zero ds = ok []
read_regions (suc n) (ool_descriptor address size ∷ ds) =
    read_regions n ds >>= λ regions. ok (record { ptr = address; length = size } ∷ regions)
read_regions (suc n) _ = panic

-- `pop().expect(..)`
unfoldable pub pop_region :
    List OsIpcSharedMemory → Result MachError (List OsIpcSharedMemory × OsIpcSharedMemory)
pop_region [] = panic
pop_region (m ∷ []) = ok ([], m)
pop_region (m ∷ m' ∷ regions) = pop_region (m' ∷ regions) >>= λ (rest, last). ok (m ∷ rest, last)

-- The data: in the message, behind its descriptors, or in the last region. The room that the assertion
-- compares with is a checked difference of usize.
unfoldable pub payload :
    Message → ℕ → List OsIpcSharedMemory → Result MachError (List ℕ × List OsIpcSharedMemory)
unfolding pop_region deref
payload m port_count regions =
    let descriptors_end =
      message_size + port_descriptor_size * port_count + ool_descriptor_size * length regions in
    if m.has_inline_data
    then (if leb (m.data_size + descriptors_end) m.msgh_size
        then ok (take m.data_size m.bytes, regions)
        else panic)
    else (pop_region regions >>= λ (rest, last). deref last >>= λ bytes. ok (bytes, rest))

-- What `select` makes of a message.
unfoldable pub read_message : Message → Result MachError OsIpcSelectionResult
unfolding read_ports read_regions payload
read_message m =
    let (ports, remaining, ds) = read_ports m.msgh_descriptor_count m.descriptors in
    if m.msgh_id == mach_notify_no_senders
    then ok (channel_closed m.msgh_local_port)
    else (read_regions remaining ds >>= λ all_regions.
        payload m (length ports) all_regions >>= λ (bytes, regions).
        ok (data_received m.msgh_local_port bytes ports regions))

unfoldable pub select : List Call → ℕ → BlockingMode → Result MachError OsIpcSelectionResult
unfolding receive_options fetch read_message
select calls port mode =
    let (flags, limit) = receive_options mode in
    if port == mach_port_null then panic else (fetch calls flags limit >>= read_message)

abbrev pub Received : Type 0
Received = List ℕ × List OsOpaqueIpcChannel × List OsIpcSharedMemory

unfoldable pub received : OsIpcSelectionResult → Result MachError Received
unfolding mach_error_from
received (data_received _ bytes channels regions) = ok (bytes, channels, regions)
received (channel_closed _) = err (mach_error_from mach_notify_no_senders)

unfoldable pub recv_with_blocking_mode :
    List Call → OsIpcReceiver → BlockingMode → Result MachError Received
unfolding select received
recv_with_blocking_mode calls r mode = select calls r.port mode >>= received

unfoldable pub recv : List Call → OsIpcReceiver → Result MachError Received
unfolding recv_with_blocking_mode
recv calls r = recv_with_blocking_mode calls r blocking

unfoldable pub try_recv : List Call → OsIpcReceiver → Result MachError Received
unfolding recv_with_blocking_mode
try_recv calls r = recv_with_blocking_mode calls r nonblocking

unfoldable pub try_recv_timeout : List Call → OsIpcReceiver → ℕ → Result MachError Received
unfolding recv_with_blocking_mode
try_recv_timeout calls r duration = recv_with_blocking_mode calls r (timeout duration)
