-- ===== src/Unix/Recv.antt =====
-- `recv` of src/platform/unix/mod.rs: one packet from the socket, its descriptors told apart, and
-- where the packet does not hold the whole message, the rest from the socket that came with it.
pub mod Reassembly
pub mod Sorting
pub mod Cmsg
pub mod Paths
pub mod RoundTrip
pub mod Limits
use ipc_channel.Base.{
  ℕ, zero, suc, ℤ, ◌+◌, ◌-◌, ◌*◌, ◌≡◌, refl, Bool, true, false, Option, none, some, List, [], ◌∷◌,
  ◌++◌, Result, ok, err, panic, waits, ◌>>=◌, ltb, leb, ◌==◌, min, max, length, take, if◌then◌else◌,
  add_usize, sub_usize,
}
use ipc_channel.Unix.Kernel.{Kernel, UnixError, errno, channel_closed}
use ipc_channel.Unix.Size.{header_size, fragment_size, get_max_fragment_size}
use ipc_channel.Unix.Cmsg.{fd_size, max_fds_in_cmsg, cmsg_len, cmsg_space, channel_length}
use ipc_channel.Unix.Handles.{
  OsIpcReceiver, OsOpaqueIpcChannel, OsIpcSharedMemory, is_socket, shared_memory_from_fd,
  to_receiver,
}
use ipc_channel.Unix.Send.{FirstPacket}

pub data BlockingMode : Type 0 where
  blocking nonblocking : BlockingMode
  -- The argument of `poll`: the duration in milliseconds, or -1.
  timeout : ℤ → BlockingMode

-- What `recvmsg` wrote: the count of bytes, the header, the payload's bytes in the buffer, and the
-- control buffer with its length.
pub record Received : Type 0 where
  pub bytes_read : ℕ
  pub total_size : ℕ
  pub payload : List ℕ
  pub controllen : ℕ
  pub cmsg_length : ℕ
  pub fds : List ℤ

pub data RecvAnswer : Type 0 where
  received : Received → RecvAnswer
  end_of_file : RecvAnswer
  failed : ℕ → RecvAnswer
  -- No packet yet: the call blocks.
  no_packet : RecvAnswer

-- The answers to one call of `UnixCmsg::recv`: of `malloc`, of the two `fcntl`s (the error, if it
-- failed), of `poll` (the count, or the error), of `recvmsg`.
pub data PollAnswer : Type 0 where
  ready timed_out : PollAnswer
  poll_failed : ℕ → PollAnswer

pub record CmsgAnswers : Type 0 where
  pub malloc_failed : Option ℕ
  pub set_failed : Option ℕ
  pub polled : PollAnswer
  pub recvmsg : RecvAnswer
  pub clear_failed : Option ℕ

-- `UnixCmsg::new`
unfoldable pub unix_cmsg_new : CmsgAnswers → Result UnixError (Unit {0})
unix_cmsg_new a = elim a.malloc_failed [ none ↦ ok tt | some e ↦ err (errno e) ]

unfoldable pub before_recvmsg : Kernel → CmsgAnswers → BlockingMode → Result UnixError (Unit {0})
before_recvmsg k a blocking = ok tt
before_recvmsg k a nonblocking = elim a.set_failed [ none ↦ ok tt | some e ↦ err (errno e) ]
before_recvmsg k a (timeout d) = elim a.polled [
  | ready ↦ ok tt
  | timed_out ↦ err (errno k.eagain)
  | poll_failed e ↦ err (errno e)
]

-- A packet of no bytes reads as the end of the stream.
unfoldable pub recvmsg_result : RecvAnswer → Result UnixError Received
recvmsg_result (received r) = if ltb 0 r.bytes_read then ok r else err channel_closed
recvmsg_result end_of_file = err channel_closed
recvmsg_result (failed e) = err (errno e)
recvmsg_result no_packet = waits

-- `fcntl` makes the socket blocking again, whatever `recvmsg` gave.
unfoldable pub after_recvmsg :
    CmsgAnswers → BlockingMode → Result UnixError Received → Result UnixError Received
after_recvmsg a nonblocking result = elim a.clear_failed [ none ↦ result | some e ↦ err (errno e) ]
after_recvmsg a _ result = result

-- `UnixCmsg::recv`
unfoldable pub cmsg_recv : Kernel → CmsgAnswers → BlockingMode → Result UnixError Received
unfolding before_recvmsg recvmsg_result after_recvmsg
cmsg_recv k a mode = do _ ← before_recvmsg k a mode; after_recvmsg a mode (recvmsg_result a.recvmsg)

pub record Handles : Type 0 where
  pub channels : List OsOpaqueIpcChannel
  pub shared_memory_regions : List OsIpcSharedMemory

-- The loop over the received descriptors, which also makes the list it starts with longer.
unfoldable pub sort_fds : Kernel → List ℤ → Handles → Result UnixError Handles
sort_fds k [] h = ok h
sort_fds k (fd ∷ fds) h =
    let socket = sort_fds k fds (record h { channels = h.channels ++ (record { fd = fd } ∷ []) }) in
    let memory : Result UnixError Handles = do
      m ← shared_memory_from_fd k fd
      sort_fds k fds (record h { shared_memory_regions = h.shared_memory_regions ++ (m ∷ []) })
    in if is_socket k fd then socket else memory

-- `channels.pop()`
unfoldable pub pop {ℓ} : {A : Type ℓ} → List A → Option (List A × A)
pop [] = none
pop (x ∷ xs) = elim (pop xs) [ none ↦ some ([], x) | some (ys, y) ↦ some (x ∷ ys, y) ]

-- The answers to the `recv`s on the message's own socket.
pub data FollowupAnswer : Type 0 where
  fragment : List ℕ → FollowupAnswer
  closed : FollowupAnswer
  broken : ℕ → FollowupAnswer

-- One `recv` into `room` bytes: a packet that is longer is cut off.
unfoldable pub recv_fragment : List ℕ → ℕ → FollowupAnswer → Result UnixError (List ℕ)
recv_fragment buffer room (fragment p) =
    let got = take room p in if length got == 0 then err channel_closed else ok (buffer ++ got)
recv_fragment buffer room closed = err channel_closed
recv_fragment buffer room (broken e) = err (errno e)

-- `while main_data_buffer.len() < total_size`. Without another answer the call blocks.
unfoldable pub reassemble :
    Kernel → ℕ → ℕ → List FollowupAnswer → List ℕ → Result UnixError (List ℕ)
reassemble k total_size capacity [] buffer =
    if ltb (length buffer) total_size then waits else ok buffer
reassemble k total_size capacity (a ∷ rest) buffer =
    let write_pos = length buffer in
    let end_pos = min (add_usize write_pos (fragment_size k.sendbuf_size)) total_size in
    let more : Result UnixError (List ℕ) = do
      buffer' ← recv_fragment buffer (end_pos - write_pos) a
      reassemble k total_size capacity rest buffer'
    in if ltb write_pos total_size
      then (if leb end_pos capacity then (if leb write_pos end_pos then more else panic) else panic)
      else ok buffer

pub record Message : Type 0 where
  pub bytes : List ℕ
  pub handles : Handles
  pub open handles use *

-- The message is in fragments: the last channel is the socket for the rest. An arithmetic
-- underflow in the size of the reservation panics.
unfoldable pub recv_rest :
    Kernel → (ℤ → List FollowupAnswer) → ℕ → List ℕ → Handles → Result UnixError Message
recv_rest k dedicated total_size buffer h = elim (pop h.channels) [
  | none ↦ panic
  | some (channels, last) ↦
      let rx = (to_receiver last).0 in
      let all : Result UnixError (List ℕ) =
        reassemble k total_size (max (get_max_fragment_size k) total_size) (dedicated rx.fd)
          buffer in
      if leb (length buffer) total_size
      then (all >>= λ whole.
          ok (record { bytes = whole; handles = record h { channels = channels } }))
      else panic
]

-- The fast path, if the packet holds the whole message, or the fragments.
unfoldable pub recv_message :
    Kernel → (ℤ → List FollowupAnswer) → ℕ → List ℕ → Handles → Result UnixError Message
recv_message k dedicated total_size buffer h =
    if total_size == length buffer
    then ok (record { bytes = buffer; handles = h })
    else recv_rest k dedicated total_size buffer h

-- `recv`, for the kernel's answers on this socket, and on those that the message may bring.
unfoldable pub recv :
    Kernel → CmsgAnswers → (ℤ → List FollowupAnswer) → BlockingMode → Result UnixError Message
recv k a dedicated mode = do
  _ ← unix_cmsg_new a
  r ← cmsg_recv k a mode
  let buffer = take (sub_usize r.bytes_read header_size) r.payload
  let count = channel_length r.controllen r.cmsg_length
  h ← sort_fds k (take count r.fds) (record { channels = []; shared_memory_regions = [] })
  recv_message k dedicated r.total_size buffer h
