-- ===== src/Unix/Errors.antt =====
-- The errors of src/platform/unix/mod.rs as the interface's errors: the `From` implementations of
-- `UnixError`, and what a receiving call then reports.
use ipc_channel.Base.{
  ℤ, ◌≡◌, refl, ◌||◌, Option, none, some, List, Result, ok, err, panic, map_err, arith, ◌==◌,
  if◌then◌else◌,
}
use ipc_channel.Errors.{
  connection_reset, IoError, os, custom, BincodeError, io, IpcError, io_error, disconnected,
  TryRecvError, ipc_error, empty,
}
use ipc_channel.Unix.Kernel.{Kernel, UnixError, errno, channel_closed}
use ipc_channel.Unix.Recv.{
  CmsgAnswers, RecvAnswer, end_of_file, failed, no_packet, received, timed_out, nonblocking,
  timeout, BlockingMode, FollowupAnswer, Message, recv, unix_cmsg_new, cmsg_recv,
}

-- `From<UnixError> for io::Error`
unfoldable pub to_io_error : UnixError → IoError
to_io_error (errno e) = os e
to_io_error channel_closed = custom connection_reset

-- `From<UnixError> for bincode::Error`
unfoldable pub to_bincode_error : UnixError → BincodeError
unfolding to_io_error
to_bincode_error e = io (to_io_error e)

-- `From<UnixError> for ipc::IpcError`
unfoldable pub to_ipc_error : UnixError → IpcError
unfolding to_io_error
to_ipc_error channel_closed = disconnected
to_ipc_error (errno e) = io_error (to_io_error (errno e))

-- `From<UnixError> for ipc::TryRecvError`
unfoldable pub to_try_recv_error : Kernel → UnixError → TryRecvError
unfolding to_io_error
to_try_recv_error k channel_closed = ipc_error disconnected
to_try_recv_error k (errno code) =
    if code == k.eagain || code == k.ewouldblock
    then empty
    else ipc_error (io_error (to_io_error (errno code)))

-- `From<io::Error> for UnixError`: an error that is not of the system must be a reset.
unfoldable pub from_io_error : IoError → Result UnixError UnixError
from_io_error (os e) = ok (errno e)
from_io_error (custom connection_reset) = ok channel_closed
from_io_error (custom _) = panic

-- A `UnixError` survives the way through `io::Error`; and the other way round no two are merged.
pub from_io_error-to_io_error : (e : UnixError) → from_io_error (to_io_error e) ≡ ok e
unfolding from_io_error to_io_error
from_io_error-to_io_error (errno e) = refl
from_io_error-to_io_error channel_closed = refl

-- `OsIpcReceiver::try_recv` and `try_recv_timeout`, with the error that the interface gives.
unfoldable pub try_recv_with :
    Kernel → CmsgAnswers → (ℤ → List FollowupAnswer) → BlockingMode → Result TryRecvError Message
try_recv_with k a dedicated mode = map_err (to_try_recv_error k) (recv k a dedicated mode)

-- What the interface promises to report for a socket without a packet.
abbrev pub reported : Kernel → RecvAnswer → Option TryRecvError
reported k (received r) = none
reported k no_packet = none
reported k end_of_file = some (ipc_error disconnected)
reported k (failed e) =
    some (if e == k.eagain || e == k.ewouldblock then empty else ipc_error (io_error (os e)))

-- When the system calls around it succeed, a non-blocking receive reports what the socket holds:
-- `Empty` if there is no packet yet, a disconnection if all senders are gone, or the kernel's error.
pub try_recv_reports :
    (k : Kernel) (a : CmsgAnswers) (dedicated : ℤ → List FollowupAnswer) (e : TryRecvError)
    → a.malloc_failed ≡ none
    → a.set_failed ≡ none
    → a.clear_failed ≡ none
    → reported k a.recvmsg ≡ some e
    → try_recv_with k a dedicated nonblocking ≡ err e
unfolding try_recv_with to_try_recv_error recv unix_cmsg_new cmsg_recv
try_recv_reports k a dedicated e m s c r = ground arith

-- A receive with a timeout that ran out reports `Empty`, whatever has come in since.
pub try_recv_timeout_reports :
    (k : Kernel) (a : CmsgAnswers) (dedicated : ℤ → List FollowupAnswer) (d : ℤ)
    → a.malloc_failed ≡ none
    → a.polled ≡ timed_out
    → try_recv_with k a dedicated (timeout d) ≡ err empty
unfolding try_recv_with to_try_recv_error recv unix_cmsg_new cmsg_recv
try_recv_timeout_reports k a dedicated d m p = ground arith
