-- ===== src/Inprocess/Errors.antt =====
-- `ChannelError` of src/platform/inprocess/mod.rs as the interface's errors.
use ipc_channel.Base.{ℕ, ◌≡◌, refl, ◌↔◌, Bool, true, false, Result, ok, err, map_err, arith, some}
use ipc_channel.Errors.{
  connection_reset, broken_pipe, other, IoError, custom, BincodeError, io, IpcError, bincode,
  disconnected, TryRecvError, ipc_error, empty,
}
use ipc_channel.Inprocess.Channel.{
  ChannelError, channel_closed_error, broken_pipe_error, channel_empty, unknown_error,
  OsIpcReceiver, Message, Arrival, message, no_senders, nothing, try_recv, try_recv_timeout,
  delivered,
}

unfoldable pub channel_is_closed : ChannelError → Bool
channel_is_closed channel_closed_error = true
channel_is_closed _ = false

-- `From<ChannelError> for io::Error`
unfoldable pub to_io_error : ChannelError → IoError
to_io_error channel_closed_error = custom connection_reset
to_io_error channel_empty = custom connection_reset
to_io_error broken_pipe_error = custom broken_pipe
to_io_error unknown_error = custom other

-- `From<ChannelError> for bincode::Error`
unfoldable pub to_bincode_error : ChannelError → BincodeError
unfolding to_io_error
to_bincode_error e = io (to_io_error e)

-- `From<ChannelError> for ipc::IpcError`
unfoldable pub to_ipc_error : ChannelError → IpcError
unfolding to_io_error
to_ipc_error channel_closed_error = disconnected
to_ipc_error e = bincode (io (to_io_error e))

-- `From<ChannelError> for ipc::TryRecvError`
unfoldable pub to_try_recv_error : ChannelError → TryRecvError
unfolding to_io_error
to_try_recv_error channel_closed_error = ipc_error disconnected
to_try_recv_error channel_empty = empty
to_try_recv_error e = ipc_error (bincode (io (to_io_error e)))

-- An error is reported as a disconnection, by either conversion, exactly if it is the closed channel,
-- and as `Empty` exactly if it is the empty one.
pub disconnected_iff :
    (e : ChannelError)
    → ((channel_is_closed e ≡ true) ↔ (to_ipc_error e ≡ disconnected))
      × ((channel_is_closed e ≡ true) ↔ (to_try_recv_error e ≡ ipc_error disconnected))
      × ((e ≡ channel_empty) ↔ (to_try_recv_error e ≡ empty))
unfolding channel_is_closed to_ipc_error to_try_recv_error
disconnected_iff channel_closed_error =
    ((λ _. refl, λ _. refl), (λ _. refl, λ _. refl), (λ h. cc, λ h. cc))
disconnected_iff broken_pipe_error = ((λ h. cc, λ h. cc), (λ h. cc, λ h. cc), (λ h. cc, λ h. cc))
disconnected_iff channel_empty = ((λ h. cc, λ h. cc), (λ h. cc, λ h. cc), (λ _. refl, λ _. refl))
disconnected_iff unknown_error = ((λ h. cc, λ h. cc), (λ h. cc, λ h. cc), (λ h. cc, λ h. cc))

-- What the interface promises to report for a channel.
abbrev pub reported : Arrival → Result TryRecvError Message
reported (message m) = ok (delivered m)
reported no_senders = err (ipc_error disconnected)
reported nothing = err empty

-- A receiver that has not been consumed reports, without waiting and with a timeout, what its channel
-- holds.
pub receiver_reports :
    (r : OsIpcReceiver) (c : ℕ) (arrival : ℕ → Arrival)
    → r.receiver ≡ some c
    → (map_err to_try_recv_error (try_recv r arrival) ≡ reported (arrival c))
      × (map_err to_try_recv_error (try_recv_timeout r arrival) ≡ reported (arrival c))
unfolding try_recv try_recv_timeout to_try_recv_error
receiver_reports r c arrival h = (ground arith, ground arith)
