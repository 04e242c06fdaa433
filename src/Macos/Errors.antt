-- ===== src/Macos/Errors.antt =====
-- The errors of src/platform/macos/mod.rs as the interface's errors.
use ipc_channel.Base.{◌≡◌, refl, ◌↔◌, Bool, true, false}
use ipc_channel.Errors.{
  ErrorKind, IoError, BincodeError, IpcError, TryRecvError, connection_reset, broken_pipe,
  interrupted, invalid_data, invalid_input, not_found, timed_out, other, custom, io, io_error,
  disconnected, ipc_error, empty,
}
use ipc_channel.Macos.System.{
  MachError, success, kernel, ipc_space, vm_space, ipc_kernel, vm_kernel, rcv_in_progress,
  rcv_invalid_name, rcv_timed_out, rcv_too_large, rcv_interrupted, rcv_port_changed,
  rcv_invalid_notify, rcv_invalid_data, rcv_port_died, rcv_in_set, rcv_header_error, rcv_body_error,
  rcv_invalid_type, rcv_scatter_small, rcv_invalid_trailer, rcv_in_progress_timed,
  notify_no_senders, send_interrupted, send_invalid_data, send_invalid_dest, send_invalid_header,
  send_invalid_memory, send_invalid_notify, send_invalid_reply, send_invalid_right,
  send_invalid_rt_ool_size, send_invalid_trailer, send_invalid_type, send_invalid_voucher,
  send_in_progress, send_msg_too_small, send_no_buffer, send_timed_out, send_too_large, unknown,
}

unfoldable pub channel_is_closed : MachError → Bool
channel_is_closed notify_no_senders = true
channel_is_closed _ = false

-- The kind in `From<MachError> for io::Error`.
unfoldable pub kind_of : MachError → ErrorKind
kind_of success = other
kind_of (kernel e) = other
kind_of ipc_space = other
kind_of vm_space = other
kind_of ipc_kernel = other
kind_of vm_kernel = other
kind_of send_in_progress = interrupted
kind_of send_invalid_data = invalid_data
kind_of send_invalid_dest = not_found
kind_of send_timed_out = timed_out
kind_of send_invalid_voucher = not_found
kind_of send_interrupted = interrupted
kind_of send_msg_too_small = invalid_data
kind_of send_invalid_reply = invalid_input
kind_of send_invalid_right = invalid_input
kind_of send_invalid_notify = invalid_input
kind_of send_invalid_memory = invalid_input
kind_of send_no_buffer = other
kind_of send_too_large = invalid_data
kind_of send_invalid_type = invalid_input
kind_of send_invalid_header = invalid_input
kind_of send_invalid_trailer = invalid_data
kind_of send_invalid_rt_ool_size = other
kind_of rcv_in_progress = interrupted
kind_of rcv_invalid_name = invalid_input
kind_of rcv_timed_out = timed_out
kind_of rcv_too_large = invalid_input
kind_of rcv_interrupted = interrupted
kind_of rcv_port_changed = other
kind_of rcv_invalid_notify = invalid_input
kind_of rcv_invalid_data = invalid_input
kind_of rcv_port_died = broken_pipe
kind_of rcv_in_set = other
kind_of rcv_header_error = other
kind_of rcv_body_error = other
kind_of rcv_invalid_type = invalid_input
kind_of rcv_scatter_small = invalid_input
kind_of rcv_invalid_trailer = invalid_input
kind_of rcv_in_progress_timed = interrupted
kind_of notify_no_senders = connection_reset
kind_of (unknown code) = other

unfoldable pub to_io_error : MachError → IoError
unfolding kind_of
to_io_error e = custom (kind_of e)

-- `From<MachError> for bincode::Error`
unfoldable pub to_bincode_error : MachError → BincodeError
unfolding to_io_error
to_bincode_error e = io (to_io_error e)

-- `From<MachError> for ipc::IpcError`
unfoldable pub to_ipc_error : MachError → IpcError
unfolding to_io_error
to_ipc_error notify_no_senders = disconnected
to_ipc_error e = io_error (to_io_error e)

-- `From<MachError> for ipc::TryRecvError`
unfoldable pub to_try_recv_error : MachError → TryRecvError
unfolding to_io_error
to_try_recv_error notify_no_senders = ipc_error disconnected
to_try_recv_error rcv_timed_out = empty
to_try_recv_error e = ipc_error (io_error (to_io_error e))

-- An error is reported as a disconnection, by either conversion, exactly if the channel is closed, and
-- as `Empty` exactly if the wait for a message timed out.
pub reported_iff :
    (e : MachError)
    → ((channel_is_closed e ≡ true) ↔ (to_ipc_error e ≡ disconnected))
      × ((channel_is_closed e ≡ true) ↔ (to_try_recv_error e ≡ ipc_error disconnected))
      × ((e ≡ rcv_timed_out) ↔ (to_try_recv_error e ≡ empty))
unfolding channel_is_closed to_ipc_error to_try_recv_error
reported_iff notify_no_senders =
    ((λ _. refl, λ _. refl), (λ _. refl, λ _. refl), (λ h. cc, λ h. cc))
reported_iff rcv_timed_out = ((λ h. cc, λ h. cc), (λ h. cc, λ h. cc), (λ _. refl, λ _. refl))
reported_iff success = ((λ h. cc, λ h. cc), (λ h. cc, λ h. cc), (λ h. cc, λ h. cc))
reported_iff (kernel e) = ((λ h. cc, λ h. cc), (λ h. cc, λ h. cc), (λ h. cc, λ h. cc))
reported_iff ipc_space = ((λ h. cc, λ h. cc), (λ h. cc, λ h. cc), (λ h. cc, λ h. cc))
reported_iff vm_space = ((λ h. cc, λ h. cc), (λ h. cc, λ h. cc), (λ h. cc, λ h. cc))
reported_iff ipc_kernel = ((λ h. cc, λ h. cc), (λ h. cc, λ h. cc), (λ h. cc, λ h. cc))
reported_iff vm_kernel = ((λ h. cc, λ h. cc), (λ h. cc, λ h. cc), (λ h. cc, λ h. cc))
reported_iff rcv_in_progress = ((λ h. cc, λ h. cc), (λ h. cc, λ h. cc), (λ h. cc, λ h. cc))
reported_iff rcv_invalid_name = ((λ h. cc, λ h. cc), (λ h. cc, λ h. cc), (λ h. cc, λ h. cc))
reported_iff rcv_too_large = ((λ h. cc, λ h. cc), (λ h. cc, λ h. cc), (λ h. cc, λ h. cc))
reported_iff rcv_interrupted = ((λ h. cc, λ h. cc), (λ h. cc, λ h. cc), (λ h. cc, λ h. cc))
reported_iff rcv_port_changed = ((λ h. cc, λ h. cc), (λ h. cc, λ h. cc), (λ h. cc, λ h. cc))
reported_iff rcv_invalid_notify = ((λ h. cc, λ h. cc), (λ h. cc, λ h. cc), (λ h. cc, λ h. cc))
reported_iff rcv_invalid_data = ((λ h. cc, λ h. cc), (λ h. cc, λ h. cc), (λ h. cc, λ h. cc))
reported_iff rcv_port_died = ((λ h. cc, λ h. cc), (λ h. cc, λ h. cc), (λ h. cc, λ h. cc))
reported_iff rcv_in_set = ((λ h. cc, λ h. cc), (λ h. cc, λ h. cc), (λ h. cc, λ h. cc))
reported_iff rcv_header_error = ((λ h. cc, λ h. cc), (λ h. cc, λ h. cc), (λ h. cc, λ h. cc))
reported_iff rcv_body_error = ((λ h. cc, λ h. cc), (λ h. cc, λ h. cc), (λ h. cc, λ h. cc))
reported_iff rcv_invalid_type = ((λ h. cc, λ h. cc), (λ h. cc, λ h. cc), (λ h. cc, λ h. cc))
reported_iff rcv_scatter_small = ((λ h. cc, λ h. cc), (λ h. cc, λ h. cc), (λ h. cc, λ h. cc))
reported_iff rcv_invalid_trailer = ((λ h. cc, λ h. cc), (λ h. cc, λ h. cc), (λ h. cc, λ h. cc))
reported_iff rcv_in_progress_timed = ((λ h. cc, λ h. cc), (λ h. cc, λ h. cc), (λ h. cc, λ h. cc))
reported_iff send_interrupted = ((λ h. cc, λ h. cc), (λ h. cc, λ h. cc), (λ h. cc, λ h. cc))
reported_iff send_invalid_data = ((λ h. cc, λ h. cc), (λ h. cc, λ h. cc), (λ h. cc, λ h. cc))
reported_iff send_invalid_dest = ((λ h. cc, λ h. cc), (λ h. cc, λ h. cc), (λ h. cc, λ h. cc))
reported_iff send_invalid_header = ((λ h. cc, λ h. cc), (λ h. cc, λ h. cc), (λ h. cc, λ h. cc))
reported_iff send_invalid_memory = ((λ h. cc, λ h. cc), (λ h. cc, λ h. cc), (λ h. cc, λ h. cc))
reported_iff send_invalid_notify = ((λ h. cc, λ h. cc), (λ h. cc, λ h. cc), (λ h. cc, λ h. cc))
reported_iff send_invalid_reply = ((λ h. cc, λ h. cc), (λ h. cc, λ h. cc), (λ h. cc, λ h. cc))
reported_iff send_invalid_right = ((λ h. cc, λ h. cc), (λ h. cc, λ h. cc), (λ h. cc, λ h. cc))
reported_iff send_invalid_rt_ool_size = ((λ h. cc, λ h. cc), (λ h. cc, λ h. cc), (λ h. cc, λ h. cc))
reported_iff send_invalid_trailer = ((λ h. cc, λ h. cc), (λ h. cc, λ h. cc), (λ h. cc, λ h. cc))
reported_iff send_invalid_type = ((λ h. cc, λ h. cc), (λ h. cc, λ h. cc), (λ h. cc, λ h. cc))
reported_iff send_invalid_voucher = ((λ h. cc, λ h. cc), (λ h. cc, λ h. cc), (λ h. cc, λ h. cc))
reported_iff send_in_progress = ((λ h. cc, λ h. cc), (λ h. cc, λ h. cc), (λ h. cc, λ h. cc))
reported_iff send_msg_too_small = ((λ h. cc, λ h. cc), (λ h. cc, λ h. cc), (λ h. cc, λ h. cc))
reported_iff send_no_buffer = ((λ h. cc, λ h. cc), (λ h. cc, λ h. cc), (λ h. cc, λ h. cc))
reported_iff send_timed_out = ((λ h. cc, λ h. cc), (λ h. cc, λ h. cc), (λ h. cc, λ h. cc))
reported_iff send_too_large = ((λ h. cc, λ h. cc), (λ h. cc, λ h. cc), (λ h. cc, λ h. cc))
reported_iff (unknown code) = ((λ h. cc, λ h. cc), (λ h. cc, λ h. cc), (λ h. cc, λ h. cc))
