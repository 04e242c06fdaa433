-- ===== src/Windows/Errors.antt =====
-- The errors of src/platform/windows/mod.rs as the interface's errors: the `From` implementations of
-- `WinError`.
use ipc_channel.Errors.{
  IoError, BincodeError, IpcError, TryRecvError, would_block, os, custom, io, io_error,
  disconnected, ipc_error, empty,
}
use ipc_channel.Windows.System.{WinError, System, windows_result, channel_closed, no_data}

-- `From<WinError> for io::Error`; `as i32` keeps the number, as the errors of winapi are small.
unfoldable pub to_io_error : System → WinError → IoError
to_io_error w channel_closed = os w.error_broken_pipe
to_io_error w no_data = custom would_block
to_io_error w (windows_result e) = os e

-- `From<WinError> for bincode::Error`
unfoldable pub to_bincode_error : System → WinError → BincodeError
unfolding to_io_error
to_bincode_error w e = io (to_io_error w e)

-- `From<WinError> for ipc::TryRecvError`
unfoldable pub to_try_recv_error : System → WinError → TryRecvError
unfolding to_io_error
to_try_recv_error w channel_closed = ipc_error disconnected
to_try_recv_error w no_data = empty
to_try_recv_error w (windows_result e) = ipc_error (io_error (to_io_error w (windows_result e)))

-- `From<WinError> for ipc::IpcError`
unfoldable pub to_ipc_error : System → WinError → IpcError
unfolding to_io_error
to_ipc_error w channel_closed = disconnected
to_ipc_error w no_data = io_error (to_io_error w no_data)
to_ipc_error w (windows_result e) = io_error (to_io_error w (windows_result e))
