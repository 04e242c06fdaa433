-- ===== src/Errors.antt =====
-- The errors that the crate's interface gives, and those of the standard library and bincode that
-- they are made of (src/ipc.rs).
use ipc_channel.Base.{ℕ}

-- `io::ErrorKind`, as far as the crate names it.
pub data ErrorKind : Type 0 where
  connection_reset broken_pipe interrupted would_block : ErrorKind
  invalid_data invalid_input not_found timed_out other : ErrorKind

-- `io::Error`: of the operating system, by its number, or made by `io::Error::new`.
pub data IoError : Type 0 where
  os : ℕ → IoError
  custom : ErrorKind → IoError

-- `bincode::Error`: around an I/O error, or bincode's own, by a number.
pub data BincodeError : Type 0 where
  io : IoError → BincodeError
  codec : ℕ → BincodeError

pub data IpcError : Type 0 where
  bincode : BincodeError → IpcError
  io_error : IoError → IpcError
  disconnected : IpcError

pub data TryRecvError : Type 0 where
  ipc_error : IpcError → TryRecvError
  empty : TryRecvError
