-- ===== src/Unix/Kernel.antt =====
-- The operating system as src/platform/unix/mod.rs sees it: the constants of the C library, what
-- the system calls answer, and the errors that the module makes of the answers.
use ipc_channel.Base.{ℕ, ℤ, Bool, true, false, Option, ◌==◌}

pub data UnixError : Type 0 where
  errno : ℕ → UnixError
  channel_closed : UnixError

-- The answer to one `sendmsg` or `send`. `error` is what `errno` holds after the call.
pub record SendAnswer : Type 0 where
  -- Did `malloc` find room for the control buffer? Asked only if there are descriptors to send.
  pub allocates : Bool
  pub accepts : Bool
  pub error : ℕ

-- A socket pair, the end to send on first, or the error.
pub data PairAnswer : Type 0 where
  pair : ℤ → ℤ → PairAnswer
  no_pair : ℕ → PairAnswer

-- One process's kernel interface: constants of the C library and answers to system calls that the
-- code does not change by its own actions.
pub record Kernel : Type 0 where
  -- SYSTEM_SENDBUF_SIZE, what getsockopt(SO_SNDBUF) gives for a fresh socket.
  pub sendbuf_size : ℕ
  pub enobufs : ℕ
  pub eagain : ℕ
  pub ewouldblock : ℕ
  -- fstat: the file mode and the size, where it succeeds.
  pub st_mode : ℤ → Option ℕ
  pub st_size : ℤ → Option ℕ
  pub s_ifmt : ℕ
  pub s_ifsock : ℕ
  -- mmap of the descriptor at the length: the address; `none` is MAP_FAILED.
  pub mmap : ℤ → ℕ → Option ℕ

-- `error == UnixError::Errno(code)`
abbrev pub is_errno : UnixError → ℕ → Bool
is_errno (errno e) code = e == code
is_errno channel_closed code = false

-- `UnixError::channel_is_closed`
abbrev pub channel_is_closed : UnixError → Bool
channel_is_closed channel_closed = true
channel_is_closed (errno e) = false
